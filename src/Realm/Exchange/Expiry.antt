-- ===== src/Realm/Exchange/Expiry.antt =====
-- When the first token of a lineage expires (initial_expiry, crates/pic-x-realm/src/exchange.rs).
pub mod Future
use pic_x.Base.{
  ℕ, suc, ◌+◌, ◌-◌, ◌*◌, ◌^◌, ◌%◌, ◌≤◌, ◌<◌, ◌≡◌, refl, Text, codes, Option, none, some, Bool, true,
  false, not, ◌&&◌, if◌then◌else◌, ltb, leb, inl, inr, Bool-cases, Option-cases, arith, Result, ok,
  err,
}
use pic_x.Base.Fallible.{◌>>=◌, ◌>>◌, ensure, ok_or, through}
use pic_x.Base.Int.{ℤ, pos, negsuc, pos_part, neg_part, ◌+ℤ◌, ◌-ℤ◌, ◌≤ℤ◌, ltb_ℤ, int_laws}
use pic_x.Keys.{Duration}
use pic_x.Json.{Value, as_i64, get}
use pic_x.Realm.Profile.{Bytes, Crates}
use pic_x.Realm.Exchange.{ExchangeError, invalid_request, invalid_grant}

abbrev pub max_requested_lifetime : ℤ
max_requested_lifetime = pos (365 * 24 * 3600)

pub data TokenInitialExpiryPolicy : Type 0 where
  later pic oauth : TokenInitialExpiryPolicy

abbrev pub is_i64 : ℤ → Bool
is_i64 a = leb (suc (pos_part a)) (2 ^ 63) && leb (neg_part a) (2 ^ 63)

-- `a.checked_add(b)` in i64, and `n as i64` of a u64.
unfoldable pub checked_add : ℤ → ℤ → Option ℤ
checked_add a b = if is_i64 (a +ℤ b) then some (a +ℤ b) else none

abbrev pub as_signed : ℕ → ℤ
as_signed n = if ltb n (2 ^ 63) then pos n else negsuc (2 ^ 64 - n - 1)

abbrev pub max_ℤ : ℤ → ℤ → ℤ
max_ℤ a b = if ltb_ℤ a b then b else a

abbrev pub by_policy : TokenInitialExpiryPolicy → Option ℤ → ℤ → ℤ
by_policy policy none default_expiry = default_expiry
by_policy later (some source_expiry) default_expiry = max_ℤ source_expiry default_expiry
by_policy pic (some source_expiry) default_expiry = default_expiry
by_policy oauth (some source_expiry) default_expiry = source_expiry

abbrev pub above : ℤ → Option ℤ → Option ℤ
above bound none = none
above bound (some n) = if ltb_ℤ bound n then some n else none

abbrev pub integer_of : Value → Option ℤ
integer_of v = as_i64 v

-- `tokenExpiresAt`, and `tokenLifetimeSeconds`.
unfoldable pub expires_at_of : ℤ → Value → Result ExchangeError (Option ℤ)
expires_at_of now value = do
  expires_at ← ok_or (above now (integer_of value)) invalid_request
  ensure (not (ltb_ℤ max_requested_lifetime (expires_at -ℤ now))) invalid_request
  ok (some expires_at)

unfoldable pub lifetime_of : ℤ → Value → Result ExchangeError (Option ℤ)
lifetime_of now value = do
  seconds ← ok_or (above (pos 0) (integer_of value)) invalid_request
  ensure (not (ltb_ℤ max_requested_lifetime seconds)) invalid_request
  expires_at ← ok_or (checked_add now seconds) invalid_request
  ok (some expires_at)

abbrev pub requested : ℤ → Option Value → Option Value → Result ExchangeError (Option ℤ)
requested now (some value) lifetime = expires_at_of now value
requested now none (some value) = lifetime_of now value
requested now none none = ok none

abbrev pub realm_expiry :
    Option ℤ → ℤ → Duration → TokenInitialExpiryPolicy → Result ExchangeError ℤ
realm_expiry source_expiry now default_lifetime policy = do
  default_expiry ← ok_or (checked_add now (as_signed default_lifetime.secs)) invalid_request
  ensure (ltb_ℤ now (by_policy policy source_expiry default_expiry)) invalid_grant
  ok (by_policy policy source_expiry default_expiry)

abbrev pub chosen :
    Option ℤ → ℤ → Duration → TokenInitialExpiryPolicy → Option ℤ → Result ExchangeError ℤ
chosen source_expiry now default_lifetime policy (some expiry) = ok expiry
chosen source_expiry now default_lifetime policy none =
    realm_expiry source_expiry now default_lifetime policy

module _ (crates : Crates) where
  open crates use {b64url_decode, from_json}

  unfoldable pub proposal_expiry : Text → ℤ → Result ExchangeError (Option ℤ)
  proposal_expiry encoded now = do
    bytes ← ok_or (b64url_decode encoded) invalid_request
    document ← ok_or (from_json bytes) invalid_request
    requested now (get document (codes "tokenExpiresAt"))
        (get document (codes "tokenLifetimeSeconds"))

  unfoldable pub initial_expiry :
      Text → Option ℤ → ℤ → Duration → TokenInitialExpiryPolicy → Result ExchangeError ℤ
  initial_expiry encoded source_expiry now default_lifetime policy = do
    proposed ← proposal_expiry encoded now
    chosen source_expiry now default_lifetime policy proposed
