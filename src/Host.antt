-- ===== src/Host.antt =====
-- The host that runs a server from its start to its release (crates/pic-x-server/src/host.rs), over the
-- readiness that probes see (crates/pic-x-core/src/server.rs). What services, the store, the trails and the
-- audit sink answer is a parameter, and so is when the budget of a shutdown runs out.
pub mod Visible
pub mod Released
mod Tests
use pic_x.Base.{
  Text, codes, Option, none, some, List, [], ◌∷◌, ◌++◌, Bool, true, false, Result, ok, err, Exec,
  pure, raise, modify, ◌>>=◌, ◌>>◌,
}
use pic_x.Base.Fallible.{ensure}

-- What the host does, in the order in which it does it.
pub data HostEvent : Type 0 where
  recorded : Text → Text → HostEvent
  put_last_start awaited_shutdown : HostEvent
  started stopped : Text → HostEvent
  made_ready : Bool → HostEvent
  released_store : HostEvent
  released_trail : Text → HostEvent
  released_sink : HostEvent

-- Readiness and liveness.
pub record Health : Type 0 where
  pub live : Bool
  pub ready : Bool

-- `Health::new`
abbrev pub health : Health
health = record { live = true; ready = false }

pub record Host : Type 0 where
  pub health : Health
  pub done : List HostEvent

-- An answer within the budget says whether the call went well; no answer, that the budget ran out.
abbrev pub Within : Type 0
Within = Option Bool

pub record Answers : Type 0 where
  pub name : Text
  pub services : List Text
  pub realms : List Text
  pub records : Text → Text → Bool
  pub puts : Bool
  pub starts : Text → Bool
  pub stops : Text → Within
  pub store : Within
  pub store_name : Text
  pub trail : Text → Within
  pub sink : Within
  pub sink_name : Text

-- Which step failed, or what was left to release.
pub data HostError : Type 0 where
  not_recorded : Text → Text → HostError
  not_put : HostError
  not_started : Text → HostError
  ran_out : List Text → HostError

abbrev pub Hosting : Type 0 → Type 0
Hosting A = Exec HostError Host A

abbrev pub logged : HostEvent → Host → Host
logged event h = record h { done = h.done ++ event ∷ [] }

-- A call that is made whatever it answers, and one whose failure ends the run.
abbrev pub asks : Within → HostEvent → Hosting Within
asks answer event h = (ok answer, logged event h)

abbrev pub attempts : Bool → HostError → HostEvent → Hosting (Unit {0})
attempts answer e event h = (ensure answer e, logged event h)

-- `Health::set_ready`
abbrev pub set_ready : Bool → Hosting (Unit {0})
set_ready ready h = (
  ok tt,
  record h { health = record h.health { ready = ready }; done = h.done ++ made_ready ready ∷ [] },
)

module _ (a : Answers) where
  abbrev pub record_audit : Text → Text → Hosting (Unit {0})
  record_audit action component =
      attempts (a.records action component) (not_recorded action component)
        (recorded action component)

  unfoldable pub start_services : List Text → Hosting (Unit {0})
  start_services [] = pure tt
  start_services (s ∷ rest) = do
    attempts (a.starts s) (not_started s) (started s)
    record_audit (codes "service.start") s
    start_services rest

  -- A record that could not be written is warned of, and no more.
  abbrev pub after_stop : Text → Within → Hosting (List Text)
  after_stop s (some true) h = (ok [], logged (recorded (codes "service.stop") s) h)
  after_stop s (some false) h = (ok (s ∷ []), h)
  after_stop s none h = (ok (s ∷ []), h)

  -- Services stop in the reverse of the order that they are listed in.
  unfoldable pub stop_services : List Text → Hosting (List Text)
  stop_services [] = pure []
  stop_services (s ∷ rest) = do
    later ← stop_services rest
    outcome ← asks (a.stops s) (stopped s)
    mine ← after_stop s outcome
    pure (later ++ mine)

  abbrev pub left : Text → Within → List Text
  left name (some true) = []
  left name (some false) = name ∷ []
  left name none = name ∷ []

  unfoldable pub release_trails : List Text → Hosting (List Text)
  release_trails [] = pure []
  release_trails (r ∷ rest) = do
    outcome ← asks (a.trail r) (released_trail r)
    others ← release_trails rest
    pure (left (codes "realm " ++ r) outcome ++ others)

  unfoldable pub start_up : Hosting (Unit {0})
  start_up = do
    record_audit (codes "server.start") a.name
    attempts a.puts not_put put_last_start
    start_services a.services

  abbrev pub conclude : List Text → Hosting (Unit {0})
  conclude [] = pure tt
  conclude (u ∷ us) = raise (ran_out (u ∷ us))

  -- The trails of the realms, then the audit sink, behind the last record.
  unfoldable pub release_audit : List Text → Hosting (Unit {0})
  release_audit unfinished = do
    trails ← release_trails a.realms
    sink ← asks a.sink released_sink
    conclude (unfinished ++ trails ++ left a.sink_name sink)

  unfoldable pub serve_and_stop : Hosting (List Text)
  serve_and_stop = do
    set_ready true
    modify (logged awaited_shutdown)
    set_ready false
    unfinished ← stop_services a.services
    store ← asks a.store released_store
    pure (unfinished ++ left a.store_name store)

  unfoldable pub run : Hosting (Unit {0})
  run = do
    start_up
    unfinished ← serve_and_stop
    record_audit (codes "server.stop") a.name
    release_audit unfinished
