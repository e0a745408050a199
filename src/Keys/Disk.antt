-- ===== src/Keys/Disk.antt =====
-- The disk behind a key ring (crates/pic-x-std/src/keys.rs): the ring file, the private halves, and
-- the calls that read and write them. The `ring` crate (key generation, signatures, SHA-256) is a
-- parameter, and the ring file is kept as its parsed content. Each call of the file system takes
-- its outcome from a list that the environment has chosen.
pub mod Post
use pic_x.Base.{
  ℕ, suc, Text, codes, Option, none, some, List, [], ◌∷◌, true, false, Bool, not, if◌then◌else◌,
  text_eq, retain, Result, ok, err, Exec, pure, lift, gets, modify, ◌>>=◌, ◌>>◌,
}
use pic_x.Keys.{RingAlgorithm, Entry, Ring, active, published}
use pic_x.Keys.Encoding.{Bytes, base64url, pem}
use pic_x.Keys.Published.{canonical}

-- The kinds of `KeyError`; `stuck` stands for a loop that has not ended in the rounds given to it.
pub data KeyError : Type 0 where
  backend not_ready unavailable stuck : KeyError

-- What the manager calls of the `ring` crate. Generation and signing take a number that stands for
-- the random source's state.
pub record RingCrate : Type 1 where
  pub SigningPair : Type 0
  pub generate_pkcs8 : RingAlgorithm → ℕ → Option Bytes
  pub from_pkcs8 : RingAlgorithm → Bytes → Option SigningPair
  pub kind : SigningPair → RingAlgorithm
  pub public_key : SigningPair → Bytes
  pub sign_with : SigningPair → ℕ → Bytes → Option Bytes
  pub sha256 : Bytes → Bytes

-- The ring file: none yet, one that does not parse, or a ring.
pub data RingFile : Type 0 where
  missing garbled : RingFile
  holds : Ring → RingFile

module _ (crate : RingCrate) where
  open crate use {SigningPair, sha256}

  -- The disk, the cache of parsed keys, the random source, and what the file system will answer: a
  -- call fails on `false`.
  pub record World : Type 0 where
    pub ring_file : RingFile
    pub files : List (Text × Text)
    pub signers : List (Text × SigningPair)
    pub random : ℕ
    pub outcomes : List Bool

  abbrev pub Io : Type 0 → Type 0
  Io A = Exec KeyError World A

  -- `thumbprint`: the name of a key is the digest of its public half.
  unfoldable pub thumbprint : RingAlgorithm → Text → Text
  thumbprint algorithm public_key = base64url (sha256 (canonical algorithm public_key))

  -- The entry that describes a key made now.
  abbrev pub new_entry : RingAlgorithm → ℕ → Bool → Text → Entry
  new_entry algorithm now signing key = record {
    kid = thumbprint algorithm key;
    state = if signing then active else published;
    algorithm = algorithm;
    public_key = key;
    created_at = now;
    activated_at = if signing then some now else none;
    retired_at = none;
  }

abbrev pub or_fail : {A : Type 0} → KeyError → Option A → Result KeyError A
or_fail e none = err e
or_fail e (some a) = ok a

abbrev pub ring_of : RingFile → Result KeyError Ring
ring_of missing = ok (record { version = 0; keys = [] })
ring_of garbled = err backend
ring_of (holds r) = ok r

abbrev without_key : {A : Type 0} → Text → List (Text × A) → List (Text × A)
without_key kid l = retain (λ p. not (text_eq p.0 kid)) l

module _ {crate : RingCrate} where
  open crate use {generate_pkcs8, from_pkcs8, public_key}

  abbrev pub answer : KeyError → List Bool → Io crate (Unit {0})
  answer e [] w = (ok tt, w)
  answer e (true ∷ rest) w = (ok tt, record w { outcomes = rest })
  answer e (false ∷ rest) w = (err e, record w { outcomes = rest })

  -- One call of the file system, which fails with `e` if the next outcome says so.
  unfoldable pub io : KeyError → Io crate (Unit {0})
  io e w = answer e w.outcomes w

  -- An absent file is an empty ring.
  unfoldable pub read_ring : Io crate Ring
  read_ring = do io unavailable; file ← gets (λ w. w.ring_file); lift (ring_of file)

  -- The staged file is written, then renamed over the old one.
  unfoldable pub write_ring : Ring → Io crate (Unit {0})
  write_ring r = do io backend; io backend; modify (λ w. record w { ring_file = holds r })

  abbrev pub draw : Io crate ℕ
  draw w = (ok w.random, record w { random = suc w.random })

  abbrev pub put_file : Text → Text → World crate → World crate
  put_file kid text w = record w { files = (kid, text) ∷ w.files }

  -- A key is generated, its private half written, and the file narrowed.
  unfoldable pub generate_key : RingAlgorithm → ℕ → Bool → Io crate Entry
  generate_key algorithm now signing = do
    seed ← draw
    pkcs8 ← lift (or_fail backend (generate_pkcs8 algorithm seed))
    pair ← lift (or_fail backend (from_pkcs8 algorithm pkcs8))
    let entry = new_entry crate algorithm now signing (base64url (public_key pair))
    io backend
    modify (put_file entry.kid (pem (codes "PRIVATE KEY") pkcs8))
    io backend
    pure entry

  -- The directory comes first, and is narrowed.
  unfoldable pub create : RingAlgorithm → ℕ → Bool → Io crate Entry
  create algorithm now signing = do io backend; io backend; generate_key algorithm now signing

  -- The cached signer goes, then the file; a file that is not there is what was wanted.
  unfoldable pub forget : Text → Io crate (Unit {0})
  forget kid = do
    modify (λ w. record w { signers = without_key kid w.signers })
    io backend
    modify (λ w. record w { files = without_key kid w.files })

  unfoldable pub forget_all : List Text → Io crate (Unit {0})
  forget_all [] = pure tt
  forget_all (kid ∷ rest) = forget kid >> forget_all rest
