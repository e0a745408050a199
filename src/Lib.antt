-- ===== src/Lib.antt =====
-- pic-x: a server that issues and verifies provenance credentials. It keeps a ring of signing keys,
-- publishes their public halves, and admits workloads on executor-profile evidence.
--
-- Base holds what every part shares: tests into Bool, lists, texts as lists of code points, chains of
-- results, the monad of code that changes a world and may fail, and integers over native numbers.
-- Json is the part of serde_json's values that the code reads.
--
-- Keys is the key ring, crates/pic-x-core/src/keys.rs and crates/pic-x-std/src/keys.rs.
--   Keys/Encoding: crates/pic-x-std/src/keys/encoding.rs (encode, decode_with, pem, from_pem).
--   Keys/Published: the Jwk of an entry (to_jwk), and the text that thumbprint hashes.
--   Keys/Disk: the ring file and the private halves (read_ring, write_ring, create, forget). A World
--     holds them with the cache of signers and the random source's number. Each file-system call takes
--     its outcome from a list in the world, so every interleaving of failures is an argument.
--   Keys/Rotation: the steps of maintain over the entries in memory. Its loop runs on rounds: one for
--     each published key and one to see that none is due, which is enough on names that differ.
--   Keys/Manager: DirectoryKeyManager, whose maintain, sign, signer, active_key_id and public_keys are
--     composed of these as the code composes them.
--   Keys/Lifecycle: the abstract life of a key as a step relation, against which maintain is proved.
--
-- Realm is crates/pic-x-realm.
--   Realm/Conformance: src/conformance.rs, disclosed claims against an execution contract.
--   Realm/AttesterKeys: src/attester_keys.rs, the cache of the attesters' key sets.
--   Realm/Der: the DER form of an RSA key, of src/por.rs.
--   Realm/Profile: src/por.rs, the SD-JWT presentation, its issuer's signature, its disclosures, and
--     the cell that remembers what was accepted.
--   Realm/Checkpoints: src/checkpoints.rs, the checkpoints that a realm takes as its own.
--   Realm/Exchange: src/exchange.rs, with the profiles of crates/pic-x-core/src/realm.rs. Endpoint is
--     TokenEndpoint, whose World holds the clock, the random source and the audit trail; Source is what is
--     asked of a source token, Mapping the authority it maps to, Expiry the first expiry, and Preflight
--     the checks of a candidate. The audit sink answers from a list of outcomes, of which one is a record
--     that stays in the trail though it is answered as failed (Audit/Trail/Sink). Shown says apart from
--     the code what a source token has to show. It uses the evidence of Realm/Profile and the events of
--     Audit/Event.
--
-- Config is crates/pic-x-core/src/config.rs, with the TLS material of src/tls.rs.
--   Config/Parse: the parsers of settings, and the choices of src/{logging,secrets,audit,tls}.rs.
--   Config/Layer, Groups, Material, Apply: apply_pairs, group by group of the fields, tls_of, and
--     from_layers. Where the code has set fields before a failure, no configuration comes back.
--   Config/Layered: what three layers come to.
--   Config/Resolve: resolve_realm and with_realms; Config/Realm: the realms of src/realm.rs.
--   Config/Validate: validate and what it calls, with what it establishes for keys (Overlap), names
--     (Unique), administration (Guarded, with Admin) and source tokens (Relied, with Realm/Exchange).
-- Deployment: the registry of realms of src/realm.rs, build_realm of src/main.rs, which gives a realm its
--   key rings (Keys), trail and pseudonyms, and realms_for of crates/pic-x-server/src/app.rs.
-- Host: crates/pic-x-server/src/host.rs, the run of a server over the Health of
--   crates/pic-x-core/src/server.rs. What is called stands in a list, in order; the answers are given.
--
-- Limits: crates/pic-x-core/src/limits.rs, the bounds of a surface and the blocks of exempt addresses.
-- Peer: crates/pic-x-core/src/peer.rs, the identity of a peer and the list of peers that are answered.
-- Admin: crates/pic-x-admin/src/authorization.rs, who may administer and what is recorded first; it uses
--   the list of Peer.
-- Audit is what is recorded, and where.
--   Audit/Civil: crates/pic-x-std/src/audit/civil.rs, days, dates and timestamps. Its i64 is an integer
--     without bounds, which agrees with the code for the timestamps that a clock gives. Eras and Dated
--     follow its arithmetic through the 400 years that the calendar repeats after; Calendar says apart
--     from it how long the Gregorian months are.
--   Audit/Event: crates/pic-x-core/src/audit.rs (AuditEvent, Subject) and the masks of src/redact.rs.
--   Audit/Trail: crates/pic-x-std/src/audit/file.rs. A Directory is the content of the files by day, a
--     line being what parsing makes of it. Sink is FileAuditSink with its file system (record_event is
--     its record, with append the write under the lock), and Verify is verify, whose loop over the
--     lines keeps its variables in a Walk. Chain says apart from both what a trail is.
--
-- Transport/Guard: crates/pic-x-transport/src/guard.rs, the bounds on the sockets of a surface. accept is
--   LimitedAcceptor's, drop_guarded is what dropping a Guarded does, and a Step of Guard/Counting is a
--   connection that comes, is refused or ends, in any order; it uses the limits of Limits.
--
-- Parameters: the ring crate (RingCrate: key generation, signatures, SHA-256); for Realm/Profile and
-- Realm/AttesterKeys what other crates do (Crates: base64url, SHA-256, JSON, UTF-8, verification of
-- signatures; and the fetch); for Realm/Exchange the pic crate (PicCrate), regular expressions and the
-- answers of the key caches; the reading of an address for Limits; the recorder and the handler for
-- Admin; the upper case of a text, whether a path names a file and a trail can be prepared, and the
-- answers of a secret store for Config and Deployment; the answers of services, store and sinks for Host.
-- That keys made at different times have different names (CollisionFree) is a hypothesis about
-- the first. The digest of a record is a parameter of Audit/Trail, of which one theorem supposes that
-- the bodies concerned have different digests. Numbers of seconds are unbounded but for saturating
-- additions, which stop at the largest u64, and for the expiries of an exchange, which are refused
-- beyond i64.
--
-- Not modelled: file permissions, the JSON text of the ring file, sockets and TLS themselves,
-- the YAML text of a configuration, the identity provider's key cache, and the other parts of the server. A write to a
-- trail either leaves its whole line or none of it; a poisoned lock is left out.
pub mod Admin
pub mod Audit
pub mod Base
pub mod Config
pub mod Deployment
pub mod Host
pub mod Json
pub mod Keys
pub mod Limits
pub mod Peer
pub mod Realm
pub mod Transport
