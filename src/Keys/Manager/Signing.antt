-- ===== src/Keys/Manager/Signing.antt =====
-- After a pass that returned, a key is there to sign with.
use pic_x.Base.{
  ℕ, ◌≡◌, refl, inl, inr, some, List, [], ◌∷◌, true, arith, count_if, find, In, here, there, ok,
  Bool-cases, subst,
}
use pic_x.Keys.{Ring, Entry, Maintenance}
use pic_x.Keys.Rotation.{is_active}
use pic_x.Keys.Disk.{RingCrate, World, io, read_ring, ring_of}
use pic_x.Keys.Disk.Post.{CollisionFree}
use pic_x.Keys.Manager.{Manager, maintain, active_key_id}
use pic_x.Keys.Manager.Maintained.{IsWellFormed, Maintained, Outcome, maintain-Outcome}

find_active :
    (keys : List Entry)
    → count_if is_active keys ≡ 1
    → (e : Entry) × In e keys × (is_active e ≡ true) × (find is_active keys ≡ some e)
unfolding find count_if
find_active [] h = absurd (omega arith)
find_active (x ∷ xs) h = elim (Bool-cases (is_active x)) [
  | inl a ↦ (x, here, a, rw a refl)
  | inr n ↦ let (e, m, a, f) = find_active xs (ground arith) in (e, there m, a, rw n f)
]

-- Let keys made at different numbers have different names, and let maintain have returned on a ring
-- whose key names differ, of which no key made later takes a name, and in which at most one key is
-- active. While the file system answers, the ring file then holds a ring with an active key, and
-- active_key_id answers with the name of that key.
pub active_key_id-maintain :
    {crate : RingCrate} (m : Manager) (now : ℕ) (w w' : World crate) (r : Ring)
    (report : Maintenance)
    → CollisionFree crate
    → ring_of w.ring_file ≡ ok r
    → IsWellFormed w r
    → maintain m now w ≡ (ok report, w')
    → w'.outcomes ≡ []
    → (r' : Ring) × (e : Entry) × (ring_of w'.ring_file ≡ ok r')
      × In e r'.keys
      × (is_active e ≡ true)
      × ((active_key_id w').0 ≡ ok e.kid)
unfolding active_key_id read_ring io
active_key_id-maintain {crate} m now w w' r report free h v returned answers =
    let d : Maintained m.policy now r w' =
      subst (Outcome m.policy now r w.ring_file) returned (maintain-Outcome m now w r h free v) in
    let (e, n, a, f) = find_active d.ring.keys d.one_active in
    (d.ring, e, d.on_disk, n, a, rw answers (rw d.on_disk (rw f refl)))
