-- ===== src/Daemon/Once.antt =====
-- src/daemon.rs: an operation that a client sends again under the same id.
use mobfs.Base.{◌≡◌, refl, ap, ◌∙◌, subst, inl, inr, true, some, filter, Bool-cases}
use mobfs.Base.Str.{Str, codes}
use mobfs.Error.{Result, ok, err}
use mobfs.Paths.{FilePath}
use mobfs.Protocol.{Bytes, Response}
use mobfs.Disk.{Io, Disk, and_then, ◌>>=◌}
use mobfs.Daemon.{
  RootPolicy, check, is_hexdigit, mark_op_done, once, op_done, op_marker_dir, op_marker_path,
  parent, prepare_marks, push_name, run_once,
}

-- A file is there once it was written.
abbrev pub ExistsWhenCreated : {D : Type 0} → Disk D → Type 0
ExistsWhenCreated {D} disk =
    (path : FilePath) (bytes : Bytes) (d : D)
    → (disk.create path bytes d).0 ≡ ok tt
    → disk.exists path (disk.create path bytes d).1 ≡ true

module _ {D : Type 0} (disk : Disk D) (policy : RootPolicy) (root : Str) (op_id : Str)
    (r : FilePath) (steady : (d : D) → check disk policy root d ≡ ok r)
    (created : ExistsWhenCreated disk) where
  marker : FilePath
  marker = push_name disk (op_marker_dir disk r) (filter is_hexdigit op_id)

  once_lem :
      (m : Io D Response) (d : D)
      → once disk policy root (some op_id) m d
        ≡ run_once disk policy root op_id m (disk.exists marker d) d
  unfolding once op_done op_marker_path marker
  once_lem m d = rw (steady d)

  created_marker :
      (p : Result Unit × D) {d' : D}
      → and_then (λ _. disk.create marker (codes "done")) p ≡ (ok tt, d')
      → disk.exists marker d' ≡ true
  created_marker (ok u, d) {d'} h =
      subst (λ x. disk.exists marker x ≡ true) (ap (λ (q : Result Unit × D). q.1) h)
        (created marker (codes "done") d (ap (λ (q : Result Unit × D). q.0) h))
  created_marker (err e, d) {d'} h =
      let wrong : err e ≡ ok tt = ap (λ (q : Result Unit × D). q.0) h in absurd (cc)

  marked :
      (d : D) {d' : D}
      → mark_op_done disk policy root op_id d ≡ (ok tt, d')
      → disk.exists marker d' ≡ true
  unfolding mark_op_done op_marker_path marker
  marked d {d'} h = created_marker (prepare_marks disk (parent marker) d) (rw (steady d) at h)

  ran_once :
      (p : Result Response × D) {value : Response} {d' : D}
      → and_then (λ v. mark_op_done disk policy root op_id >>= λ _. λ x. (ok v, x)) p
        ≡ (ok value, d')
      → disk.exists marker d' ≡ true
  ran_once (ok v, d) {value} {d'} h = marked_then (mark_op_done disk policy root op_id d) refl h
    where
      marked_then :
          (q : Result Unit × D)
          → mark_op_done disk policy root op_id d ≡ q
          → and_then (λ _ x. (ok v, x)) q ≡ (ok value, d')
          → disk.exists marker d' ≡ true
      marked_then (ok u, x) e k =
          subst (λ y. disk.exists marker y ≡ true) (ap (λ (q : Result Response × D). q.1) k)
            (marked d e)
      marked_then (err f, x) e k =
          let wrong : err f ≡ ok value = ap (λ (q : Result Response × D). q.0) k in absurd (cc)
  ran_once (err e, d) {value} {d'} h =
      let wrong : err e ≡ ok value = ap (λ (q : Result Response × D). q.0) h in absurd (cc)

  -- When an operation with an id has been answered with success, the same id sent again at once is
  -- answered with success and does nothing, whatever the request then asks for; given that the root resolves
  -- to the same allowed directory throughout and that a file that was created exists.
  pub once_again :
      (m again : Io D Response) (d : D) {value : Response} {d' : D}
      → once disk policy root (some op_id) m d ≡ (ok value, d')
      → once disk policy root (some op_id) again d' ≡ (ok Response.ok, d')
  once_again m again d {value} {d'} h = once_lem again d' ∙ rw there
    where
      there : disk.exists marker d' ≡ true
      there = elim (Bool-cases (disk.exists marker d)) [
        | inl e ↦
            subst (λ x. disk.exists marker x ≡ true)
              (ap (λ (q : Result Response × D). q.1) (rw (once_lem m d, e) at h)) e
        | inr e ↦ ran_once (m d) (rw (once_lem m d, e) at h)
      ]
