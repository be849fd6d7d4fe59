-- ===== src/Storage/Copy.antt =====
-- What a copy of the folder backend of src/storage.rs leaves at its target.
use mobfs.Base.{
  ℕ, ◌≡◌, ◌≢◌, ◌⊎◌, refl, sym, ◌∙◌, Option, none, some, List, ◌++◌, ◌==◌, Bool-cases, inl, inr,
}
use mobfs.Base.Str.{Str}
use mobfs.Error.{Done, Result, ok, err, MobfsError}
use mobfs.Disk.{Io, Disk, and_then, ◌>>=◌, Metadata, is_file}
use mobfs.Protocol.{Bytes}
use mobfs.Paths.{FilePath, components, safe_join}
use mobfs.Daemon.{atomic_temp_path, parent}
use mobfs.Daemon.Requests.{make_parent, make_dir, set_mode}
use mobfs.Storage.{copy_file_atomic, upload_file}

-- the parts of two steps that have succeeded together
pub >>=-eq-ok :
    {D A B : Type 0} (m : Io D A) (f : A → Io D B) (d : D) {b : B}
    → ((m >>= f) d).0 ≡ ok b
    → (a : A) × ((m d).0 ≡ ok a) × ((f a (m d).1).0 ≡ ok b) × ((m >>= f) d ≡ f a (m d).1)
>>=-eq-ok {D} {A} {B} m f d {b} h = after (m d) h
  where
    after :
        (p : Result A × D)
        → (and_then f p).0 ≡ ok b
        → (a : A) × (p.0 ≡ ok a) × ((f a p.1).0 ≡ ok b) × (and_then f p ≡ f a p.1)
    after (ok a, t) e = (a, refl, e, refl)
    after (err x, t) e = cc

module _ {D : Type 0} (disk : Disk D) (contents : D → FilePath → Option Bytes) where
  -- What the calls of the standard library do to what files hold. A file that is created may be left
  -- with any bytes when the call fails. Making a directory and setting a mode change no file.
  pub record FileLaws : Type 0 where
    pub read_finds :
        (p : FilePath) (d : D) (b : Bytes) → (disk.read p d).0 ≡ ok b → contents d p ≡ some b
    pub read_keeps : (p q : FilePath) (d : D) → contents (disk.read p d).1 q ≡ contents d q
    pub create_puts :
        (p : FilePath) (b : Bytes) (d : D)
        → (disk.create p b d).0 ≡ ok tt
        → contents (disk.create p b d).1 p ≡ some b
    pub create_keeps :
        (p q : FilePath) (b : Bytes) (d : D)
        → p ≢ q
        → contents (disk.create p b d).1 q ≡ contents d q
    pub rename_moves :
        (p q : FilePath) (d : D)
        → (disk.rename p q d).0 ≡ ok tt
        → contents (disk.rename p q d).1 q ≡ contents d p
    pub rename_fails :
        (p q : FilePath) (d : D) (e : MobfsError)
        → (disk.rename p q d).0 ≡ err e
        → contents (disk.rename p q d).1 q ≡ contents d q
    pub rename_keeps :
        (p q other : FilePath) (d : D)
        → p ≢ other
        → q ≢ other
        → contents (disk.rename p q d).1 other ≡ contents d other
    pub mkdir_keeps :
        (p q : FilePath) (d : D) → contents (disk.create_dir_all p d).1 q ≡ contents d q
    pub mode_keeps :
        (p q : FilePath) (mode : ℕ) (d : D) → contents (disk.set_mode p mode d).1 q ≡ contents d q

  -- The target holds what the source held, or the step has failed and the target is as it was; the
  -- other path is as it was in any case.
  unfoldable pub Placed : FilePath → FilePath → FilePath → D → Done × D → Type 0
  Placed src dst other d (r, t) =
      ((contents t dst ≡ contents d src)
        ⊎ ((e : MobfsError) × (r ≡ err e) × (contents t dst ≡ contents d dst)))
      × (contents t other ≡ contents d other)

  module _ (laws : FileLaws) where
    make_parent_keeps :
        (p q : FilePath) (d : D) → contents (make_parent disk p d).1 q ≡ contents d q
    make_parent_keeps p q d = made (parent p)
      where
        made : (o : Option FilePath) → contents (make_dir disk o d).1 q ≡ contents d q
        made none = refl
        made (some front) = laws.mkdir_keeps front q d

    after_step :
        {A : Type 0} (src dst other : FilePath) (d : D) (f : A → Io D Unit) (p : Result A × D)
        → ((e : MobfsError) → p.0 ≡ err e → contents p.1 dst ≡ contents d dst)
        → contents p.1 other ≡ contents d other
        → ((a : A) → p.0 ≡ ok a → Placed src dst other d (f a p.1))
        → Placed src dst other d (and_then f p)
    unfolding Placed
    after_step src dst other d f (ok a, t) kept kept_other next = next a refl
    after_step src dst other d f (err e, t) kept kept_other next =
        (inr (e, refl, kept e refl), kept_other)

    copy_file_atomic_lem :
        (src dst other : FilePath) (d : D)
        → atomic_temp_path disk dst ≢ dst
        → atomic_temp_path disk dst ≢ other
        → dst ≢ other
        → Placed src dst other d (copy_file_atomic disk src dst d)
    unfolding copy_file_atomic Placed
    copy_file_atomic_lem src dst other d apart away aside =
        let temp = atomic_temp_path disk dst in
        let d1 = (make_parent disk dst d).1 in
        let d2 = (disk.read src d1).1 in
        let keeps2 = λ (p : FilePath). laws.read_keeps src p d1 ∙ make_parent_keeps dst p d in
        after_step src dst other d _ (make_parent disk dst d) (λ e h. make_parent_keeps dst dst d)
          (make_parent_keeps dst other d)
          (λ _ made.
            after_step src dst other d _ (disk.read src d1) (λ e h. keeps2 dst) (keeps2 other)
              (λ b found.
                let d3 = (disk.create temp b d2).1 in
                let kept3 = laws.create_keeps temp dst b d2 apart ∙ keeps2 dst in
                let other3 = laws.create_keeps temp other b d2 away ∙ keeps2 other in
                let other4 = laws.rename_keeps temp dst other d3 away aside ∙ other3 in
                after_step src dst other d _ (disk.create temp b d2) (λ e h. kept3) other3
                  (λ _ created.
                    settled (disk.rename temp dst d3)
                      (λ h.
                        laws.rename_moves temp dst d3 h
                        ∙ laws.create_puts temp b d2 created
                        ∙ sym (laws.read_finds src d1 b found)
                        ∙ make_parent_keeps dst src d)
                      (λ e h. laws.rename_fails temp dst d3 e h ∙ kept3) other4)))
      where
        settled :
            (p : Done × D)
            → (p.0 ≡ ok tt → contents p.1 dst ≡ contents d src)
            → ((e : MobfsError) → p.0 ≡ err e → contents p.1 dst ≡ contents d dst)
            → contents p.1 other ≡ contents d other
            → Placed src dst other d p
        settled (ok u, t) put kept kept_other = (inl (put refl), kept_other)
        settled (err e, t) put kept kept_other = (inr (e, refl, kept e refl), kept_other)

    set_mode_keeps :
        (p q : FilePath) (mode : ℕ) (d : D) → contents (set_mode disk p mode d).1 q ≡ contents d q
    unfolding set_mode
    set_mode_keeps p q mode d = elim (Bool-cases (mode == 0)) [
      | inl e ↦ rw e refl
      | inr e ↦ rw e (laws.mode_keeps p q mode d)
    ]

    Placed-set_mode :
        (src dst other : FilePath) (mode : ℕ) (d : D) (p : Done × D)
        → Placed src dst other d p
        → Placed src dst other d (and_then (λ _. set_mode disk dst mode) p)
    unfolding Placed
    Placed-set_mode src dst other mode d (ok u, t) (inl put, kept) =
        (inl (set_mode_keeps dst dst mode t ∙ put), set_mode_keeps dst other mode t ∙ kept)
    Placed-set_mode src dst other mode d (ok u, t) (inr failed, kept) = absurd (cc (failed.1))
    Placed-set_mode src dst other mode d (err e, t) placed = placed

    module _ (root local : FilePath) (ignore : List Str) (walk : FilePath → Io D (List FilePath))
        (digest : Str → Str) where
      -- After the upload of a regular file, whichever call fails, the path that `safe_join` accepted
      -- for it in the folder holds what the local file held, or the upload has failed and the path
      -- holds what it held before, never a part; and any path but that one and its temporary file
      -- holds what it held.
      pub upload_file_lem :
          (rel : Str) (dst other : FilePath) (m : Metadata) (d : D)
          → safe_join root rel ≡ ok dst
          → disk.symlink_metadata (local ++ components rel) d ≡ ok m
          → m.file_type ≡ is_file
          → atomic_temp_path disk dst ≢ dst
          → atomic_temp_path disk dst ≢ other
          → dst ≢ other
          → Placed
              (local ++ components rel)
              dst
              other
              d
              (upload_file disk root local ignore walk digest rel d)
      unfolding upload_file
      upload_file_lem rel dst other m d joined found regular apart away aside =
          let src = local ++ components rel in
          rw (joined, found, regular)
            (Placed-set_mode src dst other m.mode d (copy_file_atomic disk src dst d)
              (copy_file_atomic_lem src dst other d apart away aside))
