-- ===== src/Sync/Directories.antt =====
-- src/sync.rs: the directories that a push makes, also when it is a dry run.
use mobfs.Base.{ℕ, ◌≡◌, refl, ap, ◌∙◌, subst, inl, inr, Bool, true, [], ◌∷◌, Bool-cases, length}
use mobfs.Base.Str.{Str}
use mobfs.Base.Order.{list_ord, nat_ord}
use mobfs.Base.Elem.{Elem}
use mobfs.Error.{Done, Result, ok, err}
use mobfs.Snapshot.{EntryMeta, Entries, Snapshot, dir, kind_eq, push_items}
use mobfs.Disk.{Io, and_then, ◌>>=◌, pure}
use mobfs.Sync.{StorageClient, Workspace, ensure_dirs, ensure_remote_dirs, push_plan}

-- A directory that was made on the remote side is there, and stays.
pub record Directories {W : Type 0} (client : StorageClient W) (has_dir : Str → W → Bool)
    : Type 0 where
  pub made :
      (rel : Str) (w : W)
      → (client.mkdir_p rel w).0 ≡ ok tt
      → has_dir rel (client.mkdir_p rel w).1 ≡ true
  pub kept : (rel p : Str) (w : W) → has_dir p w ≡ true → has_dir p (client.mkdir_p rel w).1 ≡ true

module _ {W : Type 0} (client : StorageClient W) (local : Workspace W) (has_dir : Str → W → Bool)
    (laws : Directories client has_dir) where
  -- what is so after a step and kept by the next is so after both
  after_both :
      (q : Done × W) (m : Io W Unit) (p : Str)
      → has_dir p q.1 ≡ true
      → ((w : W) → has_dir p w ≡ true → has_dir p (m w).1 ≡ true)
      → has_dir p (and_then (λ _. m) q).1 ≡ true
  after_both (ok u, w) m p h k = k w h
  after_both (err e, w) m p h k = h

  ensure_dirs_keep :
      (es : Entries) (p : Str) (w : W)
      → has_dir p w ≡ true
      → has_dir p (ensure_dirs client local client.mkdir_p es w).1 ≡ true
  unfolding ensure_dirs
  ensure_dirs_keep [] p w h = h
  ensure_dirs_keep ((rel, meta) ∷ es) p w h = elim (Bool-cases (kind_eq meta.kind dir)) [
    | inl e ↦ rw e (
        after_both (client.mkdir_p rel w) (ensure_dirs client local client.mkdir_p es) p
          (laws.kept rel p w h) (ensure_dirs_keep es p))
    | inr e ↦ rw e (ensure_dirs_keep es p w h)
  ]

  made_first :
      (rel : Str) (w : W) (m : Io W Unit) (q : Done × W)
      → client.mkdir_p rel w ≡ q
      → ((x : W) → has_dir rel x ≡ true → has_dir rel (m x).1 ≡ true)
      → (and_then (λ _. m) q).0 ≡ ok tt
      → has_dir rel (and_then (λ _. m) q).1 ≡ true
  made_first rel w m (ok u, x) e k h = k x (
      subst (λ (q : Done × W). has_dir rel q.1 ≡ true) e
        (laws.made rel w (ap (λ (q : Done × W). q.0) e)))
  made_first rel w m (err f, x) e k h = absurd (cc)

  made_later :
      (rel : Str) (m : Io W Unit) (q : Done × W)
      → ((x : W) → (m x).0 ≡ ok tt → has_dir rel (m x).1 ≡ true)
      → (and_then (λ _. m) q).0 ≡ ok tt
      → has_dir rel (and_then (λ _. m) q).1 ≡ true
  made_later rel m (ok u, x) k h = k x h
  made_later rel m (err f, x) k h = absurd (cc)

  ensure_dirs_make :
      (es : Entries) (rel : Str) (meta : EntryMeta) (w : W)
      → (ensure_dirs client local client.mkdir_p es w).0 ≡ ok tt
      → Elem (rel, meta) es
      → meta.kind ≡ dir
      → has_dir rel (ensure_dirs client local client.mkdir_p es w).1 ≡ true
  unfolding ensure_dirs
  ensure_dirs_make [] rel meta w h m d = elim m [ ]
  ensure_dirs_make ((q, n) ∷ es) rel meta w h (inl same) d =
      let is_dir : kind_eq n.kind dir ≡ true =
        subst (λ (x : Str × EntryMeta). kind_eq x.1.kind dir ≡ true) same (rw d) in
      let ran = rw is_dir at h in
      rw (is_dir, ap (λ (x : Str × EntryMeta). x.0) same)
        (made_first q w (ensure_dirs client local client.mkdir_p es) (client.mkdir_p q w) refl
          (ensure_dirs_keep es q) ran)
  ensure_dirs_make ((q, n) ∷ es) rel meta w h (inr m) d = elim (Bool-cases (kind_eq n.kind dir)) [
    | inl e ↦
        let ran = rw e at h in
        rw e (
          made_later rel (ensure_dirs client local client.mkdir_p es) (client.mkdir_p q w)
            (λ x k. ensure_dirs_make es rel meta x k m d) ran)
    | inr e ↦ let ran = rw e at h in rw e (ensure_dirs_make es rel meta w ran m d)
  ]

  -- A dry run of a push that succeeds has made every directory of the local scan on the remote side.
  pub push_plan_makes_dirs :
      (scan : Snapshot) (delete : Bool) (w : W) {count : ℕ} {w' : W}
      → push_plan client local scan delete true w ≡ (ok count, w')
      → (rel : Str) (meta : EntryMeta) → Elem (rel, meta) scan.entries
      → meta.kind ≡ dir
      → has_dir rel w' ≡ true
  unfolding push_plan ensure_remote_dirs
  push_plan_makes_dirs scan delete w {count} {w'} h rel meta m d =
      after_snapshot (client.snapshot w) h
    where
      make : Io W Unit
      make = ensure_dirs client local client.mkdir_p scan.entries

      finish :
          (c : ℕ) (x : W) (p : Done × W)
          → make x ≡ p
          → and_then (λ _. pure c) p ≡ (ok count, w')
          → has_dir rel w' ≡ true
      finish c x (ok u, y) e k =
          subst (λ z. has_dir rel z ≡ true)
            (ap (λ (q : Done × W). q.1) e ∙ ap (λ (q : Result ℕ × W). q.1) k)
            (ensure_dirs_make scan.entries rel meta x (ap (λ (q : Done × W). q.0) e) m d)
      finish c x (err f, y) e k =
          let wrong : err f ≡ ok count = ap (λ (q : Result ℕ × W). q.0) k in absurd (cc)

      after_snapshot :
          (q : Result Snapshot × W)
          → and_then (λ remote. make >>= λ _. pure (length (push_items scan remote delete))) q
            ≡ (ok count, w')
          → has_dir rel w' ≡ true
      after_snapshot (ok remote, x) k =
          finish (length (push_items scan remote delete)) x (make x) refl k
      after_snapshot (err f, x) k =
          let wrong : err f ≡ ok count = ap (λ (q : Result ℕ × W). q.0) k in absurd (cc)
