-- ===== src/Journal/Save.antt =====
-- What an update of the journal of src/journal.rs leaves in its file, whichever call fails.
use mobfs.Base.{◌≡◌, refl, ◌∙◌, ◌⊎◌, inl, inr, Option, some, List, [], Bool-cases}
use mobfs.Error.{Done, Result, ok, err, MobfsError}
use mobfs.Disk.{Io, Disk, and_then, ◌>>=◌}
use mobfs.Paths.{FilePath}
use mobfs.Protocol.{Bytes}
use mobfs.Journal.{
  JournalOp, state_dir, journal_path, temp_path, load, save, record_op, complete, with_op,
  without_op,
}

module _ {D : Type 0} (disk : Disk D) (root : FilePath)
    (contents : D → FilePath → Option Bytes) where
  -- What the calls of the standard library do to the journal and its temporary file. Only a rename
  -- that succeeds changes the journal.
  pub record SaveLaws : Type 0 where
    pub read_keeps :
        (d : D)
        → contents (disk.read (journal_path disk root) d).1 (journal_path disk root)
          ≡ contents d (journal_path disk root)
    pub mkdir_keeps :
        (d : D)
        → contents (disk.create_dir_all (state_dir disk root) d).1 (journal_path disk root)
          ≡ contents d (journal_path disk root)
    pub create_keeps :
        (b : Bytes) (d : D)
        → contents (disk.create (temp_path disk root) b d).1 (journal_path disk root)
          ≡ contents d (journal_path disk root)
    pub create_puts :
        (b : Bytes) (d : D)
        → (disk.create (temp_path disk root) b d).0 ≡ ok tt
        → contents (disk.create (temp_path disk root) b d).1 (temp_path disk root) ≡ some b
    pub write_keeps :
        (b : Bytes) (d : D)
        → contents (disk.write_at (temp_path disk root) 0 b d).1 (journal_path disk root)
          ≡ contents d (journal_path disk root)
    pub write_puts :
        (b : Bytes) (d : D)
        → contents d (temp_path disk root) ≡ some []
        → (disk.write_at (temp_path disk root) 0 b d).0 ≡ ok tt
        → contents (disk.write_at (temp_path disk root) 0 b d).1 (temp_path disk root) ≡ some b
    pub sync_keeps : (p q : FilePath) (d : D) → contents (disk.sync_all p d).1 q ≡ contents d q
    pub rename_moves :
        (d : D)
        → (disk.rename (temp_path disk root) (journal_path disk root) d).0 ≡ ok tt
        → contents
            (disk.rename (temp_path disk root) (journal_path disk root) d).1
            (journal_path disk root)
          ≡ contents d (temp_path disk root)
    pub rename_fails :
        (d : D) (e : MobfsError)
        → (disk.rename (temp_path disk root) (journal_path disk root) d).0 ≡ err e
        → contents
            (disk.rename (temp_path disk root) (journal_path disk root) d).1
            (journal_path disk root)
          ≡ contents d (journal_path disk root)

  abbrev pub held : D → Option Bytes
  held d = contents d (journal_path disk root)

  -- Either a failure, with the journal as it was, or success, with one of the texts in it.
  unfoldable pub AllOrNothing : (Bytes → Type 0) → Option Bytes → Done × D → Type 0
  AllOrNothing IsNew before (r, d) =
      ((e : MobfsError) × (r ≡ err e) × (held d ≡ before))
      ⊎ ((text : Bytes) × IsNew text × (r ≡ ok tt) × (held d ≡ some text))

  after_step :
      {A : Type 0} (IsNew : Bytes → Type 0) (before : Option Bytes) (f : A → Io D Unit)
      (p : Result A × D)
      → ((e : MobfsError) → p.0 ≡ err e → held p.1 ≡ before)
      → ((a : A) → p.0 ≡ ok a → AllOrNothing IsNew before (f a p.1))
      → AllOrNothing IsNew before (and_then f p)
  unfolding AllOrNothing
  after_step IsNew before f (ok a, d) kept next = next a refl
  after_step IsNew before f (err e, d) kept next = inl (e, refl, kept e refl)

  module _ (laws : SaveLaws) (to_toml : List JournalOp → Result Bytes)
      (from_toml : Bytes → Result (List JournalOp)) where
    -- A save that fails leaves the journal as it was, one that succeeds has put the new text there.
    pub save-AllOrNothing :
        (ops : List JournalOp) (d : D)
        → AllOrNothing
            (λ text. to_toml ops ≡ ok text)
            (held d)
            (save disk root to_toml from_toml ops d)
    unfolding save AllOrNothing
    save-AllOrNothing ops d =
        let temp = temp_path disk root in
        let IsNew = λ (text : Bytes). to_toml ops ≡ ok text in
        let d1 = (disk.create_dir_all (state_dir disk root) d).1 in
        let d2 = (disk.create temp [] d1).1 in
        let kept = laws.create_keeps [] d1 ∙ laws.mkdir_keeps d in
        after_step IsNew (held d) _ (disk.create_dir_all (state_dir disk root) d)
          (λ e q. laws.mkdir_keeps d)
          (λ _ made.
            after_step IsNew (held d) _ (disk.create temp [] d1) (λ e q. kept)
              (λ _ created.
                after_step IsNew (held d) _ (to_toml ops, d2) (λ e q. kept)
                  (λ text is_new.
                    let d3 = (disk.write_at temp 0 text d2).1 in
                    let d4 = (disk.sync_all temp d3).1 in
                    let kept3 = laws.write_keeps text d2 ∙ kept in
                    let kept4 = laws.sync_keeps temp (journal_path disk root) d3 ∙ kept3 in
                    after_step IsNew (held d) _ (disk.write_at temp 0 text d2) (λ e q. kept3)
                      (λ _ written.
                        after_step IsNew (held d) _ (disk.sync_all temp d3) (λ e q. kept4)
                          (λ _ synced.
                            after_step IsNew (held d) _
                              (disk.rename temp (journal_path disk root) d4)
                              (λ e failed. laws.rename_fails d4 e failed ∙ kept4)
                              (λ _ renamed. inr (
                                text,
                                is_new,
                                refl,
                                laws.sync_keeps (state_dir disk root) (journal_path disk root) _
                                    ∙ laws.rename_moves d4 renamed
                                    ∙ laws.sync_keeps temp temp d3
                                    ∙ laws.write_puts text d2 (laws.create_puts [] d1 created)
                                        written,
                              )))))))

    -- What an update leaves, when it reads the journal and saves it with a change.
    unfoldable pub Updates : (List JournalOp → List JournalOp) → Io D Unit → D → Type 0
    Updates change step d =
        AllOrNothing
          (λ text.
            (pending : List JournalOp) × ((load disk root to_toml from_toml d).0 ≡ ok pending)
            × (to_toml (change pending) ≡ ok text))
          (held d) (step d)

    load_keeps : (d : D) → held (load disk root to_toml from_toml d).1 ≡ held d
    unfolding load
    load_keeps d = elim (Bool-cases (disk.exists (journal_path disk root) d)) [
      | inl h ↦ rw h (read (disk.read (journal_path disk root) d) (laws.read_keeps d))
      | inr h ↦ rw h refl
    ]
      where
        read :
            (p : Result Bytes × D)
            → held p.1 ≡ held d
            → held (and_then (λ text t. (from_toml text, t)) p).1 ≡ held d
        read (ok text, t) h = h
        read (err e, t) h = h

    known :
        {New Other : Bytes → Type 0} {before after : Option Bytes} (p : Done × D)
        → ((text : Bytes) → New text → Other text)
        → before ≡ after
        → AllOrNothing New before p
        → AllOrNothing Other after p
    unfolding AllOrNothing
    known (r, d) f e (inl (x, failed, kept)) = inl (x, failed, kept ∙ e)
    known (r, d) f e (inr (text, new, done, puts)) = inr (text, f text new, done, puts)

    update :
        (change : List JournalOp → List JournalOp) (d : D)
        → Updates change
            (load disk root to_toml from_toml >>= λ pending.
              save disk root to_toml from_toml (change pending))
            d
    unfolding Updates
    update change d =
        after_step _ (held d) _ (load disk root to_toml from_toml d) (λ e q. load_keeps d)
          (λ pending loaded.
            known _ (λ text new. (pending, loaded, new)) (load_keeps d)
              (save-AllOrNothing (change pending) (load disk root to_toml from_toml d).1))

    -- When record or complete fails, on whichever call, the journal file is as it was. When it
    -- succeeds, the file holds the text of the loaded operations with the recorded one at their end
    -- unless it is among them, or without the completed one.
    pub record-complete_update :
        (op : JournalOp) (d : D)
        → Updates (with_op op) (record_op disk root to_toml from_toml op) d
          × Updates (without_op op) (complete disk root to_toml from_toml op) d
    unfolding record_op complete
    record-complete_update op d = (update (with_op op) d, update (without_op op) d)
