-- ===== src/Vfs/Journal/Replay.antt =====
-- What a clearing and a replay of the journal of src/vfs.rs leave in it.
use mobfs.Base.{
  ℕ, ◌≡◌, ◌≢◌, refl, sym, ap, ◌∙◌, Option, none, some, List, [], ◌∷◌, ◌++◌, ◌||◌, arith,
}
use mobfs.Base.Str.{Str, codes, contains, contains_char}
use mobfs.Paths.{slash}
use mobfs.Base.Int.{ℤ}
use mobfs.Error.{
  Done, Result, ok, err, MobfsError, io, json, watch, toml_decode, toml_encode, walkdir,
  invalid_remote, invalid_path, config, remote, server, not_found,
}
use mobfs.Disk.{Io, ◌>>◌}
use mobfs.Snapshot.{EntryMeta}
use mobfs.Protocol.{Bytes}
use mobfs.Sync.Keeps.{Keeps, Keeps-bind, Keeps-attempt, Keeps-if, Keeps-pure}
use mobfs.Vfs.State.{RemoteClient}
use mobfs.Vfs.Journal.{
  JournalOp, truncate, set_metadata, mkdir, symlink, rename, remove, write_at, write_blob,
  JournalFile, clear_journal, pending_journal_ops, apply_journal_op, go_on, replay_ops,
  replay_journal,
}

module _ {W : Type 0} (journal : JournalFile W) where
  -- what stands in the journal
  abbrev pub lines : W → Result (List (Option JournalOp))
  lines w = (journal.read w).0

  -- A cleared file is empty, one that is missing stays so, and the blobs are apart from the file.
  pub record FileLaws : Type 0 where
    pub clear_empties : (w : W) → (journal.clear w).0 ≡ ok tt → lines (journal.clear w).1 ≡ ok []
    pub clear_missing :
        (w : W)
        → (journal.clear w).0 ≡ err (io not_found)
        → lines (journal.clear w).1 ≡ err (io not_found)
    pub blobs_apart : (w : W) → lines (journal.remove_blobs w).1 ≡ lines w

  -- The calls of the client, and those that read the journal, leave the journal as it is.
  pub record Apart (client : RemoteClient W) : Type 0 where
    pub truncate : (path : Str) (size : ℕ) → Keeps lines (client.truncate path size)
    pub set_metadata :
        (path : Str) (mode : Option ℕ) (modified : Option ℤ)
        → Keeps lines (client.set_metadata path mode modified)
    pub mkdir_p : (path : Str) → Keeps lines (client.mkdir_p path)
    pub create_symlink : (path target : Str) → Keeps lines (client.create_symlink path target)
    pub rename : (from to : Str) → Keeps lines (client.rename from to)
    pub remove : (path : Str) (m : EntryMeta) → Keeps lines (client.remove path m)
    pub write_file_at :
        (path : Str) (offset : ℕ) (bytes : Bytes)
        → Keeps lines (client.write_file_at path offset bytes)
    pub read : Keeps lines journal.read
    pub read_blob : (blob : Str) → Keeps lines (journal.read_blob blob)

  pub clear_journal-pending :
      FileLaws
      → (w : W) → (clear_journal journal w).0 ≡ ok tt
      → (pending_journal_ops journal (clear_journal journal w).1).0 ≡ ok 0
  unfolding clear_journal pending_journal_ops
  clear_journal-pending laws w h =
      ground
        (arith, laws.clear_empties w, laws.clear_missing w, laws.blobs_apart (journal.clear w).1)

  module _ (client : RemoteClient W) where
    pub apply_journal_op-Keeps :
        Apart client → (op : JournalOp) → Keeps lines (apply_journal_op journal client op)
    unfolding apply_journal_op
    apply_journal_op-Keeps a (truncate path size) = a.truncate path size
    apply_journal_op-Keeps a (set_metadata path mode modified) = a.set_metadata path mode modified
    apply_journal_op-Keeps a (mkdir path) = a.mkdir_p path
    apply_journal_op-Keeps a (symlink path target) = a.create_symlink path target
    apply_journal_op-Keeps a (rename from to) = a.rename from to
    apply_journal_op-Keeps a (remove path is_dir) = a.remove path _
    apply_journal_op-Keeps a (write_at path offset bytes) = a.write_file_at path offset bytes
    apply_journal_op-Keeps a (write_blob path offset blob) =
        Keeps-if lines (contains_char slash blob || contains blob (codes "..")) _ _
          (Keeps-pure lines (err (invalid_path blob)))
          (Keeps-bind lines _ _ (a.read_blob blob) (λ bytes. a.write_file_at path offset bytes))

    go_on-Keeps :
        (r : Done) (rest : Io W Unit) → Keeps lines rest → Keeps lines (go_on journal client r rest)
    go_on-Keeps (ok a) rest k = k
    go_on-Keeps (err (server message)) rest k = k
    go_on-Keeps (err e) rest k = Keeps-pure lines (err e)

    pub replay_ops-Keeps :
        Apart client → (ops : List (Option JournalOp)) → Keeps lines (replay_ops journal client ops)
    unfolding replay_ops
    replay_ops-Keeps a [] = Keeps-pure lines _
    replay_ops-Keeps a (none ∷ ops) = replay_ops-Keeps a ops
    replay_ops-Keeps a (some op ∷ ops) =
        Keeps-bind lines _ _ (Keeps-attempt lines _ (apply_journal_op-Keeps a op))
          (λ r. go_on-Keeps r _ (replay_ops-Keeps a ops))

    pub replay_ops-append :
        (xs ys : List (Option JournalOp)) (w : W)
        → replay_ops journal client (xs ++ ys) w
          ≡ (replay_ops journal client xs >> replay_ops journal client ys) w
    unfolding replay_ops
    replay_ops-append [] ys w = refl
    replay_ops-append (none ∷ xs) ys w = replay_ops-append xs ys w
    replay_ops-append (some op ∷ xs) ys w =
        ground (arith, replay_ops-append xs ys (apply_journal_op journal client op w).1)

    -- what `go_on` does with an error that is none of the server's
    go_on_lost :
        (e : MobfsError) (rest : Io W Unit) (w : W)
        → ((message : Str) → e ≢ server message)
        → go_on journal client (err e) rest w ≡ (err e, w)
    go_on_lost (server message) rest w lost = absurd (lost message refl)
    go_on_lost (io kind) rest w lost = refl
    go_on_lost (json text) rest w lost = refl
    go_on_lost (watch text) rest w lost = refl
    go_on_lost (toml_decode text) rest w lost = refl
    go_on_lost (toml_encode text) rest w lost = refl
    go_on_lost (walkdir text) rest w lost = refl
    go_on_lost (invalid_remote text) rest w lost = refl
    go_on_lost (invalid_path text) rest w lost = refl
    go_on_lost (config text) rest w lost = refl
    go_on_lost (remote text) rest w lost = refl

    replay_ops_lost :
        (front back : List (Option JournalOp)) (op : JournalOp) (w x : W) {y : W} {e : MobfsError}
        → replay_ops journal client front w ≡ (ok tt, x)
        → apply_journal_op journal client op x ≡ (err e, y)
        → ((message : Str) → e ≢ server message)
        → replay_ops journal client (front ++ (some op ∷ back)) w ≡ (err e, y)
    unfolding replay_ops
    replay_ops_lost front back op w x {y} {e} before failed lost =
        rw (replay_ops-append front (some op ∷ back) w, before, failed)
          (go_on_lost e (replay_ops journal client back) y lost)

    -- If the call for one operation of the journal fails with an error that is not the server's, as it
    -- does when the connection is lost, after those before it have been gone through, then the replay
    -- fails with that error, nothing behind the operation is sent, and every line of the journal is
    -- still there.
    pub replay_journal_lost :
        Apart client
        → (w x : W) {y : W} (front back : List (Option JournalOp)) (op : JournalOp) {e : MobfsError}
        → lines w ≡ ok (front ++ (some op ∷ back))
        → replay_ops journal client front (journal.read w).1 ≡ (ok tt, x)
        → apply_journal_op journal client op x ≡ (err e, y)
        → ((message : Str) → e ≢ server message)
        → (replay_journal journal client w ≡ (err e, y))
          × (lines y ≡ ok (front ++ (some op ∷ back)))
    unfolding replay_journal Keeps
    replay_journal_lost a w x {y} front back op {e} h before failed lost =
        let stopped = replay_ops_lost front back op (journal.read w).1 x before failed lost in
        let kept = replay_ops-Keeps a (front ++ (some op ∷ back)) (journal.read w).1 in
        (rw (h, stopped) refl, ap (λ (p : Done × W). lines p.1) (sym stopped) ∙ kept ∙ a.read w ∙ h)
