-- ===== src/Vfs/Journal.antt =====
-- The journal of src/vfs.rs: an operation is written down before it is sent, and what is written
-- down is sent again after a lost connection. Each line is taken as what it parses to, if it does;
-- a call of `append` opens the file, writes a line and flushes it.
pub mod Replay
use mobfs.Base.{
  ℕ, Bool, true, false, ◌||◌, Option, none, some, List, [], ◌∷◌, if◌then◌else◌, length,
}
use mobfs.Base.Str.{Str, codes, contains, contains_char}
use mobfs.Base.Int.{ℤ, pos}
use mobfs.Error.{Done, Result, ok, err, MobfsError, IoKind, io, not_found, server, invalid_path}
use mobfs.Disk.{Io, ◌>>=◌, ◌>>◌, pure, fail, ignore_error, attempt}
use mobfs.Snapshot.{EntryMeta, file, dir}
use mobfs.Protocol.{Bytes}
use mobfs.Paths.{slash}
use mobfs.Vfs.State.{RemoteClient}

pub data JournalOp : Type 0 where
  truncate : Str → ℕ → JournalOp
  set_metadata : Str → Option ℕ → Option ℤ → JournalOp
  mkdir : Str → JournalOp
  symlink rename : Str → Str → JournalOp
  remove : Str → Bool → JournalOp
  write_at : Str → ℕ → Bytes → JournalOp
  write_blob : Str → ℕ → Str → JournalOp

-- the file of the journal, and the directory of its blobs
pub record JournalFile (W : Type 0) : Type 0 where
  pub create_dir_all : Io W Unit
  pub append : JournalOp → Io W Unit
  pub read : Io W (List (Option JournalOp))
  pub clear : Io W Unit
  pub remove_blobs : Io W Unit
  pub read_blob : Str → Io W Bytes

abbrev pub bare_meta : Bool → EntryMeta
bare_meta is_dir = record {
  kind = if is_dir then dir else file;
  size = 0;
  modified = pos 0;
  sha256 = none;
  mode = 0;
  link_target = none;
}

module _ {W : Type 0} (journal : JournalFile W) where
  unfoldable pub append_journal : JournalOp → Io W Unit
  append_journal op = do journal.create_dir_all; journal.append op

  -- a missing file is as good as an empty one
  abbrev cleared : Done → Io W Unit
  cleared (ok a) = pure tt
  cleared (err (io not_found)) = pure tt
  cleared (err e) = fail e

  unfoldable pub clear_journal : Io W Unit
  clear_journal = do done ← attempt journal.clear; cleared done; ignore_error journal.remove_blobs

  abbrev count_lines : Result (List (Option JournalOp)) → Io W ℕ
  count_lines (ok lines) = pure (length lines)
  count_lines (err (io not_found)) = pure 0
  count_lines (err e) = fail e

  unfoldable pub pending_journal_ops : Io W ℕ
  pending_journal_ops = do lines ← attempt journal.read; count_lines lines

  module _ (client : RemoteClient W) where
    unfoldable pub apply_journal_op : JournalOp → Io W Unit
    apply_journal_op (truncate path size) = client.truncate path size
    apply_journal_op (set_metadata path mode modified) = client.set_metadata path mode modified
    apply_journal_op (mkdir path) = client.mkdir_p path
    apply_journal_op (symlink path target) = client.create_symlink path target
    apply_journal_op (rename from to) = client.rename from to
    apply_journal_op (remove path is_dir) = client.remove path (bare_meta is_dir)
    apply_journal_op (write_at path offset bytes) = client.write_file_at path offset bytes
    apply_journal_op (write_blob path offset blob) =
        if contains_char slash blob || contains blob (codes "..")
        then fail (invalid_path blob)
        else do bytes ← journal.read_blob blob; client.write_file_at path offset bytes

    -- how the loop of `replay_journal` goes on after an operation: a refusal is dropped
    abbrev pub go_on : Done → Io W Unit → Io W Unit
    go_on (ok a) rest = rest
    go_on (err (server message)) rest = rest
    go_on (err e) rest = fail e

    unfoldable pub replay_ops : List (Option JournalOp) → Io W Unit
    unfolding apply_journal_op
    replay_ops [] = pure tt
    replay_ops (none ∷ ops) = replay_ops ops
    replay_ops (some op ∷ ops) = do
      applied ← attempt (apply_journal_op op)
      go_on applied (replay_ops ops)

    abbrev pub replay_lines : Result (List (Option JournalOp)) → Io W Unit
    replay_lines (ok lines) = do replay_ops lines; clear_journal
    replay_lines (err (io not_found)) = pure tt
    replay_lines (err e) = fail e

    unfoldable pub replay_journal : Io W Unit
    unfolding replay_ops clear_journal
    replay_journal = do lines ← attempt journal.read; replay_lines lines
