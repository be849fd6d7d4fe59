-- ===== src/Journal.antt =====
-- src/journal.rs: the uploads that a workspace has begun, in a file of the workspace. The TOML text
-- of a journal and its parser are arguments.
pub mod Save
use mobfs.Base.{
  ℕ, Bool, true, false, ◌&&◌, not, List, [], ◌∷◌, ◌++◌, if◌then◌else◌, any, filter, length,
}
use mobfs.Base.Str.{Str, codes, str_eq}
use mobfs.Error.{Result}
use mobfs.Disk.{Io, Disk, ◌>>=◌, ◌>>◌, pure, lift, ignore_error}
use mobfs.Paths.{FilePath, normal}
use mobfs.Protocol.{Bytes}

pub data JournalOp : Type 0 where
  upload : Str → Str → JournalOp

unfoldable pub op_eq : JournalOp → JournalOp → Bool
op_eq (upload rel upload_id) (upload rel' upload_id') =
    str_eq rel rel' && str_eq upload_id upload_id'

abbrev pub with_op : JournalOp → List JournalOp → List JournalOp
with_op op pending = if any (op_eq op) pending then pending else pending ++ (op ∷ [])

-- pending.retain(|other| other != op)
abbrev pub without_op : JournalOp → List JournalOp → List JournalOp
without_op op pending = filter (λ other. not (op_eq other op)) pending

module _ {D : Type 0} (disk : Disk D) (root : FilePath) where
  abbrev pub state_dir : FilePath
  state_dir = root ++ (normal (codes ".mobfs") ∷ [])

  abbrev pub journal_path : FilePath
  journal_path = state_dir ++ (normal (codes "journal.toml") ∷ [])

  -- path.with_extension("toml.tmp")
  abbrev pub temp_path : FilePath
  temp_path = state_dir ++ (normal (codes "journal.toml.tmp") ∷ [])

  module _ (to_toml : List JournalOp → Result Bytes)
      (from_toml : Bytes → Result (List JournalOp)) where
    unfoldable pub load : Io D (List JournalOp)
    load = λ d.
        (if not (disk.exists journal_path d)
            then pure []
            else do text ← disk.read journal_path; lift (from_toml text))
          d

    -- the directory is synced if it can be opened
    unfoldable pub save : List JournalOp → Io D Unit
    save ops = do
      disk.create_dir_all state_dir
      disk.create temp_path []
      text ← lift (to_toml ops)
      disk.write_at temp_path 0 text
      disk.sync_all temp_path
      disk.rename temp_path journal_path
      ignore_error (disk.sync_all state_dir)

    unfoldable pub record_op : JournalOp → Io D Unit
    unfolding load save
    record_op op = do pending ← load; save (with_op op pending)

    unfoldable pub complete : JournalOp → Io D Unit
    unfolding load save
    complete op = do pending ← load; save (without_op op pending)

    unfoldable pub pending_count : Io D ℕ
    unfolding load
    pending_count = do pending ← load; pure (length pending)
