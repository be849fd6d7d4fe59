-- ===== src/Vfs/Mutate.antt =====
-- `mutate` of src/vfs.rs and what it calls: how the mount sends an operation that changes the
-- remote tree. The pauses between the attempts at recovery are left out.
pub mod Outcome
use mobfs.Base.{ℕ, zero, suc, Bool, true, false}
use mobfs.Error.{Done, MobfsError, server}
use mobfs.Error as Error
use mobfs.Disk as Disk
use mobfs.Disk.{Io}
use mobfs.Vfs.Errno.{Errno, VfsResult, ok, err, eio, errno_for_server_error}
use mobfs.Vfs.State.{Vfs, Vm, RemoteClient, and_then, ◌>>=◌, ◌>>◌, pure, fail, call}
use mobfs.Vfs.Journal.{JournalOp, JournalFile, append_journal, clear_journal, replay_journal}

-- DEFAULT_OP_RETRIES
abbrev pub default_op_retries : ℕ
default_op_retries = 12

module _ {W : Type 0} (client : RemoteClient W) (journal : JournalFile W) where
  -- map_err(|_| Errno::EIO)
  abbrev or_eio : Done → Vm W Unit
  or_eio (Error.ok a) = pure a
  or_eio (Error.err e) = fail eio

  unfoldable pub record_op : JournalOp → Vm W Unit
  unfolding append_journal
  record_op op = do r ← call (append_journal journal op); or_eio r

  unfoldable pub clear_record : Vm W Unit
  unfolding clear_journal
  clear_record = do r ← call (clear_journal journal); or_eio r

  -- one attempt at recovery
  unfoldable pub recover_once : Io W Unit
  unfolding replay_journal
  recover_once = Disk.◌>>◌ client.reconnect (replay_journal journal client)

  abbrev recovered : Done → Vm W Unit → Vm W Unit
  recovered (Error.ok a) rest = pure tt
  recovered (Error.err e) rest = rest

  unfoldable pub recover_attempts : ℕ → Vm W Unit
  unfolding recover_once
  recover_attempts zero = fail eio
  recover_attempts (suc attempts) = do
    r ← call recover_once
    recovered r (recover_attempts attempts)

  unfoldable pub recover_journal : Vm W Unit
  unfolding recover_attempts
  recover_journal = recover_attempts default_op_retries

  abbrev pub settle : Done → Vm W Unit
  settle (Error.ok a) = clear_record
  settle (Error.err (server message)) = do clear_record; fail (errno_for_server_error message)
  settle (Error.err e) = do recover_journal; clear_record

  unfoldable pub mutate : JournalOp → Io W Unit → Vm W Unit
  unfolding record_op clear_record recover_journal
  mutate op action = do record_op op; r ← call action; settle r
