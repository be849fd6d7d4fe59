-- ===== src/Vfs/Mutate/Outcome.antt =====
-- What `mutate` of src/vfs.rs answers, and what it leaves in the journal.
use mobfs.Base.{◌≡◌, arith}
use mobfs.Error as Error
use mobfs.Error.{Done, MobfsError, server, remote}
use mobfs.Disk.{Io}
use mobfs.Vfs.Errno.{ok, errno_for_server_error}
use mobfs.Vfs.State.{Vfs, RemoteClient, call}
use mobfs.Vfs.Journal.{JournalOp, JournalFile, pending_journal_ops}
use mobfs.Vfs.Journal.Replay.{FileLaws, clear_journal-pending}
use mobfs.Vfs.Mutate.{clear_record, record_op, recover_journal, mutate, settle}
use mobfs.Vfs.State.Ends.{Ends, Ends-bind, Ends-fail}

-- no line stands in the journal
unfoldable pub JournalIsEmpty : {W : Type 0} → JournalFile W → Vfs W → Type 0
JournalIsEmpty journal s = (pending_journal_ops journal s.world).0 ≡ Error.ok 0

module _ {W : Type 0} (client : RemoteClient W) (journal : JournalFile W)
    (laws : FileLaws journal) where
  clear_record-Ends : Ends (JournalIsEmpty journal) (clear_record client journal)
  unfolding clear_record Ends JournalIsEmpty
  clear_record-Ends s a h = ground (arith, clear_journal-pending journal laws s.world)

  settle-Ends : (r : Done) → Ends (JournalIsEmpty journal) (settle client journal r)
  settle-Ends (Error.ok a) = clear_record-Ends
  settle-Ends (Error.err (server message)) =
      Ends-bind _ (clear_record client journal) _
        (λ a. Ends-fail (JournalIsEmpty journal) Unit (errno_for_server_error message))
  settle-Ends (Error.err e) =
      Ends-bind _ (recover_journal client journal) _ (λ a. clear_record-Ends)

  mutate-Ends :
      (op : JournalOp) (action : Io W Unit)
      → Ends (JournalIsEmpty journal) (mutate client journal op action)
  unfolding mutate
  mutate-Ends op action =
      Ends-bind _ (record_op client journal op) _
        (λ _. Ends-bind _ (call action) (settle client journal) settle-Ends)

  -- When `mutate` answers that the operation is done, by itself or after a recovery, the journal is
  -- empty: nothing is left that the next mount would send again.
  pub mutate-pending :
      (op : JournalOp) (action : Io W Unit) (s : Vfs W)
      → (mutate client journal op action s).0 ≡ ok tt
      → (pending_journal_ops journal (mutate client journal op action s).1.world).0 ≡ Error.ok 0
  unfolding Ends JournalIsEmpty
  mutate-pending op action s h = mutate-Ends op action s tt h
