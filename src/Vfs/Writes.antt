-- ===== src/Vfs/Writes.antt =====
-- `write` and `fsync` of src/vfs.rs. A write goes to the buffer of its handle, which follows on
-- where the last write ended, or is sent to make room for the new one.
pub mod View
pub mod Flush
use mobfs.Base.{
  ℕ, zero, suc, ◌+◌, ◌-◌, ◌*◌, max, Bool, true, false, ◌&&◌, not, Option, none, some, List, [], ◌∷◌,
  ◌++◌, ltb, leb, ◌==◌, if◌then◌else◌, length, take, drop,
}
use mobfs.Base.Str.{Str, str_eq}
use mobfs.Base.Order.{list_ord, nat_ord}
use mobfs.Base.Map.{Map, get, insert}
use mobfs.Snapshot.{EntryMeta}
use mobfs.Protocol.{Bytes}
use mobfs.Paths.{is_sidecar}
use mobfs.Vfs.Errno.{Errno, VfsResult, ok, err, enoent, eacces, eisdir}
use mobfs.Vfs.Blocks.{invalidate_range}
use mobfs.Vfs.State.{
  Vfs, Vm, RemoteClient, and_then, ◌>>=◌, ◌>>◌, pure, fail, gets, modify, ok_or, call, remote,
  with_errno, Upload, PendingWrite,
}
use mobfs.Vfs.Names.{path_of, ignored, take_upload_error, note_local_write}
use mobfs.Vfs.Uploads.{dispatch_pending, flush, flush_matching}

abbrev pub write_buffer_limit : ℕ
write_buffer_limit = 8 * 1024 * 1024

unfoldable pub zeros : ℕ → Bytes
zeros zero = []
zeros (suc n) = 0 ∷ zeros n

-- Vec::resize(len, 0)
unfoldable pub resize : ℕ → Bytes → Bytes
unfolding zeros
resize len bytes = take len bytes ++ zeros (len - length bytes)

-- the bytes are made long enough, and those at the offset are replaced
unfoldable pub write_bytes : ℕ → Bytes → Bytes → Bytes
unfolding resize
write_bytes offset new stored =
    let end = offset + length new in
    let room = if ltb (length stored) end then resize end stored else stored in
    take offset room ++ (new ++ drop end room)

-- may the write be added to the buffer?
abbrev pub follows : ℕ → ℕ → ℕ → PendingWrite → Bool
follows ino offset len pending =
    pending.ino == ino
    && (pending.offset + length pending.bytes == offset
        && leb (length pending.bytes + len) write_buffer_limit)

module _ {W : Type 0} (client : RemoteClient W) (choose : Map ℕ Upload → ℕ) where
  abbrev pub put_buffer : ℕ → PendingWrite → Vfs W → Vfs W
  put_buffer fh pending s = record s { write_buffers = insert s.write_buffers fh pending }

  abbrev pub buffer_over : ℕ → PendingWrite → Option PendingWrite → Vfs W → Vfs W
  buffer_over fh fresh none s = put_buffer fh fresh s
  buffer_over fh fresh (some pending) s =
      if follows fresh.ino fresh.offset (length fresh.bytes) pending
      then put_buffer fh
          (record pending { bytes = pending.bytes ++ fresh.bytes; touched = fresh.touched }) s
      else dispatch_pending client choose fh pending (put_buffer fh fresh s)

  unfoldable pub buffer_write : ℕ → PendingWrite → Vfs W → Vfs W
  unfolding dispatch_pending
  buffer_write fh fresh s = buffer_over fh fresh (get s.write_buffers fh) s

  abbrev write_stored : Str → ℕ → Bytes → Option (EntryMeta × Bytes) → Vm W Unit
  write_stored path offset bytes none = fail enoent
  write_stored path offset bytes (some (meta, stored)) = modify λ s.
      let stored = write_bytes offset bytes stored in
      record s {
        sidecars =
            insert s.sidecars path
              (record meta { size = length stored; modified = s.unix_now }, stored);
      }

  unfoldable pub write_sidecar : Str → ℕ → Bytes → Vm W Unit
  unfolding write_bytes
  write_sidecar path offset bytes = λ s. write_stored path offset bytes (get s.sidecars path) s

  unfoldable pub write : ℕ → ℕ → ℕ → Bytes → Vm W Unit
  unfolding path_of ignored take_upload_error note_local_write buffer_write write_sidecar
  write ino fh offset bytes = do
    path ← path_of ino
    is_ignored ← gets (λ s. ignored s path)
    if str_eq path []
        then fail eisdir
        else if is_sidecar path
        then write_sidecar path offset bytes
        else if is_ignored
        then fail eacces
        else do
          take_upload_error fh
          modify (λ s.
              buffer_write fh
                (record { ino = ino; path = path; offset = offset; bytes = bytes; touched = s.now })
                s)
          modify (λ s. record s { blocks = invalidate_range s.blocks path offset (length bytes) })
          modify (note_local_write path offset (length bytes))

  unfoldable pub fsync : ℕ → ℕ → Vm W Unit
  unfolding path_of flush flush_matching
  fsync ino fh = do
    path ← path_of ino
    if is_sidecar path then pure tt else do
      flush client choose fh
      flush_matching client choose path
      remote (client.fsync path)
