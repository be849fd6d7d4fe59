-- ===== src/Daemon/Connection/Refusal.antt =====
-- src/daemon.rs: a request for a root that the daemon does not serve, also where the client loop
-- answers it and not handle_request.
use mobfs.Base.{ℕ, ◌≡◌, Option, none, some}
use mobfs.Base.Str.{Str}
use mobfs.Error.{err, MobfsError}
use mobfs.Protocol.{Bytes, Request}
use mobfs.Disk.{Disk}
use mobfs.Daemon.{RootPolicy, check, op_done, op_marker_path}
use mobfs.Daemon.Requests.{handle_write_file_at_bytes}
use mobfs.Daemon.Dispatch.{Scans, handle_request}
use mobfs.Daemon.Refusal.{root_of, Refused, handle_request-Refused}
use mobfs.Daemon.Connection.{Channel, handle_write_file_at_stream, read_range}

module _ {D : Type 0} (disk : Disk D) (channel : Channel D) (policy : RootPolicy) (d : D) where
  stream-Refused :
      (rounds origin : ℕ) (root rel : Str) (offset len : ℕ) (op_id : Option Str) {e : MobfsError}
      → check disk policy root d ≡ err e
      → Refused disk policy d
          (handle_write_file_at_stream disk channel rounds policy origin root rel offset len op_id)
  unfolding handle_write_file_at_stream op_done op_marker_path
  stream-Refused rounds origin root rel offset len none {e} h = (e, rw h)
  stream-Refused rounds origin root rel offset len (some op_id) {e} h = (e, rw h)

  -- A request that names a root which the daemon cannot resolve or does not allow fails and changes
  -- nothing: in handle_request, whichever it is and whatever else it names, and in the handlers that
  -- the client loop calls itself, for a streamed write, a read of a range and a binary write. (The
  -- run of a command is not modelled.)
  pub unserved-Refused :
      (scans : Scans D) (rounds origin : ℕ) (request : Request) (root rel : Str) (offset len : ℕ)
      (op_id : Option Str) (bytes : Bytes) {e : MobfsError}
      → root_of request ≡ some root
      → check disk policy root d ≡ err e
      → Refused disk policy d (handle_request disk scans policy origin request)
        × Refused disk policy d (
            handle_write_file_at_stream disk channel rounds policy origin root rel offset len op_id)
        × Refused disk policy d (read_range disk channel policy root rel offset len)
        × Refused disk policy d (handle_write_file_at_bytes disk policy root rel offset bytes)
  unfolding read_range handle_write_file_at_bytes
  unserved-Refused scans rounds origin request root rel offset len op_id bytes {e} names h = (
    handle_request-Refused disk policy d scans origin request root names h,
    stream-Refused rounds origin root rel offset len op_id h,
    (e, rw h),
    (e, rw h),
  )
