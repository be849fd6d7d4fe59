-- ===== src/Daemon/Refusal.antt =====
-- src/daemon.rs: a request for a root that the daemon does not serve.
use mobfs.Base.{ℕ, ◌≡◌, refl, sym, subst, Option, none, some}
use mobfs.Base.Str.{Str}
use mobfs.Error.{MobfsError, err}
use mobfs.Protocol.{Request, Response}
use mobfs.Disk.{Io, Disk}
use mobfs.Daemon.{RootPolicy, check, once, op_done, op_marker_path}
use mobfs.Daemon.Requests.{
  handle_list_dir, handle_read_file_chunk, handle_read_small_files, handle_write_file,
  handle_write_file_start, handle_write_file_chunk, handle_write_file_offset, handle_write_file_at,
}
use mobfs.Daemon.Dispatch.{
  Scans, handle_request, handle_write_file_finish, make_directory, make_symlink, remove_entry,
  rename_entry, set_metadata, truncate_file,
}

-- the root that a request names
abbrev pub root_of : Request → Option Str
root_of (Request.snapshot root _) = some root
root_of (Request.stat root _) = some root
root_of (Request.list_dir root _) = some root
root_of (Request.read_file root _) = some root
root_of (Request.read_file_chunk root _ _ _) = some root
root_of (Request.read_small_files root _ _ _) = some root
root_of (Request.write_file root _ _ _) = some root
root_of (Request.write_file_start root _ _) = some root
root_of (Request.write_file_chunk root _ _ _ _) = some root
root_of (Request.write_file_offset root _ _) = some root
root_of (Request.write_file_at root _ _ _) = some root
root_of (Request.write_file_at_binary root _ _ _) = some root
root_of (Request.write_file_at_stream root _ _ _ _) = some root
root_of (Request.truncate root _ _ _) = some root
root_of (Request.fsync root _) = some root
root_of (Request.rename root _ _ _) = some root
root_of (Request.write_file_finish root _ _ _ _) = some root
root_of (Request.symlink root _ _ _) = some root
root_of (Request.set_metadata root _ _ _ _) = some root
root_of (Request.mkdir root _ _) = some root
root_of (Request.remove root _ _ _) = some root
root_of (Request.run root _) = some root
root_of (Request.read_range root _ _ _) = some root
root_of (Request.snapshot_meta root _ _) = some root
root_of (Request.watch_changes root _ _ _ _) = some root
root_of (Request.stat_fs root) = some root
root_of (Request.search root _ _ _) = some root
root_of Request.hello = none
root_of (Request.set_client_id _) = none

module _ {D : Type 0} (disk : Disk D) (policy : RootPolicy) (d : D) where
  -- The root is one that the daemon cannot resolve or does not allow.
  abbrev Unserved : Option Str → MobfsError → Type 0
  Unserved none e = ⊥
  Unserved (some root) e = check disk policy root d ≡ err e

  -- The request failed and left the disk and the feeds as they were.
  abbrev pub Refused : {A : Type 0} → Io D A → Type 0
  Refused m = (f : MobfsError) × (m d ≡ (err f, d))

  once-Refused :
      (root : Str) (op_id : Option Str) (m : Io D Response) {e : MobfsError}
      → check disk policy root d ≡ err e
      → Refused m
      → Refused (once disk policy root op_id m)
  unfolding once op_done op_marker_path
  once-Refused root none m h r = r
  once-Refused root (some op_id) m {e} h r = (e, rw h)

  request-Refused :
      (scans : Scans D) (origin : ℕ) (request : Request) (e : MobfsError)
      → Unserved (root_of request) e
      → Refused (handle_request disk scans policy origin request)
  unfolding handle_request handle_list_dir handle_read_file_chunk handle_read_small_files
      handle_write_file handle_write_file_start handle_write_file_chunk handle_write_file_offset
      handle_write_file_at handle_write_file_finish make_directory make_symlink remove_entry
      rename_entry set_metadata truncate_file
  request-Refused scans origin (Request.snapshot r a) e h = (e, rw h)
  request-Refused scans origin (Request.stat r a) e h = (e, rw h)
  request-Refused scans origin (Request.list_dir r a) e h = (e, rw h)
  request-Refused scans origin (Request.read_file r a) e h = (e, rw h)
  request-Refused scans origin (Request.read_file_chunk r a b c) e h = (e, rw h)
  request-Refused scans origin (Request.read_small_files r a b c) e h = (e, rw h)
  request-Refused scans origin (Request.write_file r a b c) e h = (e, rw h)
  request-Refused scans origin (Request.write_file_start r a b) e h = (e, rw h)
  request-Refused scans origin (Request.write_file_chunk r a b c f) e h = (e, rw h)
  request-Refused scans origin (Request.write_file_offset r a b) e h = (e, rw h)
  request-Refused scans origin (Request.write_file_at r a b c) e h = (e, rw h)
  request-Refused scans origin (Request.write_file_at_binary r a b c) e h = (_, refl)
  request-Refused scans origin (Request.write_file_at_stream r a b c f) e h = (_, refl)
  request-Refused scans origin (Request.truncate r a b op_id) e h =
      once-Refused r op_id _ h (e, rw h)
  request-Refused scans origin (Request.fsync r a) e h = (e, rw h)
  request-Refused scans origin (Request.rename r a b op_id) e h = once-Refused r op_id _ h (e, rw h)
  request-Refused scans origin (Request.write_file_finish r a b c f) e h = (e, rw h)
  request-Refused scans origin (Request.symlink r a b op_id) e h =
      once-Refused r op_id _ h (e, rw h)
  request-Refused scans origin (Request.set_metadata r a b c op_id) e h =
      once-Refused r op_id _ h (e, rw h)
  request-Refused scans origin (Request.mkdir r a op_id) e h = once-Refused r op_id _ h (e, rw h)
  request-Refused scans origin (Request.remove r a b op_id) e h = once-Refused r op_id _ h (e, rw h)
  request-Refused scans origin (Request.run r a) e h = (_, refl)
  request-Refused scans origin (Request.read_range r a b c) e h = (_, refl)
  request-Refused scans origin (Request.snapshot_meta r a b) e h = (e, rw h)
  request-Refused scans origin (Request.watch_changes r a b c f) e h = (e, rw h)
  request-Refused scans origin (Request.stat_fs r) e h = (e, rw h)
  request-Refused scans origin (Request.search r a b c) e h = (e, rw h)
  request-Refused scans origin Request.hello e h = absurd h
  request-Refused scans origin (Request.set_client_id id) e h = absurd h

  -- handle_request does nothing for a root that the daemon cannot resolve or does not allow.
  pub handle_request-Refused :
      (scans : Scans D) (origin : ℕ) (request : Request) (root : Str) {e : MobfsError}
      → root_of request ≡ some root
      → check disk policy root d ≡ err e
      → Refused (handle_request disk scans policy origin request)
  handle_request-Refused scans origin request root {e} s h =
      request-Refused scans origin request e (subst (λ r. Unserved r e) (sym s) h)
