-- ===== src/Daemon/Dispatch.antt =====
-- src/daemon.rs: the other arms of handle_request, and their dispatch. The scans of whole trees
-- (snapshot, snapshot_meta, search), the figures of the file system and the wait for changes are
-- arguments.
use mobfs.Base.{ℕ, min, Bool, true, false, ◌&&◌, Option, none, some, List, if◌then◌else◌}
use mobfs.Base.Str.{Str, codes, str_eq}
use mobfs.Base.Int.{ℤ}
use mobfs.Error.{Result, ok, err, remote}
use mobfs.Paths.{FilePath, safe_join}
use mobfs.Snapshot.{EntryMeta, Snapshot}
use mobfs.Protocol.{Request, Response, FsStats, protocol_version, metadata, replaced}
use mobfs.Disk.{Io, Disk, Metadata, FileType, is_dir, ◌>>=◌, ◌>>◌, pure, fail, lift, ignore_error}
use mobfs.Changes.{WaitResult}
use mobfs.Daemon.{RootPolicy, upload_temp_path, check_root, once}
use mobfs.Daemon.Requests.{
  set_mode, set_mtime, make_parent, entry_meta_fast, handle_list_dir, handle_read_file_chunk,
  handle_read_small_files, handle_write_file, handle_write_file_start, handle_write_file_chunk,
  handle_write_file_offset, handle_write_file_at,
}

abbrev max_watch_timeout_ms : ℕ
max_watch_timeout_ms = 25000

-- the parts of the daemon that are arguments here
pub record Scans (D : Type 0) : Type 0 where
  pub snapshot : FilePath → List Str → Io D Snapshot
  pub snapshot_meta : FilePath → List Str → ℕ → Io D (Snapshot × List Str)
  pub fs_stats : FilePath → Io D FsStats
  pub search : FilePath → Str → List Str → ℕ → Io D (List (Str × EntryMeta))
  pub wait : FilePath → ℕ → ℕ → Option ℕ → List Str → ℕ → Io D WaitResult

module _ {D : Type 0} (disk : Disk D) where
  unfoldable pub truncate_file : RootPolicy → ℕ → Str → Str → ℕ → Io D Response
  truncate_file policy origin root rel size = do
    root ← check_root disk policy root
    path ← lift (safe_join root rel)
    make_parent disk path
    disk.set_len path size
    disk.record_change root origin rel replaced
    pure Response.ok

  abbrev succeeded : Result Metadata → Bool
  succeeded (ok m) = true
  succeeded (err e) = false

  -- A source that is gone is taken to have been renamed by the request's first run.
  abbrev rename_if : FilePath → FilePath → Bool → Io D Unit
  rename_if from to true = disk.rename from to
  rename_if from to false = pure tt

  unfoldable pub rename_entry : RootPolicy → ℕ → Str → Str → Str → Io D Response
  rename_entry policy origin root from to = do
    root ← check_root disk policy root
    from_path ← lift (safe_join root from)
    to_path ← lift (safe_join root to)
    make_parent disk to_path
    λ d. rename_if from_path to_path (succeeded (disk.symlink_metadata from_path d)) d
    disk.record_change root origin from replaced
    disk.record_change root origin to replaced
    pure Response.ok

  abbrev finish_upload : FilePath → FilePath → ℕ → Bool → Io D Unit
  finish_upload temp path mode true = do set_mode disk temp mode; disk.rename temp path
  finish_upload temp path mode false = do
    ignore_error (disk.remove_file temp)
    fail (remote (codes "upload checksum mismatch"))

  unfoldable pub handle_write_file_finish :
      RootPolicy → ℕ → Str → Str → Str → Str → ℕ → Io D Response
  handle_write_file_finish policy origin root rel upload_id sha256 mode = do
    root ← check_root disk policy root
    path ← lift (safe_join root rel)
    temp ← lift (upload_temp_path path upload_id)
    actual ← disk.sha256 temp
    finish_upload temp path mode (str_eq actual sha256)
    disk.record_change root origin rel replaced
    pure Response.ok

  -- on the platforms that have links
  unfoldable pub make_symlink : RootPolicy → ℕ → Str → Str → Str → Io D Response
  make_symlink policy origin root rel target = do
    root ← check_root disk policy root
    path ← lift (safe_join root rel)
    make_parent disk path
    ignore_error (disk.remove_file path)
    disk.symlink target path
    disk.record_change root origin rel replaced
    pure Response.ok

  abbrev when_some {ℓ} : {A : Type ℓ} → Option A → (A → Io D Unit) → Io D Unit
  when_some none action = pure tt
  when_some (some a) action = action a

  unfoldable pub set_metadata : RootPolicy → ℕ → Str → Str → Option ℕ → Option ℤ → Io D Response
  set_metadata policy origin root rel mode modified = do
    root ← check_root disk policy root
    path ← lift (safe_join root rel)
    when_some mode (set_mode disk path)
    when_some modified (set_mtime disk path)
    disk.record_change root origin rel metadata
    pure Response.ok

  unfoldable pub make_directory : RootPolicy → ℕ → Str → Str → Io D Response
  make_directory policy origin root rel = do
    root ← check_root disk policy root
    path ← lift (safe_join root rel)
    disk.create_dir_all path
    disk.record_change root origin rel replaced
    pure Response.ok

  abbrev is_directory : FileType → Bool
  is_directory is_dir = true
  is_directory _ = false

  abbrev remove_existing : FilePath → Bool → Result Metadata → Io D Unit
  remove_existing path dir (err e) = pure tt
  remove_existing path dir (ok m) =
      if dir && is_directory m.file_type then disk.remove_dir_all path else disk.remove_file path

  unfoldable pub remove_entry : RootPolicy → ℕ → Str → Str → Bool → Io D Response
  remove_entry policy origin root rel dir = do
    root ← check_root disk policy root
    path ← lift (safe_join root rel)
    λ d. remove_existing path dir (disk.symlink_metadata path d) d
    disk.record_change root origin rel replaced
    pure Response.ok

  abbrev changes_of : WaitResult → Response
  changes_of r = Response.changes r.epoch r.cursor r.events r.reset r.live

  -- handle_request, for the client `origin`
  unfoldable pub handle_request : Scans D → RootPolicy → ℕ → Request → Io D Response
  handle_request scans policy origin Request.hello = pure (Response.hello protocol_version)
  handle_request scans policy origin (Request.snapshot root ignore) = do
    root ← check_root disk policy root
    snapshot ← scans.snapshot root ignore
    pure (Response.snapshot snapshot)
  handle_request scans policy origin (Request.stat root rel) = do
    root ← check_root disk policy root
    path ← lift (safe_join root rel)
    meta ← entry_meta_fast disk path
    pure (Response.stat meta)
  handle_request scans policy origin (Request.list_dir root rel) =
      handle_list_dir disk policy root rel
  handle_request scans policy origin (Request.read_file root rel) = do
    root ← check_root disk policy root
    path ← lift (safe_join root rel)
    bytes ← disk.read path
    pure (Response.file bytes)
  handle_request scans policy origin (Request.read_file_chunk root rel offset len) =
      handle_read_file_chunk disk policy root rel offset len
  handle_request scans policy origin (Request.read_small_files root rels max_file max_total) =
      handle_read_small_files disk policy root rels max_file max_total
  handle_request scans policy origin (Request.write_file root rel bytes mode) =
      handle_write_file disk policy origin root rel bytes mode
  handle_request scans policy origin (Request.write_file_start root rel upload_id) =
      handle_write_file_start disk policy root rel upload_id
  handle_request scans policy origin (Request.write_file_chunk root rel upload_id offset bytes) =
      handle_write_file_chunk disk policy root rel upload_id offset bytes
  handle_request scans policy origin (Request.write_file_offset root rel upload_id) =
      handle_write_file_offset disk policy root rel upload_id
  handle_request scans policy origin (Request.write_file_at root rel offset bytes) =
      handle_write_file_at disk policy origin root rel offset bytes
  handle_request scans policy origin (Request.write_file_at_binary _ _ _ _) =
      fail (remote (codes "binary write requests are streamed"))
  handle_request scans policy origin (Request.write_file_at_stream _ _ _ _ _) =
      fail (remote (codes "binary write requests are streamed"))
  handle_request scans policy origin (Request.truncate root rel size op_id) =
      once disk policy root op_id (truncate_file policy origin root rel size)
  handle_request scans policy origin (Request.fsync root rel) = do
    root ← check_root disk policy root
    path ← lift (safe_join root rel)
    disk.sync_all path
    pure Response.ok
  handle_request scans policy origin (Request.rename root from to op_id) =
      once disk policy root op_id (rename_entry policy origin root from to)
  handle_request scans policy origin (Request.write_file_finish root rel upload_id sha256 mode) =
      handle_write_file_finish policy origin root rel upload_id sha256 mode
  handle_request scans policy origin (Request.symlink root rel target op_id) =
      once disk policy root op_id (make_symlink policy origin root rel target)
  handle_request scans policy origin (Request.set_metadata root rel mode modified op_id) =
      once disk policy root op_id (set_metadata policy origin root rel mode modified)
  handle_request scans policy origin (Request.mkdir root rel op_id) =
      once disk policy root op_id (make_directory policy origin root rel)
  handle_request scans policy origin (Request.remove root rel dir op_id) =
      once disk policy root op_id (remove_entry policy origin root rel dir)
  handle_request scans policy origin (Request.run _ _) =
      fail (remote (codes "run requests are streamed"))
  handle_request scans policy origin (Request.set_client_id _) =
      fail (remote (codes "connection-scoped requests are handled by the client loop"))
  handle_request scans policy origin (Request.read_range _ _ _ _) =
      fail (remote (codes "connection-scoped requests are handled by the client loop"))
  handle_request scans policy origin (Request.snapshot_meta root ignore max_entries) = do
    root ← check_root disk policy root
    scan ← scans.snapshot_meta root ignore max_entries
    pure (Response.snapshot_meta scan.0 scan.1)
  handle_request scans policy origin (Request.watch_changes root ignore epoch since timeout_ms) = do
    root ← check_root disk policy root
    result ← scans.wait root origin epoch since ignore (min timeout_ms max_watch_timeout_ms)
    pure (changes_of result)
  handle_request scans policy origin (Request.stat_fs root) = do
    root ← check_root disk policy root
    stats ← scans.fs_stats root
    pure (Response.stat_fs stats)
  handle_request scans policy origin (Request.search root query ignore limit) = do
    root ← check_root disk policy root
    results ← scans.search root query ignore limit
    pure (Response.search_results results)
