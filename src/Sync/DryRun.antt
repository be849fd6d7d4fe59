-- ===== src/Sync/DryRun.antt =====
-- src/sync.rs: what the dry runs of the commands change.
use mobfs.Base.Str.{Str}
use mobfs.Base.Order.{list_ord, nat_ord}
use mobfs.Paths.{FilePath}
use mobfs.Snapshot.{EntryMeta, Snapshot}
use mobfs.Disk.{◌>>=◌}
use mobfs.Sync.{StorageClient, Workspace}
use mobfs.Sync.Keeps.{Keeps}

module _ {W V : Type 0} (client : StorageClient W) (local : Workspace W) (view : W → V) where
  -- The calls that are not to change the remote side keep this view of it: those on the local files,
  -- the scans, and the download of a file.
  pub record KeepsRemote : Type 0 where
    pub snapshot : Keeps view client.snapshot
    pub download_file : (rel : Str) (meta : EntryMeta) → Keeps view (client.download_file rel meta)
    pub scan : Keeps view local.snapshot
    pub load_snapshot : Keeps view local.load_snapshot
    pub copy : (from to : FilePath) → Keeps view (local.copy from to)
    pub rename : (from to : FilePath) → Keeps view (local.rename from to)
