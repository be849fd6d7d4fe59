-- ===== src/Sync.antt =====
-- src/sync.rs: the commands push, pull and sync, which apply the plans of src/snapshot.rs. The
-- storage client and the local workspace are interfaces; what is printed is left out, and the
-- configuration is loaded already.
pub mod Keeps
pub mod DryRun
pub mod Directories
use mobfs.Base.{
  ℕ, Bool, true, false, not, ◌&&◌, Option, none, some, List, [], ◌∷◌, ◌++◌, length, any,
  if◌then◌else◌,
}
use mobfs.Base.Str.{Str, codes}
use mobfs.Base.Order.{list_ord, nat_ord}
use mobfs.Base.Map.{get}
use mobfs.Error.{Done, MobfsError, Result, ok, err, invalid_path}
use mobfs.Paths.{FilePath, Component, normal, components}
use mobfs.Snapshot.{
  EntryMeta, Entries, Snapshot, PlanItem, put, download, delete_local, delete_remote, conflict, dir,
  file, kind_eq, push_items, pull_items, sync_items,
}
use mobfs.Disk.{Io, ◌>>=◌, ◌>>◌, pure, fail, lift, attempt}
use mobfs.Daemon.{split_last, with_name}

-- StorageClient of src/storage.rs
pub record StorageClient (W : Type 0) : Type 0 where
  pub snapshot : Io W Snapshot
  pub upload_file : Str → Io W Unit
  pub download_file : Str → EntryMeta → Io W Unit
  pub remove : Str → EntryMeta → Io W Unit
  pub mkdir_p : Str → Io W Unit

-- the workspace: its scans of src/local.rs, and the calls on its files
pub record Workspace (W : Type 0) : Type 0 where
  pub root : FilePath
  pub snapshot : Io W Snapshot
  pub load_snapshot : Io W Snapshot
  pub save_snapshot : Snapshot → Io W Unit
  pub display : FilePath → Str
  pub is_dir : FilePath → W → Bool
  pub is_file : FilePath → W → Bool
  pub exists : FilePath → W → Bool
  pub remove_dir_all : FilePath → Io W Unit
  pub remove_file : FilePath → Io W Unit
  pub create_dir_all : FilePath → Io W Unit
  pub copy : FilePath → FilePath → Io W Unit
  pub rename : FilePath → FilePath → Io W Unit

abbrev is_conflict : PlanItem → Bool
is_conflict (conflict _) = true
is_conflict _ = false

abbrev unresolved : Str
unresolved =
    codes
      "sync stopped because both sides changed the same path; local and remote conflict copies were written next to conflicted files. Resolve by choosing or merging the .mobfs-conflict-local and .mobfs-conflict-remote files, then run `mobfs sync` again"

module _ {W : Type 0} (client : StorageClient W) (local : Workspace W) where
  -- config.local.root.join(rel)
  abbrev local_path : Str → FilePath
  local_path rel = local.root ++ components rel

  abbrev remove_path : FilePath → Bool → Bool → Io W Unit
  remove_path path true present = local.remove_dir_all path
  remove_path path false true = local.remove_file path
  remove_path path false false = pure tt

  unfoldable pub remove_local : Str → Io W Unit
  remove_local rel = λ w.
      let path = local_path rel in remove_path path (local.is_dir path w) (local.exists path w) w

  abbrev with_entry : Option EntryMeta → (EntryMeta → Io W Unit) → Io W Unit
  with_entry none action = pure tt
  with_entry (some meta) action = action meta

  abbrev apply_item : Snapshot → PlanItem → Io W Unit
  apply_item remote (put rel) = client.upload_file rel
  apply_item remote (download rel) = with_entry (get remote.entries rel) (client.download_file rel)
  apply_item remote (delete_local rel) = remove_local rel
  apply_item remote (delete_remote rel) = with_entry (get remote.entries rel) (client.remove rel)
  apply_item remote (conflict rel) = pure tt

  unfoldable pub apply_plan : Snapshot → List PlanItem → Io W Unit
  unfolding remove_local
  apply_plan remote [] = pure tt
  apply_plan remote (item ∷ plan) =
      let later = apply_plan remote plan in do apply_item remote item; later

  ensure_dirs : (Str → Io W Unit) → Entries → Io W Unit
  ensure_dirs make [] = pure tt
  ensure_dirs make ((rel, meta) ∷ entries) =
      let later = ensure_dirs make entries in
      if kind_eq meta.kind dir then (make rel >> later) else later

  unfoldable pub ensure_local_dirs : Snapshot → Io W Unit
  unfolding ensure_dirs
  ensure_local_dirs remote =
      ensure_dirs (λ rel. local.create_dir_all (local_path rel)) remote.entries

  unfoldable pub ensure_remote_dirs : Snapshot → Io W Unit
  unfolding ensure_dirs
  ensure_remote_dirs scan = ensure_dirs client.mkdir_p scan.entries

  abbrev push_item : Snapshot → PlanItem → Io W Unit
  push_item remote (put rel) = client.upload_file rel
  push_item remote (delete_remote rel) = with_entry (get remote.entries rel) (client.remove rel)
  push_item remote _ = pure tt

  push_each : Snapshot → List PlanItem → Io W Unit
  push_each remote [] = pure tt
  push_each remote (item ∷ plan) =
      let later = push_each remote plan in do push_item remote item; later

  -- push_plan: the number of changes
  unfoldable pub push_plan : Snapshot → Bool → Bool → Io W ℕ
  unfolding ensure_remote_dirs push_each
  push_plan scan delete dry_run = do
    remote ← client.snapshot
    ensure_remote_dirs scan
    let plan = push_items scan remote delete
    if dry_run then pure (length plan) else do push_each remote plan; pure (length plan)

  abbrev keep_remote_copy : FilePath → FilePath → Done → Io W Unit
  keep_remote_copy path copy (ok _) = local.rename path copy
  keep_remote_copy path copy (err e) = pure tt

  abbrev copy_remote : Str → FilePath → FilePath → FilePath → Option EntryMeta → Io W Unit
  copy_remote rel path swap copy none = pure tt
  copy_remote rel path swap copy (some meta) = if not (kind_eq meta.kind file) then pure tt else do
    local.rename path swap
    result ← attempt (client.download_file rel meta)
    keep_remote_copy path copy result
    local.rename swap path
    lift result

  abbrev write_copies : Snapshot → Str → FilePath → Option (FilePath × Component) → Io W Unit
  write_copies remote rel path (some (front, normal name)) = do
    local.copy path (front ++ (normal (name ++ codes ".mobfs-conflict-local") ∷ []))
    copy_remote rel path
        (front ++ (normal (codes "." ++ (name ++ codes ".mobfs-conflict-swap")) ∷ []))
        (front ++ (normal (name ++ codes ".mobfs-conflict-remote") ∷ [])) (get remote.entries rel)
  write_copies remote rel path _ = fail (invalid_path (local.display path))

  unfoldable pub write_conflict_artifacts : Snapshot → Str → Io W Unit
  write_conflict_artifacts remote rel = λ w.
      let path = local_path rel in
      (if local.is_file path w then write_copies remote rel path (split_last path) else pure tt) w

  abbrev artifacts_of : Snapshot → PlanItem → Io W Unit
  artifacts_of remote (conflict rel) = write_conflict_artifacts remote rel
  artifacts_of remote _ = pure tt

  write_conflicts : Snapshot → List PlanItem → Io W Unit
  write_conflicts remote [] = pure tt
  write_conflicts remote (item ∷ plan) =
      let later = write_conflicts remote plan in do artifacts_of remote item; later

  report_conflicts : Snapshot → List PlanItem → Io W Unit
  unfolding write_conflicts write_conflict_artifacts
  report_conflicts remote plan = do write_conflicts remote plan; fail (MobfsError.remote unresolved)

-- The commands, each with the call of StorageClient::connect where it stands.
module _ {W : Type 0} (connect : Io W (StorageClient W)) (local : Workspace W) where
  unfoldable pub push : Bool → Bool → Io W Unit
  unfolding push_plan
  push delete dry_run = do
    scan ← local.snapshot
    client ← connect
    push_plan client local scan delete dry_run
    remote ← client.snapshot
    local.save_snapshot remote

  unfoldable pub pull : Bool → Bool → Io W Unit
  unfolding ensure_local_dirs apply_plan
  pull delete dry_run = do
    client ← connect
    remote ← client.snapshot
    scan ← local.snapshot
    let plan = pull_items scan remote delete
    if dry_run then pure tt else do
      ensure_local_dirs client local remote
      apply_plan client local remote plan
      local.save_snapshot remote

  unfoldable pub sync : Bool → Bool → Io W Unit
  unfolding apply_plan report_conflicts
  sync delete dry_run = do
    base ← local.load_snapshot
    scan ← local.snapshot
    client ← connect
    remote ← client.snapshot
    let plan = sync_items base scan remote delete
    if any is_conflict plan
        then report_conflicts client local remote plan
        else if dry_run
        then pure tt
        else do
          apply_plan client local remote plan
          after ← client.snapshot
          local.save_snapshot after
