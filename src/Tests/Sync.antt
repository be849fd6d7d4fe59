-- ===== src/Tests/Sync.antt =====
-- The commands on a remote side that only remembers its directories.
use mobfs.Base.{◌≡◌, refl, inl, Bool, true, false, none, List, [], ◌∷◌, any, arith}
use mobfs.Base.Str.{Str, codes, str_eq, str_eq_iff}
use mobfs.Base.Int.{pos}
use mobfs.Base.Order.{list_ord, nat_ord}
use mobfs.Base.Map.{keys}
use mobfs.Error.{ok}
use mobfs.Snapshot.{EntryMeta, Snapshot, dir, push_items}
use mobfs.Disk.{Io, pure}
use mobfs.Sync.{StorageClient, Workspace, push_plan, ensure_remote_dirs}
use mobfs.Sync.Keeps.{Keeps}
use mobfs.Sync.Directories.{Directories, push_plan_makes_dirs}

abbrev Dirs : Type 0
Dirs = List Str

abbrev nothing : Snapshot
nothing = record { entries = [] }

abbrev make : Str → Io Dirs Unit
make rel dirs = (ok tt, rel ∷ dirs)

abbrev client : StorageClient Dirs
client = record {
  snapshot = pure nothing;
  upload_file = λ rel. pure tt;
  download_file = λ rel meta. pure tt;
  remove = λ rel meta. pure tt;
  mkdir_p = make;
}

abbrev photos : EntryMeta
photos = record {
  kind = dir;
  size = 0;
  modified = pos 0;
  sha256 = none;
  mode = 0;
  link_target = none;
}

abbrev scan : Snapshot
scan = record { entries = (codes "photos", photos) ∷ [] }

abbrev workspace : Workspace Dirs
workspace = record {
  root = [];
  snapshot = pure scan;
  load_snapshot = pure nothing;
  save_snapshot = λ s. pure tt;
  display = λ path. [];
  is_dir = λ path w. false;
  is_file = λ path w. false;
  exists = λ path w. false;
  remove_dir_all = λ path. pure tt;
  remove_file = λ path. pure tt;
  create_dir_all = λ path. pure tt;
  copy = λ from to. pure tt;
  rename = λ from to. pure tt;
}

abbrev has_dir : Str → Dirs → Bool
has_dir rel dirs = any (str_eq rel) dirs

client-Directories : Directories client has_dir
unfolding any
client-Directories = record {
  made = λ rel w h. ground (arith, str_eq_iff rel rel);
  kept = λ rel p w h. ground (arith, h);
}

dry_run : push_plan client workspace scan true true [] ≡ (ok 0, codes "photos" ∷ [])
unfolding push_plan ensure_remote_dirs push_items keys
dry_run = refl

push_plan_makes_dirs_example : has_dir (codes "photos") (codes "photos" ∷ []) ≡ true
push_plan_makes_dirs_example =
    push_plan_makes_dirs client workspace has_dir client-Directories scan true [] dry_run
      (codes "photos") photos (inl refl) refl

abbrev all_dirs : Dirs → Dirs
all_dirs dirs = dirs
