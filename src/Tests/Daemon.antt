-- ===== src/Tests/Daemon.antt =====
-- The daemon: the theorems on a disk that only remembers which files were made.
use mobfs.Base.{
  ◌≡◌, ◌≢◌, refl, subst, Bool, true, false, none, some, List, [], ◌∷◌, ◌++◌, append-nil, any, all,
  filter,
}
use mobfs.Base.Str.{Str, codes, str_eq, split}
use mobfs.Error.{ok, err, io, not_found}
use mobfs.Paths.{FilePath, normal, components, path_starts_with, safe_join, push_components}
use mobfs.Paths.Join.{path_starts_with-append}
use mobfs.Protocol.{Bytes, Request, Response}
use mobfs.Disk.{Disk, Io, pure, fail}
use mobfs.Daemon.{
  RootPolicy, check, not_allowed, once, op_done, op_marker_dir, op_marker_path, mark_op_done,
  upload_temp_path,
}
use mobfs.Daemon.Dispatch.{Scans, handle_request, make_directory}
use mobfs.Daemon.Refusal.{Refused}
use mobfs.Daemon.Requests.{handle_write_file_at_bytes}
use mobfs.Daemon.Connection.{Channel, handle_write_file_at_stream, read_range}
use mobfs.Daemon.Connection.Refusal.{unserved-Refused}
use mobfs.Daemon.Once.{ExistsWhenCreated, once_again}
use mobfs.Remote.Retry.{DoneOnce, answer_lost, answered, once-DoneOnce, run_op}
use mobfs.Daemon.Temp.{upload_temp_path_beside, upload_temp_path_outside}

-- the files that were made
abbrev Made : Type 0
Made = List FilePath

abbrev srv : FilePath
srv = normal (codes "srv") ∷ []

abbrev is_made : FilePath → Made → Bool
is_made path made = any (λ q. path_starts_with q path) made

abbrev make : FilePath → Bytes → Io Made Unit
make path bytes made = (ok tt, path ∷ made)

abbrev disk : Disk Made
disk = record {
  canonicalize = λ root d. ok srv;
  display = λ path. codes "/srv";
  digest = λ path. codes "ab";
  temp_dir = normal (codes "tmp") ∷ [];
  process_id = codes "7";
  exists = is_made;
  symlink_metadata = λ path d. err (io not_found);
  file_metadata = λ path d. err (io not_found);
  read_link = λ path d. err (io not_found);
  read_dir = λ path. pure [];
  read = λ path. pure [];
  read_from = λ path offset len. pure [];
  create_dir_all = λ path. make path [];
  create = make;
  write_at = λ path offset bytes. make path bytes;
  overwrite_at = λ path offset bytes. pure tt;
  set_len = λ path size. make path [];
  sync_all = λ path. pure tt;
  rename = λ from to. make to [];
  remove_file = λ path. pure tt;
  remove_dir_all = λ path. pure tt;
  symlink = λ target path. make path [];
  set_mode = λ path mode. pure tt;
  set_mtime = λ path modified. pure tt;
  sha256 = λ path. pure [];
  age = λ path d. none;
  next_mark = pure 1;
  record_change = λ root origin rel kind. pure tt;
}

abbrev scans : Scans Made
scans = record {
  snapshot = λ root ignore. pure (record { entries = [] });
  snapshot_meta = λ root ignore limit. pure (record { entries = [] }, []);
  fs_stats = λ root. fail (io not_found);
  search = λ root query ignore limit. pure [];
  wait = λ root client epoch since ignore timeout. fail (io not_found);
}

abbrev open_policy : RootPolicy
open_policy = record { allow_roots = []; allow_any_root = true }

abbrev closed_policy : RootPolicy
closed_policy = record { allow_roots = (normal (codes "home") ∷ []) ∷ []; allow_any_root = false }

not_served : check disk closed_policy (codes "/srv") [] ≡ err (not_allowed disk srv)
unfolding check any path_starts_with split str_eq
not_served = refl

abbrev silent : Channel Made
silent = record {
  read_request = pure Request.hello;
  write_response = λ response. pure tt;
  read_encrypted = pure [];
  write_encrypted = λ bytes. pure tt;
}

unserved-Refused_example :
    Refused disk closed_policy []
      (handle_request disk scans closed_policy 1 (Request.mkdir (codes "/srv") (codes "d") none))
    × Refused disk closed_policy [] (
        handle_write_file_at_stream disk silent 3 closed_policy 1
          (codes "/srv")
          (codes "d")
          0
          2
          (some (codes "a1")))
    × Refused disk closed_policy []
        (read_range disk silent closed_policy (codes "/srv") (codes "d") 0 2)
    × Refused disk closed_policy []
        (handle_write_file_at_bytes disk closed_policy (codes "/srv") (codes "d") 0 (1 ∷ []))
unserved-Refused_example =
    unserved-Refused disk silent closed_policy [] scans 3 1
      (Request.mkdir (codes "/srv") (codes "d") none) (codes "/srv") (codes "d") 0 2
      (some (codes "a1")) (1 ∷ []) refl not_served

steady : (d : Made) → check disk open_policy (codes "/srv") d ≡ ok srv
unfolding check
steady d = refl

created : ExistsWhenCreated disk
unfolding any
created path bytes d h =
    let found : path_starts_with path path ≡ true =
      subst (λ p. path_starts_with p path ≡ true) (append-nil path)
        (path_starts_with-append path []) in
    rw found

abbrev mkdir : Io Made Response
mkdir = make_directory disk open_policy 1 (codes "/srv") (codes "d")

abbrev made : Made
made = (once disk open_policy (codes "/srv") (some (codes "a1")) mkdir []).1

first_run :
    once disk open_policy (codes "/srv") (some (codes "a1")) mkdir [] ≡ (ok Response.ok, made)
unfolding once op_done op_marker_path check op_marker_dir filter any make_directory safe_join
    push_components components mark_op_done path_starts_with split str_eq
first_run = refl

once_again_instance :
    once disk open_policy (codes "/srv") (some (codes "a1")) mkdir made ≡ (ok Response.ok, made)
once_again_instance =
    once_again disk open_policy (codes "/srv") (codes "a1") srv steady created mkdir mkdir []
      first_run

-- the first answer is lost, the second comes through
once-DoneOnce_example : DoneOnce [] made (
    run_op
      (once disk open_policy (codes "/srv") (some (codes "a1")) mkdir)
      12
      (answer_lost ∷ (answered ∷ []))
      [])
once-DoneOnce_example =
    once-DoneOnce disk open_policy (codes "/srv") (codes "a1") srv mkdir [] steady created first_run
      12 (answer_lost ∷ (answered ∷ []))

abbrev upload : FilePath
upload = srv ++ (normal (codes ".a.mobfs-upload-x1") ∷ [])

joined : safe_join srv (codes "a") ≡ ok (srv ++ (normal (codes "a") ∷ []))
unfolding safe_join push_components components path_starts_with split str_eq
joined = refl

a_name : components (codes "a") ≢ []
unfolding components split str_eq
a_name e = cc

upload_temp_path_beside_instance :
    (front : FilePath) × (last : Str) × (name : Str) × (srv ++ (normal (codes "a") ∷ [])
      ≡ srv ++ (front ++ (normal last ∷ [])))
    × (upload ≡ srv ++ (front ++ (normal name ∷ [])))
upload_temp_path_beside_instance =
    upload_temp_path_beside srv (codes "a") (codes "x1") a_name joined
      (unfold upload_temp_path all in refl)

root_joined : safe_join srv [] ≡ ok srv
unfolding safe_join push_components components path_starts_with split str_eq
root_joined = refl

abbrev outside : FilePath
outside = normal (codes ".srv.mobfs-upload-x1") ∷ []

upload_temp_path_outside_example : path_starts_with outside srv ≡ false
upload_temp_path_outside_example =
    upload_temp_path_outside [] (codes "srv") (codes "x1") root_joined
      (unfold upload_temp_path all in refl)
