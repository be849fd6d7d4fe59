-- ===== src/Tests/Journal.antt =====
-- The journal of uploads at a disk with two files, the journal and its temporary file. A journal is
-- written with one name to a line.
use mobfs.Base.{
  Bool, true, false, ◌≡◌, refl, none, some, Option, List, [], ◌∷◌, ◌++◌, any, filter, if◌then◌else◌,
}
use mobfs.Base.Str.{Str, codes, split, str_eq}
use mobfs.Error.{Result, Done, ok, err, io, not_found}
use mobfs.Paths.{FilePath, normal, path_starts_with}
use mobfs.Protocol.{Bytes}
use mobfs.Disk.{Disk, Io, pure}
use mobfs.Journal.{
  JournalOp, upload, op_eq, with_op, without_op, load, save, record_op, complete, pending_count,
}
use mobfs.Journal.Save.{SaveLaws, Updates, record-complete_update}

abbrev Files : Type 0
Files = Option Bytes × Option Bytes

abbrev is_temp : FilePath → Bool
is_temp path =
    path_starts_with path ((normal (codes ".mobfs")) ∷ (normal (codes "journal.toml.tmp") ∷ []))

abbrev contents : Files → FilePath → Option Bytes
contents files path = if is_temp path then files.0 else files.1

abbrev put : FilePath → Bytes → Io Files Unit
put path bytes (temp, journal) =
    (ok tt, if is_temp path then (some bytes, journal) else (temp, some bytes))

abbrev read_file : Option Bytes → Result Bytes
read_file none = err (io not_found)
read_file (some bytes) = ok bytes

abbrev is_some : Option Bytes → Bool
is_some none = false
is_some (some bytes) = true

abbrev disk : Disk Files
disk = record {
  canonicalize = λ root d. ok [];
  display = λ path. [];
  digest = λ path. [];
  temp_dir = [];
  process_id = codes "7";
  exists = λ path d. is_some (contents d path);
  symlink_metadata = λ path d. err (io not_found);
  file_metadata = λ path d. err (io not_found);
  read_link = λ path d. err (io not_found);
  read_dir = λ path. pure [];
  read = λ path d. (read_file (contents d path), d);
  read_from = λ path offset len. pure [];
  create_dir_all = λ path. pure tt;
  create = put;
  write_at = λ path offset bytes. put path bytes;
  overwrite_at = λ path offset bytes. put path bytes;
  set_len = λ path size. pure tt;
  sync_all = λ path. pure tt;
  rename = λ from to d. (ok tt, (d.0, d.0));
  remove_file = λ path. pure tt;
  remove_dir_all = λ path. pure tt;
  symlink = λ target path. pure tt;
  set_mode = λ path mode. pure tt;
  set_mtime = λ path modified. pure tt;
  sha256 = λ path. pure [];
  age = λ path d. none;
  next_mark = pure 1;
  record_change = λ root origin rel kind. pure tt;
}

abbrev to_lines : List JournalOp → Bytes
to_lines [] = []
to_lines (upload rel upload_id ∷ ops) = rel ++ (10 ∷ (upload_id ++ (10 ∷ to_lines ops)))

abbrev to_toml : List JournalOp → Result Bytes
to_toml ops = ok (to_lines ops)

abbrev from_lines : List Str → List JournalOp
from_lines [] = []
from_lines (rel ∷ []) = []
from_lines (rel ∷ (upload_id ∷ lines)) = upload rel upload_id ∷ from_lines lines

abbrev from_toml : Bytes → Result (List JournalOp)
from_toml bytes = ok (from_lines (split 10 bytes))

disk_laws : SaveLaws disk [] contents
unfolding path_starts_with str_eq
disk_laws = record {
  read_keeps = λ d. refl;
  mkdir_keeps = λ d. refl;
  create_keeps = λ b d. refl;
  create_puts = λ b d h. refl;
  write_keeps = λ b d. refl;
  write_puts = λ b d h e. refl;
  sync_keeps = λ p q d. refl;
  rename_moves = λ d h. refl;
  rename_fails = λ d e h. cc;
}

abbrev a_file : JournalOp
a_file = upload (codes "a") (codes "1")

abbrev nothing : Files
nothing = (none, none)

abbrev recorded : Done × Files
recorded = record_op disk [] to_toml from_toml a_file nothing

-- the text of the only operation, in both files, and what is read back from it
record_writes : recorded ≡ (
  ok tt,
  (
    some (codes "a" ++ (10 ∷ (codes "1" ++ (10 ∷ [])))),
    some (codes "a" ++ (10 ∷ (codes "1" ++ (10 ∷ [])))),
  ),
)
unfolding record_op load save any path_starts_with str_eq
record_writes = refl

one_pending : (pending_count disk [] to_toml from_toml recorded.1).0 ≡ ok 1
unfolding pending_count record_op load save any path_starts_with str_eq split
one_pending = refl

completed_leaves_none :
    (pending_count disk [] to_toml from_toml
      (complete disk [] to_toml from_toml a_file recorded.1).1).0
    ≡ ok 0
unfolding pending_count complete record_op load save any filter op_eq path_starts_with str_eq split
completed_leaves_none = refl

record-complete_update_example :
    Updates disk [] contents disk_laws to_toml from_toml
      (with_op a_file)
      (record_op disk [] to_toml from_toml a_file)
      nothing
    × Updates disk [] contents disk_laws to_toml from_toml
        (without_op a_file)
        (complete disk [] to_toml from_toml a_file)
        nothing
record-complete_update_example =
    record-complete_update disk [] contents disk_laws to_toml from_toml a_file nothing
