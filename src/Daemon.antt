-- ===== src/Daemon.antt =====
-- src/daemon.rs: which roots the daemon serves, the temporary files of uploads, and the marks that
-- let an operation that a client sends again be done once.
pub mod Requests
pub mod Dispatch
pub mod Refusal
pub mod Once
pub mod Temp
pub mod Connection
use mobfs.Base.{
  ℕ, ◌+◌, ◌*◌, ◌%◌, ◌==◌, ◌≡◌, Bool, true, false, ◌&&◌, ◌||◌, not, Option, none, some, List, [],
  ◌∷◌, ◌++◌, ltb, leb, any, all, filter, if◌then◌else◌,
}
use mobfs.Base.Str.{Str, codes}
use mobfs.Error.{Result, ok, err, MobfsError, remote, config, invalid_path}
use mobfs.Paths.{FilePath, Component, normal, root_dir, cur_dir, parent_dir, path_starts_with}
use mobfs.Protocol.{Response}
use mobfs.Disk.{Io, Disk, ◌>>=◌, ◌>>◌, pure, fail, lift, attempt, ignore_error}

pub record RootPolicy : Type 0 where
  pub allow_roots : List FilePath
  pub allow_any_root : Bool

-- ch.is_ascii_digit(), ch.is_ascii_hexdigit(), ch.is_ascii_alphanumeric()
abbrev pub between : ℕ → ℕ → ℕ → Bool
between low high c = leb low c && leb c high

abbrev pub is_digit : ℕ → Bool
is_digit c = between 48 57 c

abbrev pub is_hexdigit : ℕ → Bool
is_hexdigit c = is_digit c || (between 97 102 c || between 65 70 c)

abbrev pub is_alphanumeric : ℕ → Bool
is_alphanumeric c = is_digit c || (between 97 122 c || between 65 90 c)

-- `path.file_name()` when the path ends in a name, and the path with another name at its end
abbrev pub split_last : FilePath → Option (FilePath × Component)
split_last [] = none
split_last (c ∷ path) = last_of c path (split_last path)
  where
    last_of : Component → FilePath → Option (FilePath × Component) → Option (FilePath × Component)
    last_of c path none = some ([], c)
    last_of c path (some (front, last)) = some (c ∷ front, last)

abbrev pub name_or_file : Option (FilePath × Component) → Str
name_or_file (some (front, normal name)) = name
name_or_file _ = codes "file"

abbrev pub with_name : FilePath → Option (FilePath × Component) → Str → FilePath
with_name path (some (front, normal _)) name = front ++ (normal name ∷ [])
with_name path _ name = path ++ (normal name ∷ [])

-- path.parent(): the path without its last name
abbrev parent_of : Option (FilePath × Component) → Option FilePath
parent_of none = none
parent_of (some (front, root_dir)) = none
parent_of (some (front, _)) = some front

abbrev pub parent : FilePath → Option FilePath
parent path = parent_of (split_last path)

abbrev pub is_id_char : ℕ → Bool
is_id_char c = is_alphanumeric c || (c == 45 || c == 95)

unfoldable pub upload_temp_path : FilePath → Str → Result FilePath
upload_temp_path path upload_id =
    if not (all is_id_char upload_id)
    then err (invalid_path upload_id)
    else ok (
        with_name path (split_last path)
          (codes "." ++ (name_or_file (split_last path) ++ (codes ".mobfs-upload-" ++ upload_id))))

module _ {D : Type 0} (disk : Disk D) where
  unfoldable pub atomic_temp_path : FilePath → FilePath
  atomic_temp_path path =
      with_name path (split_last path)
        (codes "." ++ (name_or_file (split_last path) ++ (codes ".mobfs-tmp-" ++ disk.process_id)))

  canonicalize_all : List Str → D → Result (List FilePath)
  canonicalize_all [] d = ok []
  canonicalize_all (root ∷ roots) d = cons (disk.canonicalize root d) (canonicalize_all roots d)
    where
      cons : Result FilePath → Result (List FilePath) → Result (List FilePath)
      cons (err e) _ = err e
      cons (ok path) (err e) = err e
      cons (ok path) (ok paths) = ok (path ∷ paths)

  abbrev allow : Bool → Result (List FilePath) → Result RootPolicy
  allow any_root (err e) = err e
  allow any_root (ok roots) = ok (record { allow_roots = roots; allow_any_root = any_root })

  abbrev is_nil : List Str → Bool
  is_nil [] = true
  is_nil (x ∷ xs) = false

  -- RootPolicy::new
  unfoldable pub new_policy : List Str → Bool → D → Result RootPolicy
  unfolding canonicalize_all
  new_policy allow_roots allow_any_root d =
      if is_nil allow_roots && not allow_any_root
      then err (
          config (
            codes
              "mobfsd requires --allow-root for real use or --allow-any-root for explicit unsafe local testing"))
      else allow allow_any_root (canonicalize_all allow_roots d)

  abbrev pub allowed : RootPolicy → FilePath → Bool
  allowed policy root =
      policy.allow_any_root || any (λ r. path_starts_with root r) policy.allow_roots

  abbrev pub not_allowed : FilePath → MobfsError
  not_allowed root =
      remote (codes "remote root " ++ (disk.display root ++ codes " is not allowed by mobfsd"))

  abbrev checked : RootPolicy → Result FilePath → Result FilePath
  checked policy (err e) = err e
  checked policy (ok root) = if allowed policy root then ok root else err (not_allowed root)

  -- RootPolicy::check
  unfoldable pub check : RootPolicy → Str → D → Result FilePath
  check policy root d = checked policy (disk.canonicalize root d)

  abbrev pub check_root : RootPolicy → Str → Io D FilePath
  check_root policy root = λ d. (check policy root d, d)

  -- `join` of an empty name adds nothing
  abbrev pub push_name : FilePath → Str → FilePath
  push_name path [] = path
  push_name path (c ∷ name) = path ++ (normal (c ∷ name) ∷ [])

  unfoldable pub op_marker_dir : FilePath → FilePath
  op_marker_dir root =
      disk.temp_dir
      ++ (normal (codes "mobfsd") ∷ (normal (codes "ops") ∷ (normal (disk.digest root) ∷ [])))

  unfoldable pub op_marker_path : RootPolicy → Str → Str → Io D FilePath
  unfolding check op_marker_dir
  op_marker_path policy root op_id = do
    root ← check_root policy root
    pure (push_name (op_marker_dir root) (filter is_hexdigit op_id))

  unfoldable pub op_done : RootPolicy → Str → Str → Io D Bool
  unfolding op_marker_path
  op_done policy root op_id = do
    marker ← op_marker_path policy root op_id
    λ d. (ok (disk.exists marker d), d)

  -- OP_MARKER_TTL, in milliseconds
  abbrev op_marker_ttl : ℕ
  op_marker_ttl = 24 * 60 * 60 * 1000

  abbrev is_stale : Option ℕ → Bool
  is_stale none = false
  is_stale (some age) = ltb op_marker_ttl age

  prune_all : FilePath → List Str → Io D Unit
  prune_all dir [] = pure tt
  prune_all dir (name ∷ names) = λ d.
      let later = prune_all dir names in
      let path = dir ++ (normal name ∷ []) in
      if is_stale (disk.age path d)
      then (ignore_error (disk.remove_file path) >> later) d
      else later d

  abbrev prune_listed : FilePath → Result (List Str) → Io D Unit
  prune_listed dir (err e) = pure tt
  prune_listed dir (ok names) = prune_all dir names

  unfoldable pub prune_op_markers : FilePath → Io D Unit
  unfolding prune_all
  prune_op_markers dir = do names ← attempt (disk.read_dir dir); prune_listed dir names

  abbrev pub prepare_marks : Option FilePath → Io D Unit
  prepare_marks none = pure tt
  prepare_marks (some dir) = do
    disk.create_dir_all dir
    mark ← disk.next_mark
    if mark % 1024 == 0 then prune_op_markers dir else pure tt

  unfoldable pub mark_op_done : RootPolicy → Str → Str → Io D Unit
  unfolding op_marker_path prune_op_markers
  mark_op_done policy root op_id = do
    marker ← op_marker_path policy root op_id
    prepare_marks (parent marker)
    disk.create marker (codes "done")

  abbrev pub run_once : RootPolicy → Str → Str → Io D Response → Bool → Io D Response
  run_once policy root op_id action true = pure Response.ok
  run_once policy root op_id action false = do
    value ← action
    mark_op_done policy root op_id
    pure value

  -- What has an id is done once: the second time the marker is there.
  unfoldable pub once : RootPolicy → Str → Option Str → Io D Response → Io D Response
  unfolding op_done mark_op_done
  once policy root none action = action
  once policy root (some op_id) action = do
    done ← op_done policy root op_id
    run_once policy root op_id action done
