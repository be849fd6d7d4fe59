-- ===== src/Tests/Storage.antt =====
-- The folder backend at a disk that keeps the bytes of each path.
use mobfs.Base.{
  ◌≡◌, ◌≢◌, refl, ap, Bool, true, false, ◌&&◌, if◌then◌else◌, Bool-cases, inl, inr, none, Option,
  some, [], ◌∷◌, ◌++◌, arith,
}
use mobfs.Base.Str.{codes, split, str_eq, str_eq_iff, starts_with}
use mobfs.Base.Int.{pos}
use mobfs.Error.{Done, Result, MobfsError, ok, err, io, not_found}
use mobfs.Paths.{
  FilePath, Component, normal, root_dir, cur_dir, parent_dir, component_eq, components, safe_join,
  push_components, path_starts_with,
}
use mobfs.Protocol.{Bytes}
use mobfs.Disk.{Disk, pure, Metadata, is_file}
use mobfs.Daemon.{atomic_temp_path}
use mobfs.Storage.{upload_file, provider_noise}
use mobfs.Storage.Copy.{FileLaws, Placed, upload_file_lem}

abbrev one_file : Metadata
one_file = record { file_type = is_file; len = 2; modified = pos 1; mode = 0o644 }

-- the bytes of each path
abbrev Files : Type 0
Files = FilePath → Option Bytes

path_eq : FilePath → FilePath → Bool
path_eq [] [] = true
path_eq (c ∷ p) (d ∷ q) = component_eq c d && path_eq p q
path_eq _ _ = false

component_eq-eq : (c d : Component) → component_eq c d ≡ true → c ≡ d
component_eq-eq root_dir root_dir h = refl
component_eq-eq cur_dir cur_dir h = refl
component_eq-eq parent_dir parent_dir h = refl
component_eq-eq (normal a) (normal b) h = ap normal ((str_eq_iff a b).0 h)
component_eq-eq _ _ h = absurd (cc)

component_eq_refl : (c : Component) → component_eq c c ≡ true
component_eq_refl root_dir = refl
component_eq_refl cur_dir = refl
component_eq_refl parent_dir = refl
component_eq_refl (normal a) = (str_eq_iff a a).1 refl

path_eq-eq : (p q : FilePath) → path_eq p q ≡ true → p ≡ q
unfolding path_eq
path_eq-eq [] [] h = refl
path_eq-eq [] (d ∷ q) h = cc
path_eq-eq (c ∷ p) [] h = cc
path_eq-eq (c ∷ p) (d ∷ q) h =
    let first = component_eq-eq c d (ground arith) in let rest = path_eq-eq p q (ground arith) in cc

path_eq_refl : (p : FilePath) → path_eq p p ≡ true
unfolding path_eq
path_eq_refl [] = refl
path_eq_refl (c ∷ p) = rw (component_eq_refl c) (path_eq_refl p)

path_eq-ne : (p q : FilePath) → p ≢ q → path_eq p q ≡ false
path_eq-ne p q h = elim (Bool-cases (path_eq p q)) [
  | inl e ↦ absurd (h (path_eq-eq p q e))
  | inr e ↦ e
]

abbrev put : FilePath → Option Bytes → Files → Files
put path bytes files = λ q. if path_eq path q then bytes else files q

abbrev found : Option Bytes → Result Bytes
found none = err (io not_found)
found (some bytes) = ok bytes

abbrev move : FilePath → FilePath → Option Bytes → Files → Done × Files
move from to none files = (err (io not_found), files)
move from to (some bytes) files = (ok tt, put to (some bytes) (put from none files))

abbrev disk : Disk Files
disk = record {
  canonicalize = λ root d. ok [];
  display = λ path. [];
  digest = λ path. [];
  temp_dir = [];
  process_id = codes "7";
  exists = λ path d. false;
  symlink_metadata = λ path d. ok one_file;
  file_metadata = λ path d. ok one_file;
  read_link = λ path d. err (io not_found);
  read_dir = λ path. pure [];
  read = λ path d. (found (d path), d);
  read_from = λ path offset len. pure [];
  create_dir_all = λ path. pure tt;
  create = λ path bytes d. (ok tt, put path (some bytes) d);
  write_at = λ path offset bytes. pure tt;
  overwrite_at = λ path offset bytes. pure tt;
  set_len = λ path size. pure tt;
  sync_all = λ path. pure tt;
  rename = λ from to d. move from to (d from) d;
  remove_file = λ path. pure tt;
  remove_dir_all = λ path. pure tt;
  symlink = λ target path. pure tt;
  set_mode = λ path mode. pure tt;
  set_mtime = λ path modified. pure tt;
  sha256 = λ path. pure [];
  age = λ path d. none;
  next_mark = pure 1;
  record_change = λ root origin rel kind. pure tt;
}

abbrev contents : Files → FilePath → Option Bytes
contents files path = files path

found-some : (o : Option Bytes) (b : Bytes) → found o ≡ ok b → o ≡ some b
found-some none b h = cc
found-some (some x) b h = cc

moved_there :
    (from to : FilePath) (o : Option Bytes) (d : Files)
    → (move from to o d).0 ≡ ok tt
    → (move from to o d).1 to ≡ o
moved_there from to none d h = cc
moved_there from to (some b) d h = rw (path_eq_refl to) refl

move_failed :
    (from to : FilePath) (o : Option Bytes) (d : Files) (e : MobfsError)
    → (move from to o d).0 ≡ err e
    → (move from to o d).1 to ≡ d to
move_failed from to none d e h = refl
move_failed from to (some b) d e h = cc

move_keeps :
    (from to other : FilePath) (o : Option Bytes) (d : Files)
    → from ≢ other
    → to ≢ other
    → (move from to o d).1 other ≡ d other
move_keeps from to other none d f t = refl
move_keeps from to other (some b) d f t = rw (path_eq-ne to other t, path_eq-ne from other f) refl

disk_laws : FileLaws disk contents
disk_laws = record {
  read_finds = λ p d b h. found-some (d p) b h;
  read_keeps = λ p q d. refl;
  create_puts = λ p b d h. rw (path_eq_refl p) refl;
  create_keeps = λ p q b d h. rw (path_eq-ne p q h) refl;
  rename_moves = λ p q d h. moved_there p q (d p) d h;
  rename_fails = λ p q d e h. move_failed p q (d p) d e h;
  rename_keeps = λ p q other d h k. move_keeps p q other (d p) d h k;
  mkdir_keeps = λ p q d. refl;
  mode_keeps = λ p q mode d. refl;
}

-- a workspace at `/w` with the file `a`, and a folder at `/f` that has another version of it
abbrev workspace : FilePath
workspace = normal (codes "w") ∷ []

abbrev folder : FilePath
folder = normal (codes "f") ∷ []

abbrev files : Files
files =
    put (normal (codes "w") ∷ (normal (codes "a") ∷ [])) (some (1 ∷ (2 ∷ [])))
      (put (normal (codes "f") ∷ (normal (codes "a") ∷ [])) (some (9 ∷ [])) (λ p. none))

abbrev target : FilePath
target = normal (codes "f") ∷ (normal (codes "a") ∷ [])

joined : safe_join folder (codes "a") ≡ ok target
unfolding safe_join components push_components path_starts_with split str_eq
joined = refl

temp_apart : atomic_temp_path disk target ≢ target
unfolding atomic_temp_path
temp_apart h = cc

away : atomic_temp_path disk target ≢ workspace
unfolding atomic_temp_path
away h = cc

aside : target ≢ workspace
aside h = cc

upload_file_lem_example :
    Placed disk contents
      (workspace ++ components (codes "a"))
      target
      workspace
      files
      (upload_file disk folder workspace [] (λ root. pure []) (λ t. t) (codes "a") files)
upload_file_lem_example =
    upload_file_lem disk contents disk_laws folder workspace [] (λ root. pure []) (λ t. t)
      (codes "a") target workspace one_file files joined refl refl temp_apart away aside

-- the run of the same upload
uploaded :
    ((upload_file disk folder workspace [] (λ root. pure []) (λ t. t) (codes "a") files).0 ≡ ok tt)
    × ((upload_file disk folder workspace [] (λ root. pure []) (λ t. t) (codes "a") files).1 target
        ≡ some (1 ∷ (2 ∷ [])))
unfolding upload_file safe_join components push_components path_starts_with split str_eq path_eq
    atomic_temp_path
uploaded = (refl, refl)

-- what a syncing program leaves behind is no part of a scan
placeholder_is_noise : provider_noise (codes "a/b.icloud") ≡ true
unfolding provider_noise starts_with
placeholder_is_noise = refl
