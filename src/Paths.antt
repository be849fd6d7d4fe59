-- ===== src/Paths.antt =====
-- Relative paths: split_parent, join_rel and is_sidecar of src/vfs.rs, the ignore patterns of
-- src/local.rs, the temporary names of src/changes.rs, and safe_join of src/daemon.rs and
-- src/storage.rs.
pub mod Ignore
pub mod Join
pub mod Parent
use mobfs.Base.{
  ℕ, Bool, true, false, ◌&&◌, ◌||◌, Option, none, some, List, [], ◌∷◌, ◌++◌, ◌==◌, if◌then◌else◌,
  any,
}
use mobfs.Base.Str.{Str, codes, str_eq, starts_with, contains, contains_char, split, rsplit_once}
use mobfs.Error.{Result, ok, err, MobfsError, invalid_path}

abbrev pub slash : ℕ
slash = b'/'

abbrev or_whole : Str → Option (Str × Str) → Str × Str
or_whole path none = ([], path)
or_whole path (some p) = p

unfoldable pub split_parent : Str → Str × Str
split_parent path = or_whole path (rsplit_once slash path)

unfoldable pub join_rel : Str → Str → Str
join_rel [] name = name
join_rel (c ∷ parent) name = (c ∷ parent) ++ (slash ∷ name)

unfoldable pub is_sidecar : Str → Bool
is_sidecar path =
    let name = (split_parent path).1 in
    starts_with name (codes "._") || str_eq name (codes ".DS_Store")

-- pattern.strip_suffix('*')
unfoldable pub strip_star : Str → Option Str
strip_star [] = none
strip_star (c ∷ []) = if c == b'*' then some [] else none
strip_star (c ∷ (d ∷ s)) = elim (strip_star (d ∷ s)) [ none ↦ none | some r ↦ some (c ∷ r) ]

abbrev pub part_has_prefix : Str → Option Str → Bool
part_has_prefix part none = false
part_has_prefix part (some prefix) = starts_with part prefix

unfoldable pub should_ignore_part : Str → List Str → Bool
should_ignore_part part ignore =
    any (λ pattern. str_eq pattern part || part_has_prefix part (strip_star pattern)) ignore

unfoldable pub should_ignore_rel : List Str → Str → Bool
should_ignore_rel ignore rel = any (λ part. should_ignore_part part ignore) (split slash rel)

-- rel.rsplit('/').next(): what stands behind the last slash
unfoldable pub is_daemon_temp : Str → Bool
is_daemon_temp rel =
    let name = (split_parent rel).1 in
    contains name (codes ".mobfs-upload-") || contains name (codes ".mobfs-tmp-")

-- std::path::Component, and a path as the sequence of its components
pub data Component : Type 0 where
  root_dir cur_dir parent_dir : Component
  normal : Str → Component

abbrev pub FilePath : Type 0
FilePath = List Component

-- One part of a path text between slashes. `first` says that nothing stands before it.
abbrev part_component : Bool → Str → Option Component
part_component first part =
    if str_eq part []
    then if first then some root_dir else none
    else if str_eq part (codes ".")
    then if first then some cur_dir else none
    else if str_eq part (codes "..")
    then some parent_dir
    else some (normal part)

abbrev pub cons_some {ℓ} : {A : Type ℓ} → Option A → List A → List A
cons_some none xs = xs
cons_some (some x) xs = x ∷ xs

unfoldable pub later_components : List Str → FilePath
later_components [] = []
later_components (part ∷ parts) = cons_some (part_component false part) (later_components parts)

first_components : List Str → FilePath
first_components [] = []
first_components (part ∷ parts) = cons_some (part_component true part) (later_components parts)

-- Path::new(rel).components(), as the standard library documents it: empty parts and `.` are
-- skipped, but a leading `/` is the root and a leading `.` stays. The empty text has none.
unfoldable pub components : Str → FilePath
unfolding later_components first_components
components [] = []
components (c ∷ rel) = first_components (split slash (c ∷ rel))

-- The loop of `safe_join`: push the normal components, refuse any other.
unfoldable pub push_components : Str → FilePath → FilePath → Result FilePath
push_components rel path [] = ok path
push_components rel path (normal value ∷ rest) =
    push_components rel (path ++ (normal value ∷ [])) rest
push_components rel path (root_dir ∷ rest) = err (invalid_path rel)
push_components rel path (cur_dir ∷ rest) = err (invalid_path rel)
push_components rel path (parent_dir ∷ rest) = err (invalid_path rel)

abbrev pub component_eq : Component → Component → Bool
component_eq root_dir root_dir = true
component_eq cur_dir cur_dir = true
component_eq parent_dir parent_dir = true
component_eq (normal a) (normal b) = str_eq a b
component_eq _ _ = false

-- path.starts_with(root), by components
unfoldable pub path_starts_with : FilePath → FilePath → Bool
path_starts_with path [] = true
path_starts_with [] (c ∷ root) = false
path_starts_with (d ∷ path) (c ∷ root) = component_eq d c && path_starts_with path root

under_root : FilePath → Str → Result FilePath → Result FilePath
under_root root rel (err e) = err e
under_root root rel (ok path) =
    if path_starts_with path root then ok path else err (invalid_path rel)

unfoldable pub safe_join : FilePath → Str → Result FilePath
unfolding under_root
safe_join root rel = under_root root rel (push_components rel root (components rel))
