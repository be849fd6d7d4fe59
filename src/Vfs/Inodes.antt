-- ===== src/Vfs/Inodes.antt =====
-- `Inodes` of src/vfs.rs: the numbers of the paths that a mount has handed out, and `subtree_keys`.
pub mod Subtree
pub mod Valid
pub mod Remove
pub mod Moves
pub mod Rename
use mobfs.Base.{
  ℕ, ◌+◌, Bool, true, false, ◌||◌, Option, none, some, List, [], ◌∷◌, ◌++◌, if◌then◌else◌, length,
  drop,
}
use mobfs.Base.Str.{Str, str_eq, starts_with}
use mobfs.Base.Order.{list_ord, nat_ord}
use mobfs.Base.Map.{Map, get, insert, remove, contains_key, range_from}
use mobfs.Paths.{slash}

abbrev pub root_ino : ℕ
root_ino = 1

pub record Inodes : Type 0 where
  pub by_path : Map Str ℕ
  pub by_ino : Map ℕ Str
  pub next : ℕ

-- Inodes::new
abbrev pub new : Inodes
new = record { by_path = ([], root_ino) ∷ []; by_ino = (root_ino, []) ∷ []; next = root_ino + 1 }

-- path + "/"
abbrev pub below_prefix : Str → Str
below_prefix path = path ++ (slash ∷ [])

-- the keys of the leading entries that start with the prefix
unfoldable pub take_prefix {ℓ} : {V : Type ℓ} → Str → Map Str V → List Str
take_prefix prefix [] = []
take_prefix prefix ((k, v) ∷ m) =
    let rest = take_prefix prefix m in if starts_with k prefix then k ∷ rest else []

unfoldable pub subtree_keys {ℓ} : {V : Type ℓ} → Map Str V → Str → List Str
unfolding take_prefix
subtree_keys m path =
    let rest = take_prefix (below_prefix path) (range_from m (below_prefix path)) in
    if contains_key m path then path ∷ rest else rest

-- Inodes::ino: the number of a path, a new one if it has none
abbrev with_ino : Inodes → Str → Option ℕ → Inodes × ℕ
with_ino s path (some i) = (s, i)
with_ino s path none = (
  record {
    by_path = insert s.by_path path s.next;
    by_ino = insert s.by_ino s.next path;
    next = s.next + 1;
  },
  s.next,
)

unfoldable pub ino : Inodes → Str → Inodes × ℕ
ino s path = with_ino s path (get s.by_path path)

unfoldable pub number : Inodes → Str → Option ℕ
number s path = get s.by_path path

unfoldable pub path : Inodes → ℕ → Option Str
path s i = get s.by_ino i

-- the body of the loop of `remove_tree`
abbrev pub forget : Inodes → Str → Option ℕ → Inodes
forget s key none = s
forget s key (some i) = record s { by_path = remove s.by_path key; by_ino = remove s.by_ino i }

unfoldable pub remove_keys : Inodes → List Str → Inodes
remove_keys s [] = s
remove_keys s (key ∷ keys) = remove_keys (forget s key (get s.by_path key)) keys

unfoldable pub remove_tree : Inodes → Str → Inodes
unfolding remove_keys
remove_tree s path = remove_keys s (subtree_keys s.by_path path)

-- format!("{to}{}", &key[from.len()..])
abbrev pub moved : Str → Str → Str → Str
moved from to key = to ++ drop (length from) key

-- the body of the loop of `rename`
abbrev pub move_key : Str → Str → Inodes → Str → Option ℕ → Inodes
move_key from to s key none = s
move_key from to s key (some i) = record s {
  by_path = insert (remove s.by_path key) (moved from to key) i;
  by_ino = insert s.by_ino i (moved from to key);
}

unfoldable pub move_keys : Str → Str → Inodes → List Str → Inodes
move_keys from to s [] = s
move_keys from to s (key ∷ keys) =
    move_keys from to (move_key from to s key (get s.by_path key)) keys

unfoldable pub rename : Inodes → Str → Str → Inodes
unfolding move_keys
rename s from to = let s' = remove_tree s to in move_keys from to s' (subtree_keys s'.by_path from)
