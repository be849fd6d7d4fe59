-- ===== src/Tests/Inodes.antt =====
-- `Inodes`: the unit test of src/vfs.rs, and the theorems at its tables.
use mobfs.Base.{◌≡◌, refl, ◌↔◌, ◌≢◌, true, none, some}
use mobfs.Base.Str.{codes, starts_with}
use mobfs.Base.Order.{list_ord, nat_ord, list_cmp}
use mobfs.Base.Map.{get, insert, remove, contains_key, range_from}
use mobfs.Base.Elem.{Elem}
use mobfs.Vfs.Inodes.{Inodes, new, ino, path, subtree_keys, remove_tree, rename}
use mobfs.Vfs.Inodes.Subtree.{in_subtree, Elem-subtree_keys}
use mobfs.Vfs.Inodes.Valid.{IsValid, new-IsValid, ino-IsValid}
use mobfs.Vfs.Inodes.Remove.{by_ino-remove_tree, kept}
use mobfs.Vfs.Inodes.Rename.{rename-IsValid, by_ino-rename, renamed}

abbrev tables : Inodes
tables = (ino (ino (ino new (codes "a")).0 (codes "a/b.txt")).0 (codes "a-b")).0

tables-IsValid : IsValid tables
tables-IsValid =
    ino-IsValid _ (codes "a-b")
      (ino-IsValid _ (codes "a/b.txt") (ino-IsValid new (codes "a") new-IsValid))

inodes_stay_stable_across_renames :
    (path (rename tables (codes "a") (codes "z")) 2 ≡ some (codes "z"))
    × (path (rename tables (codes "a") (codes "z")) 3 ≡ some (codes "z/b.txt"))
    × (path (rename tables (codes "a") (codes "z")) 4 ≡ some (codes "a-b"))
unfolding path rename remove_tree subtree_keys ino get insert remove contains_key range_from
    list_cmp starts_with
inodes_stay_stable_across_renames = (refl, refl, refl)

Elem-subtree_keys_example : Elem (codes "a/b.txt") (subtree_keys tables.by_path (codes "a")) ↔ (
    (in_subtree (codes "a") (codes "a/b.txt") ≡ true)
    × (get tables.by_path (codes "a/b.txt") ≢ none))
Elem-subtree_keys_example =
    Elem-subtree_keys tables.by_path (codes "a") (codes "a/b.txt") tables-IsValid.sorted

ino-IsValid_instance : IsValid (ino tables (codes "c")).0
ino-IsValid_instance = ino-IsValid tables (codes "c") tables-IsValid

by_ino-remove_tree_example :
    get (remove_tree tables (codes "a")).by_ino 3 ≡ kept (codes "a") (get tables.by_ino 3)
by_ino-remove_tree_example = by_ino-remove_tree tables (codes "a") 3 tables-IsValid

rename-IsValid_example : IsValid (rename tables (codes "a") (codes "a/x"))
rename-IsValid_example = rename-IsValid tables (codes "a") (codes "a/x") tables-IsValid

by_ino-rename_example :
    get (rename tables (codes "a") (codes "z")).by_ino 3
    ≡ renamed (codes "a") (codes "z") (get tables.by_ino 3)
by_ino-rename_example = by_ino-rename tables (codes "a") (codes "z") tables-IsValid 3
