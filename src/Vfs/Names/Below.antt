-- ===== src/Vfs/Names/Below.antt =====
-- What the loops over `subtree_keys` of src/vfs.rs take out of a table.
use mobfs.Base.{◌≡◌, refl, ◌∙◌, none, List, [], ◌∷◌, arith, Option-cases, if◌then◌else◌}
use mobfs.Base.Str.{Str}
use mobfs.Base.Order.{list_ord, nat_ord}
use mobfs.Base.Map.{Map, get, remove, get-remove, IsSorted}
use mobfs.Vfs.Inodes.{subtree_keys}
use mobfs.Vfs.Inodes.Subtree.{in_subtree, Elem-subtree_keys}
use mobfs.Vfs.Inodes.Remove.{listed_in, listed_in_iff}
use mobfs.Vfs.Names.{remove_all, remove_below}

module _ {V : Type 0} where
  get-remove_all :
      (m : Map Str V) (ks : List Str) (p : Str)
      → get (remove_all m ks) p ≡ (if listed_in p ks then none else get m p)
  unfolding remove_all listed_in
  get-remove_all m [] p = refl
  get-remove_all m (k ∷ ks) p = get-remove_all (remove m k) ks p ∙ ground (arith, get-remove m k p)

  -- exactly the entries at or below the path are gone
  pub get-remove_below :
      (m : Map Str V) (path p : Str)
      → IsSorted m
      → get (remove_below m path) p ≡ (if in_subtree path p then none else get m p)
  unfolding remove_below
  get-remove_below m path p sorted =
      get-remove_all m (subtree_keys m path) p
      ∙ ground (
        arith,
        listed_in_iff p (subtree_keys m path),
        Elem-subtree_keys m path p sorted,
        Option-cases (get m p),
      )
