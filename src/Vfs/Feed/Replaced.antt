-- ===== src/Vfs/Feed/Replaced.antt =====
-- What the tables of a mount hold after an event of the change feed of src/vfs.rs.
use mobfs.Base.{ℕ, ◌≡◌, refl, ap, ◌∙◌, true, false, ◌||◌, none, List, [], ◌∷◌, arith, if◌then◌else◌}
use mobfs.Base.Str.{Str, str_eq, str_eq_iff}
use mobfs.Base.Order.{list_ord, nat_ord, list_cmp_eq}
use mobfs.Base.Map.{get, remove, get-remove, IsSorted}
use mobfs.Paths.{split_parent}
use mobfs.Protocol.{ChangeEvent, replaced}
use mobfs.Vfs.Inodes.Subtree.{in_subtree}
use mobfs.Vfs.Blocks.{BlockStore, get_cached, invalidate_tree}
use mobfs.Vfs.Blocks.Tree.{get_cached-invalidate_tree}
use mobfs.Vfs.Inodes.{subtree_keys}
use mobfs.Vfs.State.{Vfs}
use mobfs.Vfs.Names.{bump_version, remove_below}
use mobfs.Vfs.Names.Below.{get-remove_below}
use mobfs.Vfs.Feed.{bump_all, change_tables, is_skipped, apply_change, numbers}

-- counting a version up touches no other table
record SameTables {W : Type 0} (s t : Vfs W) : Type 0 where
  metas : t.metas ≡ s.metas
  dirs : t.dirs ≡ s.dirs
  blocks : t.blocks ≡ s.blocks

bump_all-SameTables : {W : Type 0} (is : List ℕ) (s : Vfs W) → SameTables s (bump_all is s)
unfolding bump_all bump_version
bump_all-SameTables [] s = record { metas = refl; dirs = refl; blocks = refl }
bump_all-SameTables (i ∷ is) s =
    let rest = bump_all-SameTables is (bump_version i s) in
    record { metas = rest.metas; dirs = rest.dirs; blocks = rest.blocks }

-- After the event that a path was replaced, unless it is one that the mount skips, the mount knows
-- nothing any more of what is at or below the path: no metadata, no listing and no cached block, nor
-- a listing of the directory that it is in. What it knows of any other path's metadata stays.
pub apply_change_replaced :
    {W : Type 0} (event : ChangeEvent) (s : Vfs W) (p : Str) (index : ℕ)
    → event.kind ≡ replaced
    → is_skipped event.path s ≡ false
    → IsSorted s.metas
    → IsSorted s.dirs
    → (get (apply_change event s).0.metas p
        ≡ (if in_subtree event.path p then none else get s.metas p))
      × (get (apply_change event s).0.dirs p ≡ (
          if in_subtree event.path p || str_eq (split_parent event.path).0 p
          then none
          else get s.dirs p))
      × (in_subtree event.path p ≡ true
          → (get_cached (apply_change event s).0.blocks p index).1 ≡ none)
unfolding apply_change change_tables
apply_change_replaced event s p index kind acts ms ds =
    let gone =
      bump_all-SameTables (numbers s.inodes (subtree_keys s.inodes.by_path event.path)) (record s {
        metas = remove_below s.metas event.path;
        dirs = remove_below s.dirs event.path;
        blocks = invalidate_tree s.blocks event.path;
      }) in
    rw (acts, kind)
      (
        ap (λ m. get m p) gone.metas ∙ get-remove_below s.metas event.path p ms,
        ap (λ m. get (remove m (split_parent event.path).0) p) gone.dirs
            ∙ get-remove (remove_below s.dirs event.path) (split_parent event.path).0 p
            ∙ ground (
              arith,
              get-remove_below s.dirs event.path p ds,
              list_cmp_eq (split_parent event.path).0 p,
              str_eq_iff (split_parent event.path).0 p,
            ),
        λ h.
            ap (λ (b : BlockStore). (get_cached b p index).1) gone.blocks
            ∙ get_cached-invalidate_tree s.blocks event.path p index h,
      )
