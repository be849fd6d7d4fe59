-- ===== src/Vfs/Blocks/Tree.antt =====
-- `invalidate_tree` of the block cache of src/vfs.rs leaves no block below the path.
use mobfs.Base.{
  ℕ, ◌≡◌, ◌≢◌, refl, ap, Bool-cases, ◌∙◌, inl, inr, true, false, none, List, [], ◌∷◌, ◌++◌, arith,
  Option-cases, any, filter,
}
use mobfs.Base.Str.{Str, str_eq, str_eq_iff}
use mobfs.Base.Order.{list_ord, nat_ord, pair_ord, eqb, eqb_iff}
use mobfs.Base.Map.{Map, get, keys}
use mobfs.Base.Elem.{Elem, Elem-append, Elem-keys, to_set, Elem-to_set}
use mobfs.Vfs.Inodes.Subtree.{in_subtree}
use mobfs.Vfs.Blocks.{Block, BlockKey, BlockStore, get_cached, invalidate_tree, key_paths, under}
use mobfs.Vfs.Blocks.Invalidate.{get_cached-invalidate_where}
use mobfs.Vfs.Blocks.Insert.{get_cached-blocks}

pub any-Elem : (p : Str) (xs : List Str) → Elem p xs → any (λ q. str_eq q p) xs ≡ true
unfolding any
any-Elem p [] h = absurd h
any-Elem p (x ∷ xs) (inl e) = ground (arith, str_eq_iff x p)
any-Elem p (x ∷ xs) (inr h) = ground (arith, any-Elem p xs h)

-- a cached block's path is among those that the invalidation looks at
cached_listed :
    (path p : Str) (i : ℕ) (m : Map BlockKey (Block × ℕ))
    → get m (p, i) ≢ none
    → under path p ≡ true
    → Elem p (filter (under path) (key_paths (keys m)))
unfolding get keys key_paths filter
cached_listed path p i [] h u = absurd (h refl)
cached_listed path p i (((q, j), b) ∷ m) h u =
    elim (Bool-cases (eqb {A = BlockKey} (q, j) (p, i))) [
      | inl e ↦
          let same : q ≡ p = ap (λ k. k.0) ((eqb_iff {A = BlockKey} (q, j) (p, i)).0 e) in
          rw (same, u) (inl refl)
      | inr n ↦
          let later = cached_listed path p i m (rw n at h) u in
          elim (Bool-cases (under path q)) [ inl e ↦ rw e (inr later) | inr e ↦ rw e later ]
    ]

-- so a cached block's path is one of those that are invalidated
invalidated :
    (s : BlockStore) (path p : Str) (i : ℕ)
    → under path p ≡ true
    → get s.blocks (p, i) ≢ none
    → any
        (λ q. str_eq q p)
        (keys (to_set (filter (under path) (key_paths (keys s.blocks)) ++ (path ∷ []))))
      ≡ true
invalidated s path p i u h =
    let paths = filter (under path) (key_paths (keys s.blocks)) ++ (path ∷ []) in
    let listed : Elem p paths =
      (Elem-append p (filter (under path) (key_paths (keys s.blocks))) (path ∷ [])).1
        (inl (cached_listed path p i s.blocks h u)) in
    any-Elem p (keys (to_set paths))
      ((Elem-keys (to_set paths) p).1 ((Elem-to_set paths p).1 listed))

pub get_cached-invalidate_tree :
    (s : BlockStore) (path p : Str) (i : ℕ)
    → in_subtree path p ≡ true
    → (get_cached (invalidate_tree s path) p i).1 ≡ none
unfolding invalidate_tree
get_cached-invalidate_tree s path p i h =
    get_cached-invalidate_where s _ (λ _. false) p i
    ∙ ground (
      arith,
      get_cached-blocks s p i,
      Option-cases (get s.blocks (p, i)),
      invalidated s path p i h,
    )
