-- ===== src/Vfs/Inodes/Remove.antt =====
-- `remove_tree`: what becomes of every number.
use mobfs.Base.{
  ℕ, ◌≡◌, refl, ◌∙◌, ◌↔◌, inl, inr, Bool, true, false, ◌||◌, Option, none, some, List, [], ◌∷◌,
  arith, Option-cases, if◌then◌else◌,
}
use mobfs.Base.Str.{Str}
use mobfs.Base.Order.{list_ord, nat_ord, list_cmp_eq, eqb}
use mobfs.Base.Map.{get, get-remove, IsSorted}
use mobfs.Base.Elem.{Elem}
use mobfs.Vfs.Inodes.{Inodes, forget, remove_keys, remove_tree, subtree_keys}
use mobfs.Vfs.Inodes.Subtree.{in_subtree, Elem-subtree_keys}
use mobfs.Vfs.Inodes.Valid.{inverse, IsValid, remove_tree-IsValid}

unfoldable pub listed_in : Str → List Str → Bool
listed_in p [] = false
listed_in p (k ∷ ks) = eqb k p || listed_in p ks

pub listed_in_iff : (p : Str) (ks : List Str) → (listed_in p ks ≡ true) ↔ Elem p ks
unfolding listed_in
listed_in_iff p [] = ground arith
listed_in_iff p (k ∷ ks) = ground (arith, listed_in_iff p ks, list_cmp_eq k p)

get-forget :
    (s : Inodes) (k p : Str)
    → get (forget s k (get s.by_path k)).by_path p ≡ (if eqb k p then none else get s.by_path p)
get-forget s k p = elim (Option-cases (get s.by_path k)) [
  | inl e ↦ rw e (ground (arith, list_cmp_eq k p))
  | inr (i, e) ↦ rw e (get-remove s.by_path k p)
]

get-remove_keys :
    (s : Inodes) (ks : List Str) (p : Str)
    → get (remove_keys s ks).by_path p ≡ (if listed_in p ks then none else get s.by_path p)
unfolding remove_keys listed_in
get-remove_keys s [] p = refl
get-remove_keys s (k ∷ ks) p =
    get-remove_keys (forget s k (get s.by_path k)) ks p ∙ ground (arith, get-forget s k p)

pub get-remove_tree :
    (s : Inodes) (path p : Str)
    → IsSorted s.by_path
    → get (remove_tree s path).by_path p ≡ (if in_subtree path p then none else get s.by_path p)
unfolding remove_tree
get-remove_tree s path p sorted =
    get-remove_keys s (subtree_keys s.by_path path) p
    ∙ ground (
      arith,
      listed_in_iff p (subtree_keys s.by_path path),
      Elem-subtree_keys s.by_path path p sorted,
      Option-cases (get s.by_path p),
    )

abbrev pub unless {ℓ} : {A : Type ℓ} → Bool → Option A → Option A
unless b o = if b then none else o

-- What is left of a number's path when a subtree goes.
abbrev pub kept : Str → Option Str → Option Str
kept gone none = none
kept gone (some p) = if in_subtree gone p then none else some p

-- After `remove_tree` a number has no path if its path was the removed one or lay below it, and its
-- old path if not.
pub by_ino-remove_tree :
    (s : Inodes) (gone : Str) (i : ℕ)
    → IsValid s
    → get (remove_tree s gone).by_ino i ≡ kept gone (get s.by_ino i)
by_ino-remove_tree s gone i v =
    inverse (remove_tree s gone) i (kept gone (get s.by_ino i)) (remove_tree-IsValid s gone v) (λ p.
      ground (
        arith,
        get-remove_tree s gone p v.sorted,
        Option-cases (get s.by_ino i),
        v.there p i,
        v.back p i,
      ))
