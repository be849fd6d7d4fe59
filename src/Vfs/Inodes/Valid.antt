-- ===== src/Vfs/Inodes/Valid.antt =====
-- The tables of `Inodes` stay one another's inverses.
use mobfs.Base.{
  Option, sym, ◌∙◌, ◌↔◌, ℕ, ◌<◌, ◌≡◌, inl, inr, some, List, [], ◌∷◌, arith, Option-cases,
}
use mobfs.Base.Str.{Str}
use mobfs.Base.Order.{list_ord, nat_ord, list_cmp_eq}
use mobfs.Base.Map.{get, get-insert, get-remove, IsSorted, insert-IsSorted, remove-IsSorted}
use mobfs.Vfs.Inodes.{Inodes, new, ino, forget, remove_keys, remove_tree, subtree_keys}

pub record IsValid (s : Inodes) : Type 0 where
  -- a path has a number exactly when the number has the path
  pub there : (p : Str) (i : ℕ) → get s.by_path p ≡ some i → get s.by_ino i ≡ some p
  pub back : (p : Str) (i : ℕ) → get s.by_ino i ≡ some p → get s.by_path p ≡ some i
  -- the next number is fresh
  pub fresh : (p : Str) (i : ℕ) → get s.by_path p ≡ some i → i < s.next
  pub sorted : IsSorted s.by_path

pub new-IsValid : IsValid new
unfolding get
new-IsValid = record {
  there = λ p i h. ground (arith, list_cmp_eq [] p);
  back = λ p i h. ground (arith, list_cmp_eq [] p);
  fresh = λ p i h. ground (arith, list_cmp_eq [] p);
  sorted = (tt, tt);
}

-- Looking a path up, and numbering it where it has no number, keeps the two tables one another's
-- inverses and the next number unused.
pub ino-IsValid : (s : Inodes) (p : Str) → IsValid s → IsValid (ino s p).0
unfolding ino
ino-IsValid s p v = elim (Option-cases (get s.by_path p)) [
  | inl e ↦ rw e (record {
    there = λ q i h. ground (
      arith,
      get-insert s.by_path p s.next q,
      get-insert s.by_ino s.next p i,
      list_cmp_eq p q,
      v.there q i,
      v.fresh q i,
    );
    back = λ q i h. ground (
      arith,
      get-insert s.by_path p s.next q,
      get-insert s.by_ino s.next p i,
      list_cmp_eq p q,
      v.back q i,
      v.fresh q i,
    );
    fresh = λ q i h. ground (arith, get-insert s.by_path p s.next q, list_cmp_eq p q, v.fresh q i);
    sorted = insert-IsSorted s.by_path p s.next v.sorted;
  })
  | inr (i, e) ↦ rw e v
]

forget-IsValid : (s : Inodes) (k : Str) → IsValid s → IsValid (forget s k (get s.by_path k))
forget-IsValid s k v = elim (Option-cases (get s.by_path k)) [
  | inl e ↦ rw e v
  | inr (j, e) ↦ rw e (record {
    there = λ q i h. ground (
      arith,
      get-remove s.by_path k q,
      get-remove s.by_ino j i,
      list_cmp_eq k q,
      v.there q i,
      v.back q i,
      v.there k j,
      v.back k j,
    );
    back = λ q i h. ground (
      arith,
      get-remove s.by_path k q,
      get-remove s.by_ino j i,
      list_cmp_eq k q,
      v.there q i,
      v.back q i,
      v.there k j,
    );
    fresh = λ q i h. ground (arith, get-remove s.by_path k q, v.fresh q i);
    sorted = remove-IsSorted s.by_path k v.sorted;
  })
]

remove_keys-IsValid : (s : Inodes) (ks : List Str) → IsValid s → IsValid (remove_keys s ks)
unfolding remove_keys
remove_keys-IsValid s [] v = v
remove_keys-IsValid s (k ∷ ks) v =
    remove_keys-IsValid (forget s k (get s.by_path k)) ks (forget-IsValid s k v)

pub remove_tree-IsValid : (s : Inodes) (p : Str) → IsValid s → IsValid (remove_tree s p)
unfolding remove_tree
remove_tree-IsValid s p v = remove_keys-IsValid s (subtree_keys s.by_path p) v

-- In valid tables a number's path is known from the paths' numbers.
pub inverse :
    (s : Inodes) (i : ℕ) (o : Option Str)
    → IsValid s
    → ((p : Str) → (get s.by_path p ≡ some i) ↔ (o ≡ some p))
    → get s.by_ino i ≡ o
inverse s i o v h = elim (Option-cases (get s.by_ino i)) [
  | inl e ↦ elim (Option-cases o) [
    | inl f ↦ e ∙ sym f
    | inr (p, f) ↦ absurd (cc (e, v.there p i ((h p).1 f)))
  ]
  | inr (p, e) ↦ e ∙ sym ((h p).0 (v.back p i e))
]
