-- ===== src/Vfs/Inodes/Rename.antt =====
-- `rename`: what becomes of every number.
use mobfs.Base.{
  ℕ, ◌≡◌, sym, ap, ◌∙◌, ◌≢◌, ◌↔◌, inl, inr, true, Option, none, some, List, [], ◌∷◌, ◌++◌, arith,
  Ordering, Bool-cases, Option-cases, if◌then◌else◌, drop, length, drop-length_append, append_assoc,
  append-nil, subst,
}
use mobfs.Base.Str.{Str, str_eq, str_eq_iff, starts_with-drop, starts_with-append}
use mobfs.Base.Order.{list_ord, nat_ord, list_cmp, cmp_irrefl}
use mobfs.Base.Map.{get}
use mobfs.Base.Elem.{Elem, Pairwise-map}
use mobfs.Paths.{slash}
use mobfs.Vfs.Inodes.{Inodes, remove_tree, subtree_keys, moved, rename, below_prefix}
use mobfs.Vfs.Inodes.Subtree.{in_subtree, Elem-subtree_keys, subtree_keys_ascend}
use mobfs.Vfs.Inodes.Valid.{IsValid, remove_tree-IsValid}
use mobfs.Vfs.Inodes.Remove.{kept, get-remove_tree, by_ino-remove_tree}
use mobfs.Vfs.Inodes.Moves.{Ready, move_keys-IsValid, by_path-still, by_path-moved, by_ino-none}

-- What follows a path in the keys of its subtree: nothing, or a slash and more.
in_subtree-split :
    (path k : Str)
    → in_subtree path k ≡ true
    → (r : Str) × (k ≡ path ++ r) × ((to : Str) → in_subtree to (to ++ r) ≡ true)
in_subtree-split path k h = elim (Bool-cases (str_eq k path)) [
  | inl e ↦ (
    [],
    (str_eq_iff k path).0 e ∙ sym (append-nil path),
    λ to. ground (arith, append-nil to, str_eq_iff (to ++ []) to),
  )
  | inr n ↦
      let (r, e) = starts_with-drop k (below_prefix path) (ground arith) in
      (
        slash ∷ r,
        e ∙ append_assoc path (slash ∷ []) r,
        λ to.
            ground (arith, append_assoc to (slash ∷ []) r, starts_with-append (below_prefix to) r),
      )
]

in_subtree-moved :
    (from to k : Str) → in_subtree from k ≡ true → in_subtree to (moved from to k) ≡ true
in_subtree-moved from to k h =
    let (r, e, f) = in_subtree-split from k h in
    subst (λ x. in_subtree to (moved from to x) ≡ true) (sym e)
      (subst (λ x. in_subtree to (to ++ x) ≡ true) (sym (drop-length_append from r)) (f to))

append-injective : (p a b : Str) → p ++ a ≡ p ++ b → a ≡ b
append-injective p a b h =
    sym (drop-length_append p a) ∙ (ap (drop (length p)) h ∙ drop-length_append p b)

moved-injective :
    (from to a b : Str)
    → in_subtree from a ≡ true
    → in_subtree from b ≡ true
    → moved from to a ≡ moved from to b
    → a ≡ b
moved-injective from to a b h k e =
    let (r, p, _) = in_subtree-split from a h in
    let (q, t, _) = in_subtree-split from b k in
    let same : drop (length from) a ≡ drop (length from) b = append-injective to _ _ e in
    let first : drop (length from) a ≡ r = ap (drop (length from)) p ∙ drop-length_append from r in
    let second : drop (length from) b ≡ q = ap (drop (length from)) t ∙ drop-length_append from q in
    p ∙ (ap (λ x. from ++ x) (sym first ∙ (same ∙ second)) ∙ sym t)

-- The path that a number has after a rename.
abbrev pub renamed : Str → Str → Option Str → Option Str
renamed from to none = none
renamed from to (some p) =
    if in_subtree to p then none else some (if in_subtree from p then moved from to p else p)

module _ (s : Inodes) (from to : Str) (v : IsValid s) where
  abbrev cleared : Inodes
  cleared = remove_tree s to

  abbrev keys_of : List Str
  keys_of = subtree_keys cleared.by_path from

  cleared-IsValid : IsValid cleared
  cleared-IsValid = remove_tree-IsValid s to v

  member :
      (k : Str) → Elem k keys_of ↔ ((in_subtree from k ≡ true) × (get cleared.by_path k ≢ none))
  member k = Elem-subtree_keys cleared.by_path from k cleared-IsValid.sorted

  cleared-Ready : Ready from to cleared keys_of
  cleared-Ready = record {
    valid = cleared-IsValid;
    held = λ k m. ((member k).0 m).1;
    free = λ k m. ground (
      arith,
      get-remove_tree s to (moved from to k) v.sorted,
      in_subtree-moved from to k ((member k).0 m).0,
    );
    distinct =
        Pairwise-map (λ a b. list_cmp a b ≡ Ordering.lt)
          (λ a b. (a ≢ b) × (moved from to a ≢ moved from to b)) keys_of
          (λ a b m n lt.
            let apart : a ≢ b = λ e. cc (lt, e, cmp_irrefl b) in
            (
              apart,
              λ e. apart (moved-injective from to a b ((member a).0 m).0 ((member b).0 n).0 e),
            ))
          (subtree_keys_ascend cleared.by_path from cleared-IsValid.sorted);
  }

  -- A rename keeps the tables one another's inverses, whatever the two paths are.
  pub rename-IsValid : IsValid (rename s from to)
  unfolding rename
  rename-IsValid = move_keys-IsValid from to cleared keys_of cleared-Ready

  -- the path that a number of `cleared` has after the moves
  at_new_path :
      (p : Str) (i : ℕ)
      → get cleared.by_ino i ≡ some p
      → get (rename s from to).by_ino i ≡ some (if in_subtree from p then moved from to p else p)
  unfolding rename
  at_new_path p i e =
      let held : get cleared.by_path p ≡ some i = cleared-IsValid.back p i e in
      let w = move_keys-IsValid from to cleared keys_of cleared-Ready in
      elim (Bool-cases (in_subtree from p)) [
        | inl h ↦ rw h (
            w.there (moved from to p) i (
              by_path-moved from to cleared keys_of p cleared-Ready
                ((member p).1 (h, λ n. cc (n, held)))
              ∙ held))
        | inr h ↦ rw h (
            w.there p i (
              by_path-still from to cleared keys_of p cleared-Ready
                (λ m. cc (h, ((member p).0 m).0))
                (λ k m q. cc (held, cleared-Ready.free k m, ap (λ x. get cleared.by_path x) q))
              ∙ held))
      ]

  -- A rename takes the numbers of the whole subtree along: a number whose path was `from` or lay
  -- below it has the moved path, one whose path was `to` or lay below it has none, every other
  -- keeps its path.
  pub by_ino-rename : (i : ℕ) → get (rename s from to).by_ino i ≡ renamed from to (get s.by_ino i)
  by_ino-rename i = elim (Option-cases (get s.by_ino i)) [
    | inl e ↦ rw e (
        unfold rename in
        by_ino-none from to cleared keys_of i cleared-Ready
          (by_ino-remove_tree s to i v ∙ ap (kept to) e))
    | inr (p, e) ↦ elim (Bool-cases (in_subtree to p)) [
      | inl h ↦
          rw (e, h)
            (unfold rename in
              by_ino-none from to cleared keys_of i cleared-Ready
                (by_ino-remove_tree s to i v ∙ (ap (kept to) e ∙ rw h)))
      | inr h ↦ rw (e, h) (at_new_path p i (by_ino-remove_tree s to i v ∙ (ap (kept to) e ∙ rw h)))
    ]
  ]
