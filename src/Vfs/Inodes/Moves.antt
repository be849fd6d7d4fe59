-- ===== src/Vfs/Inodes/Moves.antt =====
-- The loop of `rename`: each key of the subtree goes to its target.
use mobfs.Base.{
  ℕ, ◌≡◌, refl, sym, ◌∙◌, ◌≢◌, inl, inr, none, some, List, [], ◌∷◌, arith, Option-cases,
  if◌then◌else◌, subst,
}
use mobfs.Base.Str.{Str}
use mobfs.Base.Order.{list_ord, nat_ord, list_cmp_eq, eqb}
use mobfs.Base.Map.{get, get-insert, get-remove, remove, insert-IsSorted, remove-IsSorted}
use mobfs.Base.Elem.{Elem, All-Elem, Pairwise}
use mobfs.Vfs.Inodes.{Inodes, moved, move_key, move_keys}
use mobfs.Vfs.Inodes.Valid.{IsValid}
use mobfs.Vfs.Inodes.Remove.{unless}

module _ (from to : Str) where
  abbrev step : Inodes → Str → Inodes
  step s k = move_key from to s k (get s.by_path k)

  abbrev target : Str → Str
  target k = moved from to k

  -- The keys that are still to move have numbers, and their targets are free and distinct.
  pub record Ready (s : Inodes) (ks : List Str) : Type 0 where
    pub valid : IsValid s
    pub held : (k : Str) → Elem k ks → get s.by_path k ≢ none
    pub free : (k : Str) → Elem k ks → get s.by_path (target k) ≡ none
    pub distinct : Pairwise (λ a b. (a ≢ b) × (target a ≢ target b)) ks

  get-step :
      (s : Inodes) (k p : Str) (i : ℕ)
      → get s.by_path k ≡ some i
      → get (step s k).by_path p
        ≡ (if eqb (target k) p then some i else unless (eqb k p) (get s.by_path p))
  get-step s k p i e =
      rw e
        (get-insert (remove s.by_path k) (target k) i p ∙ ground (arith, get-remove s.by_path k p))

  step-IsValid :
      (s : Inodes) (k : Str) (i : ℕ)
      → get s.by_path k ≡ some i
      → get s.by_path (target k) ≡ none
      → IsValid s
      → IsValid (step s k)
  step-IsValid s k i e f v = rw e (record {
    there = λ q j h. ground (
      arith,
      get-insert (remove s.by_path k) (target k) i q,
      get-remove s.by_path k q,
      get-insert s.by_ino i (target k) j,
      list_cmp_eq (target k) q,
      list_cmp_eq k q,
      v.there q j,
      v.there k i,
      v.back k i,
    );
    back = λ q j h. ground (
      arith,
      get-insert (remove s.by_path k) (target k) i q,
      get-remove s.by_path k q,
      get-insert s.by_ino i (target k) j,
      list_cmp_eq (target k) q,
      list_cmp_eq k q,
      v.back q j,
      v.there k i,
    );
    fresh = λ q j h. ground (
      arith,
      get-insert (remove s.by_path k) (target k) i q,
      get-remove s.by_path k q,
      v.fresh q j,
      v.fresh k i,
    );
    sorted =
        insert-IsSorted (remove s.by_path k) (target k) i (remove-IsSorted s.by_path k v.sorted);
  })

  step-Ready :
      (s : Inodes) (k : Str) (ks : List Str) (i : ℕ)
      → get s.by_path k ≡ some i
      → Ready s (k ∷ ks)
      → Ready (step s k) ks
  step-Ready s k ks i e r =
      let apart : (j : Str) → Elem j ks → (k ≢ j) × (target k ≢ target j) =
        λ j m. All-Elem (λ b. (k ≢ b) × (target k ≢ target b)) ks j r.distinct.0 m in
      record {
        valid = step-IsValid s k i e (r.free k (inl refl)) r.valid;
        held = λ j m. ground (
          arith,
          get-step s k j i e,
          list_cmp_eq (target k) j,
          list_cmp_eq k j,
          r.held j (inr m),
          apart j m,
        );
        free = λ j m. ground (
          arith,
          get-step s k (target j) i e,
          list_cmp_eq (target k) (target j),
          list_cmp_eq k (target j),
          r.free j (inr m),
          apart j m,
        );
        distinct = r.distinct.1;
      }

  pub move_keys-IsValid :
      (s : Inodes) (ks : List Str) → Ready s ks → IsValid (move_keys from to s ks)
  unfolding move_keys
  move_keys-IsValid s [] r = r.valid
  move_keys-IsValid s (k ∷ ks) r = elim (Option-cases (get s.by_path k)) [
    | inl e ↦ absurd (r.held k (inl refl) e)
    | inr (i, e) ↦ move_keys-IsValid (step s k) ks (step-Ready s k ks i e r)
  ]

  pub by_path-still :
      (s : Inodes) (ks : List Str) (p : Str)
      → Ready s ks
      → ¬ Elem p ks
      → ((k : Str) → Elem k ks → target k ≢ p)
      → get (move_keys from to s ks).by_path p ≡ get s.by_path p
  unfolding move_keys
  by_path-still s [] p r out away = refl
  by_path-still s (k ∷ ks) p r out away = elim (Option-cases (get s.by_path k)) [
    | inl e ↦ absurd (r.held k (inl refl) e)
    | inr (i, e) ↦
        by_path-still (step s k) ks p (step-Ready s k ks i e r) (λ m. out (inr m))
          (λ j m. away j (inr m))
        ∙ ground (
          arith,
          get-step s k p i e,
          list_cmp_eq (target k) p,
          list_cmp_eq k p,
          away k (inl refl),
          out_head k ks p out,
        )
  ]
    where
      out_head : (k : Str) (ks : List Str) (p : Str) → ¬ Elem p (k ∷ ks) → k ≢ p
      out_head k ks p out e = out (inl (sym e))

  pub by_path-moved :
      (s : Inodes) (ks : List Str) (k : Str)
      → Ready s ks
      → Elem k ks
      → get (move_keys from to s ks).by_path (target k) ≡ get s.by_path k
  unfolding move_keys
  by_path-moved s [] k r m = elim m [ ]
  by_path-moved s (j ∷ ks) k r (inl h) = elim (Option-cases (get s.by_path j)) [
    | inl e ↦ absurd (r.held j (inl refl) e)
    | inr (i, e) ↦
        subst (λ k'. get (move_keys from to (step s j) ks).by_path (target k') ≡ get s.by_path k')
          (sym h)
          (by_path-still (step s j) ks (target j) (step-Ready s j ks i e r)
              (λ m. r.held (target j) (inr m) (r.free j (inl refl)))
              (λ k' m q.
                (All-Elem (λ b. (j ≢ b) × (target j ≢ target b)) ks k' r.distinct.0 m).1 (sym q))
            ∙ ground (arith, get-step s j (target j) i e, list_cmp_eq (target j) (target j)))
  ]
  by_path-moved s (j ∷ ks) k r (inr m) = elim (Option-cases (get s.by_path j)) [
    | inl e ↦ absurd (r.held j (inl refl) e)
    | inr (i, e) ↦
        by_path-moved (step s j) ks k (step-Ready s j ks i e r) m
        ∙ ground (
          arith,
          get-step s j k i e,
          list_cmp_eq (target j) k,
          list_cmp_eq j k,
          r.free j (inl refl),
          r.held k (inr m),
          All-Elem (λ b. (j ≢ b) × (target j ≢ target b)) ks k r.distinct.0 m,
        )
  ]

  -- No number appears that had no path.
  pub by_ino-none :
      (s : Inodes) (ks : List Str) (i : ℕ)
      → Ready s ks
      → get s.by_ino i ≡ none
      → get (move_keys from to s ks).by_ino i ≡ none
  unfolding move_keys
  by_ino-none s [] i r h = h
  by_ino-none s (k ∷ ks) i r h = elim (Option-cases (get s.by_path k)) [
    | inl e ↦ absurd (r.held k (inl refl) e)
    | inr (j, e) ↦
        by_ino-none (step s k) ks i (step-Ready s k ks j e r)
          (rw e (get-insert s.by_ino j (target k) i ∙ ground (arith, r.valid.there k j)))
  ]
