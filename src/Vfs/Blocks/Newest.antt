-- ===== src/Vfs/Blocks/Newest.antt =====
-- The loop that makes room never takes the block that was used last, if it fits by itself.
use mobfs.Base.{
  ℕ, ◌≤◌, ◌<◌, ◌≡◌, refl, sym, ap, subst, ◌∙◌, inl, inr, true, some, [], ◌∷◌, arith, Option-cases,
  Bool-cases, length,
}
use mobfs.Base.Order.{list_ord, nat_ord, pair_ord, pair_cmp_eq, eqb}
use mobfs.Base.Map.{Map, get, remove, get-remove, IsSorted}
use mobfs.Vfs.Blocks.{Block, BlockKey, BlockStore, discard, drop_block, tick_of, make_room}
use mobfs.Vfs.Blocks.Size.{total, total-remove}
use mobfs.Vfs.Blocks.Valid.{IsValid, discard-IsValid}
use mobfs.Vfs.Blocks.Room.{
  make_room_rule, discard_capacity, empty_blocks, get-discard, head_at, pop, pop-discard, with_lru,
}

lru_of_discard :
    (s : BlockStore) (j i : BlockKey) (a : ℕ)
    → get (discard s j).lru a ≡ some i
    → get s.lru a ≡ some i
unfolding discard
lru_of_discard s j i a h = elim (Option-cases (get s.blocks j)) [
  | inl e ↦ subst (λ o. get (drop_block s j o).lru a ≡ some i) e h
  | inr ((d, t), e) ↦
      let g : get (remove s.lru t) a ≡ some i =
        subst (λ o. get (drop_block s j o).lru a ≡ some i) e h in
      ground (arith, get-remove s.lru t a)
]

-- The most recently used block stays if it fits by itself.
abbrev pub KeepsNewest : BlockStore → BlockStore → Type 0
KeepsNewest s s' =
    (k : BlockKey) (d : Block) (t : ℕ)
    → get s.blocks k ≡ some (d, t)
    → ((j : BlockKey) (u : ℕ) → get s.lru u ≡ some j → u ≤ t)
    → length d ≤ s.capacity
    → get s'.blocks k ≡ some (d, t)

-- If the newest block heads `lru` it is alone.
newest_alone :
    (s : BlockStore) (k : BlockKey) (d : Block) (t : ℕ) (lru : Map ℕ BlockKey)
    → IsValid s
    → s.lru ≡ (t, k) ∷ lru
    → get s.blocks k ≡ some (d, t)
    → ((j : BlockKey) (u : ℕ) → get s.lru u ≡ some j → u ≤ t)
    → s.bytes ≡ length d
newest_alone s k d t ((u, j) ∷ lru) v e f h =
    let sorted : IsSorted ((t, k) ∷ ((u, j) ∷ lru)) = subst IsSorted e v.lru_sorted in
    let found : get s.lru u ≡ some j =
      rw e (unfold get in ground (arith, sorted.0.0, nat_ord.cmp_eq u u)) in
    let later : t < u = ground (arith, sorted.0.0) in absurd (omega (arith, h j u found))
newest_alone s k d t [] v e f h =
    let at = with_lru s ((t, k) ∷ []) in
    let v' : IsValid at = subst (λ m. IsValid (with_lru s m)) e v in
    let none_left : remove s.blocks k ≡ [] =
      empty_blocks (pop s k [])
        (subst IsValid (sym (pop-discard s t k [] v')) (discard-IsValid at k v')) in
    let nothing : total (remove s.blocks k) ≡ 0 = ap total none_left ∙ unfold total in refl in
    ground (arith, total-remove s.blocks k v.blocks_sorted, v.counted, nothing, f)

pub make_room-KeepsNewest : (s : BlockStore) → IsValid s → KeepsNewest s (make_room s)
make_room-KeepsNewest =
    make_room_rule KeepsNewest (λ s v h k d t e m l. e)
      (λ s s' t j lru v e h ih k d u f m l. elim (Bool-cases (eqb j k)) [
        | inl q ↦ absurd (over s t j lru v e h k d u f m l q)
        | inr q ↦
            ih k d u (get-discard s j k ∙ rw q f) (λ i a b. m i a (lru_of_discard s j i a b))
              (rw discard_capacity l)
      ])
  where
    over :
        (s : BlockStore) (t : ℕ) (j : BlockKey) (lru : Map ℕ BlockKey)
        → IsValid s
        → s.lru ≡ (t, j) ∷ lru
        → s.capacity < s.bytes
        → (k : BlockKey) (d : Block) (u : ℕ) → get s.blocks k ≡ some (d, u)
        → ((i : BlockKey) (a : ℕ) → get s.lru a ≡ some i → a ≤ u)
        → length d ≤ s.capacity
        → eqb j k ≡ true
        → ⊥
    over s t j lru v e h k d u f m l q =
        let same : j ≡ k = (pair_cmp_eq j k).0 (ground arith) in
        let at_head : tick_of (get s.blocks j) ≡ some t = v.listed j t (head_at s t j lru e) in
        let tick : t ≡ u = ground (arith, same, f, at_head) in
        let first : s.lru ≡ (u, k) ∷ lru = ground (arith, e, same, tick) in
        omega (arith, newest_alone s k d u lru v first f m)
