-- ===== src/Vfs/Blocks/Room.antt =====
-- The loop that makes room: it ends within the capacity, and only the least recently used blocks go.
use mobfs.Base.{
  ℕ, ◌-◌, ◌≤◌, ◌<◌, ◌≡◌, refl, sym, ap, subst, ◌∙◌, ◌⊎◌, inl, inr, Option, none, some, [], ◌∷◌,
  arith, Option-cases, Bool-cases, if◌then◌else◌, ltb,
}
use mobfs.Base.Order.{list_ord, nat_ord, pair_ord, pair_cmp_eq, eqb}
use mobfs.Base.Map.{remove_absent, Map, get, remove, get-remove, IsSorted, Below-get, Below-lt}
use mobfs.Vfs.Blocks.{Block, BlockKey, BlockStore, discard, drop_block, size_of, tick_of, make_room}
use mobfs.Vfs.Blocks.Size.{total}
use mobfs.Vfs.Blocks.Valid.{IsValid, discard-IsValid}

abbrev pub with_lru : BlockStore → Map ℕ BlockKey → BlockStore
with_lru s lru = record s { lru = lru }

-- One turn of the loop that makes room: the head of `lru` goes, and its block.
abbrev pub pop : BlockStore → BlockKey → Map ℕ BlockKey → BlockStore
pop s k lru = record s {
  lru = lru;
  blocks = remove s.blocks k;
  bytes = s.bytes - size_of (get s.blocks k);
}

make_room_step :
    (s : BlockStore) (t : ℕ) (k : BlockKey) (lru : Map ℕ BlockKey)
    → make_room (with_lru s ((t, k) ∷ lru))
      ≡ (if ltb s.capacity s.bytes then make_room (pop s k lru) else with_lru s ((t, k) ∷ lru))
unfolding make_room
make_room_step s t k lru = elim (Bool-cases (ltb s.capacity s.bytes)) [
  | inl h ↦ rw h
  | inr h ↦ rw h
]

-- In a valid store that turn discards the block.
pub pop-discard :
    (s : BlockStore) (t : ℕ) (k : BlockKey) (lru : Map ℕ BlockKey)
    → IsValid (with_lru s ((t, k) ∷ lru))
    → pop s k lru ≡ discard (with_lru s ((t, k) ∷ lru)) k
unfolding discard
pop-discard s t k lru v = with_block (get s.blocks k) refl
  where
    found : tick_of (get s.blocks k) ≡ some t
    found = v.listed k t (unfold get in ground (arith, nat_ord.cmp_eq t t))

    same_lru : remove ((t, k) ∷ lru) t ≡ lru
    same_lru = unfold remove in ground (arith, remove_absent lru t, Below-get t lru v.lru_sorted.0)

    with_block :
        (o : Option (Block × ℕ))
        → get s.blocks k ≡ o
        → pop s k lru ≡ drop_block (with_lru s ((t, k) ∷ lru)) k (get s.blocks k)
    with_block none e = absurd (cc (found, e))
    with_block (some (d, u)) e = rw e (ground (arith, found, same_lru))

-- Without entries in `lru` there is no block.
pub empty_blocks : (s : BlockStore) → IsValid (with_lru s []) → s.blocks ≡ []
empty_blocks s v = with_blocks s.blocks (λ k t h. v.linked k t h)
  where
    with_blocks :
        (m : Map BlockKey (Block × ℕ))
        → ((k : BlockKey) (t : ℕ) → tick_of (get m k) ≡ some t → get {V = BlockKey} [] t ≡ some k)
        → m ≡ []
    with_blocks [] h = refl
    with_blocks ((k, (d, t)) ∷ m) h = unfold get in cc (h k t (ground (arith, pair_cmp_eq k k)))

make_room_nil : (s : BlockStore) → make_room (with_lru s []) ≡ with_lru s []
unfolding make_room
make_room_nil s = refl

pub discard_capacity : (s : BlockStore) (k : BlockKey) → (discard s k).capacity ≡ s.capacity
unfolding discard
discard_capacity s k = ground arith

pub get-discard :
    (s : BlockStore) (j k : BlockKey)
    → get (discard s j).blocks k ≡ (if eqb j k then none else get s.blocks k)
unfolding discard
get-discard s j k = elim (Option-cases (get s.blocks j)) [
  | inl e ↦ rw e (ground (arith, pair_cmp_eq j k))
  | inr ((d, t), e) ↦ rw e (get-remove s.blocks j k)
]

get_of_discard :
    (s : BlockStore) (j k : BlockKey) (x : Block × ℕ)
    → get (discard s j).blocks k ≡ some x
    → get s.blocks k ≡ some x
get_of_discard s j k x h = ground (arith, get-discard s j k)

module _ (P : BlockStore → BlockStore → Type 0)
    (stay : (s : BlockStore) → IsValid s → s.bytes ≤ s.capacity → P s s)
    (turn : (s s' : BlockStore) (t : ℕ) (k : BlockKey) (lru : Map ℕ BlockKey)
      → IsValid s
      → s.lru ≡ (t, k) ∷ lru
      → s.capacity < s.bytes
      → P (discard s k) s'
      → P s s') where
  make_room_rule_at :
      (lru : Map ℕ BlockKey) (s : BlockStore)
      → IsValid (with_lru s lru)
      → P (with_lru s lru) (make_room (with_lru s lru))
  make_room_rule_at [] s v =
      let none_left : s.bytes ≡ 0 =
        v.counted ∙ (ap total (empty_blocks s v) ∙ unfold total in refl) in
      rw make_room_nil (stay (with_lru s []) v (omega arith))
  make_room_rule_at ((t, k) ∷ lru) s v = elim (Bool-cases (ltb s.capacity s.bytes)) [
    | inl h ↦
        let at = with_lru s ((t, k) ∷ lru) in
        let same : pop s k lru ≡ discard at k = pop-discard s t k lru v in
        let left : BlockStore = pop s k lru in
        let next : P (discard at k) (make_room left) =
          subst (λ x. P x (make_room left)) same
            (make_room_rule_at lru left (subst IsValid (sym same) (discard-IsValid at k v))) in
        rw (make_room_step s t k lru, h)
          (turn at (make_room left) t k lru v refl (ground arith) next)
    | inr h ↦ rw (make_room_step s t k lru, h) (stay (with_lru s ((t, k) ∷ lru)) v (ground arith))
  ]

  -- What holds where the loop stops, and is kept by one more turn before, holds of the whole loop.
  pub make_room_rule : (s : BlockStore) → IsValid s → P s (make_room s)
  make_room_rule s v = make_room_rule_at s.lru s v

pub make_room-IsValid : (s : BlockStore) → IsValid s → IsValid (make_room s)
make_room-IsValid = make_room_rule (λ _ s'. IsValid s') (λ s v h. v) (λ s s' t k lru v e h ih. ih)

pub make_room_bounded : (s : BlockStore) → IsValid s → (make_room s).bytes ≤ s.capacity
make_room_bounded =
    make_room_rule (λ s s'. s'.bytes ≤ s.capacity) (λ s v h. h)
      (λ s s' t k lru v e h ih. subst (λ c. s'.bytes ≤ c) (discard_capacity s k) ih)

-- No block changes; some may go.
pub get-make_room :
    (s : BlockStore)
    → IsValid s
    → (k : BlockKey) (x : Block × ℕ) → get (make_room s).blocks k ≡ some x
    → get s.blocks k ≡ some x
get-make_room =
    make_room_rule
      (λ s s'. (k : BlockKey) (x : Block × ℕ) → get s'.blocks k ≡ some x → get s.blocks k ≡ some x)
      (λ s v h k x e. e) (λ s s' t j lru v e h ih k x f. get_of_discard s j k x (ih k x f))

-- What goes was used before all that stays.
abbrev pub OldestFirst : BlockStore → BlockStore → Type 0
OldestFirst s s' =
    (j k : BlockKey) (t u : ℕ)
    → tick_of (get s.blocks j) ≡ some t
    → get s'.blocks j ≡ none
    → tick_of (get s'.blocks k) ≡ some u
    → t < u

pub head_at :
    (s : BlockStore) (t : ℕ) (j : BlockKey) (lru : Map ℕ BlockKey)
    → s.lru ≡ (t, j) ∷ lru
    → get s.lru t ≡ some j
head_at s t j lru e = rw e (unfold get in ground (arith, nat_ord.cmp_eq t t))

head_oldest :
    (s : BlockStore) (t : ℕ) (j : BlockKey) (lru : Map ℕ BlockKey)
    → IsValid s
    → s.lru ≡ (t, j) ∷ lru
    → (u : ℕ) (k : BlockKey) → get s.lru u ≡ some k
    → (u ≡ t) ⊎ (t < u)
head_oldest s t j lru v e u k h =
    let sorted : IsSorted ((t, j) ∷ lru) = subst IsSorted e v.lru_sorted in
    let found : get ((t, j) ∷ lru) u ≡ some k = subst (λ m. get m u ≡ some k) e h in
    unfold get in ground (arith, Below-lt t lru sorted.0 u)

-- When room is made in a valid store, every block that goes was used before all that stay.
pub make_room-OldestFirst : (s : BlockStore) → IsValid s → OldestFirst s (make_room s)
make_room-OldestFirst s v =
    (make_room_rule
      (λ s s'.
        ((k : BlockKey) (x : Block × ℕ) → get s'.blocks k ≡ some x → get s.blocks k ≡ some x)
        × OldestFirst s s')
      (λ s v h. ((λ k x e. e), λ j k t u a b c. cc (a, b)))
      (λ s s' t j lru v e h ih. (
        (λ k x f. get_of_discard s j k x (ih.0 k x f)),
        λ i k a b gone out kept. elim (Option-cases (get s'.blocks k)) [
          | inl n ↦ absurd (cc (n, kept))
          | inr (x, f) ↦ ground (
            arith,
            get-discard s j i,
            get-discard s j k,
            pair_cmp_eq j i,
            ih.0 k x f,
            ih.1 i k a b,
            v.linked k b,
            v.linked i a,
            v.linked i t,
            v.listed j t,
            head_at s t j lru e,
            head_oldest s t j lru v e b k,
          )
        ],
      ))
      s v).1
