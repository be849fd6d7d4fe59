-- ===== src/Vfs/Reads/IntoBlocks.antt =====
-- `into_blocks` of src/vfs.rs: the frames of an answer as blocks of the cache.
use mobfs.Base.{
  ℕ, zero, suc, ◌+◌, ◌*◌, ◌≤◌, ◌<◌, ◌≡◌, ◌≢◌, refl, sym, ap, ◌∙◌, subst, true, Bool-cases, inl, inr,
  List, [], ◌∷◌, ◌++◌, append-nil, length, take, drop, length-take, length-drop, length-append,
  take-append-drop, take-length_append, arith,
}
use mobfs.Protocol.{Bytes}
use mobfs.Vfs.Blocks.{Block, block_size}
use mobfs.Vfs.Reads.{concat, is_aligned, chunks, into_blocks, first_or_empty}

length-drop-lt :
    (size b : ℕ) (bytes : Bytes) (fuel : ℕ)
    → 0 < size
    → length (b ∷ bytes) ≤ suc fuel
    → length (drop size (b ∷ bytes)) ≤ fuel
length-drop-lt size b bytes fuel p h = omega (arith, length-drop size (b ∷ bytes))

concat-chunks :
    (fuel size : ℕ) (bytes : Bytes)
    → 0 < size
    → length bytes ≤ fuel
    → concat (chunks fuel size bytes) ≡ bytes
unfolding concat chunks
concat-chunks zero size [] p h = refl
concat-chunks zero size (b ∷ bytes) p h = absurd (omega arith)
concat-chunks (suc fuel) size [] p h = refl
concat-chunks (suc fuel) size (b ∷ bytes) p h =
    ap (λ r. take size (b ∷ bytes) ++ r)
      (concat-chunks fuel size (drop size (b ∷ bytes)) p (length-drop-lt size b bytes fuel p h))
    ∙ take-append-drop size (b ∷ bytes)

-- a first block before others is whole
aligned-cons :
    (size : ℕ) (block : Block) (blocks : List Block)
    → length block ≤ size
    → (blocks ≢ [] → length block ≡ size)
    → is_aligned size blocks ≡ true
    → is_aligned size (block ∷ blocks) ≡ true
unfolding is_aligned
aligned-cons size block [] le full rest = ground arith
aligned-cons size block (next ∷ blocks) le full rest = let whole = full (λ e. cc) in ground arith

chunks-nil : (fuel size : ℕ) (bytes : Bytes) → bytes ≡ [] → chunks fuel size bytes ≡ []
unfolding chunks
chunks-nil zero size bytes e = refl
chunks-nil (suc fuel) size bytes e = rw e refl

is_aligned-chunks :
    (fuel size : ℕ) (bytes : Bytes)
    → 0 < size
    → length bytes ≤ fuel
    → is_aligned size (chunks fuel size bytes) ≡ true
unfolding chunks
is_aligned-chunks zero size bytes p h = unfold is_aligned in refl
is_aligned-chunks (suc fuel) size [] p h = unfold is_aligned in refl
is_aligned-chunks (suc fuel) size (b ∷ bytes) p h =
    aligned-cons size (take size (b ∷ bytes)) (chunks fuel size (drop size (b ∷ bytes)))
      (omega (arith, length-take size (b ∷ bytes)))
      (λ more. whole (drop size (b ∷ bytes)) refl more)
      (is_aligned-chunks fuel size (drop size (b ∷ bytes)) p (length-drop-lt size b bytes fuel p h))
  where
    whole :
        (rest : Bytes)
        → drop size (b ∷ bytes) ≡ rest
        → chunks fuel size (drop size (b ∷ bytes)) ≢ []
        → length (take size (b ∷ bytes)) ≡ size
    whole [] e more = absurd (more (chunks-nil fuel size (drop size (b ∷ bytes)) e))
    whole (c ∷ rest) e more = omega (
      arith,
      length-take size (b ∷ bytes),
      length-drop size (b ∷ bytes),
      ap (λ (r : Bytes). length r) e,
    )

into_blocks-is_aligned :
    (frames : List Bytes)
    → (concat (into_blocks frames) ≡ concat frames)
      × (is_aligned block_size (into_blocks frames) ≡ true)
unfolding into_blocks
into_blocks-is_aligned frames = elim (Bool-cases (is_aligned block_size frames)) [
  | inl e ↦ rw e (refl, e)
  | inr e ↦ rw e (
    concat-chunks (length (concat frames)) block_size (concat frames) (omega arith) (omega arith),
    is_aligned-chunks (length (concat frames)) block_size (concat frames) (omega arith)
        (omega arith),
  )
]

-- the block of the number, or no bytes behind the last
unfoldable pub nth_or_empty : List Block → ℕ → Block
nth_or_empty [] index = []
nth_or_empty (block ∷ blocks) zero = block
nth_or_empty (block ∷ blocks) (suc index) = nth_or_empty blocks index

drop_nil : (n : ℕ) → drop {A = ℕ} n [] ≡ []
drop_nil zero = refl
drop_nil (suc n) = refl

take_nil : (n : ℕ) → take {A = ℕ} n [] ≡ []
take_nil zero = refl
take_nil (suc n) = refl

take_short : (n : ℕ) (bytes : Bytes) → length bytes ≤ n → take n bytes ≡ bytes
take_short zero [] h = refl
take_short zero (b ∷ bytes) h = absurd (omega arith)
take_short (suc n) [] h = refl
take_short (suc n) (b ∷ bytes) h = ap (λ r. b ∷ r) (take_short n bytes (omega arith))

drop_past : (n : ℕ) (bytes : Bytes) → length bytes ≤ n → drop n bytes ≡ []
drop_past zero [] h = refl
drop_past zero (b ∷ bytes) h = absurd (omega arith)
drop_past (suc n) [] h = refl
drop_past (suc n) (b ∷ bytes) h = drop_past n bytes (omega arith)

drop-append : (front back : Bytes) (n : ℕ) → drop (length front + n) (front ++ back) ≡ drop n back
drop-append [] back n = ap (λ k. drop k back) (omega arith)
drop-append (b ∷ front) back n =
    ap (λ k. drop k (b ∷ (front ++ back))) (suc_sum (length front) n) ∙ drop-append front back n
  where
    suc_sum : (a c : ℕ) → suc a + c ≡ suc (a + c)
    suc_sum a c = omega arith

suc_times : (index size : ℕ) → suc index * size ≡ size + index * size
suc_times index size = omega arith

nth-concat :
    (size : ℕ) (blocks : List Block) (index : ℕ)
    → is_aligned size blocks ≡ true
    → nth_or_empty blocks index ≡ take size (drop (index * size) (concat blocks))
unfolding nth_or_empty concat is_aligned
nth-concat size [] index a = rw (drop_nil (index * size), take_nil size) refl
nth-concat size (b ∷ []) zero a =
    let zeroth : 0 * size ≡ 0 = omega arith in
    rw (zeroth, append-nil b) (sym (take_short size b (ground arith)))
nth-concat size (b ∷ []) (suc index) a =
    let fits : length b ≤ size = ground arith in
    let past : length b ≤ size + index * size = omega arith in
    rw (suc_times index size, append-nil b, drop_past (size + index * size) b past, take_nil size)
      refl
nth-concat size (b ∷ (c ∷ blocks)) zero a =
    let zeroth : 0 * size ≡ 0 = omega arith in
    let whole : length b ≡ size = ground arith in
    rw zeroth (
      sym (take-length_append b (concat (c ∷ blocks)))
      ∙ ap (λ n. take n (b ++ concat (c ∷ blocks))) whole)
nth-concat size (b ∷ (c ∷ blocks)) (suc index) a =
    let whole : length b ≡ size = ground arith in
    nth-concat size (c ∷ blocks) index (ground arith)
    ∙ ap (λ r. take size r)
        (sym (drop-append b (concat (c ∷ blocks)) (index * size))
          ∙ ap (λ n. drop n (b ++ concat (c ∷ blocks)))
              (ap (λ n. n + index * size) whole ∙ sym (suc_times index size)))

-- However the answer was cut into frames, the block of each number holds exactly the bytes of the
-- answer that stand at its place: a block's size from that many times its size on, as far as the
-- answer goes.
pub into_blocks_lem :
    (frames : List Bytes) (index : ℕ)
    → nth_or_empty (into_blocks frames) index
      ≡ take block_size (drop (index * block_size) (concat frames))
into_blocks_lem frames index =
    let l = into_blocks-is_aligned frames in
    nth-concat block_size (into_blocks frames) index l.1
    ∙ ap (λ bytes. take block_size (drop (index * block_size) bytes)) l.0

nil_of_length : (bytes : Bytes) → length bytes ≤ 0 → bytes ≡ []
nil_of_length [] h = refl
nil_of_length (b ∷ bytes) h = absurd (omega arith)

first-concat :
    (size : ℕ) (blocks : List Block)
    → is_aligned size blocks ≡ true
    → length (concat blocks) ≤ size
    → first_or_empty blocks ≡ concat blocks
unfolding concat is_aligned
first-concat size [] a h = refl
first-concat size (b ∷ []) a h = sym (append-nil b)
first-concat size (b ∷ (c ∷ blocks)) a h =
    let whole : length b ≡ size = ground arith in
    let none_left =
      nil_of_length (concat (c ∷ blocks)) (omega (arith, length-append b (concat (c ∷ blocks)))) in
    rw none_left (sym (append-nil b))

-- An answer of at most one block is the first block.
pub first-into_blocks :
    (frames : List Bytes)
    → length (concat frames) ≤ block_size
    → first_or_empty (into_blocks frames) ≡ concat frames
first-into_blocks frames h =
    let l = into_blocks-is_aligned frames in
    first-concat block_size (into_blocks frames) l.1
      (subst (λ (r : Bytes). length r ≤ block_size) (sym l.0) h)
    ∙ l.0
