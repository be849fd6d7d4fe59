-- ===== src/Vfs/Reads/Loop.antt =====
-- The loop of `read` of src/vfs.rs hands out the bytes of the file that were asked for.
use mobfs.Base.{
  ℕ, zero, suc, ◌+◌, ◌-◌, ◌*◌, ◌/◌, ◌≤◌, ◌<◌, min, max, ltb, ltb→lt, ◌≡◌, refl, sym, ap, ◌∙◌, subst,
  Bool, false, Bool-cases, ◌⊎◌, inl, inr, Option, none, some, List, [], ◌∷◌, ◌++◌, append-nil,
  if◌then◌else◌, length, take, drop, length-take, length-drop, arith,
}
use mobfs.Base.Str.{Str}
use native.Mathlib.Decide.{dec_lt}
use mobfs.Error as Error
use mobfs.Protocol.{Bytes}
use mobfs.Vfs.Errno.{ok}
use mobfs.Vfs.Blocks.{Block, block_size, get_cached, insert_block, generation}
use mobfs.Vfs.Blocks.Insert.{block_of, get_cached-blocks}
use mobfs.Base.Order.{list_ord, nat_ord, pair_ord}
use mobfs.Base.Map.{get}
use mobfs.Vfs.State.{Vfs, RemoteClient}
use mobfs.Vfs.Reads.{
  concat, fetch, fetch_missing, read_bytes, Gathered, slice, gather, finish_read, add_block_part,
  block_count, read_blocks,
}
use mobfs.Vfs.Reads.IntoBlocks.{first-into_blocks}
use mobfs.Vfs.Reads.Cache.{block_at, IsTrueTo, insert_block-IsTrueTo, get_cached-IsTrueTo}
use mobfs.Vfs.Reads.Slices.{slice-next, take_enough}

-- what has been gathered
abbrev pub gathered : Gathered → Bytes
gathered g = read_bytes (finish_read g.single g.out)

-- A single block is kept as long as nothing has been put together.
abbrev pub IsGathered : Gathered → Type 0
IsGathered g = (g.single ≡ none) ⊎ (g.out ≡ [])

gathered-gather :
    (out : Bytes) (single : Option (Block × ℕ × ℕ)) (block : Block) (from to : ℕ)
    → (single ≡ none) ⊎ (out ≡ [])
    → (gathered (gather out single block from to)
        ≡ read_bytes (finish_read single out) ++ slice from to block)
      × IsGathered (gather out single block from to)
gathered-gather [] none block from to h = (refl, inr refl)
gathered-gather (b ∷ out) none block from to h = (refl, inl refl)
gathered-gather out (some (first, first_from, first_to)) block from to h =
    let empty : out ≡ [] = ground arith in
    (ap (λ o. o ++ (slice first_from first_to first ++ slice from to block)) empty, inl refl)

if_gathered :
    (from to : ℕ) (block : Block) (g : Gathered)
    → IsGathered g
    → (gathered (if ltb from to then gather g.out g.single block from to else g)
        ≡ gathered g ++ slice from to block)
      × IsGathered (if ltb from to then gather g.out g.single block from to else g)
if_gathered from to block g v = elim (Bool-cases (ltb from to)) [
  | inl e ↦ rw e (gathered-gather g.out g.single block from to v)
  | inr e ↦
      let le : to ≤ from = ground arith in
      let none_left : to - from ≡ 0 = omega arith in
      let nothing : slice from to block ≡ [] = ap (λ k. take k (drop from block)) none_left in
      rw e (sym (ap (λ r. gathered g ++ r) nothing ∙ append-nil (gathered g)), v)
]

add_block_part-gathered :
    (offset end index : ℕ) (block : Block) (g : Gathered)
    → IsGathered g
    → (gathered (add_block_part offset end index block g)
        ≡ gathered g
          ++ slice
              (max offset (index * block_size) - index * block_size)
              (min (min end (index * block_size + block_size) - index * block_size) (length block))
              block)
      × IsGathered (add_block_part offset end index block g)
add_block_part-gathered offset end index block g v =
    if_gathered (max offset (index * block_size) - index * block_size)
      (min (min end (index * block_size + block_size) - index * block_size) (length block)) block g
      v

-- what has been read when the loop comes to a block
abbrev read_up_to : Bytes → ℕ → ℕ → ℕ → Bytes
read_up_to bytes offset end index =
    take (min end (max offset (index * block_size)) - offset) (drop offset bytes)

-- one block more
step :
    (bytes : Bytes) (offset end index : ℕ) (g : Gathered)
    → offset ≤ end
    → offset ≤ index * block_size + block_size
    → IsGathered g
    → gathered g ≡ read_up_to bytes offset end index
    → (gathered (add_block_part offset end index (block_at bytes index) g)
        ≡ read_up_to bytes offset end (index + 1))
      × IsGathered (add_block_part offset end index (block_at bytes index) g)
step bytes offset end index g le near v h =
    let more = add_block_part-gathered offset end index (block_at bytes index) g v in
    let next : index * block_size + block_size ≡ (index + 1) * block_size = omega arith in
    (
      more.0
          ∙ ap
              (λ r.
                r
                ++ slice (max offset (index * block_size) - index * block_size)
                    (min (min end (index * block_size + block_size) - index * block_size)
                      (length (block_at bytes index)))
                    (block_at bytes index))
              h
          ∙ slice-next bytes block_size (index * block_size) offset end le near
          ∙ ap (λ k. take (min end (max offset k) - offset) (drop offset bytes)) next,
      more.1,
    )

-- a block that is not whole is the last of the file
short_end :
    (bytes : Bytes) (offset end index : ℕ)
    → offset ≤ end
    → offset ≤ index * block_size + block_size
    → length (block_at bytes index) < block_size
    → (min end (max offset ((index + 1) * block_size)) - offset ≡ end - offset)
      ⊎ ((length (drop offset bytes) ≤ min end (max offset ((index + 1) * block_size)) - offset)
          × (length (drop offset bytes) ≤ end - offset))
short_end bytes offset end index le near short =
    let l1 = length-take block_size (drop (index * block_size) bytes) in
    let l2 = length-drop (index * block_size) bytes in
    let l3 = length-drop offset bytes in
    elim (dec_lt ((index + 1) * block_size) end) [
      | yes h ↦ inr (omega arith, omega arith)
      | no h ↦ inl (omega arith)
    ]

-- nothing is read at first
start_count :
    (offset size : ℕ)
    → 0 ≡ min (offset + size) (max offset (offset / block_size * block_size)) - offset
start_count offset size = omega arith

back : (offset size : ℕ) → (offset + size) - offset ≡ size
back offset size = omega arith

module _ {W : Type 0} (client : RemoteClient W) (path : Str) (bytes : Bytes) where
  -- The daemon answers a read of one block, at the block's offset, with what is there of it, in
  -- frames of any sizes.
  abbrev pub Serves : Type 0
  Serves =
      (index : ℕ) (w : W)
      → (frames : List Bytes) × (eof : Bool) × ((client.read_range path (index * block_size)
            block_size w).0
          ≡ Error.ok (frames, eof))
        × (concat frames ≡ block_at bytes index)

  module _ (serves : Serves) where
    -- a block that is not cached is read, and cached
    missing_lem :
        (index : ℕ) (s : Vfs W)
        → IsTrueTo bytes path s.blocks
        → ((fetch_missing client path index none s).0 ≡ ok (Error.ok (block_at bytes index)))
          × IsTrueTo bytes path (fetch_missing client path index none s).1.blocks
    missing_lem index s v =
        let answer = serves index s.world in
        let short : length (concat answer.0) ≤ block_size =
          subst (λ (r : Bytes). length r ≤ block_size) (sym answer.3)
            (omega (arith, length-take block_size (drop (index * block_size) bytes))) in
        let block = first-into_blocks answer.0 short ∙ answer.3 in
        rw answer.2 (
          ap (λ (b : Block). ok (Error.ok b)) block,
          subst
              (λ b.
                IsTrueTo bytes path (insert_block s.blocks path index b (generation s.blocks path)))
              (sym block)
              (insert_block-IsTrueTo bytes path s.blocks index (generation s.blocks path) v),
        )

    cached_lem :
        (index : ℕ) (s : Vfs W) (o : Option Block)
        → IsTrueTo bytes path s.blocks
        → ((block : Block) → o ≡ some block → block ≡ block_at bytes index)
        → ((fetch_missing client path index o s).0 ≡ ok (Error.ok (block_at bytes index)))
          × IsTrueTo bytes path (fetch_missing client path index o s).1.blocks
    cached_lem index s (some block) v h = (ap (λ (b : Block). ok (Error.ok b)) (h block refl), v)
    cached_lem index s none v h = missing_lem index s v

    cached_block :
        (index : ℕ) (s : Vfs W) (o : Option (Block × ℕ)) (block : Block)
        → IsTrueTo bytes path s.blocks
        → get s.blocks.blocks (path, index) ≡ o
        → block_of o ≡ some block
        → block ≡ block_at bytes index
    unfolding IsTrueTo
    cached_block index s none block v e h = cc
    cached_block index s (some x) block v e h =
        let same : x.0 ≡ block = cc in sym same ∙ v index x e

    fetch_lem :
        (index : ℕ) (s : Vfs W)
        → IsTrueTo bytes path s.blocks
        → ((fetch client path index s).0 ≡ ok (Error.ok (block_at bytes index)))
          × IsTrueTo bytes path (fetch client path index s).1.blocks
    unfolding fetch
    fetch_lem index s v =
        cached_lem index (record s { blocks = (get_cached s.blocks path index).0 })
          (get_cached s.blocks path index).1 (get_cached-IsTrueTo bytes path s.blocks index v)
          (λ block e.
            cached_block index s (get s.blocks.blocks (path, index)) block v refl
              (sym (get_cached-blocks s.blocks path index) ∙ e))

    -- The loop for a read that does not follow on another. `count` blocks from `index` on reach the
    -- end of what is asked for.
    read_blocks_lem :
        (count offset end index : ℕ) (last : Option ℕ) (g : Gathered) (s : Vfs W)
        → IsTrueTo bytes path s.blocks
        → offset ≤ end
        → offset ≤ index * block_size + block_size
        → end ≤ (index + count) * block_size
        → IsGathered g
        → gathered g ≡ read_up_to bytes offset end index
        → (g' : Gathered) × ((read_blocks client count path offset end false last index g s).0
            ≡ ok g')
          × (gathered g' ≡ take (end - offset) (drop offset bytes))
    unfolding read_blocks get
    read_blocks_lem zero offset end index last g s v le near far w h = (
      g,
      refl,
      h
          ∙ take_enough (min end (max offset (index * block_size)) - offset) (end - offset)
              (drop offset bytes) (inl (omega arith)),
    )
    read_blocks_lem (suc count) offset end index last g s v le near far w h =
        let block = block_at bytes index in
        let more = add_block_part offset end index block g in
        let got = fetch_lem index s v in
        let next = step bytes offset end index g le near w h in
        rw got.0 (elim (Bool-cases (ltb (length block) block_size)) [
          | inl short ↦ (
            more,
            rw short refl,
            next.0
                ∙ take_enough (min end (max offset ((index + 1) * block_size)) - offset)
                    (end - offset) (drop offset bytes)
                    (short_end bytes offset end index le near
                      (ltb→lt (length block) block_size short)),
          )
          | inr whole ↦ rw whole (
              read_blocks_lem count offset end (index + 1) last more (fetch client path index s).1
                got.1 le (omega arith) (omega arith) next.1 next.0)
        ])

    -- A read that does not follow on another ends with exactly the bytes of the file that were asked
    -- for, as far as the file goes, although they come from whole blocks, some of them cached, which
    -- the daemon sent in frames of any sizes.
    pub read_blocks-slice :
        (offset size : ℕ) (last : Option ℕ) (s : Vfs W)
        → IsTrueTo bytes path s.blocks
        → (g : Gathered) × ((read_blocks client
              (block_count offset (offset + size))
              path
              offset
              (offset + size)
              false
              last
              (offset / block_size)
              (record { out = []; single = none })
              s).0
            ≡ ok g)
          × (gathered g ≡ take size (drop offset bytes))
    read_blocks-slice offset size last s v =
        let end = offset + size in
        let done =
          read_blocks_lem (block_count offset end) offset end (offset / block_size) last
            (record { out = []; single = none }) s v (omega arith) (omega arith) (omega arith)
            (inl refl) (ap (λ k. take k (drop offset bytes)) (start_count offset size)) in
        (done.0, done.1, done.2 ∙ ap (λ k. take k (drop offset bytes)) (back offset size))
