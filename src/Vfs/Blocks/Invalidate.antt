-- ===== src/Vfs/Blocks/Invalidate.antt =====
-- Invalidation of the block cache of src/vfs.rs: which blocks go.
use mobfs.Base.{
  ℕ, ◌+◌, ◌-◌, ◌/◌, ◌≤◌, ◌<◌, ◌≡◌, refl, ap, ◌∙◌, max, Bool, false, not, none, List, [], ◌∷◌, ◌&&◌,
  ◌||◌, any, filter, arith, Option-cases, if◌then◌else◌,
}
use mobfs.Base.Str.{Str, str_eq, str_eq_iff}
use mobfs.Base.Order.{list_ord, nat_ord, pair_ord, pair_cmp_eq, eqb}
use mobfs.Base.Map.{Map, is_some, get, keys}
use mobfs.Vfs.Blocks.{
  Block, BlockKey, BlockStore, get_cached, discard, discard_all, bump, doomed, invalidate_where,
  invalidate_range, block_size,
}
use mobfs.Vfs.Blocks.Valid.{IsValid, discard-IsValid}
use mobfs.Vfs.Blocks.Room.{get-discard}
use mobfs.Vfs.Blocks.Insert.{get_cached-blocks}

listed_in : BlockKey → List BlockKey → Bool
listed_in k [] = false
listed_in k (j ∷ js) = eqb j k || listed_in k js

get-discard_all :
    (s : BlockStore) (ks : List BlockKey) (k : BlockKey)
    → get (discard_all s ks).blocks k ≡ (if listed_in k ks then none else get s.blocks k)
unfolding listed_in discard_all
get-discard_all s [] k = refl
get-discard_all s (j ∷ js) k =
    get-discard_all (discard s j) js k ∙ ground (arith, get-discard s j k)

discard_all-IsValid : (s : BlockStore) (ks : List BlockKey) → IsValid s → IsValid (discard_all s ks)
unfolding discard_all
discard_all-IsValid s [] v = v
discard_all-IsValid s (j ∷ js) v = discard_all-IsValid (discard s j) js (discard-IsValid s j v)

pub generations-discard_all :
    (s : BlockStore) (ks : List BlockKey) → (discard_all s ks).generations ≡ s.generations
unfolding discard_all discard
generations-discard_all s [] = refl
generations-discard_all s (j ∷ js) = generations-discard_all (discard s j) js ∙ ground arith

listed_in-filter :
    (test : BlockKey → Bool) (ks : List BlockKey) (k : BlockKey)
    → listed_in k (filter test ks) ≡ (test k && listed_in k ks)
unfolding listed_in filter
listed_in-filter test [] k = ground arith
listed_in-filter test (j ∷ js) k =
    ground (arith, listed_in-filter test js k, λ (e : j ≡ k). ap test e, pair_cmp_eq j k)

listed_in-keys :
    (m : Map BlockKey (Block × ℕ)) (k : BlockKey) → listed_in k (keys m) ≡ is_some (get m k)
unfolding listed_in keys get
listed_in-keys [] k = refl
listed_in-keys ((j, v) ∷ m) k = ground (arith, listed_in-keys m k)

pub invalidate_where-IsValid :
    (s : BlockStore) (paths : List Str) (keep : BlockKey → Bool)
    → IsValid s
    → IsValid (invalidate_where s paths keep)
unfolding invalidate_where
invalidate_where-IsValid s paths keep v =
    discard_all-IsValid (record s { generations = bump s.generations paths })
      (filter (doomed paths keep) (keys s.blocks))
      (record {
        linked = v.linked;
        listed = v.listed;
        past = v.past;
        counted = v.counted;
        blocks_sorted = v.blocks_sorted;
        lru_sorted = v.lru_sorted;
      })

get-invalidate_where :
    (s : BlockStore) (paths : List Str) (keep : BlockKey → Bool) (k : BlockKey)
    → get (invalidate_where s paths keep).blocks k
      ≡ (if doomed paths keep k then none else get s.blocks k)
unfolding invalidate_where
get-invalidate_where s paths keep k =
    get-discard_all (record s { generations = bump s.generations paths })
      (filter (doomed paths keep) (keys s.blocks)) k
    ∙ ground (
      arith,
      listed_in-filter (doomed paths keep) (keys s.blocks) k,
      listed_in-keys s.blocks k,
      Option-cases (get s.blocks k),
    )

-- An invalidation takes exactly the blocks of the named files that are not kept.
pub get_cached-invalidate_where :
    (s : BlockStore) (paths : List Str) (keep : BlockKey → Bool) (p : Str) (i : ℕ)
    → (get_cached (invalidate_where s paths keep) p i).1
      ≡ (if any (λ q. str_eq q p) paths && not (keep (p, i)) then none else (get_cached s p i).1)
get_cached-invalidate_where s paths keep p i =
    rw (get_cached-blocks, get-invalidate_where) (ground (arith, get_cached-blocks s p i))

-- After a write of `len` bytes no block that holds one of them is cached.
pub get_cached-invalidate_range :
    (s : BlockStore) (path : Str) (offset len b : ℕ)
    → offset ≤ b
    → b < offset + len
    → (get_cached (invalidate_range s path offset len) path (b / block_size)).1 ≡ none
unfolding invalidate_range
get_cached-invalidate_range s path offset len b h k =
    let first : offset / block_size ≤ b / block_size = omega arith in
    let last : b / block_size ≤ (offset + max len 1 - 1) / block_size = omega arith in
    rw get_cached-invalidate_where (unfold any in ground (arith, first, last, str_eq_iff path path))
