-- ===== src/Vfs/Blocks/Late.antt =====
-- Blocks that arrive late: one that was read before its file was invalidated, and that comes to be
-- inserted after any number of other operations on the cache.
use mobfs.Base.{
  ℕ, ◌+◌, ◌≤◌, ◌<◌, ◌≡◌, refl, ap, Bool, true, false, not, none, some, Option, List, [], ◌∷◌, ◌++◌,
  ◌==◌, filter, any, arith, Bool-cases, inl, inr, if◌then◌else◌,
}
use mobfs.Base.Str.{Str, str_eq, str_eq_iff}
use mobfs.Base.Order.{list_ord, nat_ord, pair_ord, list_cmp_eq}
use mobfs.Base.Map.{Map, get, insert, get-insert, keys}
use mobfs.Base.Elem.{Elem-append, Elem-keys, to_set, Elem-to_set}
use mobfs.Vfs.Blocks.{
  Block, BlockKey, BlockStore, get_block, get_cached, drop_block, key_paths, under, discard,
  add_block, make_room, bump, invalidate_where, invalidate_path, invalidate_range, invalidate_tree,
  clear, insert_block, generation, or_zero,
}
use mobfs.Vfs.Blocks.Invalidate.{generations-discard_all}
use mobfs.Vfs.Blocks.Tree.{any-Elem}

-- One operation of any reader or writer.
pub data CacheStep (s : BlockStore) : BlockStore → Type 0 where
  hit : (path : Str) (index : ℕ) → CacheStep s (get_cached s path index).0
  put :
      (path : Str) (index : ℕ) (block : Block) (read_generation : ℕ)
      → CacheStep s (insert_block s path index block read_generation)
  drop_path : (path : Str) → CacheStep s (invalidate_path s path)
  drop_range : (path : Str) (offset len : ℕ) → CacheStep s (invalidate_range s path offset len)
  drop_tree : (path : Str) → CacheStep s (invalidate_tree s path)
  drop_all : CacheStep s (clear s)

pub data CacheSteps (s : BlockStore) : BlockStore → Type 0 where
  here : CacheSteps s s
  next : {t u : BlockStore} → CacheSteps s t → CacheStep t u → CacheSteps s u

-- An invalidation that names the path.
pub data Invalidated (path : Str) (s : BlockStore) : BlockStore → Type 0 where
  whole : Invalidated path s (invalidate_path s path)
  range : (offset len : ℕ) → Invalidated path s (invalidate_range s path offset len)
  tree : Invalidated path s (invalidate_tree s path)

-- no generation goes back
Grows : BlockStore → BlockStore → Type 0
Grows s t = (path : Str) → generation s path ≤ generation t path

same_generations : (s t : BlockStore) → t.generations ≡ s.generations → Grows s t
unfolding Grows generation
same_generations s t e path = rw e (omega arith)

bumped :
    (m : Map Str ℕ) (p path : Str)
    → or_zero (get (insert m p (or_zero (get m p) + 1)) path)
      ≡ (if str_eq p path then or_zero (get m path) + 1 else or_zero (get m path))
bumped m p path = rw (get-insert m p (or_zero (get m p) + 1) path) (
    ground (
      arith,
      list_cmp_eq p path,
      str_eq_iff p path,
      λ (e : p ≡ path). ap (λ q. or_zero (get m q)) e,
    ))

bump_grows :
    (m : Map Str ℕ) (paths : List Str) (path : Str)
    → or_zero (get m path) ≤ or_zero (get (bump m paths) path)
unfolding bump
bump_grows m [] path = omega arith
bump_grows m (p ∷ paths) path =
    let step = bumped m p path in
    let rest = bump_grows (insert m p (or_zero (get m p) + 1)) paths path in
    ground (arith, step, rest)

bump_listed :
    (m : Map Str ℕ) (paths : List Str) (path : Str)
    → any (λ p. str_eq p path) paths ≡ true
    → or_zero (get m path) < or_zero (get (bump m paths) path)
unfolding bump any
bump_listed m [] path h = cc
bump_listed m (p ∷ paths) path h =
    let step = bumped m p path in
    let rest = bump_grows (insert m p (or_zero (get m p) + 1)) paths path in
    elim (Bool-cases (str_eq p path)) [
      | inl e ↦ let here = rw e at step in omega (arith, here, rest)
      | inr e ↦
          let here = rw e at step in
          let later = rw e at h in
          let more = bump_listed (insert m p (or_zero (get m p) + 1)) paths path later in
          omega (arith, here, more)
    ]

generation-invalidate_where :
    (s : BlockStore) (paths : List Str) (keep : BlockKey → Bool) (path : Str)
    → generation (invalidate_where s paths keep) path
      ≡ or_zero (get (bump s.generations paths) path)
unfolding generation invalidate_where
generation-invalidate_where s paths keep path = rw generations-discard_all refl

generations-get_block :
    (s : BlockStore) (key : BlockKey) (o : Option (Block × ℕ))
    → (get_block s key o).0.generations ≡ s.generations
generations-get_block s key none = refl
generations-get_block s key (some x) = refl

generations-drop_block :
    (s : BlockStore) (key : BlockKey) (o : Option (Block × ℕ))
    → (drop_block s key o).generations ≡ s.generations
generations-drop_block s key none = refl
generations-drop_block s key (some x) = refl

generations-discard :
    (s : BlockStore) (key : BlockKey) → (discard s key).generations ≡ s.generations
unfolding discard
generations-discard s key = generations-drop_block s key (get s.blocks key)

generations-insert_block :
    (s : BlockStore) (path : Str) (index : ℕ) (block : Block) (read_generation : ℕ)
    → (insert_block s path index block read_generation).generations ≡ s.generations
unfolding insert_block make_room add_block
generations-insert_block s path index block read_generation =
    elim (Bool-cases (not (generation s path == read_generation))) [
      | inl e ↦ rw e refl
      | inr e ↦ rw e (generations-discard s (path, index))
    ]

invalidate_where-Grows :
    (s : BlockStore) (paths : List Str) (keep : BlockKey → Bool)
    → Grows s (invalidate_where s paths keep)
unfolding Grows
invalidate_where-Grows s paths keep path =
    let grown = bump_grows s.generations paths path in
    rw (generation-invalidate_where s paths keep path) (unfold generation in grown)

clear-Grows : (s : BlockStore) → Grows s (clear s)
unfolding Grows generation clear
clear-Grows s path = bump_grows s.generations (keys (to_set (key_paths (keys s.blocks)))) path

CacheStep-Grows : {s t : BlockStore} → CacheStep s t → Grows s t
unfolding get_cached invalidate_path invalidate_range invalidate_tree
CacheStep-Grows {s} (hit path index) =
    same_generations s _ (generations-get_block s (path, index) (get s.blocks (path, index)))
CacheStep-Grows {s} (put path index block read_generation) =
    same_generations s _ (generations-insert_block s path index block read_generation)
CacheStep-Grows {s} (drop_path path) = invalidate_where-Grows s _ _
CacheStep-Grows {s} (drop_range path offset len) = invalidate_where-Grows s _ _
CacheStep-Grows {s} (drop_tree path) = invalidate_where-Grows s _ _
CacheStep-Grows {s} drop_all = clear-Grows s

CacheSteps-generation :
    {s t : BlockStore} → CacheSteps s t → (path : Str) → generation s path ≤ generation t path
unfolding Grows
CacheSteps-generation here path = omega arith
CacheSteps-generation (next r st) path =
    omega (arith, CacheSteps-generation r path, CacheStep-Grows st path)

listed_grows :
    (s : BlockStore) (paths : List Str) (keep : BlockKey → Bool) (path : Str)
    → any (λ p. str_eq p path) paths ≡ true
    → generation s path < generation (invalidate_where s paths keep) path
listed_grows s paths keep path h =
    let grown = bump_listed s.generations paths path h in
    rw (generation-invalidate_where s paths keep path) (unfold generation in grown)

itself : (path : Str) → any (λ p. str_eq p path) (path ∷ []) ≡ true
unfolding any
itself path = ground (arith, str_eq_iff path path)

in_tree :
    (s : BlockStore) (path : Str)
    → any
        (λ p. str_eq p path)
        (keys (to_set (filter (under path) (key_paths (keys s.blocks)) ++ (path ∷ []))))
      ≡ true
in_tree s path =
    let front = filter (under path) (key_paths (keys s.blocks)) in
    let listed = (Elem-append path front (path ∷ [])).1 (inr (inl refl)) in
    any-Elem path (keys (to_set (front ++ (path ∷ [])))) (
      (Elem-keys (to_set (front ++ (path ∷ []))) path).1
        ((Elem-to_set (front ++ (path ∷ [])) path).1 listed))

Invalidated-generation :
    {path : Str} {s t : BlockStore} → Invalidated path s t → generation s path < generation t path
unfolding invalidate_path invalidate_range invalidate_tree
Invalidated-generation {path} {s} whole = listed_grows s _ _ path (itself path)
Invalidated-generation {path} {s} (range offset len) = listed_grows s _ _ path (itself path)
Invalidated-generation {path} {s} tree = listed_grows s _ _ path (in_tree s path)

-- A block that was read before an invalidation that names its path (of the path, of a range of it, or
-- of the tree at it) is not cached by an insertion after it, whatever operations on the cache lie
-- between the reading, the invalidation and the insertion.
pub insert_block_late :
    {s before after t : BlockStore} (path : Str)
    → CacheSteps s before
    → Invalidated path before after
    → CacheSteps after t
    → (index : ℕ) (block : Block) → insert_block t path index block (generation s path) ≡ t
unfolding insert_block
insert_block_late {s} {before} {after} {t} path first invalidated later index block =
    let older = CacheSteps-generation first path in
    let bump = Invalidated-generation invalidated in
    let newer = CacheSteps-generation later path in
    let differs : (generation t path == generation s path) ≡ false = ground arith in rw differs
