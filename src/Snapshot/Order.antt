-- ===== src/Snapshot/Order.antt =====
-- src/snapshot.rs: the order of the items of a plan.
use mobfs.Base.{
  ◌≡◌, refl, sym, subst, Bool, true, false, Option, none, some, List, [], ◌∷◌, ◌++◌, arith,
  Bool-cases, inl, inr, Ordering, if◌then◌else◌,
}
use mathlib.Core.List.{reverse}
use mobfs.Base.Str.{Str}
use mobfs.Base.Order.{list_ord, nat_ord, list_cmp}
use mobfs.Base.Map.{get, keys, contains_key, IsSorted}
use mobfs.Base.Elem.{
  All, All-of, Pairwise, Pairwise-append, Pairwise-reverse, IsSorted-keys, to_set-IsSorted,
}
use mobfs.Snapshot.{
  Entries, Snapshot, PlanItem, delete_remote, put, sync_item, sync_paths, sync_items, push_option,
  puts, remote_deletions, push_items,
}
use mobfs.Snapshot.Contents.{path_of, path_of-sync_item}
use mobfs.Snapshot.Push.{is_put, is_put-puts, is_delete_remote}

abbrev pub PathLt : PlanItem → PlanItem → Type 0
PathLt x y = list_cmp (path_of x) (path_of y) ≡ Ordering.lt

abbrev StrLt : Str → Str → Type 0
StrLt p q = list_cmp p q ≡ Ordering.lt

push_option-All :
    {A : Type 0} (P : A → Type 0) (x : Option A) (xs : List A)
    → ((y : A) → x ≡ some y → P y)
    → All P xs
    → All P (push_option x xs)
push_option-All P none xs h k = k
push_option-All P (some y) xs h k = (h y refl, k)

push_option-Pairwise :
    {A : Type 0} (R : A → A → Type 0) (x : Option A) (xs : List A)
    → ((y : A) → x ≡ some y → All (R y) xs)
    → Pairwise R xs
    → Pairwise R (push_option x xs)
push_option-Pairwise R none xs h k = k
push_option-Pairwise R (some y) xs h k = (h y refl, k)

kept-Pairwise :
    {A : Type 0} (R : A → A → Type 0) (keep : Bool) (x : A) (xs : List A)
    → All (R x) xs
    → Pairwise R xs
    → Pairwise R (if keep then x ∷ xs else xs)
kept-Pairwise R true x xs h k = (h, k)
kept-Pairwise R false x xs h k = k

module _ (base local remote : Snapshot) (d : Bool) where
  abbrev decision : Str → Option PlanItem
  decision p = sync_item p d (get base.entries p) (get local.entries p) (get remote.entries p)

  sync_paths_after :
      (p : Str) (paths : List Str)
      → All (λ q. StrLt p q) paths
      → All (λ y. StrLt p (path_of y)) (sync_paths base local remote d paths)
  unfolding sync_paths
  sync_paths_after p [] h = tt
  sync_paths_after p (q ∷ paths) (h, hs) =
      push_option-All (λ y. StrLt p (path_of y)) (decision q) _
        (λ y e. subst (λ r. StrLt p r) (sym (path_of-sync_item q d _ _ _ y e)) h)
        (sync_paths_after p paths hs)

  sync_paths_ascend :
      (paths : List Str)
      → Pairwise StrLt paths
      → Pairwise PathLt (sync_paths base local remote d paths)
  unfolding sync_paths
  sync_paths_ascend [] h = tt
  sync_paths_ascend (q ∷ paths) (a, h) =
      push_option-Pairwise PathLt (decision q) _
        (λ y e.
          subst (λ r. All (λ z. StrLt r (path_of z)) (sync_paths base local remote d paths))
            (sym (path_of-sync_item q d _ _ _ y e)) (sync_paths_after q paths a))
        (sync_paths_ascend paths h)

  -- The items of a sync plan are in ascending order of their paths, so no path has two.
  pub sync_items_ascend : Pairwise PathLt (sync_items base local remote d)
  unfolding sync_items
  sync_items_ascend = sync_paths_ascend _ (
      IsSorted-keys _
        (to_set-IsSorted (keys base.entries ++ (keys local.entries ++ keys remote.entries))))

-- Of two deletions the later one has the smaller path.
abbrev pub DeletesDown : PlanItem → PlanItem → Type 0
DeletesDown x y = is_delete_remote x ≡ true → is_delete_remote y ≡ true → PathLt y x

put_not_delete : (x : PlanItem) → is_delete_remote x ≡ true → is_put x ≡ false
put_not_delete x h = ground arith

puts-DeletesDown : (es remote : Entries) → Pairwise DeletesDown (puts es remote)
unfolding puts
puts-DeletesDown [] remote = tt
puts-DeletesDown ((q, m) ∷ es) remote =
    kept-Pairwise DeletesDown _ (put q) (puts es remote)
      (All-of (DeletesDown (put q)) (puts es remote) (λ y _ d. cc)) (puts-DeletesDown es remote)

remote_deletions_below :
    (x : PlanItem) (rels : List Str) (local : Entries)
    → All (λ q. StrLt q (path_of x)) rels
    → All (λ y. DeletesDown x y) (remote_deletions rels local)
unfolding remote_deletions
remote_deletions_below x [] local h = tt
remote_deletions_below x (q ∷ rels) local (h, hs) = elim (Bool-cases (contains_key local q)) [
  | inl e ↦ rw e (remote_deletions_below x rels local hs)
  | inr e ↦ rw e ((λ _ _. h), remote_deletions_below x rels local hs)
]

remote_deletions_down :
    (rels : List Str) (local : Entries)
    → Pairwise (λ p q. StrLt q p) rels
    → Pairwise DeletesDown (remote_deletions rels local)
unfolding remote_deletions
remote_deletions_down [] local h = tt
remote_deletions_down (q ∷ rels) local (a, h) = elim (Bool-cases (contains_key local q)) [
  | inl e ↦ rw e (remote_deletions_down rels local h)
  | inr e ↦
      rw e
        (remote_deletions_below (delete_remote q) rels local a, remote_deletions_down rels local h)
]

-- A push removes in descending order of the paths, so what lies below a directory goes before it.
pub push_items_delete_down :
    (local remote : Snapshot) (d : Bool)
    → IsSorted remote.entries
    → Pairwise DeletesDown (push_items local remote d)
unfolding push_items
push_items_delete_down local remote d s =
    Pairwise-append DeletesDown _ _ (puts-DeletesDown local.entries remote.entries)
      (deletions_down d)
      λ x y m n.
        λ dx dy. absurd (cc (is_put-puts local.entries remote.entries x m, put_not_delete x dx))
  where
    deletions_down :
        (d : Bool)
        → Pairwise DeletesDown
            (if d then remote_deletions (reverse (keys remote.entries)) local.entries else [])
    deletions_down true =
        remote_deletions_down _ local.entries (
          Pairwise-reverse (λ p q. StrLt q p) (keys remote.entries)
            (IsSorted-keys remote.entries s))
    deletions_down false = tt
