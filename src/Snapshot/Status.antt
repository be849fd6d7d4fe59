-- ===== src/Snapshot/Status.antt =====
-- src/snapshot.rs: what a status report lists.
use mobfs.Base.{
  ◌≡◌, sym, subst, ◌≢◌, ◌↔◌, ◌⊎◌, inl, inr, Option, none, some, List, [], ◌∷◌, ◌++◌, arith,
}
use mobfs.Base.Str.{Str}
use mobfs.Base.Order.{list_ord, nat_ord}
use mobfs.Base.Map.{get, keys}
use mobfs.Base.Elem.{Elem, Elem-append, Elem-keys, to_set, Elem-to_set}
use mobfs.Snapshot.{
  EntryMeta, Snapshot, StatusItem, local_only, remote_only, modified, meta_eq_iff, status_item,
  status_paths, status_plan,
}
use mobfs.Snapshot.Contents.{join_iff, Elem-push_option}

abbrev pub status_path : StatusItem → Str
status_path (local_only p) = p
status_path (remote_only p) = p
status_path (modified p) = p

-- When a path with these entries is listed.
abbrev pub Lists : Option EntryMeta → Option EntryMeta → StatusItem → Type 0
Lists l r (local_only _) = (l ≢ none) × (r ≡ none)
Lists l r (remote_only _) = (l ≡ none) × (r ≢ none)
Lists l r (modified _) = (l ≢ none) × (r ≢ none) × (l ≢ r)

path_of-status_item :
    (p : Str) (l r : Option EntryMeta) (item : StatusItem)
    → status_item p l r ≡ some item
    → status_path item ≡ p
unfolding status_item
path_of-status_item p (some _) none item h = ground arith
path_of-status_item p none (some _) item h = ground arith
path_of-status_item p (some a) (some b) item h = ground arith
path_of-status_item p none none item h = ground arith

status_item-Lists :
    (l r : Option EntryMeta) (item : StatusItem)
    → (status_item (status_path item) l r ≡ some item) ↔ Lists l r item
unfolding status_item
status_item-Lists (some a) (some b) (local_only p) = ground (arith, meta_eq_iff a b)
status_item-Lists (some a) (some b) (remote_only p) = ground (arith, meta_eq_iff a b)
status_item-Lists (some a) (some b) (modified p) = ground (arith, meta_eq_iff a b)
status_item-Lists none (some b) (local_only p) = ground arith
status_item-Lists none (some b) (remote_only p) = ground arith
status_item-Lists none (some b) (modified p) = ground arith
status_item-Lists (some a) none (local_only p) = ground arith
status_item-Lists (some a) none (remote_only p) = ground arith
status_item-Lists (some a) none (modified p) = ground arith
status_item-Lists none none (local_only p) = ground arith
status_item-Lists none none (remote_only p) = ground arith
status_item-Lists none none (modified p) = ground arith

module _ (local remote : Snapshot) where
  abbrev Listed : StatusItem → Type 0
  Listed item =
      Lists (get local.entries (status_path item)) (get remote.entries (status_path item)) item

  abbrev report : Str → Option StatusItem
  report p = status_item p (get local.entries p) (get remote.entries p)

  report_iff :
      (p : Str) (item : StatusItem)
      → (report p ≡ some item) ↔ ((status_path item ≡ p) × Listed item)
  report_iff p item = (
    λ h.
        let e = path_of-status_item p _ _ item h in
        (e, (status_item-Lists _ _ item).0 (subst (λ q. report q ≡ some item) (sym e) h)),
    λ (e, w). subst (λ q. report q ≡ some item) e ((status_item-Lists _ _ item).1 w),
  )

  Elem-status_paths :
      (paths : List Str) (item : StatusItem)
      → Elem item (status_paths local remote paths) ↔ (Elem (status_path item) paths × Listed item)
  unfolding status_paths
  Elem-status_paths [] item = ground arith
  Elem-status_paths (p ∷ paths) item =
      join_iff (Elem-push_option item (report p) (status_paths local remote paths))
        (report_iff p item) (Elem-status_paths paths item)

  Lists-some :
      (l r : Option EntryMeta) (item : StatusItem) → Lists l r item → (l ≢ none) ⊎ (r ≢ none)
  Lists-some l r (local_only p) h = inl h.0
  Lists-some l r (remote_only p) h = inr h.1
  Lists-some l r (modified p) h = inl h.0

  -- A status report lists exactly the paths at which the two scans differ, each as what it is: on
  -- one side only, or on both with different entries.
  pub Elem-status_plan : (item : StatusItem) → Elem item (status_plan local remote) ↔ Listed item
  unfolding status_plan
  Elem-status_plan item =
      let s = keys local.entries ++ keys remote.entries in
      let p = status_path item in
      let (fwd, back) = Elem-status_paths (keys (to_set s)) item in
      (
        λ h. (fwd h).1,
        λ w. back ((Elem-keys (to_set s) p).1 ((Elem-to_set s p).1 (member item w)), w),
      )
    where
      member :
          (item : StatusItem)
          → Listed item
          → Elem (status_path item) (keys local.entries ++ keys remote.entries)
      member item w = ground (
        arith,
        Lists-some _ _ item w,
        Elem-append (status_path item) (keys local.entries) (keys remote.entries),
        Elem-keys local.entries (status_path item),
        Elem-keys remote.entries (status_path item),
      )
