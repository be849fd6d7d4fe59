-- ===== src/Snapshot/Contents.antt =====
-- src/snapshot.rs: which items a plan holds, said of the scans alone.
use mobfs.Base.{
  ◌≡◌, refl, sym, subst, ◌≢◌, ◌↔◌, ◌⊎◌, inl, inr, Bool, true, Option, none, some, List, [], ◌∷◌,
  ◌++◌, arith,
}
use mobfs.Base.Str.{Str}
use mobfs.Base.Order.{list_ord, nat_ord}
use mobfs.Base.Map.{get, keys}
use mobfs.Base.Elem.{Elem, Elem-append, Elem-keys, to_set, Elem-to_set}
use mobfs.Snapshot.{
  EntryMeta, Snapshot, PlanItem, put, download, delete_local, delete_remote, conflict, is_content,
  option_meta_eq_iff, sync_item, sync_paths, sync_items, push_option,
}

abbrev pub path_of : PlanItem → Str
path_of (put p) = p
path_of (download p) = p
path_of (delete_local p) = p
path_of (delete_remote p) = p
path_of (conflict p) = p

-- a file or a symbolic link
abbrev pub HasContent : Option EntryMeta → Type 0
HasContent none = ⊥
HasContent (some meta) = is_content meta.kind ≡ true

-- When a path with these entries is due for an item of a sync.
abbrev pub Wants : Bool → Option EntryMeta → Option EntryMeta → Option EntryMeta → PlanItem → Type 0
Wants delete b l r (put _) = (r ≡ b) × (l ≢ b) × HasContent l
Wants delete b l r (download _) = (l ≡ b) × (r ≢ b) × HasContent r
Wants delete b l r (delete_remote _) = (delete ≡ true) × (r ≡ b) × (l ≢ b) × (l ≡ none)
Wants delete b l r (delete_local _) = (delete ≡ true) × (l ≡ b) × (r ≢ b) × (r ≡ none)
Wants delete b l r (conflict _) = (l ≢ b) × (r ≢ b) × (l ≢ r)

pub path_of-sync_item :
    (p : Str) (d : Bool) (b l r : Option EntryMeta) (item : PlanItem)
    → sync_item p d b l r ≡ some item
    → path_of item ≡ p
unfolding sync_item
path_of-sync_item p d b l r item h = ground arith

sync_item-Wants :
    (d : Bool) (b l r : Option EntryMeta) (item : PlanItem)
    → (sync_item (path_of item) d b l r ≡ some item) ↔ Wants d b l r item
unfolding sync_item
sync_item-Wants d b l r (put p) =
    ground (arith, option_meta_eq_iff l r, option_meta_eq_iff l b, option_meta_eq_iff r b)
sync_item-Wants d b l r (download p) =
    ground (arith, option_meta_eq_iff l r, option_meta_eq_iff l b, option_meta_eq_iff r b)
sync_item-Wants d b l r (delete_remote p) =
    ground (arith, option_meta_eq_iff l r, option_meta_eq_iff l b, option_meta_eq_iff r b)
sync_item-Wants d b l r (delete_local p) =
    ground (arith, option_meta_eq_iff l r, option_meta_eq_iff l b, option_meta_eq_iff r b)
sync_item-Wants d b l r (conflict p) =
    ground (arith, option_meta_eq_iff l r, option_meta_eq_iff l b, option_meta_eq_iff r b)

-- Nothing is due for a path that no scan has.
Wants-some :
    (d : Bool) (b l r : Option EntryMeta) (item : PlanItem)
    → Wants d b l r item
    → (b ≢ none) ⊎ (l ≢ none) ⊎ (r ≢ none)
Wants-some d (some b) l r item w = inl (λ e. cc)
Wants-some d none (some l) r item w = inr (inl (λ e. cc))
Wants-some d none none (some r) item w = inr (inr (λ e. cc))
Wants-some d none none none (put p) w = absurd w.2
Wants-some d none none none (download p) w = absurd w.2
Wants-some d none none none (delete_local p) w = absurd (w.2 refl)
Wants-some d none none none (delete_remote p) w = absurd (w.2 refl)
Wants-some d none none none (conflict p) w = absurd (w.0 refl)

pub Elem-push_option :
    {A : Type 0} (x : A) (o : Option A) (xs : List A)
    → Elem x (push_option o xs) ↔ ((o ≡ some x) ⊎ Elem x xs)
Elem-push_option x none xs = ground arith
Elem-push_option x (some y) xs = ground arith

pub join_iff : {X P Q E D R : Type 0} → X ↔ (P ⊎ Q) → P ↔ (E × D) → Q ↔ (R × D) → X ↔ ((E ⊎ R) × D)
join_iff {P} {Q} {E} {D} {R} (xf, xb) (pf, pb) (qf, qb) =
    (λ x. split (xf x), λ (m, w). xb (pick m w))
  where
    split : P ⊎ Q → (E ⊎ R) × D
    split (inl h) = (inl (pf h).0, (pf h).1)
    split (inr h) = (inr (qf h).0, (qf h).1)

    pick : E ⊎ R → D → P ⊎ Q
    pick (inl e) w = inl (pb (e, w))
    pick (inr r) w = inr (qb (r, w))

module _ (base local remote : Snapshot) (d : Bool) where
  abbrev Due : PlanItem → Type 0
  Due item =
      Wants d (get base.entries (path_of item)) (get local.entries (path_of item))
        (get remote.entries (path_of item)) item

  abbrev decision : Str → Option PlanItem
  decision p = sync_item p d (get base.entries p) (get local.entries p) (get remote.entries p)

  decision_iff :
      (p : Str) (item : PlanItem) → (decision p ≡ some item) ↔ ((path_of item ≡ p) × Due item)
  decision_iff p item = (
    λ h.
        let e = path_of-sync_item p d _ _ _ item h in
        (e, (sync_item-Wants d _ _ _ item).0 (subst (λ q. decision q ≡ some item) (sym e) h)),
    λ (e, w). subst (λ q. decision q ≡ some item) e ((sync_item-Wants d _ _ _ item).1 w),
  )

  Elem-sync_paths :
      (paths : List Str) (item : PlanItem)
      → Elem item (sync_paths base local remote d paths) ↔ (Elem (path_of item) paths × Due item)
  unfolding sync_paths
  Elem-sync_paths [] item = ground arith
  Elem-sync_paths (p ∷ paths) item =
      join_iff (Elem-push_option item (decision p) (sync_paths base local remote d paths))
        (decision_iff p item) (Elem-sync_paths paths item)

  Due-listed :
      (item : PlanItem)
      → Due item
      → Elem (path_of item) (keys base.entries ++ (keys local.entries ++ keys remote.entries))
  Due-listed item w = ground (
    arith,
    Wants-some d _ _ _ item w,
    Elem-append (path_of item) (keys base.entries) (keys local.entries ++ keys remote.entries),
    Elem-append (path_of item) (keys local.entries) (keys remote.entries),
    Elem-keys base.entries (path_of item),
    Elem-keys local.entries (path_of item),
    Elem-keys remote.entries (path_of item),
  )

  -- A sync plan holds an item exactly when its path is due for it: one side is written or deleted
  -- only where that side is as in the base and the other is not, and what both changed conflicts.
  pub Elem-sync_items : (item : PlanItem) → Elem item (sync_items base local remote d) ↔ Due item
  unfolding sync_items
  Elem-sync_items item =
      let s = keys base.entries ++ (keys local.entries ++ keys remote.entries) in
      let (fwd, back) = Elem-sync_paths (keys (to_set s)) item in
      (
        λ h. (fwd h).1,
        λ w. back (
          (Elem-keys (to_set s) (path_of item)).1
              ((Elem-to_set s (path_of item)).1 (Due-listed item w)),
          w,
        ),
      )
