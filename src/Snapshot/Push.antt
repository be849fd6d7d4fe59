-- ===== src/Snapshot/Push.antt =====
-- push_items and pull_items of src/snapshot.rs: which items their plans hold.
use mobfs.Base.{
  ◌≡◌, refl, ◌≢◌, ◌↔◌, Bool, true, false, Option, none, some, List, [], ◌∷◌, arith, if◌then◌else◌,
  Option-cases,
}
use mathlib.Core.List.{reverse, map-append, map}
use mobfs.Base.Str.{Str}
use mobfs.Base.Order.{list_cmp_eq, list_ord, nat_ord}
use mobfs.Base.Map.{IsSorted, Below-get, get, keys, contains_key}
use mobfs.Base.Elem.{Elem, Elem-append, Elem-reverse, Elem-keys}
use mobfs.Snapshot.{
  EntryMeta, Entries, Snapshot, PlanItem, put, download, delete_local, delete_remote, conflict,
  option_meta_eq_iff, puts, remote_deletions, push_items, downloads, local_deletions, pull_items,
}
use mobfs.Snapshot.Contents.{path_of, HasContent}

-- When a path is due for an item of a push.
abbrev pub PushWants : Bool → Option EntryMeta → Option EntryMeta → PlanItem → Type 0
PushWants delete l r (put _) = HasContent l × (r ≢ l)
PushWants delete l r (delete_remote _) = (delete ≡ true) × (r ≢ none) × (l ≡ none)
PushWants delete l r _ = ⊥

Elem-puts :
    (es : Entries) (remote : Entries) (p : Str)
    → IsSorted es
    → Elem (put p) (puts es remote) ↔ (HasContent (get es p) × (get remote p ≢ get es p))
unfolding puts get
Elem-puts [] remote p s = ground arith
Elem-puts ((q, m) ∷ es) remote p (b, s) = ground (
  arith,
  Elem-puts es remote p s,
  option_meta_eq_iff (get remote q) (some m),
  list_cmp_eq q p,
  Below-get q es b,
)

Elem-remote_deletions :
    (rels : List Str) (local : Entries) (p : Str)
    → Elem (delete_remote p) (remote_deletions rels local) ↔ (Elem p rels × (get local p ≡ none))
unfolding remote_deletions contains_key
Elem-remote_deletions [] local p = ground arith
Elem-remote_deletions (q ∷ rels) local p =
    ground (arith, Elem-remote_deletions rels local p, Option-cases (get local q), list_cmp_eq q p)

abbrev pub is_put : PlanItem → Bool
is_put (put _) = true
is_put _ = false

abbrev pub is_delete_remote : PlanItem → Bool
is_delete_remote (delete_remote _) = true
is_delete_remote _ = false

pub is_put-puts :
    (es remote : Entries) (item : PlanItem) → Elem item (puts es remote) → is_put item ≡ true
unfolding puts
is_put-puts [] remote item h = elim h [ ]
is_put-puts ((q, m) ∷ es) remote item h = ground (arith, is_put-puts es remote item)

pub is_delete_remote-deletions :
    (rels : List Str) (local : Entries) (item : PlanItem)
    → Elem item (remote_deletions rels local)
    → is_delete_remote item ≡ true
unfolding remote_deletions
is_delete_remote-deletions [] local item h = elim h [ ]
is_delete_remote-deletions (q ∷ rels) local item h =
    ground (arith, is_delete_remote-deletions rels local item)

module _ (local remote : Snapshot) (d : Bool) (sorted : IsSorted local.entries) where
  deletions : List PlanItem
  deletions = if d then remote_deletions (reverse (keys remote.entries)) local.entries else []

  Elem-deletions :
      (p : Str)
      → Elem (delete_remote p) deletions
        ↔ ((d ≡ true) × (get remote.entries p ≢ none) × (get local.entries p ≡ none))
  unfolding deletions
  Elem-deletions p = ground (
    arith,
    Elem-remote_deletions (reverse (keys remote.entries)) local.entries p,
    Elem-reverse p (keys remote.entries),
    Elem-keys remote.entries p,
  )

  is_delete_remote-deletions_of :
      (item : PlanItem) → Elem item deletions → is_delete_remote item ≡ true
  unfolding deletions
  is_delete_remote-deletions_of item h =
      ground (arith, is_delete_remote-deletions (reverse (keys remote.entries)) local.entries item)

  -- A push uploads exactly the local files and links that the remote lacks or has otherwise, and
  -- with `delete` removes exactly the remote entries that have no local one. The local entries are
  -- those of a map, each path once.
  pub Elem-push_items :
      (item : PlanItem)
      → Elem item (push_items local remote d)
        ↔ PushWants d (get local.entries (path_of item)) (get remote.entries (path_of item)) item
  unfolding push_items deletions
  Elem-push_items item = ground (
    arith,
    Elem-append item (puts local.entries remote.entries) deletions,
    Elem-puts local.entries remote.entries (path_of item) sorted,
    Elem-deletions (path_of item),
    is_put-puts local.entries remote.entries item,
    is_delete_remote-deletions_of item,
  )

-- The item of a pull that undoes the roles of the two sides.
unfoldable pub mirror : PlanItem → PlanItem
mirror (put p) = download p
mirror (download p) = put p
mirror (delete_local p) = delete_remote p
mirror (delete_remote p) = delete_local p
mirror (conflict p) = conflict p

downloads-puts : (es local : Entries) → downloads es local ≡ map mirror (puts es local)
unfolding downloads puts mirror
downloads-puts [] local = refl
downloads-puts ((q, m) ∷ es) local = ground (arith, downloads-puts es local)

local_deletions-remote_deletions :
    (rels : List Str) (remote : Entries)
    → local_deletions rels remote ≡ map mirror (remote_deletions rels remote)
unfolding local_deletions remote_deletions mirror
local_deletions-remote_deletions [] remote = refl
local_deletions-remote_deletions (q ∷ rels) remote =
    ground (arith, local_deletions-remote_deletions rels remote)

-- A pull is the push of the remote to the local side, with the two sides exchanged in each item.
pub pull_items-push_items :
    (local remote : Snapshot) (d : Bool)
    → pull_items local remote d ≡ map mirror (push_items remote local d)
unfolding pull_items push_items
pull_items-push_items local remote true =
    rw (map-append, downloads-puts, local_deletions-remote_deletions)
pull_items-push_items local remote false = rw (map-append, downloads-puts)
