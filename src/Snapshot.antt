-- ===== src/Snapshot.antt =====
-- src/snapshot.rs: what a scan records of a tree, and the plans made from two or three scans.
pub mod Contents
pub mod Push
pub mod Status
pub mod Order
use mobfs.Base.{
  ℕ, ◌≡◌, ◌↔◌, Bool, true, false, ◌&&◌, not, Option, none, some, List, [], ◌∷◌, ◌++◌, arith, ◌==◌,
  if◌then◌else◌,
}
use mathlib.Core.List.{reverse}
use mobfs.Base.Str.{Str, str_eq, str_eq_iff}
use mobfs.Base.Order.{list_ord, nat_ord}
use mobfs.Base.Int.{ℤ, int_eq, int_eq_iff}
use mobfs.Base.Map.{Map, get, keys, contains_key}
use mobfs.Base.Elem.{to_set}

pub data EntryKind : Type 0 where
  file dir symlink : EntryKind

pub record EntryMeta : Type 0 where
  pub kind : EntryKind
  pub size : ℕ
  pub modified : ℤ
  pub sha256 : Option Str
  pub mode : ℕ
  pub link_target : Option Str

abbrev pub Entries : Type 0
Entries = Map Str EntryMeta

pub record Snapshot : Type 0 where
  pub entries : Entries

pub data PlanItem : Type 0 where
  put download delete_local delete_remote conflict : Str → PlanItem

pub data StatusItem : Type 0 where
  local_only remote_only modified : Str → StatusItem

-- the derived `==`
abbrev pub kind_eq : EntryKind → EntryKind → Bool
kind_eq file file = true
kind_eq dir dir = true
kind_eq symlink symlink = true
kind_eq _ _ = false

abbrev text_eq : Option Str → Option Str → Bool
text_eq none none = true
text_eq (some a) (some b) = str_eq a b
text_eq _ _ = false

unfoldable pub meta_eq : EntryMeta → EntryMeta → Bool
meta_eq a b =
    kind_eq a.kind b.kind
    && (a.size == b.size
        && (int_eq a.modified b.modified
            && (text_eq a.sha256 b.sha256
                && (a.mode == b.mode && text_eq a.link_target b.link_target))))

unfoldable pub option_meta_eq : Option EntryMeta → Option EntryMeta → Bool
option_meta_eq none none = true
option_meta_eq (some a) (some b) = meta_eq a b
option_meta_eq _ _ = false

-- matches!(kind, EntryKind::File | EntryKind::Symlink)
abbrev pub is_content : EntryKind → Bool
is_content file = true
is_content dir = false
is_content symlink = true

pub puts : Entries → Entries → List PlanItem
puts [] remote = []
puts ((rel, local_meta) ∷ es) remote =
    let rest = puts es remote in
    if is_content local_meta.kind && not (option_meta_eq (get remote rel) (some local_meta))
    then put rel ∷ rest
    else rest

pub remote_deletions : List Str → Entries → List PlanItem
remote_deletions [] local = []
remote_deletions (rel ∷ rels) local =
    let rest = remote_deletions rels local in
    if not (contains_key local rel) then delete_remote rel ∷ rest else rest

unfoldable pub push_items : Snapshot → Snapshot → Bool → List PlanItem
unfolding puts remote_deletions
push_items local remote delete =
    puts local.entries remote.entries
    ++ (if delete then remote_deletions (reverse (keys remote.entries)) local.entries else [])

downloads : Entries → Entries → List PlanItem
downloads [] local = []
downloads ((rel, remote_meta) ∷ es) local =
    let rest = downloads es local in
    if is_content remote_meta.kind && not (option_meta_eq (get local rel) (some remote_meta))
    then download rel ∷ rest
    else rest

local_deletions : List Str → Entries → List PlanItem
local_deletions [] remote = []
local_deletions (rel ∷ rels) remote =
    let rest = local_deletions rels remote in
    if not (contains_key remote rel) then delete_local rel ∷ rest else rest

unfoldable pub pull_items : Snapshot → Snapshot → Bool → List PlanItem
unfolding downloads local_deletions
pull_items local remote delete =
    downloads remote.entries local.entries
    ++ (if delete then local_deletions (reverse (keys local.entries)) remote.entries else [])

-- The `match` of `sync_items`: the changed flags, then the entries. A guard that fails falls
-- through to the last arm, which emits nothing.
abbrev sync_arm : Str → Bool → Bool → Bool → Option EntryMeta → Option EntryMeta → Option PlanItem
sync_arm path delete true false (some meta) _ =
    if is_content meta.kind then some (put path) else none
sync_arm path delete true false none _ = if delete then some (delete_remote path) else none
sync_arm path delete false true _ (some meta) =
    if is_content meta.kind then some (download path) else none
sync_arm path delete false true _ none = if delete then some (delete_local path) else none
sync_arm path delete true true _ _ = some (conflict path)
sync_arm path delete false false _ _ = none

-- The body of the loop of `sync_items`, for one path.
unfoldable pub sync_item :
    Str → Bool → Option EntryMeta → Option EntryMeta → Option EntryMeta → Option PlanItem
sync_item path delete base_meta local_meta remote_meta =
    if option_meta_eq local_meta remote_meta
    then none
    else sync_arm path delete (not (option_meta_eq local_meta base_meta))
        (not (option_meta_eq remote_meta base_meta)) local_meta remote_meta

abbrev pub push_option {ℓ} : {A : Type ℓ} → Option A → List A → List A
push_option none items = items
push_option (some item) items = item ∷ items

sync_paths : Snapshot → Snapshot → Snapshot → Bool → List Str → List PlanItem
sync_paths base local remote delete [] = []
sync_paths base local remote delete (path ∷ paths) =
    push_option
      (sync_item path delete (get base.entries path) (get local.entries path)
        (get remote.entries path))
      (sync_paths base local remote delete paths)

unfoldable pub sync_items : Snapshot → Snapshot → Snapshot → Bool → List PlanItem
unfolding sync_paths
sync_items base local remote delete =
    sync_paths base local remote delete
      (keys (to_set (keys base.entries ++ (keys local.entries ++ keys remote.entries))))

unfoldable pub status_item : Str → Option EntryMeta → Option EntryMeta → Option StatusItem
status_item path (some _) none = some (local_only path)
status_item path none (some _) = some (remote_only path)
status_item path (some a) (some b) = if not (meta_eq a b) then some (modified path) else none
status_item path none none = none

status_paths : Snapshot → Snapshot → List Str → List StatusItem
status_paths local remote [] = []
status_paths local remote (path ∷ paths) =
    push_option (status_item path (get local.entries path) (get remote.entries path))
      (status_paths local remote paths)

unfoldable pub status_plan : Snapshot → Snapshot → List StatusItem
unfolding status_paths
status_plan local remote =
    status_paths local remote (keys (to_set (keys local.entries ++ keys remote.entries)))

text_eq_iff : (a b : Option Str) → (text_eq a b ≡ true) ↔ (a ≡ b)
text_eq_iff none none = ground arith
text_eq_iff none (some b) = ground arith
text_eq_iff (some a) none = ground arith
text_eq_iff (some a) (some b) = ground (arith, str_eq_iff a b)

kind_eq_iff : (a b : EntryKind) → (kind_eq a b ≡ true) ↔ (a ≡ b)
kind_eq_iff file b = ground arith
kind_eq_iff dir b = ground arith
kind_eq_iff symlink b = ground arith

pub meta_eq_iff : (a b : EntryMeta) → (meta_eq a b ≡ true) ↔ (a ≡ b)
unfolding meta_eq
meta_eq_iff a b = ground (
  arith,
  kind_eq_iff a.kind b.kind,
  int_eq_iff a.modified b.modified,
  text_eq_iff a.sha256 b.sha256,
  text_eq_iff a.link_target b.link_target,
)

pub option_meta_eq_iff : (a b : Option EntryMeta) → (option_meta_eq a b ≡ true) ↔ (a ≡ b)
unfolding option_meta_eq
option_meta_eq_iff none none = ground arith
option_meta_eq_iff none (some b) = ground arith
option_meta_eq_iff (some a) none = ground arith
option_meta_eq_iff (some a) (some b) = ground (arith, meta_eq_iff a b)
