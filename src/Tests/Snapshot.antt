-- ===== src/Tests/Snapshot.antt =====
-- src/snapshot.rs: the unit tests of that file, and the theorems at their inputs.
use mobfs.Base.{◌≡◌, refl, ◌↔◌, true, none, some, [], ◌∷◌, map}
use mobfs.Base.Str.{Str, codes, str_eq}
use mobfs.Base.Int.{pos}
use mobfs.Base.Order.{list_ord, nat_ord, list_cmp}
use mobfs.Base.Map.{get, insert, keys, contains_key}
use mobfs.Base.Elem.{Elem, Pairwise, to_set}
use mobfs.Snapshot.{
  EntryMeta, Snapshot, file, put, download, delete_remote, delete_local, conflict, meta_eq,
  option_meta_eq, push_items, pull_items, sync_item, sync_items, status_item, status_plan, modified,
  remote_only,
}
use mobfs.Snapshot.Contents.{Elem-sync_items, Wants}
use mobfs.Snapshot.Push.{Elem-push_items, pull_items-push_items, PushWants, mirror}
use mobfs.Snapshot.Order.{sync_items_ascend, push_items_delete_down, PathLt, DeletesDown}
use mobfs.Snapshot.Status.{Elem-status_plan, Lists}

abbrev meta : Str → EntryMeta
meta hash = record {
  kind = file;
  size = 1;
  modified = pos 1;
  sha256 = some hash;
  mode = 0;
  link_target = none;
}

abbrev a : Str
a = codes "a.txt"

abbrev b : Str
b = codes "b.txt"

abbrev local : Snapshot
local = record { entries = (a, meta (codes "new")) ∷ [] }

abbrev remote : Snapshot
remote = record { entries = (a, meta (codes "old")) ∷ ((b, meta (codes "gone")) ∷ []) }

abbrev base : Snapshot
base = record { entries = (a, meta (codes "base")) ∷ [] }

plans_puts_and_deletes : push_items local remote true ≡ put a ∷ (delete_remote b ∷ [])
unfolding push_items option_meta_eq meta_eq get str_eq contains_key keys list_cmp
plans_puts_and_deletes = refl

plans_pull_items : pull_items remote local true ≡ download a ∷ (delete_local b ∷ [])
unfolding pull_items option_meta_eq meta_eq get str_eq contains_key keys list_cmp
plans_pull_items = refl

sync_uses_base : sync_items base local remote true ≡ conflict a ∷ (download b ∷ [])
unfolding sync_items sync_item option_meta_eq meta_eq get str_eq keys to_set insert list_cmp
sync_uses_base = refl

status_reports_all : status_plan local remote ≡ modified a ∷ (remote_only b ∷ [])
unfolding status_plan status_item meta_eq get str_eq keys to_set insert list_cmp
status_reports_all = refl

Elem-sync_items_example :
    Elem (conflict a) (sync_items base local remote true)
    ↔ Wants true
        (some (meta (codes "base")))
        (some (meta (codes "new")))
        (some (meta (codes "old")))
        (conflict a)
unfolding get list_cmp
Elem-sync_items_example = Elem-sync_items base local remote true (conflict a)

Elem-push_items_example :
    Elem (delete_remote b) (push_items local remote true)
    ↔ PushWants true none (some (meta (codes "gone"))) (delete_remote b)
unfolding get list_cmp
Elem-push_items_example = Elem-push_items local remote true (tt, tt) (delete_remote b)

pull_items-push_items_example :
    pull_items remote local true ≡ map mirror (push_items local remote true)
pull_items-push_items_example = pull_items-push_items remote local true

sync_items_ascend_example : Pairwise PathLt (sync_items base local remote true)
sync_items_ascend_example = sync_items_ascend base local remote true

push_items_delete_down_instance : Pairwise DeletesDown (push_items local remote true)
unfolding list_cmp
push_items_delete_down_instance = push_items_delete_down local remote true ((refl, tt), (tt, tt))

Elem-status_plan_example :
    Elem (remote_only b) (status_plan local remote)
    ↔ Lists none (some (meta (codes "gone"))) (remote_only b)
unfolding get list_cmp
Elem-status_plan_example = Elem-status_plan local remote (remote_only b)
