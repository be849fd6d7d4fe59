-- ===== src/Tests/Tables.antt =====
-- Reads, buffers, attributes and change events of src/vfs.rs at a small mount.
use mobfs.Base.{
  ◌*◌, min, ◌/◌, ◌≡◌, refl, true, false, ◌||◌, none, [], ◌∷◌, append-nil, if◌then◌else◌, any, take,
  drop,
}
use mobfs.Base.Str.{codes, str_eq, split}
use mobfs.Base.Order.{list_ord, nat_ord, list_cmp}
use mobfs.Base.Map.{get, insert, contains_key, remove, values, IsSorted}
use mobfs.Error as Error
use mobfs.Protocol.{Bytes, ChangeEvent, replaced}
use mobfs.Paths.{split_parent, should_ignore_rel, should_ignore_part}
use mobfs.Vfs.Errno.{ok}
use mobfs.Vfs.Blocks.{block_size, get_cached}
use mobfs.Vfs.Inodes.Subtree.{in_subtree}
use mobfs.Vfs.State.{Vfs, RemoteClient}
use mobfs.Vfs.Journal.{bare_meta}
use mobfs.Vfs.Names.{has_pending_write, ignored}
use mobfs.Vfs.Uploads.{dispatch_fh}
use mobfs.Vfs.Uploads.Dispatch.{handle_view, dispatch_fh-view}
use mobfs.Vfs.Reads.{concat, Gathered, block_count, read_blocks, into_blocks}
use mobfs.Vfs.Reads.IntoBlocks.{nth_or_empty, into_blocks_lem}
use mobfs.Vfs.Reads.Cache.{IsTrueTo}
use mobfs.Vfs.Reads.Loop.{Serves, gathered, read_blocks-slice}
use mobfs.Vfs.Attrs.{setxattr, getxattr}
use mobfs.Vfs.Attrs.Xattrs.{getxattr-setxattr}
use mobfs.Vfs.Feed.{apply_change, is_skipped}
use mobfs.Vfs.Feed.Replaced.{apply_change_replaced}
use mobfs.Tests.Mount.{Host, host_client, mount, first, contents, host_Stores, mount_IsSound, known}

abbrev text : Bytes
text = 10 ∷ (20 ∷ (30 ∷ []))

-- a daemon whose files all hold the text, and which answers in one frame, of 16 MiB at most
abbrev serving : RemoteClient Host
serving = record host_client {
  read_range =
      λ path offset len h. (Error.ok (take (min len 16777216) (drop offset text) ∷ [], true), h);
}

serving_Serves : Serves serving (codes "a") text
unfolding concat
serving_Serves index w = (
  take block_size (drop (index * block_size) text) ∷ [],
  true,
  refl,
  append-nil (take block_size (drop (index * block_size) text)),
)

nothing_cached : IsTrueTo text (codes "a") mount.blocks
unfolding IsTrueTo get
nothing_cached index x h = cc

read_blocks-slice_example :
    (g : Gathered) × ((read_blocks serving
        (block_count 1 6)
        (codes "a")
        1
        6
        false
        none
        (1 / block_size)
        (record { out = []; single = none })
        mount).0
      ≡ ok g)
    × (gathered g ≡ take 5 (drop 1 text))
read_blocks-slice_example =
    read_blocks-slice serving (codes "a") text serving_Serves 1 5 none mount nothing_cached

into_blocks_lem_example :
    nth_or_empty (into_blocks ((1 ∷ (2 ∷ [])) ∷ ((3 ∷ []) ∷ []))) 0
    ≡ take block_size (drop (0 * block_size) (concat ((1 ∷ (2 ∷ [])) ∷ ((3 ∷ []) ∷ []))))
into_blocks_lem_example = into_blocks_lem ((1 ∷ (2 ∷ [])) ∷ ((3 ∷ []) ∷ [])) 0

dispatched_clean : (dispatch_fh host_client first 7 mount).uploads.errors ≡ []
unfolding dispatch_fh get remove insert values any
dispatched_clean = refl

dispatch_fh-view_example :
    handle_view contents 7 (dispatch_fh host_client first 7 mount) (codes "a") 1
    ≡ handle_view contents 7 mount (codes "a") 1
dispatch_fh-view_example =
    dispatch_fh-view host_client first contents host_Stores 7 mount (codes "a") 1 mount_IsSound
      dispatched_clean

attr_set : (setxattr 2 (codes "k") (1 ∷ []) 0 0 mount).0 ≡ ok tt
unfolding setxattr get insert contains_key
attr_set = refl

getxattr-setxattr_example :
    (getxattr 2 (codes "k") (setxattr 2 (codes "k") (1 ∷ []) 0 0 mount).1).0
    ≡ (if str_eq (codes "k") (codes "k") then ok (1 ∷ []) else (getxattr 2 (codes "k") mount).0)
getxattr-setxattr_example =
    getxattr-setxattr 2 (codes "a") (codes "k") (codes "k") (1 ∷ []) 0 mount known attr_set

-- the mount with nothing buffered, which knows of a directory and a file in it
abbrev idle : Vfs Host
idle = record mount {
  write_buffers = [];
  metas = (codes "d", bare_meta true) ∷ ((codes "d/f", bare_meta false) ∷ []);
  dirs = (codes "d", (0, [])) ∷ [];
}

abbrev moved_in : ChangeEvent
moved_in = record { path = codes "d"; kind = replaced }

acted_on : is_skipped (codes "d") idle ≡ false
unfolding ignored has_pending_write values any should_ignore_rel should_ignore_part split str_eq
acted_on = refl

metas-IsSorted : IsSorted idle.metas
unfolding list_cmp
metas-IsSorted = ((refl, tt), (tt, tt))

apply_change_replaced_example :
    (get (apply_change moved_in idle).0.metas (codes "d/f")
      ≡ (if in_subtree (codes "d") (codes "d/f") then none else get idle.metas (codes "d/f")))
    × (get (apply_change moved_in idle).0.dirs (codes "d/f") ≡ (
        if in_subtree (codes "d") (codes "d/f") || str_eq (split_parent (codes "d")).0 (codes "d/f")
        then none
        else get idle.dirs (codes "d/f")))
    × (in_subtree (codes "d") (codes "d/f") ≡ true
        → (get_cached (apply_change moved_in idle).0.blocks (codes "d/f") 0).1 ≡ none)
apply_change_replaced_example =
    apply_change_replaced moved_in idle (codes "d/f") 0 refl acted_on metas-IsSorted (tt, tt)
