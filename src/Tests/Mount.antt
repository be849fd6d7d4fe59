-- ===== src/Tests/Mount.antt =====
-- A small daemon and a mount on it, with runs of the operations of src/vfs.rs, and the theorems on
-- them at these states.
use mobfs.Base.{
  ℕ, ◌≡◌, refl, ap, true, false, Option, none, some, List, [], ◌∷◌, ◌++◌, if◌then◌else◌, any,
  filter,
}
use mobfs.Base.Str.{Str, codes, str_eq, starts_with, rsplit_once, split}
use mobfs.Base.Int.{pos}
use mobfs.Base.Order.{list_ord, nat_ord}
use mobfs.Base.Map.{Map, get, insert, remove, values, keys, retain}
use mobfs.Error as Error
use mobfs.Error.{Result, Done, MobfsError, server, remote}
use mobfs.Disk.{Io}
use mobfs.Protocol.{Bytes, FsStats}
use mobfs.Vfs.Errno.{ok}
use mobfs.Vfs.Inodes as Inodes
use mobfs.Vfs.State.{Vfs, RemoteClient, Upload}
use mobfs.Vfs.Journal.{
  JournalOp, JournalFile, bare_meta, pending_journal_ops, replay_ops, replay_journal,
  apply_journal_op,
}
use mobfs.Vfs.Uploads.Overlay.{Contents, overlay}
use mobfs.Vfs.Uploads.Order.{IsSound, Stores}
use mobfs.Vfs.Uploads.Dispatch.{handle_view}
use mobfs.Vfs.Uploads.{wait_uploads}
use mobfs.Vfs.Uploads.Waiting.{wait_uploads-none}
use mobfs.Vfs.Mutate.{mutate}
use mobfs.Vfs.Mutate.Outcome.{mutate-pending}
use mobfs.Vfs.Journal.Replay.{FileLaws, Apart, lines, replay_journal_lost}
use mobfs.Sync.Keeps.{Keeps}
use mobfs.Vfs.Names.{ignored}
use mobfs.Vfs.Blocks.{bump}
use mobfs.Vfs.Writes.{write, fsync}
use mobfs.Vfs.Writes.View.{write-view}
use mobfs.Vfs.Writes.Flush.{Unbuffered, fsync-contents}
use mobfs.Paths.{is_sidecar, split_parent, should_ignore_rel, should_ignore_part}

-- The daemon has the files' bytes by offset, the journal's lines stand beside them, and the next
-- answers of the operations are written down in advance.
pub record Host : Type 0 where
  pub files : Str → Contents
  pub log : List (Option JournalOp)
  pub answers : List Done

abbrev pub take_answer : List Done → Host → Done × Host
take_answer [] h = (Error.ok tt, h)
take_answer (a ∷ answers) h = (a, record h { answers = answers })

abbrev pub answered : Io Host Unit
answered h = take_answer h.answers h

abbrev pub put_bytes : Str → ℕ → Bytes → (Str → Contents) → Str → Contents
put_bytes path offset bytes files file i =
    if str_eq path file then overlay offset bytes (files file) i else files file i

abbrev pub stats : FsStats
stats = record { total_bytes = 8; free_bytes = 4; avail_bytes = 4; files = 2; free_files = 1 }

abbrev pub host_client : RemoteClient Host
host_client = record {
  stat = λ path h. (Error.ok none, h);
  list_dir = λ path h. (Error.ok [], h);
  read_range = λ path offset len h. (Error.ok ([], true), h);
  write_file_at = λ path offset bytes h.
      (Error.ok tt, record h { files = put_bytes path offset bytes h.files });
  truncate = λ path size. answered;
  set_metadata = λ path mode modified. answered;
  mkdir_p = λ path. answered;
  create_symlink = λ path target. answered;
  rename = λ from to. answered;
  remove = λ path meta. answered;
  fsync = λ path h. (Error.ok tt, h);
  statfs = λ h. (Error.ok stats, h);
  watch_changes = λ epoch cursor h.
      (Error.ok (record { epoch = 1; cursor = 0; events = []; reset = false; live = true }), h);
  reconnect = λ h. (Error.ok tt, h);
}

abbrev host_journal : JournalFile Host
host_journal = record {
  create_dir_all = λ h. (Error.ok tt, h);
  append = λ op h. (Error.ok tt, record h { log = h.log ++ (some op ∷ []) });
  read = λ h. (Error.ok h.log, h);
  clear = λ h. (Error.ok tt, record h { log = [] });
  remove_blobs = λ h. (Error.ok tt, h);
  read_blob = λ blob h. (Error.ok [], h);
}

abbrev pub host : Host
host = record { files = λ path i. 0; log = []; answers = [] }

-- a mount that knows the file `a` by the number 2, and is writing to it
abbrev pub mount : Vfs Host
mount = record {
  inodes = record {
    by_path = ([], 1) ∷ ((codes "a", 2) ∷ []);
    by_ino = (1, []) ∷ ((2, codes "a") ∷ []);
    next = 3;
  };
  metas = [];
  dirs = [];
  sidecars = [];
  blocks = record {
    blocks = [];
    lru = [];
    generations = [];
    tick = 0;
    bytes = 0;
    capacity = 4194304;
  };
  next_fh = 1;
  write_buffers =
      (7, record { ino = 2; path = codes "a"; offset = 0; bytes = 5 ∷ (6 ∷ []); touched = 0 }) ∷ [];
  read_ahead = [];
  prefetch_queued = [];
  versions = [];
  xattrs = [];
  statfs = none;
  feed_live = false;
  root_meta = bare_meta true;
  ttl = 1000;
  ignore = [];
  readahead_blocks = 0;
  uploads = record { next = 0; bytes = 0; inflight = []; errors = [] };
  now = 0;
  unix_now = pos 100;
  world = host;
}

abbrev pub first : Map ℕ Upload → ℕ
first m = 0

abbrev pub contents : Host → Str → Contents
contents h = h.files

pub host_Stores : Stores host_client contents
host_Stores path offset bytes h file i e = refl

pub mount_IsSound : IsSound mount.uploads
mount_IsSound = record { sorted = tt; sound = tt }

fsync_done : (fsync host_client first 2 7 mount).0 ≡ ok tt
unfolding fsync get insert remove values keys retain any str_eq starts_with is_sidecar split_parent
    rsplit_once
fsync_done = refl

fsync_clean : (fsync host_client first 2 7 mount).1.uploads.errors ≡ []
unfolding fsync get insert remove values keys retain any str_eq starts_with is_sidecar split_parent
    rsplit_once
fsync_clean = refl

-- the buffered bytes are with the daemon
fsync_sends : (fsync host_client first 2 7 mount).1.world.files (codes "a") 1 ≡ 6
unfolding fsync get insert remove values keys retain any str_eq starts_with is_sidecar split_parent
    rsplit_once overlay
fsync_sends = refl

pub known : Inodes.path mount.inodes 2 ≡ some (codes "a")
unfolding Inodes.path get
known = refl

ordinary : is_sidecar (codes "a") ≡ false
unfolding is_sidecar split_parent rsplit_once str_eq starts_with
ordinary = refl

alone : Unbuffered host_client first contents host_Stores (codes "a") (remove mount.write_buffers 7)
unfolding remove keys retain
alone = refl

fsync-contents_example :
    contents (fsync host_client first 2 7 mount).1.world (codes "a") 1
    ≡ handle_view contents 7 mount (codes "a") 1
fsync-contents_example =
    fsync-contents host_client first contents host_Stores 2 7 (codes "a") mount 1 mount_IsSound
      known ordinary alone (λ h. refl) fsync_done fsync_clean

write_clean : (write host_client first 2 7 1 (9 ∷ []) mount).1.uploads.errors ≡ []
unfolding write get insert remove values keys any str_eq starts_with is_sidecar split_parent
    rsplit_once should_ignore_rel should_ignore_part split bump retain filter
write_clean = refl

not_ignored : ignored mount (codes "a") ≡ false
unfolding ignored should_ignore_rel should_ignore_part split any
not_ignored = refl

named : str_eq (codes "a") [] ≡ false
unfolding str_eq
named = refl

write-view_example :
    ((write host_client first 2 7 1 (9 ∷ []) mount).0 ≡ ok tt)
    × (handle_view contents 7 (write host_client first 2 7 1 (9 ∷ []) mount).1 (codes "a") 1 ≡ (
        if str_eq (codes "a") (codes "a")
        then overlay 1 (9 ∷ []) (handle_view contents 7 mount (codes "a")) 1
        else handle_view contents 7 mount (codes "a") 1))
write-view_example =
    write-view host_client first contents host_Stores 2 7 1 (9 ∷ []) (codes "a") mount (codes "a") 1
      mount_IsSound known named ordinary not_ignored refl write_clean

-- whatever is in flight is waited for
wait_uploads-none_example :
    any
      (λ (u : Upload). true)
      (values (wait_uploads host_client first (λ u. true) mount).uploads.inflight)
    ≡ false
wait_uploads-none_example = wait_uploads-none host_client first (λ u. true) mount

mutate_done :
    (mutate host_client host_journal
      (JournalOp.truncate (codes "a") 0)
      (host_client.truncate (codes "a") 0)
      mount).0
    ≡ ok tt
unfolding mutate
mutate_done = refl

host_laws : FileLaws host_journal
host_laws = record {
  clear_empties = λ h e. refl;
  clear_missing = λ h e. cc;
  blobs_apart = λ h. refl;
}

mutate-pending_example :
    (pending_journal_ops host_journal
      (mutate host_client host_journal
        (JournalOp.truncate (codes "a") 0)
        (host_client.truncate (codes "a") 0)
        mount).1.world).0
    ≡ Error.ok 0
mutate-pending_example =
    mutate-pending host_client host_journal host_laws (JournalOp.truncate (codes "a") 0)
      (host_client.truncate (codes "a") 0) mount mutate_done

-- A connection that is lost during the replay, after a refusal.
abbrev three_ops : List (Option JournalOp)
three_ops =
    some (JournalOp.mkdir (codes "d"))
    ∷ (some (JournalOp.mkdir (codes "e")) ∷ (some (JournalOp.mkdir (codes "f")) ∷ []))

abbrev broken : Host
broken = record host {
  log = three_ops;
  answers = Error.err (server (codes "no")) ∷ (Error.err (remote (codes "lost")) ∷ []);
}

abbrev half : Host
half = record broken { answers = Error.err (remote (codes "lost")) ∷ [] }

host_Apart : Apart host_journal host_client
unfolding Keeps
host_Apart = record {
  truncate = λ path size. answered_apart;
  set_metadata = λ path mode modified. answered_apart;
  mkdir_p = λ path. answered_apart;
  create_symlink = λ path target. answered_apart;
  rename = λ from to. answered_apart;
  remove = λ path m. answered_apart;
  write_file_at = λ path offset bytes h. refl;
  read = λ h. refl;
  read_blob = λ blob h. refl;
}
  where
    apart : (answers : List Done) (h : Host) → (take_answer answers h).1.log ≡ h.log
    apart [] h = refl
    apart (a ∷ answers) h = refl

    answered_apart :
        (h : Host)
        → ◌≡◌ {A = Result (List (Option JournalOp))}
            (Error.ok (take_answer h.answers h).1.log)
            (Error.ok h.log)
    answered_apart h = ap (λ ls. Error.ok ls) (apart h.answers h)

refused_first :
    replay_ops host_journal host_client (some (JournalOp.mkdir (codes "d")) ∷ []) broken
    ≡ (Error.ok tt, half)
unfolding replay_ops
refused_first = refl

lost_second :
    apply_journal_op host_journal host_client (JournalOp.mkdir (codes "e")) half
    ≡ (Error.err (remote (codes "lost")), record half { answers = [] })
unfolding apply_journal_op
lost_second = refl

replay_journal_lost_example :
    (replay_journal host_journal host_client broken
      ≡ (Error.err (remote (codes "lost")), record half { answers = [] }))
    × (lines host_journal (record half { answers = [] }) ≡ Error.ok three_ops)
replay_journal_lost_example =
    replay_journal_lost host_journal host_client host_Apart broken half
      (some (JournalOp.mkdir (codes "d")) ∷ []) (some (JournalOp.mkdir (codes "f")) ∷ [])
      (JournalOp.mkdir (codes "e")) refl refused_first lost_second (λ message h. cc)
