-- ===== src/Vfs/State.antt =====
-- src/vfs.rs: the state of a mount, and steps on it. The tables are each behind a lock; an operation
-- here runs with no other between its parts, except that uploads finish where it waits for them.
-- The daemon, as its client reaches it, and the journal's file are in `world`.
pub mod Ends
use mobfs.Base.{ℕ, Bool, true, false, Option, none, some, List}
use mobfs.Base.Str.{Str}
use mobfs.Base.Int.{ℤ}
use mobfs.Base.Map.{Map}
use mobfs.Error.{MobfsError, Result}
use mobfs.Snapshot.{EntryMeta}
use mobfs.Protocol.{Bytes, ChangeEvent, FsStats}
use mobfs.Disk.{Io}
use mobfs.Vfs.Errno.{Errno, VfsResult, ok, err, errno_for}
use mobfs.Vfs.Inodes.{Inodes}
use mobfs.Vfs.Blocks.{BlockKey, BlockStore}

abbrev pub DirEntries : Type 0
DirEntries = List (Str × EntryMeta)

pub record PendingWrite : Type 0 where
  pub ino : ℕ
  pub path : Str
  pub offset : ℕ
  pub bytes : Bytes
  pub touched : ℕ

-- `bytes` is what the job of the upload carries.
pub record Upload : Type 0 where
  pub fh : ℕ
  pub path : Str
  pub offset : ℕ
  pub len : ℕ
  pub bytes : Bytes

pub record Uploads : Type 0 where
  pub next : ℕ
  pub bytes : ℕ
  pub inflight : Map ℕ Upload
  pub errors : Map ℕ Errno

pub record ReadAhead : Type 0 where
  pub next_offset : ℕ
  pub window : ℕ
  pub epoch : ℕ

-- `now` is the monotonic clock in milliseconds, `unix_now` the time of day in seconds.
pub record Vfs (W : Type 0) : Type 0 where
  pub inodes : Inodes
  pub metas : Map Str EntryMeta
  pub dirs : Map Str (ℕ × DirEntries)
  pub sidecars : Map Str (EntryMeta × Bytes)
  pub blocks : BlockStore
  pub next_fh : ℕ
  pub write_buffers : Map ℕ PendingWrite
  pub read_ahead : Map ℕ ReadAhead
  pub prefetch_queued : List BlockKey
  pub versions : Map ℕ (ℕ × ℕ)
  pub xattrs : Map Str (Map Str Bytes)
  pub statfs : Option (ℕ × FsStats)
  pub feed_live : Bool
  pub root_meta : EntryMeta
  pub ttl : ℕ
  pub ignore : List Str
  pub readahead_blocks : ℕ
  pub uploads : Uploads
  pub now : ℕ
  pub unix_now : ℤ
  pub world : W

pub record ChangeBatch : Type 0 where
  pub epoch : ℕ
  pub cursor : ℕ
  pub events : List ChangeEvent
  pub reset : Bool
  pub live : Bool

-- RemoteClient of src/remote.rs, as `pool.with` reaches it: a call may fail to connect, too. What
-- `read_range` returns are the frames, and whether the file ends there.
pub record RemoteClient (W : Type 0) : Type 0 where
  pub stat : Str → Io W (Option EntryMeta)
  pub list_dir : Str → Io W DirEntries
  pub read_range : Str → ℕ → ℕ → Io W (List Bytes × Bool)
  pub write_file_at : Str → ℕ → Bytes → Io W Unit
  pub truncate : Str → ℕ → Io W Unit
  pub set_metadata : Str → Option ℕ → Option ℤ → Io W Unit
  pub mkdir_p : Str → Io W Unit
  pub create_symlink : Str → Str → Io W Unit
  pub rename : Str → Str → Io W Unit
  pub remove : Str → EntryMeta → Io W Unit
  pub fsync : Str → Io W Unit
  pub statfs : Io W FsStats
  pub watch_changes : ℕ → Option ℕ → Io W ChangeBatch
  pub reconnect : Io W Unit

-- a step of the mount, which may fail and does not undo what it has done
abbrev pub Vm : Type 0 → Type 0 → Type 0
Vm W A = Vfs W → VfsResult A × Vfs W

infixl 5 ◌>>=◌ ◌>>◌
abbrev pub and_then : {W A B : Type 0} → (A → Vm W B) → VfsResult A × Vfs W → VfsResult B × Vfs W
and_then f (ok a, s) = f a s
and_then f (err e, s) = (err e, s)

abbrev pub ◌>>=◌ : {W A B : Type 0} → Vm W A → (A → Vm W B) → Vm W B
m >>= f = λ s. and_then f (m s)

abbrev pub ◌>>◌ : {W A B : Type 0} → Vm W A → Vm W B → Vm W B
m >> k = m >>= λ _. k

abbrev pub pure : {W A : Type 0} → A → Vm W A
pure a = λ s. (ok a, s)

abbrev pub fail : {W A : Type 0} → Errno → Vm W A
fail e = λ s. (err e, s)

-- what is read off the state
abbrev pub gets : {W A : Type 0} → (Vfs W → A) → Vm W A
gets f = λ s. (ok (f s), s)

abbrev pub modify : {W : Type 0} → (Vfs W → Vfs W) → Vm W Unit
modify f = λ s. (ok tt, f s)

abbrev pub lift : {W A : Type 0} → VfsResult A → Vm W A
lift r = λ s. (r, s)

-- `.ok_or(errno)`
abbrev pub ok_or : {W A : Type 0} → Errno → Option A → Vm W A
ok_or errno (some a) = λ s. (ok a, s)
ok_or errno none = λ s. (err errno, s)

abbrev put_world : {W A : Type 0} → Vfs W → A × W → VfsResult A × Vfs W
put_world s (a, w) = (ok a, record s { world = w })

-- a call of the world, with its result as a value
abbrev pub call : {W A : Type 0} → Io W A → Vm W (Result A)
call m = λ s. put_world s (m s.world)

abbrev pub with_errno : {W A : Type 0} → Result A → Vm W A
with_errno (Result.ok a) = λ s. (ok a, s)
with_errno (Result.err e) = λ s. (err (errno_for e), s)

-- `self.pool.with(action).map_err(errno_for)`
abbrev pub remote : {W A : Type 0} → Io W A → Vm W A
remote m = λ s. and_then with_errno (call m s)

abbrev pub when : {W : Type 0} → Bool → Vm W Unit → Vm W Unit
when true m = m
when false m = λ s. (ok tt, s)
