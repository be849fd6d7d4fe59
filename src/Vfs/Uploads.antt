-- ===== src/Vfs/Uploads.antt =====
-- src/vfs.rs: how buffered writes reach the daemon. A worker sends each upload on its own; `choose`
-- says which of those in flight is done next, so what holds for every `choose` holds for every
-- order. Nothing but uploads happens while an operation waits for them.
pub mod Overlay
pub mod View
pub mod Order
pub mod Waiting
pub mod Dispatch
use mobfs.Base.{
  ℕ, zero, suc, ◌+◌, ◌-◌, ◌*◌, Bool, true, false, ◌&&◌, ◌||◌, not, Option, none, some, List, [],
  ◌∷◌, ltb, leb, ◌==◌, if◌then◌else◌, length, any, filter,
}
use mobfs.Base.Str.{Str, str_eq}
use mobfs.Base.Order.{list_ord, nat_ord}
use mobfs.Base.Map.{Map, get, insert, remove, contains_key, values, keys, retain}
use mobfs.Error.{Done}
use mobfs.Error as Error
use mobfs.Vfs.Errno.{Errno, VfsResult, ok, err, errno_for}
use mobfs.Vfs.Inodes as Inodes
use mobfs.Vfs.Blocks.{invalidate_range}
use mobfs.Vfs.State.{
  Vfs, Vm, RemoteClient, and_then, ◌>>=◌, ◌>>◌, pure, fail, modify, Upload, Uploads, PendingWrite,
}
use mobfs.Vfs.Names.{or_else, if_some, at_or_below, take_upload_error}

abbrev pub max_inflight_upload_bytes : ℕ
max_inflight_upload_bytes = 128 * 1024 * 1024

abbrev pub write_idle_flush : ℕ
write_idle_flush = 400

-- does an upload touch these bytes of the file?
abbrev pub overlaps : Str → ℕ → ℕ → Upload → Bool
overlaps path offset len upload =
    str_eq upload.path path
    && (ltb upload.offset (offset + len) && ltb offset (upload.offset + upload.len))

abbrev pub is_empty {ℓ} : {A : Type ℓ} → List A → Bool
is_empty [] = true
is_empty (x ∷ xs) = false

-- may an upload of these bytes start?
unfoldable pub may_start : Str → ℕ → ℕ → Uploads → Bool
may_start path offset len uploads =
    not (any (overlaps path offset len) (values uploads.inflight))
    && (is_empty uploads.inflight || leb (uploads.bytes + len) max_inflight_upload_bytes)

-- uploads.next += 1, and the upload is in flight
unfoldable pub start_upload : ℕ → Str → PendingWrite → Uploads → Uploads
start_upload fh path pending uploads =
    let id = uploads.next + 1 in
    record uploads {
      next = id;
      bytes = uploads.bytes + length pending.bytes;
      inflight = insert uploads.inflight id (record {
        fh = fh;
        path = path;
        offset = pending.offset;
        len = length pending.bytes;
        bytes = pending.bytes;
      });
    }

abbrev pub note_error : ℕ → Done → Map ℕ Errno → Map ℕ Errno
note_error fh (Error.ok a) errors = errors
note_error fh (Error.err e) errors = insert errors fh (errno_for e)

-- what the worker does when the upload is sent
unfoldable pub end_upload : ℕ → Upload → Done → Uploads → Uploads
end_upload id upload result uploads = record uploads {
  inflight = remove uploads.inflight id;
  bytes = uploads.bytes - upload.len;
  errors = note_error upload.fh result uploads.errors;
}

-- the keys of the buffers that are dispatched
abbrev pub buffers_where : {W : Type 0} → (PendingWrite → Bool) → Vfs W → List ℕ
buffers_where p s = keys (retain (λ fh pending. p pending) s.write_buffers)

module _ {W : Type 0} (client : RemoteClient W) (choose : Map ℕ Upload → ℕ) where
  -- the job of one upload, from its call of the daemon on
  unfoldable pub run_upload : ℕ → Upload → Vfs W → Vfs W
  unfolding end_upload
  run_upload id upload s =
      let (result, world) = client.write_file_at upload.path upload.offset upload.bytes s.world in
      record s {
        world = world;
        blocks = invalidate_range s.blocks upload.path upload.offset upload.len;
        uploads = end_upload id upload result s.uploads;
      }

  -- one of the uploads in flight is done: the chosen one, or the oldest if there is none such
  abbrev pub finish : Map ℕ Upload → Option Upload → Vfs W → Vfs W
  finish inflight (some upload) s = run_upload (choose inflight) upload s
  finish [] none s = s
  finish ((id, upload) ∷ inflight) none s = run_upload id upload s

  unfoldable pub finish_one : Vfs W → Vfs W
  unfolding run_upload
  finish_one s = finish s.uploads.inflight (get s.uploads.inflight (choose s.uploads.inflight)) s

  -- `uploads_changed.wait` in a loop: uploads are done until the test holds
  unfoldable pub wait_rounds : ℕ → (Uploads → Bool) → Vfs W → Vfs W
  wait_rounds zero ready s = s
  wait_rounds (suc rounds) ready s =
      let rest = wait_rounds rounds ready (finish_one s) in if ready s.uploads then s else rest

  unfoldable pub wait_until : (Uploads → Bool) → Vfs W → Vfs W
  unfolding wait_rounds finish_one
  wait_until ready s = wait_rounds (length s.uploads.inflight) ready s

  abbrev pub none_such : (Upload → Bool) → Uploads → Bool
  none_such pending uploads = not (any pending (values uploads.inflight))

  unfoldable pub wait_uploads : (Upload → Bool) → Vfs W → Vfs W
  unfolding wait_until
  wait_uploads pending s = wait_until (none_such pending) s

  unfoldable pub dispatch_pending : ℕ → PendingWrite → Vfs W → Vfs W
  unfolding wait_until start_upload may_start
  dispatch_pending fh pending s =
      let path = or_else pending.path (Inodes.path s.inodes pending.ino) in
      let ready = wait_until (may_start path pending.offset (length pending.bytes)) s in
      record ready { uploads = start_upload fh path pending ready.uploads }

  unfoldable pub dispatch_fh : ℕ → Vfs W → Vfs W
  unfolding dispatch_pending
  dispatch_fh fh s =
      let s' = record s { write_buffers = remove s.write_buffers fh } in
      if_some (get s.write_buffers fh) (λ pending. dispatch_pending fh pending s') s'

  unfoldable pub dispatch_all : List ℕ → Vfs W → Vfs W
  unfolding dispatch_fh
  dispatch_all [] s = s
  dispatch_all (fh ∷ fhs) s = dispatch_all fhs (dispatch_fh fh s)

  unfoldable pub flush : ℕ → Vm W Unit
  unfolding dispatch_fh wait_uploads take_upload_error
  flush fh = do
    modify (dispatch_fh fh)
    modify (wait_uploads (λ upload. upload.fh == fh))
    take_upload_error fh

  unfoldable pub take_errors : List ℕ → Vm W Unit
  unfolding take_upload_error
  take_errors [] = pure tt
  take_errors (fh ∷ fhs) = do take_upload_error fh; take_errors fhs

  unfoldable pub flush_matching : Str → Vm W Unit
  unfolding dispatch_all wait_uploads take_errors
  flush_matching path = λ s.
      let fhs = buffers_where (λ pending. at_or_below path pending.path) s in
      take_errors fhs (wait_uploads (λ upload. at_or_below path upload.path) (dispatch_all fhs s))

  unfoldable pub flush_all_buffers : Vfs W → Vfs W
  unfolding dispatch_all wait_uploads
  flush_all_buffers s = wait_uploads (λ _. true) (dispatch_all (keys s.write_buffers) s)

  unfoldable pub flush_idle : Vfs W → Vfs W
  unfolding dispatch_all
  flush_idle s =
      dispatch_all (buffers_where (λ pending. leb write_idle_flush (s.now - pending.touched)) s) s
