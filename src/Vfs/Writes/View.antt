-- ===== src/Vfs/Writes/View.antt =====
-- What a file holds after a `write` of src/vfs.rs, and once it is flushed.
use mobfs.Base.{
  ℕ, ◌+◌, ◌≡◌, refl, ap, ◌∙◌, true, false, Bool-cases, inl, inr, Option, none, some, [], ◌++◌,
  if◌then◌else◌, length, arith,
}
use mobfs.Base.Str.{Str, str_eq}
use mobfs.Base.Order.{nat_ord}
use mobfs.Base.Map.{Map, get, remove, get-insert_self}
use mobfs.Protocol.{Bytes}
use mobfs.Paths.{is_sidecar}
use mobfs.Vfs.Errno.{Errno, ok}
use mobfs.Vfs.Inodes as Inodes
use mobfs.Vfs.Blocks.{invalidate_range}
use mobfs.Vfs.State.{Vfs, RemoteClient, Upload, PendingWrite}
use mobfs.Vfs.Names.{path_of, ignored, or_else, take_upload_error, note_local_write}
use mobfs.Vfs.Uploads.{dispatch_pending}
use mobfs.Vfs.Uploads.Overlay.{Contents, overlay, overlay_cong, overlay-append}
use mobfs.Vfs.Uploads.Order.{IsSound, Stores, file_view}
use mobfs.Vfs.Uploads.Dispatch.{
  pending_path, buffered, handle_view, buffered_cong, dispatch_pending-IsSound,
  dispatch_pending-view, dispatch_pending-buffers, dispatch_pending-inodes,
}
use mobfs.Vfs.Writes.{follows, put_buffer, buffer_over, buffer_write, write}

module _ {W : Type 0} (client : RemoteClient W) (choose : Map ℕ Upload → ℕ)
    (contents : W → Str → Contents) (stores : Stores client contents) where
  handle_view-some :
      (fh : ℕ) (s : Vfs W) (q : Str) (i : ℕ) (pending : PendingWrite)
      → get s.write_buffers fh ≡ some pending
      → handle_view contents fh s q i ≡ buffered s q (some pending) (file_view contents s q) i
  unfolding handle_view
  handle_view-some fh s q i pending h = rw h refl

  -- a write that follows on lies over the buffer as it lies over the file
  extended :
      (s : Vfs W) (q : Str) (fresh pending : PendingWrite) (f : Contents) (i : ℕ)
      → Inodes.path s.inodes fresh.ino ≡ some fresh.path
      → follows fresh.ino fresh.offset (length fresh.bytes) pending ≡ true
      → buffered s q
          (some (record pending { bytes = pending.bytes ++ fresh.bytes; touched = fresh.touched }))
          f
          i
        ≡ buffered s q (some fresh) (buffered s q (some pending) f) i
  extended s q fresh pending f i known h =
      let same : pending.ino ≡ fresh.ino = ground arith in
      let end : pending.offset + length pending.bytes ≡ fresh.offset = ground arith in
      let p : pending_path s pending ≡ fresh.path =
        ap (λ k. or_else pending.path (Inodes.path s.inodes k)) same
        ∙ ap (or_else pending.path) known in
      let r : pending_path s fresh ≡ fresh.path = ap (or_else fresh.path) known in
      ground (
        arith,
        overlay-append pending.offset pending.bytes fresh.bytes f i,
        overlay_cong fresh.offset fresh.bytes (overlay pending.offset pending.bytes f)
            (buffered s q (some pending) f) i,
      )

  -- what is sent to make room lies below the new buffer
  displaced :
      (fh : ℕ) (fresh pending : PendingWrite) (s : Vfs W) (q : Str) (i : ℕ)
      → IsSound s.uploads
      → (dispatch_pending client choose fh pending
          (put_buffer client choose fh fresh s)).uploads.errors
        ≡ []
      → handle_view contents fh
          (dispatch_pending client choose fh pending (put_buffer client choose fh fresh s))
          q
          i
        ≡ buffered s q (some fresh) (buffered s q (some pending) (file_view contents s q)) i
  unfolding file_view
  displaced fh fresh pending s q i v e =
      let before = put_buffer client choose fh fresh s in
      let sent = dispatch_pending client choose fh pending before in
      handle_view-some fh sent q i fresh (
        ap (λ b. get b fh)
          (dispatch_pending-buffers client choose contents stores fh pending before v)
        ∙ get-insert_self s.write_buffers fh fresh)
      ∙ ap
          (λ (n : Inodes.Inodes).
            if str_eq (or_else fresh.path (Inodes.path n fresh.ino)) q
            then overlay fresh.offset fresh.bytes (file_view contents sent q) i
            else file_view contents sent q i)
          (dispatch_pending-inodes client choose contents stores fh pending before v)
      ∙ buffered_cong s q (some fresh) (file_view contents sent q)
          (buffered s q (some pending) (file_view contents s q)) i
          (dispatch_pending-view client choose contents stores fh pending before v q i e)

  buffer_over-view :
      (fh : ℕ) (fresh : PendingWrite) (s : Vfs W) (q : Str) (i : ℕ)
      → IsSound s.uploads
      → Inodes.path s.inodes fresh.ino ≡ some fresh.path
      → (o : Option PendingWrite) → get s.write_buffers fh ≡ o
      → (buffer_over client choose fh fresh o s).uploads.errors ≡ []
      → handle_view contents fh (buffer_over client choose fh fresh o s) q i
        ≡ buffered s q (some fresh) (buffered s q o (file_view contents s q)) i
  unfolding handle_view file_view
  buffer_over-view fh fresh s q i v known none g e =
      rw (get-insert_self s.write_buffers fh fresh) refl
  buffer_over-view fh fresh s q i v known (some pending) g e =
      elim (Bool-cases (follows fresh.ino fresh.offset (length fresh.bytes) pending)) [
        | inl h ↦ rw h (
            rw
              (get-insert_self s.write_buffers fh
                (record pending { bytes = pending.bytes ++ fresh.bytes; touched = fresh.touched }))
              (extended s q fresh pending (file_view contents s q) i known h))
        | inr h ↦ let f = rw h at e in rw h (displaced fh fresh pending s q i v f)
      ]

  -- A write lies over what the file held for its handle, whatever is sent to make room for it.
  pub buffer_write-view :
      (fh : ℕ) (fresh : PendingWrite) (s : Vfs W) (q : Str) (i : ℕ)
      → IsSound s.uploads
      → Inodes.path s.inodes fresh.ino ≡ some fresh.path
      → (buffer_write client choose fh fresh s).uploads.errors ≡ []
      → handle_view contents fh (buffer_write client choose fh fresh s) q i
        ≡ buffered s q (some fresh) (handle_view contents fh s q) i
  unfolding buffer_write handle_view
  buffer_write-view fh fresh s q i v known e =
      buffer_over-view fh fresh s q i v known (get s.write_buffers fh) refl e

  pub buffer_write-IsSound :
      (fh : ℕ) (fresh : PendingWrite) (s : Vfs W)
      → IsSound s.uploads
      → IsSound (buffer_write client choose fh fresh s).uploads
  unfolding buffer_write
  buffer_write-IsSound fh fresh s v = kept (get s.write_buffers fh)
    where
      kept : (o : Option PendingWrite) → IsSound (buffer_over client choose fh fresh o s).uploads
      kept none = v
      kept (some pending) =
          elim (Bool-cases (follows fresh.ino fresh.offset (length fresh.bytes) pending)) [
            | inl h ↦ rw h v
            | inr h ↦ rw h (
                dispatch_pending-IsSound client choose contents stores fh pending
                  (put_buffer client choose fh fresh s) v)
          ]

  -- the state once the error of an earlier upload has been reported
  abbrev asked : ℕ → Vfs W → Vfs W
  asked fh s = record s { uploads = record s.uploads { errors = remove s.uploads.errors fh } }

  -- what is done to the caches after a write
  abbrev noted : Str → ℕ → ℕ → Vfs W → Vfs W
  noted path offset len t =
      note_local_write path offset len
        (record t { blocks = invalidate_range t.blocks path offset len })

  abbrev buffer_of : ℕ → Str → ℕ → Bytes → Vfs W → PendingWrite
  buffer_of ino path offset bytes s = record {
    ino = ino;
    path = path;
    offset = offset;
    bytes = bytes;
    touched = s.now;
  }

  get_empty : (fh : ℕ) → get {V = Errno} [] fh ≡ none
  unfolding get
  get_empty fh = refl

  write_lem :
      (ino fh offset : ℕ) (bytes : Bytes) (path : Str) (s : Vfs W)
      → Inodes.path s.inodes ino ≡ some path
      → str_eq path [] ≡ false
      → is_sidecar path ≡ false
      → ignored s path ≡ false
      → get s.uploads.errors fh ≡ none
      → write client choose ino fh offset bytes s ≡ (
        ok tt,
        noted path offset
            (length bytes)
            (buffer_write client choose fh (buffer_of ino path offset bytes s) (asked fh s)),
      )
  unfolding write path_of take_upload_error
  write_lem ino fh offset bytes path s known root side ign clean =
      rw (known, root, side, ign, clean) refl

  -- A write to an ordinary file that is known by its number, with no failed upload outstanding, is
  -- accepted. Unless an upload fails meanwhile, every file then holds for the handle what it held,
  -- with the bytes written at their offset of the written file, although nothing need have been sent
  -- and uploads may have been done in any order.
  pub write-view :
      (ino fh offset : ℕ) (bytes : Bytes) (path : Str) (s : Vfs W) (q : Str) (i : ℕ)
      → IsSound s.uploads
      → Inodes.path s.inodes ino ≡ some path
      → str_eq path [] ≡ false
      → is_sidecar path ≡ false
      → ignored s path ≡ false
      → s.uploads.errors ≡ []
      → (write client choose ino fh offset bytes s).1.uploads.errors ≡ []
      → ((write client choose ino fh offset bytes s).0 ≡ ok tt)
        × (handle_view contents fh (write client choose ino fh offset bytes s).1 q i ≡ (
            if str_eq path q
            then overlay offset bytes (handle_view contents fh s q) i
            else handle_view contents fh s q i))
  unfolding note_local_write handle_view file_view
  write-view ino fh offset bytes path s q i v known root side ign clean e =
      let ran =
        write_lem ino fh offset bytes path s known root side ign
          (ap (λ (m : Map ℕ Errno). get m fh) clean ∙ get_empty fh) in
      let failed = rw ran at e in
      rw ran (
        refl,
        buffer_write-view fh (buffer_of ino path offset bytes s) (asked fh s) q i
              (record { sorted = v.sorted; sound = v.sound }) known failed
            ∙ ap
                (λ o.
                  if str_eq (or_else path o) q
                  then overlay offset bytes (handle_view contents fh s q) i
                  else handle_view contents fh s q i)
                known,
      )
