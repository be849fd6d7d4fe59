-- ===== src/Vfs/Uploads/Dispatch.antt =====
-- A buffered write that src/vfs.rs hands to the uploaders lies over the same file as before.
use mobfs.Base.{
  ℕ, ◌+◌, ◌≡◌, refl, ap, ◌∙◌, true, false, Option, none, some, [], ◌∷◌, if◌then◌else◌, length, any,
  arith,
}
use mobfs.Base.Str.{Str, str_eq}
use mobfs.Base.Order.{nat_ord}
use mobfs.Base.Map.{Map, get, remove, values, insert-IsSorted, get-remove_self}
use mobfs.Vfs.Inodes as Inodes
use mobfs.Vfs.State.{Vfs, RemoteClient, Upload, Uploads, PendingWrite}
use mobfs.Vfs.Names.{or_else, if_some}
use mobfs.Vfs.Uploads.{overlaps, may_start, start_upload, wait_until, dispatch_pending, dispatch_fh}
use mobfs.Vfs.Uploads.Overlay.{Contents, overlay, overlay_cong}
use mobfs.Vfs.Uploads.View.{Clear, inflight_over-insert, Sound-insert}
use mobfs.Vfs.Uploads.Order.{IsSound, Stores, file_view, Same, wait_rounds-Same}
use mobfs.Vfs.Uploads.Waiting.{wait_until_ready}

-- the path that a buffered write goes to
abbrev pub pending_path : {W : Type 0} → Vfs W → PendingWrite → Str
pending_path s pending = or_else pending.path (Inodes.path s.inodes pending.ino)

-- a file with a buffered write over it
abbrev pub buffered : {W : Type 0} → Vfs W → Str → Option PendingWrite → Contents → Contents
buffered s path none f i = f i
buffered s path (some pending) f i =
    if str_eq (pending_path s pending) path then overlay pending.offset pending.bytes f i else f i

-- what a file holds for a handle: its own buffered write lies over all that is in flight
unfoldable pub handle_view : {W : Type 0} → (W → Str → Contents) → ℕ → Vfs W → Str → Contents
handle_view contents fh s path =
    buffered s path (get s.write_buffers fh) (file_view contents s path)

pub buffered_cong :
    {W : Type 0} (s : Vfs W) (path : Str) (o : Option PendingWrite) (f g : Contents) (i : ℕ)
    → f i ≡ g i
    → buffered s path o f i ≡ buffered s path o g i
buffered_cong s path none f g i h = h
buffered_cong s path (some p) f g i h = ground (arith, overlay_cong p.offset p.bytes f g i)

may_start-Clear :
    (path : Str) (fh : ℕ) (pending : PendingWrite) (m : Map ℕ Upload)
    → any (overlaps path pending.offset (length pending.bytes)) (values m) ≡ false
    → Clear
        (record {
          fh = fh;
          path = path;
          offset = pending.offset;
          len = length pending.bytes;
          bytes = pending.bytes;
        })
        m
unfolding any values
may_start-Clear path fh pending [] h = tt
may_start-Clear path fh pending ((id, v) ∷ m) h = ground (arith, may_start-Clear path fh pending m)

may_start-empty :
    (path : Str) (offset len : ℕ) (u : Uploads)
    → u.inflight ≡ []
    → may_start path offset len u ≡ true
unfolding may_start any values
may_start-empty path offset len u h = rw h refl

module _ {W : Type 0} (client : RemoteClient W) (choose : Map ℕ Upload → ℕ)
    (contents : W → Str → Contents) (stores : Stores client contents) where
  -- The new upload lies over what was in flight, and is as sound as the others.
  module _ (fh : ℕ) (pending : PendingWrite) (s : Vfs W) (v : IsSound s.uploads) where
    abbrev waited : Vfs W
    waited =
        wait_until client choose
          (may_start (pending_path s pending) pending.offset (length pending.bytes)) s

    waited-Same : Same contents s waited
    unfolding wait_until
    waited-Same =
        wait_rounds-Same client choose contents stores (length s.uploads.inflight)
          (may_start (pending_path s pending) pending.offset (length pending.bytes)) s v

    clear :
        Clear
          (record {
            fh = fh;
            path = pending_path s pending;
            offset = pending.offset;
            len = length pending.bytes;
            bytes = pending.bytes;
          })
          waited.uploads.inflight
    unfolding may_start
    clear = may_start-Clear (pending_path s pending) fh pending waited.uploads.inflight (
        ground (
          arith,
          wait_until_ready client choose
              (may_start (pending_path s pending) pending.offset (length pending.bytes)) s
              (may_start-empty (pending_path s pending) pending.offset (length pending.bytes)),
        ))

    pub dispatch_pending-IsSound : IsSound (dispatch_pending client choose fh pending s).uploads
    unfolding dispatch_pending start_upload
    dispatch_pending-IsSound = record {
      sorted =
          insert-IsSorted waited.uploads.inflight (waited.uploads.next + 1) _
            waited-Same.valid.sorted;
      sound =
          Sound-insert waited.uploads.next _ waited.uploads.inflight waited-Same.valid.sound refl
            clear;
    }

    pub dispatch_pending-view :
        (path : Str) (i : ℕ)
        → (dispatch_pending client choose fh pending s).uploads.errors ≡ []
        → file_view contents (dispatch_pending client choose fh pending s) path i
          ≡ buffered s path (some pending) (file_view contents s path) i
    unfolding dispatch_pending start_upload file_view
    dispatch_pending-view path i e =
        inflight_over-insert path waited.uploads.next _ waited.uploads.inflight
          (contents waited.world path) i waited-Same.valid.sound
        ∙ buffered_cong s path (some pending) (file_view contents waited path)
            (file_view contents s path) i (waited-Same.view path i e)

    pub dispatch_pending-buffers :
        (dispatch_pending client choose fh pending s).write_buffers ≡ s.write_buffers
    unfolding dispatch_pending
    dispatch_pending-buffers = waited-Same.buffers

    pub dispatch_pending-failed :
        (dispatch_pending client choose fh pending s).uploads.errors ≡ [] → s.uploads.errors ≡ []
    unfolding dispatch_pending start_upload
    dispatch_pending-failed = waited-Same.failed_none

    pub dispatch_pending-inodes : (dispatch_pending client choose fh pending s).inodes ≡ s.inodes
    unfolding dispatch_pending
    dispatch_pending-inodes = waited-Same.inodes

  abbrev unbuffered : ℕ → Vfs W → Vfs W
  unbuffered fh s = record s { write_buffers = remove s.write_buffers fh }

  pub handle_view-none :
      (fh : ℕ) (s : Vfs W) (path : Str) (i : ℕ)
      → get s.write_buffers fh ≡ none
      → handle_view contents fh s path i ≡ file_view contents s path i
  unfolding handle_view
  handle_view-none fh s path i h = rw h refl

  -- A buffer that is dispatched is gone, and the file is the same for its handle: what lay in the
  -- buffer is in flight.
  pub dispatch_fh-view :
      (fh : ℕ) (s : Vfs W) (path : Str) (i : ℕ)
      → IsSound s.uploads
      → (dispatch_fh client choose fh s).uploads.errors ≡ []
      → handle_view contents fh (dispatch_fh client choose fh s) path i
        ≡ handle_view contents fh s path i
  unfolding dispatch_fh handle_view file_view
  dispatch_fh-view fh s path i v e = after (get s.write_buffers fh) refl e
    where
      after :
          (o : Option PendingWrite)
          → get s.write_buffers fh ≡ o
          → (if_some o
              (λ pending. dispatch_pending client choose fh pending (unbuffered fh s))
              (unbuffered fh s)).uploads.errors
            ≡ []
          → handle_view contents fh
              (if_some o
                (λ pending. dispatch_pending client choose fh pending (unbuffered fh s))
                (unbuffered fh s))
              path
              i
            ≡ buffered s path o (file_view contents s path) i
      after none h e =
          handle_view-none fh (unbuffered fh s) path i (get-remove_self s.write_buffers fh)
      after (some pending) h e =
          handle_view-none fh (dispatch_pending client choose fh pending (unbuffered fh s)) path i (
            ap (λ b. get b fh) (dispatch_pending-buffers fh pending (unbuffered fh s) v)
            ∙ get-remove_self s.write_buffers fh)
          ∙ dispatch_pending-view fh pending (unbuffered fh s) v path i e

  pub dispatch_fh-buffers :
      (fh : ℕ) (s : Vfs W)
      → IsSound s.uploads
      → (dispatch_fh client choose fh s).write_buffers ≡ remove s.write_buffers fh
  unfolding dispatch_fh
  dispatch_fh-buffers fh s v = after (get s.write_buffers fh)
    where
      after :
          (o : Option PendingWrite)
          → (if_some o
              (λ pending. dispatch_pending client choose fh pending (unbuffered fh s))
              (unbuffered fh s)).write_buffers
            ≡ remove s.write_buffers fh
      after none = refl
      after (some pending) = dispatch_pending-buffers fh pending (unbuffered fh s) v

  pub dispatch_fh-IsSound :
      (fh : ℕ) (s : Vfs W) → IsSound s.uploads → IsSound (dispatch_fh client choose fh s).uploads
  unfolding dispatch_fh
  dispatch_fh-IsSound fh s v = after (get s.write_buffers fh)
    where
      after :
          (o : Option PendingWrite)
          → IsSound
              (if_some o
                (λ pending. dispatch_pending client choose fh pending (unbuffered fh s))
                (unbuffered fh s)).uploads
      after none = v
      after (some pending) = dispatch_pending-IsSound fh pending (unbuffered fh s) v
