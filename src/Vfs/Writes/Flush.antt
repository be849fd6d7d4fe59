-- ===== src/Vfs/Writes/Flush.antt =====
-- What the daemon has of a file after `fsync` of src/vfs.rs.
use mobfs.Base.{
  ℕ, ◌≡◌, refl, sym, ap, ◌∙◌, subst, Bool, false, some, [], ◌∷◌, ◌==◌, length, any, arith,
}
use mobfs.Base.Str.{Str}
use mobfs.Base.Order.{nat_ord}
use mobfs.Base.Map.{Map, get, remove, values, keys, retain, remove_absent, get-remove_self}
use mobfs.Paths.{is_sidecar}
use mobfs.Vfs.Errno.{VfsResult, ok}
use mobfs.Vfs.Inodes as Inodes
use mobfs.Vfs.State.{◌>>◌, Vm, Vfs, RemoteClient, remote, Upload, PendingWrite}
use mobfs.Vfs.State.Ends.{>>=-eq-ok, remote_lem}
use mobfs.Vfs.Names.{path_of, at_or_below, take_upload_error}
use mobfs.Vfs.Uploads.{
  wait_until, wait_uploads, none_such, dispatch_fh, dispatch_all, take_errors, flush,
  flush_matching,
}
use mobfs.Vfs.Uploads.Overlay.{Contents}
use mobfs.Vfs.Uploads.View.{laid, inflight_over}
use mobfs.Vfs.Uploads.Order.{IsSound, Stores, file_view, Same, wait_rounds-Same}
use mobfs.Vfs.Uploads.Waiting.{wait_uploads-none}
use mobfs.Vfs.Uploads.Dispatch.{
  handle_view, dispatch_fh-view, dispatch_fh-buffers, dispatch_fh-IsSound, handle_view-none,
}
use mobfs.Vfs.Writes.{fsync}

-- nothing in flight at or below the path lies over the file
landed :
    (path : Str) (m : Map ℕ Upload) (f : Contents) (i : ℕ)
    → any (λ (u : Upload). at_or_below path u.path) (values m) ≡ false
    → inflight_over path m f i ≡ f i
unfolding inflight_over any values
landed path [] f i h = refl
landed path ((id, u) ∷ m) f i h = ground (arith, landed path m (laid path u f) i)

-- an upload's error that was not there is not taken
taken_none :
    {W : Type 0} (fh : ℕ) (s : Vfs W)
    → (take_upload_error fh s).0 ≡ ok tt
    → (take_upload_error fh s).1.uploads.errors ≡ s.uploads.errors
unfolding take_upload_error
taken_none fh s h = remove_absent s.uploads.errors fh (ground arith)

module _ {W : Type 0} (client : RemoteClient W) (choose : Map ℕ Upload → ℕ)
    (contents : W → Str → Contents) (stores : Stores client contents) where
  wait_uploads-Same :
      (pending : Upload → Bool) (s : Vfs W)
      → IsSound s.uploads
      → Same contents s (wait_uploads client choose pending s)
  unfolding wait_uploads wait_until
  wait_uploads-Same pending s v =
      wait_rounds-Same client choose contents stores (length s.uploads.inflight)
        (none_such client choose pending) s v

  -- no buffer is for a file at or below the path
  abbrev pub Unbuffered : Str → Map ℕ PendingWrite → Type 0
  Unbuffered path m = keys (retain (λ fh pending. at_or_below path pending.path) m) ≡ []

  flush_matching_lem :
      (path : Str) (s : Vfs W)
      → Unbuffered path s.write_buffers
      → flush_matching client choose path s
        ≡ (ok tt, wait_uploads client choose (λ upload. at_or_below path upload.path) s)
  unfolding flush_matching dispatch_all take_errors
  flush_matching_lem path s alone = rw alone refl

  -- where no buffer is for the path, the daemon has all of it afterwards
  flush_matching-contents :
      (path : Str) (s : Vfs W) (i : ℕ)
      → IsSound s.uploads
      → Unbuffered path s.write_buffers
      → (flush_matching client choose path s).1.uploads.errors ≡ []
      → (contents (flush_matching client choose path s).1.world path i
          ≡ file_view contents s path i)
        × (s.uploads.errors ≡ [])
  unfolding file_view
  flush_matching-contents path s i v alone e =
      let here = λ (u : Upload). at_or_below path u.path in
      let t = wait_uploads client choose here s in
      let same = wait_uploads-Same here s v in
      let failed = rw (flush_matching_lem path s alone) at e in
      rw (flush_matching_lem path s alone) (
        sym (
              landed path t.uploads.inflight (contents t.world path) i
                (wait_uploads-none client choose here s))
            ∙ same.view path i failed,
        same.failed_none failed,
      )

  -- the flush of a handle leaves all that it wrote in flight or with the daemon
  flush-view :
      (fh : ℕ) (s : Vfs W) (path : Str) (i : ℕ)
      → IsSound s.uploads
      → (flush client choose fh s).0 ≡ ok tt
      → (flush client choose fh s).1.uploads.errors ≡ []
      → file_view contents (flush client choose fh s).1 path i ≡ handle_view contents fh s path i
  unfolding flush take_upload_error file_view
  flush-view fh s path i v done e =
      let t = dispatch_fh client choose fh s in
      let sent = dispatch_fh-IsSound client choose contents stores fh s v in
      let same = wait_uploads-Same (λ upload. upload.fh == fh) t sent in
      let failed =
        sym (taken_none fh (wait_uploads client choose (λ upload. upload.fh == fh) t) done) ∙ e in
      same.view path i failed
      ∙ sym (
          handle_view-none client choose contents stores fh t path i (
            ap (λ b. get b fh) (dispatch_fh-buffers client choose contents stores fh s v)
            ∙ get-remove_self s.write_buffers fh))
      ∙ dispatch_fh-view client choose contents stores fh s path i v (same.failed_none failed)

  flush-IsSound :
      (fh : ℕ) (s : Vfs W)
      → IsSound s.uploads
      → IsSound (flush client choose fh s).1.uploads
        × ((flush client choose fh s).1.write_buffers ≡ remove s.write_buffers fh)
  unfolding flush take_upload_error
  flush-IsSound fh s v =
      let t = dispatch_fh client choose fh s in
      let same =
        wait_uploads-Same (λ upload. upload.fh == fh) t
          (dispatch_fh-IsSound client choose contents stores fh s v) in
      (
        record { sorted = same.valid.sorted; sound = same.valid.sound },
        same.buffers ∙ dispatch_fh-buffers client choose contents stores fh s v,
      )

  abbrev synced : Str → Vm W Unit
  synced path = do flush_matching client choose path; remote (client.fsync path)

  fsync_lem :
      (ino fh : ℕ) (path : Str) (s : Vfs W)
      → Inodes.path s.inodes ino ≡ some path
      → is_sidecar path ≡ false
      → fsync client choose ino fh s ≡ (do flush client choose fh; synced path) s
  unfolding fsync path_of
  fsync_lem ino fh path s known side = rw (known, side) refl

  -- When `fsync` succeeds and no upload has failed, the daemon's file holds byte for byte what the
  -- mount showed for the handle: the buffered write over all that was in flight, however many
  -- uploads there were and in whatever order they arrived. No other handle may hold a buffer for
  -- the file, and the daemon's own flush is taken to change no contents.
  pub fsync-contents :
      (ino fh : ℕ) (path : Str) (s : Vfs W) (i : ℕ)
      → IsSound s.uploads
      → Inodes.path s.inodes ino ≡ some path
      → is_sidecar path ≡ false
      → Unbuffered path (remove s.write_buffers fh)
      → ((w : W) → contents (client.fsync path w).1 path i ≡ contents w path i)
      → (fsync client choose ino fh s).0 ≡ ok tt
      → (fsync client choose ino fh s).1.uploads.errors ≡ []
      → contents (fsync client choose ino fh s).1.world path i ≡ handle_view contents fh s path i
  fsync-contents ino fh path s i v known side alone keeps done e =
      let s1 = (flush client choose fh s).1 in
      let s2 = (flush_matching client choose path s1).1 in
      let ran = fsync_lem ino fh path s known side in
      let first =
        >>=-eq-ok (flush client choose fh) (λ _. synced path) s (ap (λ p. p.0) (sym ran) ∙ done) in
      let second =
        >>=-eq-ok (flush_matching client choose path) (λ _. remote (client.fsync path)) s1
          first.2 in
      let end : (fsync client choose ino fh s).1
          ≡ record s2 { world = (client.fsync path s2.world).1 } =
        ap (λ (p : VfsResult Unit × Vfs W). p.1) (ran ∙ first.3 ∙ second.3)
        ∙ remote_lem (client.fsync path) s2 in
      let failed : s2.uploads.errors ≡ [] = sym (ap (λ (t : Vfs W). t.uploads.errors) end) ∙ e in
      let flushed = flush-IsSound fh s v in
      let there =
        flush_matching-contents path s1 i flushed.0 (subst (Unbuffered path) (sym flushed.1) alone)
          failed in
      ap (λ (t : Vfs W). contents t.world path i) end
      ∙ keeps s2.world
      ∙ there.0
      ∙ flush-view fh s path i v first.1 there.1
