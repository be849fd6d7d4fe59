-- ===== src/Vfs/Uploads/Order.antt =====
-- Uploads of src/vfs.rs that are done in any order, and new ones that start: what a file holds in
-- the end does not change, unless an upload fails.
use mobfs.Base.{
  ℕ, zero, suc, ◌≡◌, ◌≢◌, refl, ◌∙◌, Bool, Bool-cases, Option, none, some, [], ◌∷◌, if◌then◌else◌,
  inl, inr, arith,
}
use mobfs.Base.Str.{Str, str_eq}
use mobfs.Base.Order.{nat_ord, eqb_refl}
use mobfs.Base.Map.{Map, get, insert, remove, IsSorted, remove-IsSorted}
use mobfs.Protocol.{Bytes}
use mobfs.Error as Error
use mobfs.Error.{Done}
use mobfs.Vfs.Errno.{Errno}
use mobfs.Vfs.State.{Vfs, RemoteClient, Upload, Uploads}
use mobfs.Vfs.Uploads.{note_error, end_upload, run_upload, finish, finish_one, wait_rounds}
use mobfs.Vfs.Uploads.Overlay.{Contents, overlay}
use mobfs.Vfs.Uploads.View.{
  laid, inflight_over, Sound, inflight_over_cong, inflight_over-remove, Sound-remove,
}

pub record IsSound (uploads : Uploads) : Type 0 where
  pub sorted : IsSorted uploads.inflight
  pub sound : Sound uploads.next uploads.inflight

-- A write that the daemon has confirmed is in the file at its offset; no other byte changes.
abbrev pub Stores : {W : Type 0} → RemoteClient W → (W → Str → Contents) → Type 0
Stores {W} client contents =
    (path : Str) (offset : ℕ) (bytes : Bytes) (w : W) (file : Str) (i : ℕ)
    → (client.write_file_at path offset bytes w).0 ≡ Error.ok tt
    → contents (client.write_file_at path offset bytes w).1 file i
      ≡ (if str_eq path file then overlay offset bytes (contents w file) i else contents w file i)

-- what the file holds once all that is in flight has arrived
unfoldable pub file_view : {W : Type 0} → (W → Str → Contents) → Vfs W → Str → Contents
unfolding inflight_over
file_view contents s path = inflight_over path s.uploads.inflight (contents s.world path)

-- the state `t` comes of `s` by uploads: the same is in the files unless an upload failed
pub record Same {W : Type 0} (contents : W → Str → Contents) (s t : Vfs W) : Type 0 where
  pub failed_none : t.uploads.errors ≡ [] → s.uploads.errors ≡ []
  pub view :
      (path : Str) (i : ℕ)
      → t.uploads.errors ≡ []
      → file_view contents t path i ≡ file_view contents s path i
  pub valid : IsSound t.uploads
  pub inodes : t.inodes ≡ s.inodes
  pub buffers : t.write_buffers ≡ s.write_buffers

insert-ne-nil : (m : Map ℕ Errno) (k : ℕ) (e : Errno) → insert m k e ≢ []
unfolding insert
insert-ne-nil [] k e h = cc
insert-ne-nil ((j, f) ∷ m) k e h = ground arith

pub get_head :
    (m : Map ℕ Upload) (id : ℕ) (u : Upload) (rest : Map ℕ Upload)
    → m ≡ (id, u) ∷ rest
    → get m id ≡ some u
unfolding get
get_head m id u rest h = rw (h, eqb_refl id) refl

note_error-nil :
    (fh : ℕ) (r : Done) (errors : Map ℕ Errno)
    → note_error fh r errors ≡ []
    → (r ≡ Error.ok tt) × (errors ≡ [])
note_error-nil fh (Error.ok tt) errors h = (refl, h)
note_error-nil fh (Error.err e) errors h = absurd (insert-ne-nil errors fh _ h)

module _ {W : Type 0} (client : RemoteClient W) (choose : Map ℕ Upload → ℕ)
    (contents : W → Str → Contents) (stores : Stores client contents) where
  pub run_upload-Same :
      (id : ℕ) (u : Upload) (s : Vfs W)
      → IsSound s.uploads
      → get s.uploads.inflight id ≡ some u
      → Same contents s (run_upload client choose id u s)
  unfolding run_upload end_upload file_view
  run_upload-Same id u s v h = record {
    failed_none = λ e. (note_error-nil u.fh _ s.uploads.errors e).1;
    view = λ path i e.
        inflight_over_cong path (remove s.uploads.inflight id) _
          (laid path u (contents s.world path)) i
          (stores u.path u.offset u.bytes s.world path i
            (note_error-nil u.fh _ s.uploads.errors e).0)
        ∙ inflight_over-remove path s.uploads.next id u s.uploads.inflight (contents s.world path) i
            v.sound v.sorted h;
    valid = record {
      sorted = remove-IsSorted s.uploads.inflight id v.sorted;
      sound = Sound-remove s.uploads.next id s.uploads.inflight v.sound;
    };
    inodes = refl;
    buffers = refl;
  }

  pub Same-refl : (s : Vfs W) → IsSound s.uploads → Same contents s s
  Same-refl s v = record {
    failed_none = λ e. e;
    view = λ path i e. refl;
    valid = v;
    inodes = refl;
    buffers = refl;
  }

  pub Same-trans : (s t u : Vfs W) → Same contents s t → Same contents t u → Same contents s u
  Same-trans s t u p q = record {
    failed_none = λ e. p.failed_none (q.failed_none e);
    view = λ path i e. q.view path i e ∙ p.view path i (q.failed_none e);
    valid = q.valid;
    inodes = q.inodes ∙ p.inodes;
    buffers = q.buffers ∙ p.buffers;
  }

  finish-Same :
      (s : Vfs W)
      → IsSound s.uploads
      → (m : Map ℕ Upload) → s.uploads.inflight ≡ m
      → (o : Option Upload) → get s.uploads.inflight (choose m) ≡ o
      → Same contents s (finish client choose m o s)
  finish-Same s v m h (some u) g = run_upload-Same (choose m) u s v g
  finish-Same s v [] h none g = Same-refl s v
  finish-Same s v ((id, u) ∷ m) h none g =
      run_upload-Same id u s v (get_head s.uploads.inflight id u m h)

  pub finish_one-Same :
      (s : Vfs W) → IsSound s.uploads → Same contents s (finish_one client choose s)
  unfolding finish_one
  finish_one-Same s v = finish-Same s v s.uploads.inflight refl _ refl

  pub wait_rounds-Same :
      (rounds : ℕ) (ready : Uploads → Bool) (s : Vfs W)
      → IsSound s.uploads
      → Same contents s (wait_rounds client choose rounds ready s)
  unfolding wait_rounds
  wait_rounds-Same zero ready s v = Same-refl s v
  wait_rounds-Same (suc rounds) ready s v = elim (Bool-cases (ready s.uploads)) [
    | inl e ↦ rw e (Same-refl s v)
    | inr e ↦ rw e (
        Same-trans s (finish_one client choose s) _ (finish_one-Same s v)
          (wait_rounds-Same rounds ready (finish_one client choose s) (finish_one-Same s v).valid))
  ]
