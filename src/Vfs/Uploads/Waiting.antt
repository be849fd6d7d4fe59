-- ===== src/Vfs/Uploads/Waiting.antt =====
-- Waits for uploads in src/vfs.rs come to an end, whichever upload is done first.
use mobfs.Base.{
  ℕ, zero, suc, ◌≤◌, ◌<◌, ◌≡◌, refl, Bool, true, false, Bool-cases, Option, none, some, [], ◌∷◌,
  length, any, inl, inr, arith,
}
use mobfs.Base.Order.{nat_ord}
use mobfs.Base.Map.{Map, get, remove, values}
use mobfs.Vfs.State.{Vfs, RemoteClient, Upload, Uploads}
use mobfs.Vfs.Uploads.{
  end_upload, run_upload, finish, finish_one, wait_rounds, wait_until, wait_uploads, none_such,
}
use mobfs.Vfs.Uploads.Order.{get_head}

length-remove-le : (m : Map ℕ Upload) (id : ℕ) → length (remove m id) ≤ length m
unfolding remove
length-remove-le [] id = omega arith
length-remove-le ((j, v) ∷ m) id = ground (arith, length-remove-le m id)

length-remove-lt :
    (m : Map ℕ Upload) (id : ℕ) (u : Upload) → get m id ≡ some u → length (remove m id) < length m
unfolding remove get
length-remove-lt [] id u h = cc
length-remove-lt ((j, v) ∷ m) id u h =
    ground (arith, length-remove-le m id, length-remove-lt m id u)

module _ {W : Type 0} (client : RemoteClient W) (choose : Map ℕ Upload → ℕ) where
  run_upload_shrinks :
      (id : ℕ) (u : Upload) (s : Vfs W)
      → get s.uploads.inflight id ≡ some u
      → length (run_upload client choose id u s).uploads.inflight < length s.uploads.inflight
  unfolding run_upload end_upload
  run_upload_shrinks id u s h = length-remove-lt s.uploads.inflight id u h

  finish_shrinks :
      (s : Vfs W) (m : Map ℕ Upload)
      → s.uploads.inflight ≡ m
      → (o : Option Upload) → get s.uploads.inflight (choose m) ≡ o
      → (rounds : ℕ) → length s.uploads.inflight ≤ suc rounds
      → length (finish client choose m o s).uploads.inflight ≤ rounds
  finish_shrinks s m h (some u) g rounds l = omega (arith, run_upload_shrinks (choose m) u s g)
  finish_shrinks s [] h none g rounds l = rw h (omega arith)
  finish_shrinks s ((id, u) ∷ m) h none g rounds l =
      omega (arith, run_upload_shrinks id u s (get_head s.uploads.inflight id u m h))

  pub wait_rounds_ready :
      (rounds : ℕ) (ready : Uploads → Bool) (s : Vfs W)
      → ((u : Uploads) → u.inflight ≡ [] → ready u ≡ true)
      → length s.uploads.inflight ≤ rounds
      → ready (wait_rounds client choose rounds ready s).uploads ≡ true
  unfolding wait_rounds finish_one
  wait_rounds_ready zero ready s h l = h s.uploads (empty s.uploads.inflight l)
    where
      empty : (m : Map ℕ Upload) → length m ≤ 0 → m ≡ []
      empty [] l = refl
      empty (x ∷ m) l = absurd (omega arith)
  wait_rounds_ready (suc rounds) ready s h l = elim (Bool-cases (ready s.uploads)) [
    | inl e ↦ rw e e
    | inr e ↦ rw e (
        wait_rounds_ready rounds ready (finish_one client choose s) h
          (finish_shrinks s s.uploads.inflight refl _ refl rounds l))
  ]

  -- Whatever the order in which uploads are done, a wait for a test that holds once nothing is in
  -- flight ends with the test true.
  pub wait_until_ready :
      (ready : Uploads → Bool) (s : Vfs W)
      → ((u : Uploads) → u.inflight ≡ [] → ready u ≡ true)
      → ready (wait_until client choose ready s).uploads ≡ true
  unfolding wait_until
  wait_until_ready ready s h = wait_rounds_ready (length s.uploads.inflight) ready s h (omega arith)

  pub wait_uploads-none :
      (pending : Upload → Bool) (s : Vfs W)
      → any pending (values (wait_uploads client choose pending s).uploads.inflight) ≡ false
  unfolding wait_uploads any values
  wait_uploads-none pending s =
      ground (arith, wait_until_ready (none_such client choose pending) s (λ u e. rw e refl))
