-- ===== src/Vfs/State/Ends.antt =====
-- Steps of the mount of src/vfs.rs that end in a given kind of state whenever they succeed.
use mobfs.Base.{◌≡◌, refl}
use mobfs.Vfs.Errno.{Errno, VfsResult, ok, err}
use mobfs.Error.{Result}
use mobfs.Error as Error
use mobfs.Disk.{Io}
use mobfs.Vfs.State.{Vfs, Vm, and_then, ◌>>=◌, fail, with_errno, remote}

module _ {W : Type 0} (P : Vfs W → Type 0) where
  unfoldable pub Ends : {A : Type 0} → Vm W A → Type 0
  Ends {A} m = (s : Vfs W) (a : A) → (m s).0 ≡ ok a → P (m s).1

  pub Ends-bind :
      {A B : Type 0} (m : Vm W A) (f : A → Vm W B) → ((a : A) → Ends (f a)) → Ends (m >>= f)
  unfolding Ends
  Ends-bind {A} {B} m f h s b e = after (m s) e
    where
      after : (p : VfsResult A × Vfs W) → (and_then f p).0 ≡ ok b → P (and_then f p).1
      after (ok a, t) e = h a t b e
      after (err x, t) e = cc

  pub Ends-fail : (A : Type 0) (x : Errno) → Ends (fail {A = A} x)
  unfolding Ends
  Ends-fail A x s a e = cc

-- the parts of two steps that have succeeded together
pub >>=-eq-ok :
    {W A B : Type 0} (m : Vm W A) (f : A → Vm W B) (s : Vfs W) {b : B}
    → ((m >>= f) s).0 ≡ ok b
    → (a : A) × ((m s).0 ≡ ok a) × ((f a (m s).1).0 ≡ ok b) × ((m >>= f) s ≡ f a (m s).1)
>>=-eq-ok {W} {A} {B} m f s {b} h = after (m s) h
  where
    after :
        (p : VfsResult A × Vfs W)
        → (and_then f p).0 ≡ ok b
        → (a : A) × (p.0 ≡ ok a) × ((f a p.1).0 ≡ ok b) × (and_then f p ≡ f a p.1)
    after (ok a, t) e = (a, refl, e, refl)
    after (err x, t) e = cc

-- A call of the daemon changes nothing of the mount itself, however it ends.
pub remote_lem :
    {W A : Type 0} (m : Io W A) (s : Vfs W) → (remote m s).1 ≡ record s { world = (m s.world).1 }
remote_lem {W} {A} m s = after (m s.world).0
  where
    after :
        (r : Result A)
        → (with_errno r (record s { world = (m s.world).1 })).1 ≡ record s { world = (m s.world).1 }
    after (Error.ok a) = refl
    after (Error.err e) = refl
