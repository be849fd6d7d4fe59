-- ===== src/Sync/Keeps.antt =====
-- Steps that keep a view of their state.
use mobfs.Base.{◌≡◌, refl, ap, ◌∙◌, subst, Bool, true, false, if◌then◌else◌}
use mobfs.Error.{Result, ok, err}
use mobfs.Disk.{Io, and_then, ◌>>=◌, attempt, lift}

module _ {W V : Type 0} (view : W → V) where
  -- whatever the step does and answers, the view is as before
  unfoldable pub Keeps : {A : Type 0} → Io W A → Type 0
  Keeps m = (w : W) → view (m w).1 ≡ view w

  pub Keeps-bind :
      {A B : Type 0} (m : Io W A) (f : A → Io W B)
      → Keeps m
      → ((a : A) → Keeps (f a))
      → Keeps (m >>= f)
  unfolding Keeps
  Keeps-bind {A} m f k h w = after (m w) refl
    where
      after : (p : Result A × W) → m w ≡ p → view (and_then f (m w)).1 ≡ view w
      after (ok a, x) e = rw e (h a x ∙ subst (λ q. view q.1 ≡ view w) e (k w))
      after (err f, x) e = rw e (subst (λ q. view q.1 ≡ view w) e (k w))

  pub Keeps-attempt : {A : Type 0} (m : Io W A) → Keeps m → Keeps (attempt m)
  unfolding Keeps
  Keeps-attempt m k w = k w

  pub Keeps-if :
      {A : Type 0} (b : Bool) (m n : Io W A) → Keeps m → Keeps n → Keeps (if b then m else n)
  Keeps-if true m n k l = k
  Keeps-if false m n k l = l

  pub Keeps-pure : {A : Type 0} (r : Result A) → Keeps (lift r)
  unfolding Keeps
  Keeps-pure r w = refl

  -- The next step may count on what this one has answered.
  pub Keeps-then :
      {A B : Type 0} (m : Io W A) (f : A → Io W B)
      → Keeps m
      → ((w : W) (a : A) → (m w).0 ≡ ok a → Keeps (f a))
      → Keeps (m >>= f)
  unfolding Keeps
  Keeps-then {A} m f k h w = after (m w) refl
    where
      after : (p : Result A × W) → m w ≡ p → view (and_then f (m w)).1 ≡ view w
      after (ok a, x) e =
          rw e (h w a (ap (λ (q : Result A × W). q.0) e) x ∙ subst (λ q. view q.1 ≡ view w) e (k w))
      after (err f, x) e = rw e (subst (λ q. view q.1 ≡ view w) e (k w))
