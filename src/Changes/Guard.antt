-- ===== src/Changes/Guard.antt =====
-- src/changes.rs: what of the program's own writes the watcher reports again.
use mobfs.Base.{
  ℕ, ◌+◌, ◌≤◌, ◌<◌, ◌≡◌, refl, inl, inr, sym, ap, ◌∙◌, subst, ◌≢◌, Bool, true, false, none, some,
  [], ◌∷◌, arith, Bool-cases, Option-cases,
}
use mobfs.Base.Str.{Str}
use mobfs.Base.Order.{list_ord, nat_ord, list_cmp_eq}
use mobfs.Base.Map.{get, insert, contains_key, get-insert, get-remove, Map, retain}
use mobfs.Protocol.{ChangeKind}
use mobfs.Changes.{
  FeedState, Signature, begin_write, drop_guard, push, push_locked, echo_window, is_echo,
  signature_eq, append_event, counted, released, remember_recent, is_fresh, matches_recent,
}

-- While a write's guard lives, at whichever of the two locks that is, what the watcher reports of
-- its path is dropped.
pub push-begin_write :
    (s later : FeedState) (path : Str) (kind : ChangeKind) (now : ℕ) (current : Signature)
    → push s (begin_write later path) 0 path kind false now current ≡ begin_write later path
unfolding push push_locked begin_write contains_key
push-begin_write s later path kind now current = ground (
  arith,
  get-insert later.busy path (counted (get later.busy path) + 1) path,
  list_cmp_eq path path,
)

-- A guard that is dropped again leaves the number of guards of every path as it was, if none was
-- zero.
pub busy-drop_guard :
    (s : FeedState) (path p : Str)
    → get s.busy path ≢ some 0
    → get (drop_guard (begin_write s path) path).busy p ≡ get s.busy p
unfolding begin_write drop_guard
busy-drop_guard s path p h =
    let count = counted (get s.busy path) in
    let taken : get (insert s.busy path (count + 1)) path ≡ some (count + 1) =
      ground (arith, get-insert s.busy path (count + 1) path, list_cmp_eq path path) in
    subst (λ o. get (released (insert s.busy path (count + 1)) path o) p ≡ get s.busy p) (sym taken)
      (ground (
        arith,
        get-insert s.busy path (count + 1) p,
        get-insert (insert s.busy path (count + 1)) path count p,
        get-remove (insert s.busy path (count + 1)) path p,
        list_cmp_eq path p,
        Option-cases (get s.busy path),
      ))

get-retain_kept :
    (m : Map Str (ℕ × Signature)) (keep : Str → ℕ × Signature → Bool) (k : Str) (v : ℕ × Signature)
    → get m k ≡ some v
    → keep k v ≡ true
    → get (retain keep m) k ≡ some v
unfolding get retain
get-retain_kept [] keep k v h e = cc
get-retain_kept ((j, w) ∷ m) keep k v h e =
    ground (arith, get-retain_kept m keep k v, list_cmp_eq j k)

signature_eq_refl : (x : Signature) → signature_eq x x ≡ true
unfolding signature_eq
signature_eq_refl none = refl
signature_eq_refl (some (len, none, dir)) = ground arith
signature_eq_refl (some (len, some t, dir)) = ground arith

remembered :
    (recent : Map Str (ℕ × Signature)) (path : Str) (now : ℕ) (current : Signature)
    → get (remember_recent (insert recent path (now, current)) now) path ≡ some (now, current)
remembered recent path now current =
    let found : get (insert recent path (now, current)) path ≡ some (now, current) =
      ground (arith, get-insert recent path (now, current) path, list_cmp_eq path path) in
    ground (
      arith,
      found,
      get-retain_kept (insert recent path (now, current)) (λ p seen. is_fresh now seen.0) path
          (now, current),
    )

-- After the program's own write, what the watcher reports of the path with the signature that the
-- file had then is dropped for the length of the window.
pub push_echo :
    (s : FeedState) (client : ℕ) (path : Str) (kind later_kind : ChangeKind) (now at : ℕ)
    (current : Signature)
    → now ≤ at
    → at < now + echo_window
    → push
        (push_locked s client path kind true now current)
        (push_locked s client path kind true now current)
        0
        path
        later_kind
        false
        at
        current
      ≡ push_locked s client path kind true now current
unfolding push push_locked
push_echo s client path kind later_kind now at current h k =
    let pushed = push_locked s client path kind true now current in
    let echo : is_echo pushed path at current ≡ true =
      unfold is_echo append_event in
      ap (matches_recent at current) (remembered s.recent path now current)
      ∙ ground (arith, h, k, signature_eq_refl current) in
    elim (Bool-cases (contains_key pushed.busy path)) [ inl b ↦ rw b | inr b ↦ rw (b, echo) ]
