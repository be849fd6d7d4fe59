-- ===== src/Changes/Wait.antt =====
-- src/changes.rs: what `wait` returns, and that it does.
use mobfs.Base.{
  subst, ℕ, ◌+◌, ◌-◌, ◌≤◌, ◌<◌, ◌≡◌, refl, ap, sym, ◌⊎◌, inl, inr, ◌≢◌, Bool, true, false, ◌||◌,
  not, Option, none, some, List, [], ◌∷◌, arith, Bool-cases,
}
use mobfs.Changes.{WaitResult, Wakeup, needs_reset, oldest, reply, wait, wait_loop, is_empty}
use mobfs.Changes.Valid.{IsValid}
use mobfs.Changes.Reply.{Answers, reply_lem}

-- what a result of `wait` is, found in one of the wakeups
abbrev pub FromReply : ℕ → ℕ → WaitResult → List Wakeup → Type 0
FromReply client since result [] = ⊥
FromReply client since result (w ∷ ws) =
    ((result.reset ≡ false)
      × Answers client since (w.state.next_seq - 1) w.state.events (result.events, result.cursor))
    ⊎ FromReply client since result ws

-- The feed is valid and keeps what comes after `since`, at each wakeup.
abbrev pub Kept : ℕ → List Wakeup → Type 0
Kept since [] = Unit
Kept since (w ∷ ws) =
    (IsValid w.state × (oldest w.state ≤ since + 1) × (since < w.state.next_seq)) × Kept since ws

some_inj : {A : Type 0} {a b : A} → some a ≡ some b → a ≡ b
some_inj h = cc

wait_loop_lem :
    (epoch client since : ℕ) (ws : List Wakeup) {result : WaitResult}
    → Kept since ws
    → wait_loop epoch ws client since ≡ some result
    → FromReply client since result ws
unfolding wait_loop
wait_loop_lem epoch client since [] k h = absurd (cc)
wait_loop_lem epoch client since (w ∷ ws) {result} ((v, low, high), k) h =
    elim (Bool-cases (not (is_empty (reply w.state client since).0) || w.expired)) [
      | inl b ↦
          let now = rw b at h in
          inl (
            subst
              (λ (r : WaitResult).
                (r.reset ≡ false)
                × Answers client since (w.state.next_seq - 1) w.state.events (r.events, r.cursor))
              (some_inj now) (refl, reply_lem w.state client since v low high))
      | inr b ↦ inr (wait_loop_lem epoch client since ws k (rw b at h))
    ]

-- What `wait` returns is either the order to start over, or the reply to one of the states it
-- found: every change of others after `since` up to the cursor.
pub wait_lem :
    (epoch client client_epoch since : ℕ) (w : Wakeup) (ws : List Wakeup) {result : WaitResult}
    → Kept since (w ∷ ws)
    → wait epoch w ws client client_epoch (some since) ≡ some result
    → (result.reset ≡ true) ⊎ FromReply client since result (w ∷ ws)
unfolding wait
wait_lem epoch client client_epoch since w ws {result} k h =
    elim (Bool-cases (needs_reset w.state epoch client_epoch since)) [
      | inl b ↦ let now = rw b at h in inl (sym (ap (λ (r : WaitResult). r.reset) (some_inj now)))
      | inr b ↦ inr (wait_loop_lem epoch client since (w ∷ ws) k (rw b at h))
    ]

abbrev pub any_expired : List Wakeup → Bool
any_expired [] = false
any_expired (w ∷ ws) = w.expired || any_expired ws

wait_loop_returns :
    (epoch client since : ℕ) (ws : List Wakeup)
    → any_expired ws ≡ true
    → wait_loop epoch ws client since ≢ none
unfolding wait_loop
wait_loop_returns epoch client since [] h = absurd (cc)
wait_loop_returns epoch client since (w ∷ ws) h =
    ground (arith, wait_loop_returns epoch client since ws)

-- Once the deadline has passed at a wakeup, `wait` returns.
pub wait_returns :
    (epoch client client_epoch : ℕ) (since : Option ℕ) (w : Wakeup) (ws : List Wakeup)
    → any_expired (w ∷ ws) ≡ true
    → wait epoch w ws client client_epoch since ≢ none
unfolding wait
wait_returns epoch client client_epoch none w ws h = λ e. cc
wait_returns epoch client client_epoch (some since) w ws h =
    elim (Bool-cases (needs_reset w.state epoch client_epoch since)) [
      | inl b ↦ rw b (λ e. cc)
      | inr b ↦ rw b (wait_loop_returns epoch client since (w ∷ ws) h)
    ]
