-- ===== src/Changes/Reply.antt =====
-- src/changes.rs: what `wait` sends. A client that continues from the cursor of each reply gets
-- every change of the others once, in order, or is told to start over.
use mobfs.Base.{
  subst, zero, suc, ℕ, ◌+◌, ◌-◌, ◌≤◌, ◌<◌, ◌≡◌, refl, ap, sym, ◌∙◌, inl, inr, Bool, true, false,
  ◌&&◌, not, List, [], ◌∷◌, map, arith, Bool-cases, drop, filter, length, leb, ltb,
}
use mobfs.Protocol.{ChangeEvent}
use mobfs.Changes.{FeedState, Recorded, collect, is_own, max_events_per_reply, oldest, reply}
use mobfs.Changes.Valid.{IsValid, Numbered}

-- The changes of others that are numbered after `since`, up to the cursor.
abbrev pub owed : ℕ → ℕ → ℕ → Recorded → Bool
owed client since cursor r = ltb since r.seq && (leb r.seq cursor && not (is_own client r))

abbrev pub event_of : Recorded → ChangeEvent
event_of r = r.event

-- what a reply from these records is to be
abbrev pub Answers : ℕ → ℕ → ℕ → List Recorded → List ChangeEvent × ℕ → Type 0
Answers client since last rs (events, cursor) =
    (events ≡ map event_of (filter (owed client since cursor) rs))
    × (since ≤ cursor)
    × (cursor ≤ last)

filter-later :
    (client since cursor first next : ℕ) (rs : List Recorded)
    → Numbered first rs next
    → cursor < first
    → filter (owed client since cursor) rs ≡ []
unfolding filter
filter-later client since cursor first next [] h k = refl
filter-later client since cursor first next (r ∷ rs) (e, h) k =
    ground (arith, filter-later client since cursor (first + 1) next rs h)

Numbered-length :
    (first next : ℕ) (rs : List Recorded) → Numbered first rs next → first + length rs ≡ next
Numbered-length first next [] h = omega (arith, h)
Numbered-length first next (r ∷ rs) (e, h) = omega (arith, Numbered-length (first + 1) next rs h)

collect_lem :
    (client taken since first next : ℕ) (rs : List Recorded)
    → Numbered first rs next
    → since < first
    → Answers client since (next - 1) rs (collect client taken rs (next - 1))
      × (first - 1 ≤ (collect client taken rs (next - 1)).1)
unfolding collect filter
collect_lem client taken since first next [] h k =
    ((refl, omega (arith, h), omega arith), omega (arith, h))
collect_lem client taken since first next (r ∷ rs) (e, h) k =
    let within : first < next = omega (arith, Numbered-length (first + 1) next rs h) in
    let goal = λ (p : List ChangeEvent × ℕ).
      Answers client since (next - 1) (r ∷ rs) p × (first - 1 ≤ p.1) in
    let skipped = collect_lem client taken since (first + 1) next rs h (omega (arith, k)) in
    let rest = collect_lem client (taken + 1) since (first + 1) next rs h (omega (arith, k)) in
    elim (Bool-cases (leb max_events_per_reply taken)) [
      | inl full ↦ subst goal (sym (rw full)) (full_reply within)
      | inr room ↦ elim (Bool-cases (is_own client r)) [
        | inl own ↦
            let dropped : owed client since (collect client taken rs (next - 1)).1 r ≡ false =
              ground arith in
            subst goal (sym (rw (room, own)))
              ((skipped.0.0 ∙ sym (rw dropped), skipped.0.1, skipped.0.2), omega (arith, skipped.1))
        | inr other ↦
            let kept : owed client since (collect client (taken + 1) rs (next - 1)).1 r ≡ true =
              ground (arith, e, k, rest.1) in
            subst goal (sym (rw (room, other))) (
              (ap (λ es. r.event ∷ es) rest.0.0 ∙ sym (rw kept), rest.0.1, rest.0.2),
              omega (arith, rest.1),
            )
      ]
    ]
  where
    full_reply :
        first < next
        → Answers client since (next - 1) (r ∷ rs) ([], r.seq - 1) × (first - 1 ≤ r.seq - 1)
    full_reply within =
        let before : owed client since (r.seq - 1) r ≡ false = ground (arith, e, k) in
        (
          (
            sym (
                rw (
                  before,
                  filter-later client since (r.seq - 1) (first + 1) next rs h (omega (arith, e)),
                )),
            omega (arith, e, k),
            omega (arith, e, within),
          ),
          omega (arith, e),
        )

Numbered-drop :
    (k first next : ℕ) (rs : List Recorded)
    → Numbered first rs next
    → first + k ≤ next
    → Numbered (first + k) (drop k rs) next
Numbered-drop zero first next rs h b = subst (λ n. Numbered n rs next) (omega arith) h
Numbered-drop (suc k) first next [] h b = absurd (omega (arith, h))
Numbered-drop (suc k) first next (r ∷ rs) (e, h) b =
    subst (λ n. Numbered n (drop k rs) next) (omega arith)
      (Numbered-drop k (first + 1) next rs h (omega (arith, b)))

filter-earlier :
    (client since cursor k first next : ℕ) (rs : List Recorded)
    → Numbered first rs next
    → first + k ≤ since + 1
    → filter (owed client since cursor) rs ≡ filter (owed client since cursor) (drop k rs)
unfolding filter
filter-earlier client since cursor zero first next rs h b = refl
filter-earlier client since cursor (suc k) first next [] h b = refl
filter-earlier client since cursor (suc k) first next (r ∷ rs) (e, h) b =
    ground (arith, filter-earlier client since cursor k (first + 1) next rs h)

oldest_first : (s : FeedState) (v : IsValid s) → oldest s ≡ v.first
unfolding oldest
oldest_first s v = first_of s.events v.numbered
  where
    first_of :
        (rs : List Recorded)
        → Numbered v.first rs s.next_seq
        → oldest (record s { events = rs }) ≡ v.first
    first_of [] h = sym h
    first_of (r ∷ rs) (e, h) = e

-- A reply holds, in order, every change of others that is numbered after `since` and up to the
-- cursor, and no other, and the cursor is between `since` and the last number; so the next reply,
-- from that cursor on, repeats and leaves out none. Nothing after `since` was dropped yet.
pub reply_lem :
    (s : FeedState) (client since : ℕ)
    → IsValid s
    → oldest s ≤ since + 1
    → since < s.next_seq
    → Answers client since (s.next_seq - 1) s.events (reply s client since)
unfolding reply
reply_lem s client since v low high =
    let at : oldest s ≡ v.first = oldest_first s v in
    let k = since + 1 - oldest s in
    let start : v.first + k ≡ since + 1 = omega (arith, at, low) in
    let numbered : Numbered (v.first + k) (drop k s.events) s.next_seq =
      Numbered-drop k v.first s.next_seq s.events v.numbered (omega (arith, start, high)) in
    let answers =
      collect_lem client 0 since (v.first + k) s.next_seq (drop k s.events) numbered
        (omega (arith, start)) in
    (
      answers.0.0
          ∙ ap (map event_of) (
              sym (
                filter-earlier client since _ k v.first s.next_seq s.events v.numbered
                  (omega (arith, start)))),
      answers.0.1,
      answers.0.2,
    )

collect_complete :
    (client taken cursor : ℕ) (rs : List Recorded)
    → taken + length (collect client taken rs cursor).0 < max_events_per_reply
    → (collect client taken rs cursor).1 ≡ cursor
unfolding collect
collect_complete client taken cursor [] h = refl
collect_complete client taken cursor (r ∷ rs) h =
    ground (
      arith,
      collect_complete client taken cursor rs,
      collect_complete client (taken + 1) cursor rs,
    )

-- A reply that is not full goes up to the last change.
pub reply_complete :
    (s : FeedState) (client since : ℕ)
    → length (reply s client since).0 < max_events_per_reply
    → (reply s client since).1 ≡ s.next_seq - 1
unfolding reply
reply_complete s client since h =
    collect_complete client 0 (s.next_seq - 1) (drop (since + 1 - oldest s) s.events)
      (omega (arith, h))
