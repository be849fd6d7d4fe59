-- ===== src/Changes/Valid.antt =====
-- src/changes.rs: the events of a feed are numbered without gaps up to the last one.
use mobfs.Base.{
  ℕ, ◌+◌, ◌≤◌, ◌≡◌, refl, inl, inr, Bool, true, false, List, [], ◌∷◌, ◌++◌, arith, Bool-cases,
  length, ltb,
}
use mobfs.Base.Str.{Str}
use mobfs.Base.Order.{list_ord, nat_ord}
use mobfs.Base.Map.{contains_key}
use mobfs.Protocol.{ChangeKind}
use mobfs.Changes.{
  FeedState, Recorded, Signature, append_event, is_echo, max_events, push, push_locked, recorded,
  trim,
}

-- the numbers run from one to before another
abbrev pub Numbered : ℕ → List Recorded → ℕ → Type 0
Numbered first [] next = first ≡ next
Numbered first (r ∷ rs) next = (r.seq ≡ first) × Numbered (first + 1) rs next

pub record IsValid (s : FeedState) : Type 0 where
  pub first : ℕ
  pub positive : 1 ≤ first
  pub numbered : Numbered first s.events s.next_seq
  pub bounded : length s.events ≤ max_events

pub Numbered-append :
    (first next : ℕ) (rs : List Recorded) (r : Recorded)
    → Numbered first rs next
    → r.seq ≡ next
    → Numbered first (rs ++ (r ∷ [])) (next + 1)
Numbered-append first next [] r h e = (cc, omega arith)
Numbered-append first next (q ∷ rs) r (a, h) e = (a, Numbered-append (first + 1) next rs r h e)

Numbered-trim :
    (first next : ℕ) (rs : List Recorded)
    → Numbered first rs next
    → (start : ℕ) × (first ≤ start) × Numbered start (trim rs) next
unfolding trim
Numbered-trim first next [] h = (first, omega arith, h)
Numbered-trim first next (r ∷ rs) (a, h) = elim (Bool-cases (ltb max_events (length (r ∷ rs)))) [
  | inl b ↦ let (start, le, n) = Numbered-trim (first + 1) next rs h in (start, omega arith, rw b n)
  | inr b ↦ (first, omega arith, rw b (a, h))
]

trim_bounded : (rs : List Recorded) → length (trim rs) ≤ max_events
unfolding trim
trim_bounded [] = omega arith
trim_bounded (r ∷ rs) = ground (arith, trim_bounded rs)

pub append_event-IsValid :
    (s : FeedState) (origin : ℕ) (path : Str) (kind : ChangeKind)
    → IsValid s
    → IsValid (append_event s origin path kind)
unfolding append_event
append_event-IsValid s origin path kind v =
    let (start, le, n) =
      Numbered-trim v.first (s.next_seq + 1) _
        (Numbered-append v.first s.next_seq s.events _ v.numbered refl) in
    record {
      first = start;
      positive = omega (arith, v.positive);
      numbered = n;
      bounded = trim_bounded (s.events ++ (recorded s.next_seq origin path kind ∷ []));
    }

push_locked-IsValid :
    (s : FeedState) (origin : ℕ) (path : Str) (kind : ChangeKind) (from_mobfs : Bool) (now : ℕ)
    (current : Signature)
    → IsValid s
    → IsValid (push_locked s origin path kind from_mobfs now current)
unfolding push_locked
push_locked-IsValid s origin path kind true now current v =
    append_event-IsValid _ origin path kind (record {
      first = v.first;
      positive = v.positive;
      numbered = v.numbered;
      bounded = v.bounded;
    })
push_locked-IsValid s origin path kind false now current v =
    elim (Bool-cases (contains_key s.busy path)) [
      | inl b ↦ rw b v
      | inr b ↦ elim (Bool-cases (is_echo s path now current)) [
        | inl e ↦ rw (b, e) v
        | inr e ↦ rw (b, e) (append_event-IsValid s origin path kind v)
      ]
    ]

-- Whatever is pushed, the events stay numbered without gaps up to the last one, and no more than
-- the bound are kept.
pub push-IsValid :
    (s later : FeedState) (origin : ℕ) (path : Str) (kind : ChangeKind) (from_mobfs : Bool)
    (now : ℕ) (current : Signature)
    → IsValid later
    → IsValid (push s later origin path kind from_mobfs now current)
unfolding push
push-IsValid s later origin path kind true now current v =
    push_locked-IsValid later origin path kind true now current v
push-IsValid s later origin path kind false now current v =
    elim (Bool-cases (contains_key s.busy path)) [
      | inl b ↦ rw b v
      | inr b ↦ rw b (push_locked-IsValid later origin path kind false now current v)
    ]
