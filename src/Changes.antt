-- ===== src/Changes.antt =====
-- src/changes.rs: the feed of changes below a served root, which the daemon's writes and the file
-- watcher fill and which clients poll. A mutex guards the state, so each critical section is one
-- step; the clock and the file's signature are arguments, read once for a step. The counter of
-- the events is taken not to overflow.
pub mod Valid
pub mod Reply
pub mod Wait
pub mod Guard
use mobfs.Base.{
  ℕ, ◌+◌, ◌-◌, Bool, true, false, ◌&&◌, ◌||◌, not, Option, none, some, List, [], ◌∷◌, ◌++◌, ltb,
  leb, ◌==◌, if◌then◌else◌, length, drop,
}
use mobfs.Base.Str.{Str}
use mobfs.Base.Order.{list_ord, nat_ord}
use mobfs.Base.Map.{Map, get, insert, remove, contains_key, retain}
use mobfs.Protocol.{ChangeEvent, ChangeKind}

abbrev pub max_events : ℕ
max_events = 50000

abbrev pub max_events_per_reply : ℕ
max_events_per_reply = 4096

-- ECHO_WINDOW, in milliseconds
abbrev pub echo_window : ℕ
echo_window = 10000

pub record WaitResult : Type 0 where
  pub epoch : ℕ
  pub cursor : ℕ
  pub events : List ChangeEvent
  pub reset : Bool
  pub live : Bool

pub record Recorded : Type 0 where
  pub seq : ℕ
  pub origin : ℕ
  pub event : ChangeEvent

-- the length, the time of modification and whether it is a directory
abbrev pub Signature : Type 0
Signature = Option (ℕ × Option ℕ × Bool)

pub record FeedState : Type 0 where
  pub next_seq : ℕ
  pub events : List Recorded
  pub recent : Map Str (ℕ × Signature)
  pub busy : Map Str ℕ

-- the state that `feed` creates for a new root
abbrev pub new_feed : FeedState
new_feed = record { next_seq = 1; events = []; recent = []; busy = [] }

abbrev pub counted : Option ℕ → ℕ
counted none = 0
counted (some n) = n

-- begin_write: the path is busy while the guard lives
unfoldable pub begin_write : FeedState → Str → FeedState
begin_write s path = record s { busy = insert s.busy path (counted (get s.busy path) + 1) }

abbrev pub released : Map Str ℕ → Str → Option ℕ → Map Str ℕ
released busy path none = busy
released busy path (some count) =
    if count - 1 == 0 then remove busy path else insert busy path (count - 1)

-- the drop of a WriteGuard
unfoldable pub drop_guard : FeedState → Str → FeedState
drop_guard s path = record s { busy = released s.busy path (get s.busy path) }

-- the derived `==` of signatures
abbrev stamp_eq : Option ℕ → Option ℕ → Bool
stamp_eq none none = true
stamp_eq (some a) (some b) = a == b
stamp_eq _ _ = false

abbrev bool_eq : Bool → Bool → Bool
bool_eq a b = if a then b else not b

unfoldable pub signature_eq : Signature → Signature → Bool
signature_eq none none = true
signature_eq (some (len, stamp, dir)) (some (len', stamp', dir')) =
    len == len' && (stamp_eq stamp stamp' && bool_eq dir dir')
signature_eq _ _ = false

-- seen.elapsed() < ECHO_WINDOW
abbrev pub is_fresh : ℕ → ℕ → Bool
is_fresh now seen = ltb (now - seen) echo_window

abbrev pub matches_recent : ℕ → Signature → Option (ℕ × Signature) → Bool
matches_recent now current none = false
matches_recent now current (some (seen, known)) = is_fresh now seen && signature_eq known current

-- whether the watcher reports what a write of the program's own has just done
unfoldable pub is_echo : FeedState → Str → ℕ → Signature → Bool
is_echo s path now current = matches_recent now current (get s.recent path)

abbrev pub remember_recent : Map Str (ℕ × Signature) → ℕ → Map Str (ℕ × Signature)
remember_recent recent now =
    if ltb 16384 (length recent) then retain (λ path seen. is_fresh now seen.0) recent else recent

-- the loop of `push` that drops the oldest events
unfoldable pub trim : List Recorded → List Recorded
trim [] = []
trim (r ∷ rs) = let rest = trim rs in if ltb max_events (length (r ∷ rs)) then rest else r ∷ rs

abbrev pub recorded : ℕ → ℕ → Str → ChangeKind → Recorded
recorded seq origin path kind = record {
  seq = seq;
  origin = origin;
  event = record { path = path; kind = kind };
}

unfoldable pub append_event : FeedState → ℕ → Str → ChangeKind → FeedState
unfolding trim
append_event s origin path kind = record s {
  next_seq = s.next_seq + 1;
  events = trim (s.events ++ (recorded s.next_seq origin path kind ∷ []));
}

-- the second critical section of `push`, after the signature was read
unfoldable pub push_locked : FeedState → ℕ → Str → ChangeKind → Bool → ℕ → Signature → FeedState
unfolding append_event is_echo
push_locked s origin path kind from_mobfs now current =
    if not from_mobfs && contains_key s.busy path
    then s
    else if from_mobfs
    then append_event
        (record s { recent = remember_recent (insert s.recent path (now, current)) now }) origin
        path kind
    else if is_echo s path now current
    then s
    else append_event s origin path kind

-- RootFeed::push. `later` is the state at its second lock, which other threads may have changed
-- since the first.
unfoldable pub push :
    FeedState → FeedState → ℕ → Str → ChangeKind → Bool → ℕ → Signature → FeedState
unfolding push_locked
push s later origin path kind from_mobfs now current =
    if not from_mobfs && contains_key s.busy path
    then later
    else push_locked later origin path kind from_mobfs now current

unfoldable pub oldest : FeedState → ℕ
oldest s = front s.events
  where
    front : List Recorded → ℕ
    front [] = s.next_seq
    front (r ∷ rs) = r.seq

-- a client's own changes are not sent back to it
abbrev pub is_own : ℕ → Recorded → Bool
is_own client r = not (client == 0) && r.origin == client

-- The loop over the recorded events, with the number collected so far: the events for the reply
-- and the cursor.
unfoldable pub collect : ℕ → ℕ → List Recorded → ℕ → List ChangeEvent × ℕ
collect client taken [] cursor = ([], cursor)
collect client taken (r ∷ rs) cursor =
    let skipped = collect client taken rs cursor in
    let rest = collect client (taken + 1) rs cursor in
    if leb max_events_per_reply taken
    then ([], r.seq - 1)
    else if is_own client r
    then skipped
    else (r.event ∷ rest.0, rest.1)

-- one turn of the loop of `wait`
unfoldable pub reply : FeedState → ℕ → ℕ → List ChangeEvent × ℕ
unfolding collect oldest
reply s client since = collect client 0 (drop (since + 1 - oldest s) s.events) (s.next_seq - 1)

-- whether the client has to start over
unfoldable pub needs_reset : FeedState → ℕ → ℕ → ℕ → Bool
unfolding oldest
needs_reset s epoch client_epoch since =
    not (client_epoch == epoch) || (leb s.next_seq since || ltb (since + 1) (oldest s))

-- What `wait` finds each time it holds the lock: the state, whether the deadline has passed, and
-- whether the watcher is live.
pub record Wakeup : Type 0 where
  pub state : FeedState
  pub expired : Bool
  pub is_live : Bool

abbrev pub is_empty {ℓ} : {A : Type ℓ} → List A → Bool
is_empty [] = true
is_empty (x ∷ xs) = false

abbrev pub answer : ℕ → Wakeup → List ChangeEvent × ℕ → WaitResult
answer epoch w (events, cursor) = record {
  epoch = epoch;
  cursor = cursor;
  events = events;
  reset = false;
  live = w.is_live;
}

-- the loop of `wait`; none while it still waits
unfoldable pub wait_loop : ℕ → List Wakeup → ℕ → ℕ → Option WaitResult
unfolding reply
wait_loop epoch [] client since = none
wait_loop epoch (w ∷ ws) client since =
    let (events, cursor) = reply w.state client since in
    let later = wait_loop epoch ws client since in
    if not (is_empty events) || w.expired then some (answer epoch w (events, cursor)) else later

abbrev pub at_end : ℕ → Wakeup → Bool → WaitResult
at_end epoch w reset = record {
  epoch = epoch;
  cursor = w.state.next_seq - 1;
  events = [];
  reset = reset;
  live = w.is_live;
}

-- RootFeed::wait after the watcher was started, for the feed's epoch
unfoldable pub wait : ℕ → Wakeup → List Wakeup → ℕ → ℕ → Option ℕ → Option WaitResult
unfolding needs_reset wait_loop
wait epoch w ws client client_epoch none = some (at_end epoch w false)
wait epoch w ws client client_epoch (some since) =
    if needs_reset w.state epoch client_epoch since
    then some (at_end epoch w true)
    else wait_loop epoch (w ∷ ws) client since
