-- ===== src/Tests/Changes.antt =====
-- The change feed: the unit test of src/changes.rs, and the theorems at its events.
use mobfs.Base.{
  ◌≡◌, ◌≢◌, ◌+◌, ◌-◌, ◌≤◌, ◌<◌, refl, ◌⊎◌, true, false, none, some, [], ◌∷◌, arith, length,
}
use mobfs.Base.Str.{Str, codes}
use mobfs.Base.Order.{list_ord, nat_ord, list_cmp}
use mobfs.Base.Map.{get, insert, contains_key}
use mobfs.Protocol.{write, replaced}
use mobfs.Changes.{
  FeedState, Wakeup, begin_write, drop_guard, max_events_per_reply, new_feed, oldest, push,
  push_locked, reply, trim, wait, append_event, collect, wait_loop, needs_reset,
}
use mobfs.Changes.Valid.{IsValid, push-IsValid}
use mobfs.Changes.Reply.{Answers, reply_lem, reply_complete}
use mobfs.Changes.Wait.{FromReply, wait_lem, wait_returns}
use mobfs.Changes.Guard.{push-begin_write, busy-drop_guard, push_echo}

abbrev clip : Str
clip = codes "a.mov"

abbrev one : FeedState
one = push new_feed new_feed 7 clip (write 0 10) true 0 none

abbrev two : FeedState
two = push one one 7 clip (write 10 5) true 0 none

abbrev three : FeedState
three = push two two 9 (codes "b.txt") replaced true 0 none

new_feed-IsValid : IsValid new_feed
new_feed-IsValid = record {
  first = 1;
  positive = omega arith;
  numbered = refl;
  bounded = omega arith;
}

three-IsValid : IsValid three
three-IsValid = push-IsValid two two 9 (codes "b.txt") replaced true 0 none (
    push-IsValid one one 7 clip (write 10 5) true 0 none
      (push-IsValid new_feed new_feed 7 clip (write 0 10) true 0 none new_feed-IsValid))

push-IsValid_example : IsValid one
push-IsValid_example =
    push-IsValid new_feed new_feed 7 clip (write 0 10) true 0 none new_feed-IsValid

-- a client does not see its own event, and the cursor is past it
feed_filters_own_events : (length (reply three 9 0).0 ≡ 2) × ((reply three 9 0).1 ≡ 3)
unfolding reply push append_event trim get insert contains_key oldest collect list_cmp
feed_filters_own_events = (refl, refl)

abbrev woken : Wakeup
woken = record { state = three; expired = true; is_live = false }

-- another epoch is the order to start over
feed_detects_resets :
    wait 5 woken [] 9 7 (some 0)
    ≡ some (record { epoch = 5; cursor = 3; events = []; reset = true; live = false })
unfolding wait needs_reset push append_event trim get insert contains_key list_cmp oldest
feed_detects_resets = refl

three_low : oldest three ≤ 0 + 1
unfolding oldest push append_event trim get insert contains_key list_cmp
three_low = omega arith

three_high : 0 < three.next_seq
unfolding push append_event trim
three_high = omega arith

reply_lem_example : Answers 9 0 (three.next_seq - 1) three.events (reply three 9 0)
reply_lem_example = reply_lem three 9 0 three-IsValid three_low three_high

three_short : length (reply three 9 0).0 < max_events_per_reply
three_short = omega (arith, feed_filters_own_events.0)

reply_complete_instance : (reply three 9 0).1 ≡ three.next_seq - 1
reply_complete_instance = reply_complete three 9 0 three_short

wait_lem_instance :
    (false ≡ true)
    ⊎ FromReply 9 0
        (record {
          epoch = 5;
          cursor = (reply three 9 0).1;
          events = (reply three 9 0).0;
          reset = false;
          live = false;
        })
        (woken ∷ [])
unfolding wait needs_reset wait_loop push append_event trim get insert contains_key list_cmp oldest
    reply collect
wait_lem_instance = wait_lem 5 9 5 0 woken [] ((three-IsValid, three_low, three_high), tt) refl

wait_returns_instance : wait 5 woken [] 9 5 (some 0) ≢ none
wait_returns_instance = wait_returns 5 9 5 (some 0) woken [] refl

push-begin_write_instance :
    push three (begin_write three clip) 0 clip replaced false 1 none ≡ begin_write three clip
push-begin_write_instance = push-begin_write three three clip replaced 1 none

busy-drop_guard_instance :
    get (drop_guard (begin_write new_feed clip) clip).busy clip ≡ get new_feed.busy clip
busy-drop_guard_instance = busy-drop_guard new_feed clip clip (λ e. unfold get in cc)

push_echo_instance :
    push
      (push_locked one 7 clip replaced true 0 (some (3, some 2, false)))
      (push_locked one 7 clip replaced true 0 (some (3, some 2, false)))
      0
      clip
      replaced
      false
      9999
      (some (3, some 2, false))
    ≡ push_locked one 7 clip replaced true 0 (some (3, some 2, false))
push_echo_instance =
    push_echo one 7 clip replaced replaced 0 9999 (some (3, some 2, false)) (omega arith)
      (omega arith)
