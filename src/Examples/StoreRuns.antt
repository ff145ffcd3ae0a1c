-- ===== src/Examples/StoreRuns.antt =====
-- Runs of internal/store: two events of two cameras.
use curtilage.Prelude.{
  ◌+◌, ◌≡◌, ◌≢◌, ◌≤◌, ◌<◌, refl, false, [], ◌∷◌, ◌++◌, none, some, Text, codes, length, keep_if,
  not, arith, if◌then◌else◌, ◌==◌, eq_text, ◌%◌, ◌^◌, List, ltb, take, drop,
}
use curtilage.Policy.{Event, Change, Op, no_event}
use curtilage.Store.{
  Store, Subscriber, Revision, new, apply, get_event, history, max_history, watch_buffer,
}
use curtilage.Prelude.Search.{search}
use curtilage.Store.Order.{Cursor, older}
use curtilage.Store.Index.{IsIndexed, new-IsIndexed, apply-IsIndexed, get_event-apply}
use curtilage.Store.Pages.{list, left, events}
use curtilage.Store.Walk.{list-list, walk, walk-left}
use curtilage.Store.Retention.{prune, prune-ordered, is_expired}
use curtilage.Store.Revisions.{apply-history}
use curtilage.Store.Watch.{replay, replay-backlog, backlog}
use curtilage.Store.Delivery.{said, took, deliver, Delivered, deliver-Delivered}

abbrev walker : Event
walker = record no_event { id = codes "A"; camera = codes "porch"; started_at = 10 }

abbrev parcel : Event
parcel = record no_event { id = codes "B"; camera = codes "drive"; started_at = 30; ended_at = 31 }

abbrev began : Change
began = record { op = Op.started; event = walker }

abbrev finished : Change
finished = record { op = Op.ended; event = parcel }

abbrev one_event : Store
one_event = apply 20 began (new 100)

abbrev two_events : Store
two_events = apply 40 finished one_event

one_event-IsIndexed : IsIndexed one_event
one_event-IsIndexed = apply-IsIndexed 20 began (new 100) (new-IsIndexed 100)

two_events-IsIndexed : IsIndexed two_events
two_events-IsIndexed = apply-IsIndexed 40 finished one_event one_event-IsIndexed

apply-IsIndexed_example : IsIndexed (apply 40 finished one_event)
apply-IsIndexed_example = apply-IsIndexed 40 finished one_event one_event-IsIndexed

get_event-apply_example :
    get_event (codes "A") (apply 40 finished one_event)
    ≡ (if finished.event.id == codes "A" then some parcel else get_event (codes "A") one_event)
get_event-apply_example = get_event-apply (codes "A") 40 finished one_event

abbrev past_parcel : Cursor
past_parcel = record { started_at = 30; id = codes "B" }

first_page : list [] 1 none two_events ≡ (parcel ∷ [], some past_parcel)
unfolding list apply new search older
first_page = refl

first_page_token : (list [] 1 none two_events).1 ≡ some past_parcel
unfolding list apply new search older
first_page_token = refl

list-list_example :
    (list [] 1 none two_events).0 ++ (list [] 3 (some past_parcel) two_events).0
    ≡ (list [] (1 + 3) none two_events).0
list-list_example =
    list-list [] 1 3 none two_events past_parcel two_events-IsIndexed first_page_token

few_left : length (left [] none two_events) < 3
unfolding list apply new search older
few_left = omega arith

walk-left_example : walk 3 [] 1 none two_events ≡ some (events (left [] none two_events))
walk-left_example = walk-left 3 [] 1 none two_events two_events-IsIndexed (omega arith) few_left

prune-ordered_example :
    IsIndexed (prune 120 two_events).0
    × ((prune 120 two_events).0.ordered
        ≡ keep_if (λ e. not (is_expired two_events.retention 120 e)) two_events.ordered)
    × ((prune 120 two_events).1 + length (prune 120 two_events).0.ordered
        ≡ length two_events.ordered)
    × ((prune 120 two_events).0.pruned ≡ (two_events.pruned + (prune 120 two_events).1) % 2 ^ 64)
prune-ordered_example = prune-ordered 120 two_events two_events-IsIndexed

-- The walker started before the window at 120 with a retention of 100.
prune_runs : (prune 120 two_events).1 ≡ 1
unfolding prune apply new search older
prune_runs = refl

short_history : length (history (codes "A") one_event) ≤ max_history
unfolding history apply new
short_history = omega arith

apply-history_example :
    let r : Revision = record { at = 40; op = Op.started; event = walker } in
    let old : List Revision = history (codes "A") one_event in
    (history (codes "A") (apply 40 began one_event) ≡ (
      if ltb (length old) max_history then old ++ r ∷ [] else take 1 old ++ (drop 2 old ++ r ∷ [])))
    × (length (history (codes "A") (apply 40 began one_event)) ≤ max_history)
    × ((id : Text) → codes "A" ≢ id → history id (apply 40 began one_event) ≡ history id one_event)
apply-history_example = apply-history 40 began one_event short_history

abbrev watcher : Subscriber
watcher = record { id = 7; queue = []; want = none; dead = false }

short_backlog : length (backlog none 5 two_events.ordered) ≤ watch_buffer
unfolding apply new search older
short_backlog = omega arith

replay-backlog_example :
    replay 5 two_events.ordered watcher
    ≡ record watcher { queue = backlog none 5 two_events.ordered }
replay-backlog_example = replay-backlog 5 two_events.ordered watcher refl refl short_backlog

deliver-Delivered_example :
    Delivered (finished ∷ began ∷ []) (deliver (said finished ∷ took ∷ said began ∷ []) watcher [])
deliver-Delivered_example =
    deliver-Delivered (said finished ∷ took ∷ said began ∷ []) watcher [] (omega arith) refl
