-- ===== src/Tests/Events.antt =====
-- Examples for the slots of events (libpagekite/pkhooks.c).
use libpagekite.Base.{
  ℕ, arith, ◌≡◌, refl, true, false, [], ◌∷◌, some, none, Option, codes, pos, get_elem?, map,
}
use libpagekite.Events.{
  Event, Events, Posting, pk_ev_all, pk_ev_shutdown, no_event, pke_init_events, is_masked,
  posted_event, pke_post_event, pke_await_event, pke_post_response, Reply,
}
use libpagekite.Events.Oldest.{IsAwaited, pke_await_event-IsAwaited, pke_post_event-keeps}
use libpagekite.Events.Steps.{set_mask, post, start, next}
use libpagekite.Events.Slots.{WellFormed, Reachable-WellFormed}

abbrev logging : Posting
logging = record {
  now = 100;
  blocking = false;
  kind = 0x01000002;
  int_data = pos 5;
  str_data = some (codes "hello");
  int_reply = false;
  str_reply = false;
}

abbrev request : Posting
request = record logging { now = 50; blocking = true; kind = 0x20000005; int_reply = true }

abbrev asked : Events
asked = record (pke_init_events 1) { event_mask = pk_ev_all }

-- An event that blocks its caller, in the slot 1, and an older one that is processed.
abbrev busy : Events
busy = record {
  events =
      no_event 0
      ∷ posted_event request (no_event 1)
      ∷ (record (posted_event logging (no_event 2)) { processing = true })
      ∷ no_event 3
      ∷ [];
  event_mask = pk_ev_all;
}

Reachable-WellFormed_example : WellFormed (pke_post_event asked logging).1
Reachable-WellFormed_example = Reachable-WellFormed (pke_post_event asked logging).1 (
    next asked (pke_post_event asked logging).1
      (next (pke_init_events 1) asked (start 1 (omega arith) (omega arith)) (set_mask pk_ev_all))
      (post logging (omega arith)))

pke_await_event-IsAwaited_example : IsAwaited busy (pke_await_event busy)
pke_await_event-IsAwaited_example = pke_await_event-IsAwaited busy

pke_post_event-keeps_example :
    get_elem? (pke_post_event busy logging).1.events 1 ≡ some (posted_event request (no_event 1))
pke_post_event-keeps_example =
    pke_post_event-keeps busy logging 1 (posted_event request (no_event 1))
      (unfold posted_event no_event in refl) refl (unfold posted_event in refl)

-- The event is found, and the caller is given the response.
taken_test :
    ((pke_await_event busy).0 ≡ some 1)
    × (map (λ (u : Event). u.posted) (pke_await_event busy).1.events ≡ 0 ∷ 50 ∷ 100 ∷ 0 ∷ [])
unfolding pke_await_event posted_event no_event
taken_test = (refl, refl)

-- An event of the type PK_EV_SHUTDOWN is not found again when it was responded to.
abbrev stopping : Events
stopping = record asked {
  events =
      no_event 0
      ∷ (record (posted_event (record logging { kind = pk_ev_shutdown }) (no_event 1)) {
        processing = true;
      })
      ∷ no_event 2
      ∷ [];
}

abbrev found_next : Option (Option Reply × Events) → Option ℕ
found_next none = some 0
found_next (some (reply, pke)) = (pke_await_event pke).0

shutdown_test : found_next (pke_post_response stopping 1 0 (pos 0) none) ≡ none
unfolding pke_post_response pke_await_event posted_event no_event
shutdown_test = refl

-- If all slots are taken, the event in the slot 1 is lost, though its caller waits.
abbrev full : Events
full = record asked { events = no_event 0 ∷ posted_event request (no_event 1) ∷ [] }

full_test :
    map (λ (u : Event). u.event_type) (pke_post_event full logging).1.events ≡ 0 ∷ 0x01000002 ∷ []
unfolding pke_post_event is_masked posted_event no_event
full_test = refl
