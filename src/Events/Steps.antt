-- ===== src/Events/Steps.antt =====
-- How the threads of the library and of the application change the slots of events, in any order
-- (libpagekite/pkhooks.c). A call is a step, also where the code does not take the lock.
use libpagekite.Base.{ℕ, ◌<◌, ◌*◌, ◌≡◌, Option, some, Bytes, ℤ}
use libpagekite.Events.{
  Events, Posting, Reply, pke_init_events, pke_free_event, pke_post_event, pke_await_event,
  pke_post_response, pke_cancel_all_events,
}

-- One call, from a state to the state behind it.
pub data Step (pke : Events) : Events → Type 0 where
  -- pagekite_set_event_mask()
  set_mask : (event_mask : ℕ) → Step pke (record pke { event_mask = event_mask })
  post : (p : Posting) → 0 < p.now → Step pke (pke_post_event pke p).1
  await : Step pke (pke_await_event pke).1
  respond :
      (i rcode : ℕ) (response_int : ℤ) (response_str : Option Bytes) (reply : Option Reply)
      (pke' : Events)
      → pke_post_response pke i rcode response_int response_str ≡ some (reply, pke')
      → Step pke pke'
  free : (i : ℕ) → Step pke (pke_free_event pke i)
  cancel : Step pke (pke_cancel_all_events pke)

-- The states that the calls lead to. There is a thread, and the number of slots is no wrapped one.
pub data Reachable : Events → Type 0 where
  start :
      (threads : ℕ) → 0 < threads → threads * 12 < 0x100000000 → Reachable (pke_init_events threads)
  next : (pke pke' : Events) → Reachable pke → Step pke pke' → Reachable pke'
