-- ===== src/Events.antt =====
-- libpagekite/pkhooks.c: the slots of events, struct pke_events. A pointer to an event is its index. The
-- parts of event_code that the code takes apart are fields: the slot, PK_EV_IS_BLOCKING, PK_EV_PROCESSING
-- and the type. A call is one step; waiting for a condition is left out. pke_post_response() and
-- pke_cancel_all_events() do not take the lock, and are one step here all the same.
pub mod Oldest
pub mod Steps
pub mod Slots
use Prim.Native.Nat.{bit_and}
use libpagekite.Base.{
  ℕ, zero, suc, ◌+◌, ◌*◌, ◌%◌, ◌^◌, min, Bool, true, false, not, ◌&&◌, ◌||◌, List, [], ◌∷◌, map,
  Option, none, some, get_elem?, ltb, ◌==◌, if◌then◌else◌, Bytes, ℤ, pos,
}

pub record Event : Type 0 where
  pub posted : ℕ
  pub slot : ℕ
  pub is_blocking : Bool
  pub processing : Bool
  pub event_type : ℕ
  pub event_int : ℤ
  pub event_str : Option Bytes
  pub response_code : ℕ
  -- response_int and response_str are not NULL.
  pub wants_int : Bool
  pub wants_str : Bool

pub record Events : Type 0 where
  pub events : List Event
  pub event_mask : ℕ

abbrev pub pk_ev_all : ℕ
pk_ev_all = 0xff000000

abbrev pub pk_ev_shutdown : ℕ
pk_ev_shutdown = 0x3f000001

-- An event of PK_EV_NONE.
unfoldable pub no_event : ℕ → Event
no_event slot = record {
  posted = 0;
  slot = slot;
  is_blocking = false;
  processing = false;
  event_type = 0;
  event_int = pos 0;
  event_str = none;
  response_code = 0;
  wants_int = false;
  wants_str = false;
}

unfoldable pub slots_from : ℕ → ℕ → List Event
slots_from i zero = []
slots_from i (suc n) = no_event i ∷ slots_from (suc i) n

unfoldable pub pke_init_events : ℕ → Events
unfolding slots_from
pke_init_events threads = record {
  events = slots_from 0 (min (threads * 12 % 2 ^ 32) 256);
  event_mask = 0;
}

abbrev pub change_event : (Event → Event) → ℕ → List Event → List Event
change_event f i [] = []
change_event f zero (ev ∷ evs) = f ev ∷ evs
change_event f (suc i) (ev ∷ evs) = ev ∷ change_event f i evs

-- What is left of an event is its slot.
unfoldable pub freed : Event → Event
unfolding no_event
freed ev = no_event ev.slot

unfoldable pub pke_free_event : Events → ℕ → Events
unfolding freed
pke_free_event pke i = record pke { events = change_event freed i pke.events }

-- "(oldest == NULL) || (ev->posted < oldest->posted)"
abbrev pub newer : Option ℕ → ℕ → ℕ → Bool
newer none posted when = true
newer (some b) posted when = ltb posted when

-- The loop of _pke_get_oldest_event(), on the index i; `best` is `oldest`, and `when` is when it was posted.
unfoldable pub oldest_from : (Event → Bool) → Bool → ℕ → Option ℕ → ℕ → List Event → Option ℕ
oldest_from excluded nonzero i best when [] = best
oldest_from excluded nonzero i best when (ev ∷ evs) =
    let better =
      not (excluded ev) && (newer best ev.posted when && (not nonzero || ltb 0 ev.posted)) in
    let rest =
      oldest_from excluded nonzero (suc i) (if better then some i else best)
        (if better then ev.posted else when) evs in
    if better && ev.posted == 0 then some i else rest

-- The event at index 0 is passed over.
unfoldable pub get_oldest_event : (Event → Bool) → Bool → List Event → Option ℕ
unfolding oldest_from
get_oldest_event excluded nonzero [] = none
get_oldest_event excluded nonzero (ev ∷ evs) = oldest_from excluded nonzero 1 none 0 evs

-- excl_id = PK_EV_IS_BLOCKING | PK_EV_PROCESSING
abbrev pub is_taken : Event → Bool
is_taken ev = ev.is_blocking || ev.processing

abbrev pub is_processing : Event → Bool
is_processing ev = ev.processing

-- An event that nobody asked for.
unfoldable pub is_masked : ℕ → ℕ → Bool
is_masked event_mask event_type =
    not (event_mask == pk_ev_all) && bit_and event_type event_mask == 0

-- What a caller posts.
pub record Posting : Type 0 where
  pub now : ℕ
  pub blocking : Bool
  pub kind : ℕ
  pub int_data : ℤ
  pub str_data : Option Bytes
  pub int_reply : Bool
  pub str_reply : Bool

unfoldable pub posted_event : Posting → Event → Event
posted_event p ev = record {
  posted = p.now;
  slot = ev.slot;
  is_blocking = p.blocking;
  processing = false;
  event_type = p.kind;
  event_int = p.int_data;
  event_str = p.str_data;
  response_code = 0;
  wants_int = p.int_reply;
  wants_str = p.str_reply;
}

abbrev pub or_first : Option ℕ → ℕ
or_first none = 1
or_first (some i) = i

-- pke_post_event(), and pke_post_blocking_event() as far as its wait for the response.
unfoldable pub pke_post_event : Events → Posting → Option ℕ × Events
unfolding get_oldest_event is_masked posted_event
pke_post_event pke p =
    let i = or_first (get_oldest_event is_taken false pke.events) in
    if is_masked pke.event_mask p.kind
    then (none, pke)
    else (some i, record pke { events = change_event (posted_event p) i pke.events })

-- A search of pke_await_event(). With `none` it waits, and returns the event at index 0 at the deadline.
unfoldable pub pke_await_event : Events → Option ℕ × Events
unfolding get_oldest_event
pke_await_event pke = elim (get_oldest_event is_processing true pke.events) [
  | none ↦ (none, pke)
  | some i ↦ (
    some i,
    record pke { events = change_event (λ ev. record ev { processing = true }) i pke.events },
  )
]

-- What pke_post_response() makes of an event.
unfoldable pub responded : ℕ → Event → Event
responded rcode ev =
    if ev.event_type == pk_ev_shutdown
    then ev
    else if not ev.is_blocking
    then (record ev { posted = 0; processing = false })
    else (record ev { response_code = rcode })

-- What the caller that waits is given: a value for *response_int, and one for *response_str.
pub record Reply : Type 0 where
  pub int_value : Option ℤ
  pub str_value : Option (Option Bytes)

unfoldable pub reply_to : ℤ → Option Bytes → Event → Reply
reply_to response_int response_str ev =
    if ev.event_type == pk_ev_shutdown || not ev.is_blocking
    then (record { int_value = none; str_value = none })
    else (record {
      int_value = if ev.wants_int then some response_int else none;
      str_value = if ev.wants_str then some response_str else none;
    })

-- The code of the event is PK_EV_NONE.
unfoldable pub is_no_event : Event → Bool
is_no_event ev = ev.slot == 0 && (not (is_taken ev) && ev.event_type == 0)

-- `none` is a failed assertion, or an index out of range.
unfoldable pub pke_post_response :
    Events → ℕ → ℕ → ℤ → Option Bytes → Option (Option Reply × Events)
unfolding responded reply_to is_no_event
pke_post_response pke i rcode response_int response_str = elim (get_elem? pke.events i) [
  | none ↦ none
  | some ev ↦
      if is_no_event ev
      then some (none, pke)
      else if not ev.processing
      then none
      else some (
        some (reply_to response_int response_str ev),
        record pke { events = change_event (responded rcode) i pke.events },
      )
]

unfoldable pub cancelled : Event → Event
unfolding responded
cancelled ev =
    if ltb 0 ev.posted && not ev.processing
    then responded 0 (record ev { processing = true })
    else ev

abbrev pub behind_first : (Event → Event) → List Event → List Event
behind_first f [] = []
behind_first f (ev ∷ evs) = ev ∷ map f evs

unfoldable pub pke_cancel_all_events : Events → Events
unfolding cancelled
pke_cancel_all_events pke = record pke { events = behind_first cancelled pke.events }
