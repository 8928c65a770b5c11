-- ===== src/Events/Slots.antt =====
-- What holds of the slots of events in every state (libpagekite/pkhooks.c).
use libpagekite.Base.{
  ℕ, zero, suc, ◌+◌, ◌*◌, ◌%◌, ◌^◌, min, ◌≤◌, ◌<◌, ◌≡◌, refl, sym, ap, ◌∙◌, inl, inr, true, false,
  not, ◌&&◌, List, [], ◌∷◌, map, Option, none, some, get_elem?, length, arith, ltb, ◌==◌,
  if◌then◌else◌, Bool-cases, some_inj, subst, Bytes, ℤ,
}
use libpagekite.Events.{
  Event, Events, Posting, Reply, no_event, slots_from, pke_init_events, change_event, freed,
  pke_free_event, posted_event, is_masked, or_first, get_oldest_event, is_taken, pke_post_event,
  responded, reply_to, is_no_event, pke_post_response, cancelled, behind_first,
  pke_cancel_all_events,
}
use libpagekite.Events.Oldest.{
  IsAwaited, waits, takes, pke_await_event-IsAwaited, get_oldest_event-behind, get_elem?-drop,
  waiting-posted,
}
use libpagekite.Events.Steps.{
  Step, Reachable, set_mask, post, await, respond, free, cancel, start, next,
}

-- The event in the slot `i`: its code names the slot; it has a time if it blocks its caller or is processed;
-- and the slot 0 is never used.
pub record Sound (i : ℕ) (ev : Event) : Type 0 where
  pub numbered : ev.slot ≡ i
  pub timed : is_taken ev ≡ true → 0 < ev.posted
  pub reserved : i ≡ 0 → ev.posted ≡ 0

-- All the events, from a slot on.
abbrev pub SoundFrom : ℕ → List Event → Type 0
SoundFrom i [] = Unit
SoundFrom i (ev ∷ evs) = Sound i ev × SoundFrom (suc i) evs

pub record WellFormed (pke : Events) : Type 0 where
  pub sound : SoundFrom 0 pke.events
  pub enough : 2 ≤ length pke.events

-- A change that keeps each event sound, at the slots where it is made.
change_event-SoundFrom :
    (f : Event → Event) (i k : ℕ) (evs : List Event)
    → ((ev : Event) → get_elem? evs k ≡ some ev → Sound (i + k) ev → Sound (i + k) (f ev))
    → SoundFrom i evs
    → SoundFrom i (change_event f k evs)
change_event-SoundFrom f i k [] keeps h = h
change_event-SoundFrom f i zero (ev ∷ evs) keeps (s, h) =
    let e : i + 0 ≡ i = omega arith in
    (subst (λ n. Sound n ev → Sound n (f ev)) e (keeps ev refl) s, h)
change_event-SoundFrom f i (suc k) (ev ∷ evs) keeps (s, h) =
    let e : i + suc k ≡ suc i + k = omega arith in
    (
      s,
      change_event-SoundFrom f (suc i) k evs
          (subst (λ n. (u : Event) → get_elem? evs k ≡ some u → Sound n u → Sound n (f u)) e keeps)
          h,
    )

map-SoundFrom :
    (f : Event → Event) (i : ℕ) (evs : List Event)
    → ((n : ℕ) (ev : Event) → Sound (suc n) ev → Sound (suc n) (f ev))
    → SoundFrom (suc i) evs
    → SoundFrom (suc i) (map f evs)
map-SoundFrom f i [] keeps h = h
map-SoundFrom f i (ev ∷ evs) keeps (s, h) = (keeps i ev s, map-SoundFrom f (suc i) evs keeps h)

length-change_event :
    (f : Event → Event) (k : ℕ) (evs : List Event) → length (change_event f k evs) ≡ length evs
length-change_event f k [] = refl
length-change_event f zero (ev ∷ evs) = refl
length-change_event f (suc k) (ev ∷ evs) = ap suc (length-change_event f k evs)

length-behind_first :
    (f : Event → Event) (evs : List Event) → length (behind_first f evs) ≡ length evs
length-behind_first f [] = refl
length-behind_first f (ev ∷ evs) = ap suc (length-map evs)
  where
    length-map : (us : List Event) → length (map f us) ≡ length us
    length-map [] = refl
    length-map (u ∷ us) = ap suc (length-map us)

-- The single events.
freed-Sound : (i : ℕ) (ev : Event) → Sound i ev → Sound i (freed ev)
unfolding freed no_event
freed-Sound i ev s = record { numbered = s.numbered; timed = λ t. cc; reserved = λ _. refl }

posted-Sound :
    (p : Posting) (i : ℕ) (ev : Event)
    → 0 < p.now
    → 0 < i
    → Sound i ev
    → Sound i (posted_event p ev)
unfolding posted_event
posted-Sound p i ev now lt s = record {
  numbered = s.numbered;
  timed = λ _. now;
  reserved = λ e. absurd (omega arith);
}

processing-Sound :
    (i : ℕ) (ev : Event) → 0 < ev.posted → Sound i ev → Sound i (record ev { processing = true })
processing-Sound i ev lt s = record {
  numbered = s.numbered;
  timed = λ _. lt;
  reserved = s.reserved;
}

responded-Sound : (rcode i : ℕ) (ev : Event) → Sound i ev → Sound i (responded rcode ev)
unfolding responded
responded-Sound rcode i ev s = elim (Bool-cases (ev.event_type == 0x3f000001)) [
  | inl shutdown ↦ rw shutdown s
  | inr other ↦ elim (Bool-cases ev.is_blocking) [
    | inl blocks ↦
        rw (other, blocks)
          (record {
            numbered = s.numbered;
            timed = λ t. s.timed (rw blocks refl);
            reserved = s.reserved;
          })
    | inr plain ↦
        rw (other, plain) (record { numbered = s.numbered; timed = λ t. cc; reserved = λ _. refl })
  ]
]

cancelled-Sound : (i : ℕ) (ev : Event) → Sound i ev → Sound i (cancelled ev)
unfolding cancelled
cancelled-Sound i ev s = elim (Bool-cases (ltb 0 ev.posted && not ev.processing)) [
  | inl pending ↦ rw pending (responded-Sound 0 i _ (processing-Sound i ev (ground arith) s))
  | inr done ↦ rw done s
]

slots-SoundFrom : (n i : ℕ) → SoundFrom i (slots_from i n)
unfolding slots_from no_event
slots-SoundFrom zero i = tt
slots-SoundFrom (suc n) i =
    (record { numbered = refl; timed = λ t. cc; reserved = λ _. refl }, slots-SoundFrom n (suc i))

length-slots : (n i : ℕ) → length (slots_from i n) ≡ n
unfolding slots_from
length-slots zero i = refl
length-slots (suc n) i = ap suc (length-slots n (suc i))

-- The change of one slot.
change-WellFormed :
    (pke : Events) (f : Event → Event) (k : ℕ)
    → ((ev : Event) → get_elem? pke.events k ≡ some ev → Sound k ev → Sound k (f ev))
    → WellFormed pke
    → WellFormed (record pke { events = change_event f k pke.events })
change-WellFormed pke f k keeps w =
    let e : k ≡ 0 + k = omega arith in
    record {
      sound =
          change_event-SoundFrom f 0 k pke.events
            (subst (λ n. (u : Event) → get_elem? pke.events k ≡ some u → Sound n u → Sound n (f u))
              e keeps)
            w.sound;
      enough = rw (length-change_event f k pke.events) w.enough;
    }

pke_post_event-WellFormed :
    (pke : Events) (p : Posting) → 0 < p.now → WellFormed pke → WellFormed (pke_post_event pke p).1
unfolding pke_post_event
pke_post_event-WellFormed pke p now w = elim (Bool-cases (is_masked pke.event_mask p.kind)) [
  | inl masked ↦ rw masked w
  | inr asked ↦ rw asked (
      change-WellFormed pke (posted_event p) (or_first (get_oldest_event is_taken false pke.events))
        (λ ev at s. posted-Sound p _ ev now (get_oldest_event-behind is_taken false pke.events) s)
        w)
]

IsAwaited-WellFormed :
    (pke : Events) {r : Option ℕ × Events} → IsAwaited pke r → WellFormed pke → WellFormed r.1
IsAwaited-WellFormed pke (waits nobody) w = w
IsAwaited-WellFormed pke (takes k f) w =
    change-WellFormed pke (λ ev. record ev { processing = true }) (1 + k)
      (λ ev at s.
        processing-Sound (1 + k) ev
          (subst (λ u. 0 < u.posted) (some_inj (sym (get_elem?-drop pke.events k f.place) ∙ at))
            (waiting-posted f.event f.eligible))
          s)
      w

-- A response, if no assertion fails.
abbrev KeepsSlots : Option (Option Reply × Events) → Type 0
KeepsSlots none = Unit
KeepsSlots (some (reply, pke')) = WellFormed pke'

pke_post_response-KeepsSlots :
    (pke : Events) (i rcode : ℕ) (response_int : ℤ) (response_str : Option Bytes)
    → WellFormed pke
    → KeepsSlots (pke_post_response pke i rcode response_int response_str)
unfolding pke_post_response
pke_post_response-KeepsSlots pke i rcode response_int response_str w =
    by_event (get_elem? pke.events i)
  where
    by_event :
        (found : Option Event)
        → KeepsSlots (elim found [
          | none ↦ none
          | some ev ↦
              if is_no_event ev
              then some (none, pke)
              else if not ev.processing
              then none
              else some (
                some (reply_to response_int response_str ev),
                record pke { events = change_event (responded rcode) i pke.events },
              )
        ])
    by_event none = tt
    by_event (some ev) = elim (Bool-cases (is_no_event ev)) [
      | inl no_one ↦ rw no_one w
      | inr some_one ↦ elim (Bool-cases ev.processing) [
        | inl busy ↦
            rw (some_one, busy)
              (change-WellFormed pke (responded rcode) i (λ u at s. responded-Sound rcode i u s) w)
        | inr idle ↦ rw (some_one, idle) tt
      ]
    ]

pke_cancel_all_events-WellFormed :
    (pke : Events) → WellFormed pke → WellFormed (pke_cancel_all_events pke)
unfolding pke_cancel_all_events
pke_cancel_all_events-WellFormed pke w = record {
  sound = by_first pke.events w.sound;
  enough = rw (length-behind_first cancelled pke.events) w.enough;
}
  where
    by_first : (evs : List Event) → SoundFrom 0 evs → SoundFrom 0 (behind_first cancelled evs)
    by_first [] h = h
    by_first (ev ∷ evs) (s, h) =
        (s, map-SoundFrom cancelled 0 evs (λ n u su. cancelled-Sound (suc n) u su) h)

Step-WellFormed : (pke pke' : Events) → Step pke pke' → WellFormed pke → WellFormed pke'
Step-WellFormed pke pke' (set_mask m) w = record { sound = w.sound; enough = w.enough }
Step-WellFormed pke pke' (post p now) w = pke_post_event-WellFormed pke p now w
Step-WellFormed pke pke' await w = IsAwaited-WellFormed pke (pke_await_event-IsAwaited pke) w
Step-WellFormed pke pke' (respond i rcode a b reply _ e) w =
    subst KeepsSlots e (pke_post_response-KeepsSlots pke i rcode a b w)
Step-WellFormed pke pke' (free i) w =
    unfold pke_free_event in change-WellFormed pke freed i (λ ev at s. freed-Sound i ev s) w
Step-WellFormed pke pke' cancel w = pke_cancel_all_events-WellFormed pke w

-- In every state that the calls lead to, in any order, the code of each event names its slot, the events that
-- block their caller or are processed have a time, and the slot 0 holds no event.
pub Reachable-WellFormed : (pke : Events) → Reachable pke → WellFormed pke
unfolding pke_init_events
Reachable-WellFormed pke (start threads some' fits) = record {
  sound = slots-SoundFrom _ 0;
  enough = rw (length-slots (min (threads * 12 % 2 ^ 32) 256) 0) (ground arith);
}
Reachable-WellFormed pke (next before _ reachable step) =
    Step-WellFormed before pke step (Reachable-WellFormed before reachable)
