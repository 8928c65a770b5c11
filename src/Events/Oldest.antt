-- ===== src/Events/Oldest.antt =====
-- _pke_get_oldest_event() finds the oldest one (libpagekite/pkhooks.c).
use libpagekite.Base.{
  ℕ, zero, suc, ◌+◌, ◌≤◌, ◌<◌, ◌≡◌, refl, sym, ap, ◌∙◌, inl, inr, Bool, true, false, not, ◌&&◌,
  ◌||◌, List, [], ◌∷◌, Option, none, some, get_elem?, arith, ltb, ◌==◌, All, All-map, Bool-cases,
  some_inj, subst, any, drop,
}
use libpagekite.Tunnels.{is_set}
use libpagekite.Events.{
  Event, Events, change_event, newer, oldest_from, get_oldest_event, is_taken, is_processing,
  Posting, posted_event, is_masked, pke_post_event, pke_await_event, or_first,
}

-- The event may be returned.
unfoldable pub is_eligible : (Event → Bool) → Bool → Event → Bool
is_eligible excluded nonzero ev = not (excluded ev) && (not nonzero || ltb 0 ev.posted)

-- No eligible event is older than `b`.
abbrev pub NoneOlder : (Event → Bool) → Bool → ℕ → List Event → Type 0
NoneOlder excluded nonzero b = All λ u. is_eligible excluded nonzero u ≡ true → b ≤ u.posted

-- The place of an oldest event.
pub record IsOldest (excluded : Event → Bool) (nonzero : Bool) (evs : List Event) (k : ℕ)
    : Type 0 where
  pub event : Event
  pub place : get_elem? evs k ≡ some event
  pub eligible : is_eligible excluded nonzero event ≡ true
  pub oldest : NoneOlder excluded nonzero event.posted evs

-- No event is eligible.
abbrev pub Nobody : (Event → Bool) → Bool → List Event → Type 0
Nobody excluded nonzero = All λ u. is_eligible excluded nonzero u ≡ false

data Found (excluded : Event → Bool) (nonzero : Bool) (i : ℕ) (best : Option ℕ) (when : ℕ)
    (evs : List Event) (r : Option ℕ) : Type 0 where
  old :
      is_set best ≡ true
      → NoneOlder excluded nonzero when evs
      → r ≡ best
      → Found excluded nonzero i best when evs r
  new :
      (k : ℕ) (f : IsOldest excluded nonzero evs k)
      → (is_set best ≡ true → f.event.posted ≤ when)
      → r ≡ some (i + k)
      → Found excluded nonzero i best when evs r
  nobody :
      best ≡ none
      → Nobody excluded nonzero evs
      → r ≡ none
      → Found excluded nonzero i best when evs r

NoneOlder-zero :
    (excluded : Event → Bool) (nonzero : Bool) (evs : List Event) → NoneOlder excluded nonzero 0 evs
NoneOlder-zero excluded nonzero [] = tt
NoneOlder-zero excluded nonzero (u ∷ evs) = (λ _. omega arith, NoneOlder-zero excluded nonzero evs)

NoneOlder-Nobody :
    (excluded : Event → Bool) (nonzero : Bool) (b : ℕ) (evs : List Event)
    → Nobody excluded nonzero evs
    → NoneOlder excluded nonzero b evs
NoneOlder-Nobody excluded nonzero b = All-map (λ u h e. cc)

module _ (excluded : Event → Bool) (nonzero : Bool) (i : ℕ) (ev : Event) (evs : List Event)
    (best : Option ℕ) (when : ℕ) (r : Option ℕ) where
  better_step :
      is_eligible excluded nonzero ev ≡ true
      → (is_set best ≡ true → ev.posted ≤ when)
      → Found excluded nonzero (suc i) (some i) ev.posted evs r
      → Found excluded nonzero i best when (ev ∷ evs) r
  better_step c le (old _ least e) =
      new 0 (record { event = ev; place = refl; eligible = c; oldest = (λ _. omega arith, least) })
        le (e ∙ ap some (omega arith))
  better_step c le (new k f lt e) =
      new (suc k)
        (record {
          event = f.event;
          place = f.place;
          eligible = f.eligible;
          oldest = (λ _. lt refl, f.oldest);
        })
        (λ s. omega (arith, lt refl, le s)) (e ∙ ap some (omega arith))
  better_step c le (nobody b _ _) = cc

  other_step :
      (is_eligible excluded nonzero ev ≡ true → (is_set best ≡ true) × (when ≤ ev.posted))
      → Found excluded nonzero (suc i) best when evs r
      → Found excluded nonzero i best when (ev ∷ evs) r
  other_step no_better (old s least e) = old s (λ c. (no_better c).1, least) e
  other_step no_better (new k f lt e) =
      new (suc k)
        (record {
          event = f.event;
          place = f.place;
          eligible = f.eligible;
          oldest = (λ c. let (s, le) = no_better c in omega (arith, lt s), f.oldest);
        })
        lt (e ∙ ap some (omega arith))
  other_step no_better (nobody b none_left e) =
      elim (Bool-cases (is_eligible excluded nonzero ev)) [
        | inl c ↦ let s : is_set best ≡ true = (no_better c).0 in cc
        | inr c ↦ nobody b (c, none_left) e
      ]

newer-set :
    (best : Option ℕ) (posted when : ℕ)
    → newer best posted when ≡ true
    → is_set best ≡ true
    → posted ≤ when
newer-set none posted when h s = cc
newer-set (some b) posted when h s = ground arith

newer-not :
    (best : Option ℕ) (posted when : ℕ)
    → newer best posted when ≡ false
    → (is_set best ≡ true) × (when ≤ posted)
newer-not none posted when h = cc
newer-not (some b) posted when h = (refl, ground arith)

oldest_from-Found :
    (excluded : Event → Bool) (nonzero : Bool) (i : ℕ) (best : Option ℕ) (when : ℕ)
    (evs : List Event)
    → Found excluded nonzero i best when evs (oldest_from excluded nonzero i best when evs)
unfolding oldest_from is_eligible
oldest_from-Found excluded nonzero i none when [] = nobody refl tt refl
oldest_from-Found excluded nonzero i (some b) when [] = old refl tt refl
oldest_from-Found excluded nonzero i best when (ev ∷ evs) =
    let ih = λ (b : Option ℕ) (w : ℕ). oldest_from-Found excluded nonzero (suc i) b w evs in
    let eligible = is_eligible excluded nonzero ev in
    elim (Bool-cases
      (not (excluded ev) && (newer best ev.posted when && (not nonzero || ltb 0 ev.posted)))) [
        | inl yes' ↦
            let c : eligible ≡ true = ground arith in
            let le = newer-set best ev.posted when (ground arith) in
            elim (Bool-cases (ev.posted == 0)) [
              | inl at_once ↦
                  rw (yes', at_once)
                    (new 0
                      (record {
                        event = ev;
                        place = refl;
                        eligible = c;
                        oldest = NoneOlder-posted (ev ∷ evs) (ground arith);
                      })
                      le (ap some (omega arith)))
              | inr later ↦
                  rw (yes', later)
                    (better_step excluded nonzero i ev evs best when _ c le (ih (some i) ev.posted))
            ]
        | inr no' ↦ rw no' (
            other_step excluded nonzero i ev evs best when _
              (λ c. newer-not best ev.posted when (ground arith)) (ih best when))
      ]
  where
    NoneOlder-posted : (us : List Event) → ev.posted ≡ 0 → NoneOlder excluded nonzero ev.posted us
    NoneOlder-posted us e = rw e (NoneOlder-zero excluded nonzero us)

get_oldest_event-Found :
    (excluded : Event → Bool) (nonzero : Bool) (evs : List Event)
    → Found excluded nonzero 1 none 0 (drop 1 evs) (get_oldest_event excluded nonzero evs)
unfolding get_oldest_event
get_oldest_event-Found excluded nonzero [] = nobody refl tt refl
get_oldest_event-Found excluded nonzero (ev ∷ evs) = oldest_from-Found excluded nonzero 1 none 0 evs

-- The slot 0 is passed over.
pub get_oldest_event-behind :
    (excluded : Event → Bool) (nonzero : Bool) (evs : List Event)
    → 0 < or_first (get_oldest_event excluded nonzero evs)
get_oldest_event-behind excluded nonzero evs =
    by_search (get_oldest_event excluded nonzero evs) (get_oldest_event-Found excluded nonzero evs)
  where
    by_search : (r : Option ℕ) → Found excluded nonzero 1 none 0 (drop 1 evs) r → 0 < or_first r
    by_search r (old s least e) = cc
    by_search r (new k f lt e) = rw e (omega arith)
    by_search r (nobody b none_left e) = rw e (omega arith)

-- What a search gives: the oldest of the events that wait, which is now marked, or nothing if none waits.
pub data IsAwaited (pke : Events) : Option ℕ × Events → Type 0 where
  waits : Nobody is_processing true (drop 1 pke.events) → IsAwaited pke (none, pke)
  takes :
      (k : ℕ)
      → IsOldest is_processing true (drop 1 pke.events) k
      → IsAwaited pke (
        some (1 + k),
        record pke {
          events = change_event (λ ev. record ev { processing = true }) (1 + k) pke.events;
        },
      )

-- pke_await_event() takes the event that was posted first of those that are not processed yet, and
-- marks it; it finds none only if there is none.
pub pke_await_event-IsAwaited : (pke : Events) → IsAwaited pke (pke_await_event pke)
unfolding pke_await_event
pke_await_event-IsAwaited pke =
    by_search (get_oldest_event is_processing true pke.events)
      (get_oldest_event-Found is_processing true pke.events)
  where
    by_search :
        (r : Option ℕ)
        → Found is_processing true 1 none 0 (drop 1 pke.events) r
        → IsAwaited pke (elim r [
          | none ↦ (none, pke)
          | some i ↦ (
            some i,
            record pke {
              events = change_event (λ ev. record ev { processing = true }) i pke.events;
            },
          )
        ])
    by_search r (old s least e) = cc
    by_search r (new k f lt e) = rw e (takes k f)
    by_search r (nobody b none_left e) = rw e (waits none_left)

-- Another slot than the one that is changed.
change_event-taken :
    (f : Event → Event) (evs : List Event) (i j : ℕ) {old ev : Event}
    → get_elem? evs i ≡ some old
    → is_taken old ≡ false
    → get_elem? evs j ≡ some ev
    → is_taken ev ≡ true
    → get_elem? (change_event f i evs) j ≡ some ev
change_event-taken f [] i j at untaken here taken = cc
change_event-taken f (u ∷ evs) zero zero at untaken here taken =
    let same = some_inj (sym at ∙ here) in
    let untaken' = subst (λ x. is_taken x ≡ false) same untaken in cc
change_event-taken f (u ∷ evs) zero (suc j) at untaken here taken = here
change_event-taken f (u ∷ evs) (suc i) zero at untaken here taken = here
change_event-taken f (u ∷ evs) (suc i) (suc j) at untaken here taken =
    change_event-taken f evs i j at untaken here taken

pub get_elem?-drop :
    (evs : List Event) (k : ℕ) {ev : Event}
    → get_elem? (drop 1 evs) k ≡ some ev
    → get_elem? evs (1 + k) ≡ some ev
get_elem?-drop [] k at = cc
get_elem?-drop (u ∷ evs) k at = let e : 1 + k ≡ suc k = omega arith in rw e at

Nobody-free :
    (evs : List Event) → Nobody is_taken false evs → any (λ u. not (is_taken u)) evs ≡ false
unfolding is_eligible
Nobody-free [] _ = refl
Nobody-free (u ∷ evs) (h, hs) = rw (Nobody-free evs hs) (ground arith)

eligible_free : (u : Event) → is_eligible is_taken false u ≡ true → is_taken u ≡ false
unfolding is_eligible
eligible_free u c = ground arith

-- As long as one slot holds no event that blocks its caller or is processed, pke_post_event() leaves
-- every event that blocks its caller or is processed as it is.
pub pke_post_event-keeps :
    (pke : Events) (p : Posting) (j : ℕ) (ev : Event)
    → any (λ u. not (is_taken u)) (drop 1 pke.events) ≡ true
    → get_elem? pke.events j ≡ some ev
    → is_taken ev ≡ true
    → get_elem? (pke_post_event pke p).1.events j ≡ some ev
unfolding pke_post_event is_eligible
pke_post_event-keeps pke p j ev room here taken =
    elim (Bool-cases (is_masked pke.event_mask p.kind)) [
      | inl masked ↦ rw masked here
      | inr asked ↦ rw asked (
          by_search (get_oldest_event is_taken false pke.events)
            (get_oldest_event-Found is_taken false pke.events))
    ]
  where
    by_search :
        (r : Option ℕ)
        → Found is_taken false 1 none 0 (drop 1 pke.events) r
        → get_elem? (change_event (posted_event p) (or_first r) pke.events) j ≡ some ev
    by_search r (old s least e) = cc
    by_search r (new k f lt e) = rw e (
        change_event-taken (posted_event p) pke.events (1 + k) j
          (get_elem?-drop pke.events k f.place) (eligible_free f.event f.eligible) here taken)
    by_search r (nobody b none_left e) = let full = Nobody-free (drop 1 pke.events) none_left in cc

-- What waits was posted.
pub waiting-posted : (u : Event) → is_eligible is_processing true u ≡ true → 0 < u.posted
unfolding is_eligible
waiting-posted u c = ground arith
