-- ===== src/Tunnels/Choose/Wanted.antt =====
-- pkb_choose_tunnels() (libpagekite/pkblocker.c): which tunnels it wants, and that it wants one.
use libpagekite.Base.{
  ℕ, zero, suc, ◌+◌, ◌≡◌, refl, sym, ◌∙◌, inl, inr, Bool, true, false, ◌||◌, List, [], ◌∷◌, map,
  any, Option, none, some, arith, All, Bool-cases,
}
use libpagekite.Tunnels.{Tunnel, is_frontend}
use libpagekite.Tunnels.Choose.{
  unmarked, fastest, mark_fast, mark_if, choose_fast, decided, is_aim, is_usable, is_connected,
  want_first_usable, kept, pkb_choose_tunnels,
}

-- A test that the change of an element does not touch.
any-map :
    (p : Tunnel → Bool) (f : Tunnel → Tunnel)
    → ((t : Tunnel) → p (f t) ≡ p t)
    → (ts : List Tunnel) → any p (map f ts) ≡ any p ts
any-map p f h [] = refl
any-map p f h (t ∷ ts) = rw (h t, any-map p f h ts)

module _ (p : Tunnel → Bool) (h : (t : Tunnel) → p (record t { is_fast = true }) ≡ p t) where
  any-mark_fast : (i : ℕ) (ts : List Tunnel) → any p (mark_fast i ts) ≡ any p ts
  unfolding mark_fast
  any-mark_fast zero [] = refl
  any-mark_fast (suc i) [] = refl
  any-mark_fast zero (t ∷ ts) = rw (h t)
  any-mark_fast (suc i) (t ∷ ts) = rw (any-mark_fast i ts)

  any-mark_if : (r : Option ℕ) (ts : List Tunnel) → any p (mark_if r ts) ≡ any p ts
  unfolding mark_if
  any-mark_if none ts = refl
  any-mark_if (some i) ts = any-mark_fast i ts

  any-choose_fast : (n : ℕ) (ts : List Tunnel) → any p (choose_fast n ts) ≡ any p ts
  unfolding choose_fast
  any-choose_fast zero ts = refl
  any-choose_fast (suc n) ts = any-choose_fast n _ ∙ any-mark_if (fastest 0 none 1024000 ts) ts

-- The table behind the first decision.
abbrev first_choice : ℕ → List Tunnel → List Tunnel
first_choice spare ts = map decided (choose_fast (spare + 1) (map unmarked ts))

first_choice-usable :
    (spare : ℕ) (ts : List Tunnel) → any is_usable (first_choice spare ts) ≡ any is_usable ts
unfolding is_usable decided unmarked is_frontend
first_choice-usable spare ts =
    any-map is_usable decided (λ t. ground arith) (choose_fast (spare + 1) (map unmarked ts))
    ∙ any-choose_fast is_usable (λ t. refl) (spare + 1) (map unmarked ts)
    ∙ any-map is_usable unmarked (λ t. ground arith) ts

first_choice-connected :
    (spare : ℕ) (ts : List Tunnel) → any is_connected (first_choice spare ts) ≡ any is_connected ts
unfolding is_connected decided unmarked is_frontend
first_choice-connected spare ts =
    any-map is_connected decided (λ t. ground arith) (choose_fast (spare + 1) (map unmarked ts))
    ∙ any-choose_fast is_connected (λ t. refl) (spare + 1) (map unmarked ts)
    ∙ any-map is_connected unmarked (λ t. ground arith) ts

want_first_usable-aims :
    (ts : List Tunnel) → any is_usable ts ≡ true → any is_aim (want_first_usable ts) ≡ true
unfolding want_first_usable
want_first_usable-aims [] h = cc
want_first_usable-aims (t ∷ ts) h = elim (Bool-cases (is_usable t)) [
  | inl u ↦ rw u (unfold is_aim is_usable is_frontend in ground arith)
  | inr n ↦ rw n (ground (arith, want_first_usable-aims ts))
]

kept-aims : (ts : List Tunnel) → any is_connected ts ≡ true → any is_aim (map kept ts) ≡ true
unfolding kept is_aim is_connected is_frontend
kept-aims [] h = cc
kept-aims (t ∷ ts) h = ground (arith, kept-aims ts)

-- If a front-end is neither rejected nor lame, or has a live socket, then pkb_choose_tunnels() leaves a
-- front-end that is wanted or in DNS.
pub pkb_choose_tunnels-aims :
    (spare : ℕ) (ts : List Tunnel)
    → (any is_usable ts || any is_connected ts) ≡ true
    → any is_aim (pkb_choose_tunnels spare ts) ≡ true
unfolding pkb_choose_tunnels
pkb_choose_tunnels-aims spare ts h =
    let fes = first_choice spare ts in
    elim (Bool-cases (any is_aim fes)) [
      | inl aim ↦ rw aim aim
      | inr no_aim ↦ elim (Bool-cases (any is_usable fes)) [
        | inl u ↦ rw (no_aim, u) (want_first_usable-aims fes u)
        | inr n ↦
            rw (no_aim, n)
              (kept-aims fes
                (ground (arith, first_choice-usable spare ts, first_choice-connected spare ts)))
      ]
    ]

-- What is true of each tunnel behind the choice, if `usable` tells that a front-end is usable.
pub record IsChosenWell (usable : Bool) (t : Tunnel) : Type 0 where
  pub wants : is_usable t ≡ true → (t.nailed_up || t.is_fast) ≡ true → t.wanted ≡ true
  pub avoids :
      is_frontend t ≡ true
      → (t.rejected || t.lame) ≡ true
      → t.wanted ≡ true
      → (is_connected t ≡ true) × (usable ≡ false)

decided-IsChosenWell : (usable : Bool) (t : Tunnel) → IsChosenWell usable (decided t)
unfolding is_usable is_frontend is_connected decided
decided-IsChosenWell usable t = record { wants = ground arith; avoids = ground arith }

first_choice-All : (usable : Bool) (ts : List Tunnel) → All (IsChosenWell usable) (map decided ts)
first_choice-All usable [] = tt
first_choice-All usable (t ∷ ts) = (decided-IsChosenWell usable t, first_choice-All usable ts)

want_first_usable-All :
    (usable : Bool) (ts : List Tunnel)
    → All (IsChosenWell usable) ts
    → All (IsChosenWell usable) (want_first_usable ts)
unfolding want_first_usable
want_first_usable-All usable [] _ = tt
want_first_usable-All usable (t ∷ ts) (h, hs) = elim (Bool-cases (is_usable t)) [
  | inl u ↦ rw u (record { wants = λ _ _. refl; avoids = unfold is_usable in ground arith }, hs)
  | inr n ↦ rw n (h, want_first_usable-All usable ts hs)
]

kept-All : (ts : List Tunnel) → All (IsChosenWell false) ts → All (IsChosenWell false) (map kept ts)
kept-All [] _ = tt
kept-All (t ∷ ts) (h, hs) = (one, kept-All ts hs)
  where
    one : IsChosenWell false (kept t)
    one = elim (Bool-cases (is_connected t)) [
      | inl c ↦
          unfold kept in
          rw c (record {
            wants = λ _ _. refl;
            avoids = λ _ _ _. (unfold is_connected is_frontend in c, refl);
          })
      | inr n ↦ unfold kept in rw n h
    ]

-- Behind pkb_choose_tunnels(), a usable front-end that is nailed up or fast is wanted; one that
-- rejected us or is lame is wanted only if it has a live socket and no front-end is usable.
pub pkb_choose_tunnels-IsChosenWell :
    (spare : ℕ) (ts : List Tunnel)
    → All (IsChosenWell (any is_usable ts)) (pkb_choose_tunnels spare ts)
unfolding pkb_choose_tunnels
pkb_choose_tunnels-IsChosenWell spare ts =
    let fes = first_choice spare ts in
    let chosen = first_choice-All (any is_usable ts) (choose_fast (spare + 1) (map unmarked ts)) in
    elim (Bool-cases (any is_aim fes)) [
      | inl aim ↦ rw aim chosen
      | inr no_aim ↦ elim (Bool-cases (any is_usable fes)) [
        | inl u ↦ rw (no_aim, u) (want_first_usable-All (any is_usable ts) fes chosen)
        | inr n ↦
            let none_usable : any is_usable ts ≡ false = sym (first_choice-usable spare ts) ∙ n in
            rw (no_aim, n, none_usable) (kept-All fes (rw none_usable at chosen))
      ]
    ]
