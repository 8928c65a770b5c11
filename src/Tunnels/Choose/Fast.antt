-- ===== src/Tunnels/Choose/Fast.antt =====
-- choose_fast() finds the fastest front-ends (pkb_choose_tunnels() in libpagekite/pkblocker.c).
use libpagekite.Base.{
  ℕ, zero, suc, ◌+◌, ◌≤◌, min, ◌≡◌, refl, sym, ap, ◌∙◌, inl, inr, Bool, true, false, not, ◌&&◌,
  ◌||◌, List, [], ◌∷◌, map, countp, get_elem?, Option, none, some, arith, ltb, if◌then◌else◌, All,
  All-map, Bool-cases, subst, some_inj,
}
use libpagekite.Tunnels.{Tunnel, is_set, is_frontend}
use libpagekite.Tunnels.Choose.{
  prio, is_candidate, fastest, mark_fast, mark_if, choose_fast, unmarked,
}

unfoldable pub is_chosen : Tunnel → Bool
is_chosen fe = is_frontend fe && fe.is_fast

-- No candidate is faster than `b`.
abbrev pub AtLeast : ℕ → List Tunnel → Type 0
AtLeast b = All λ u. is_candidate u ≡ true → b ≤ prio u

-- No candidate is faster than a chosen one.
abbrev pub InOrder : List Tunnel → Type 0
InOrder fes = All (λ t. is_chosen t ≡ true → AtLeast (prio t) fes) fes

-- The place of a fastest candidate.
record IsFastest (fes : List Tunnel) (k : ℕ) : Type 0 where
  found : Tunnel
  place : get_elem? fes k ≡ some found
  candidate : is_candidate found ≡ true
  least : AtLeast (prio found) fes

-- What the search gives: the old best, as no candidate is faster; or a place; or nothing.
data Found (i : ℕ) (best : Option ℕ) (highpri : ℕ) (fes : List Tunnel) (r : Option ℕ) : Type 0 where
  old : is_set best ≡ true → AtLeast highpri fes → r ≡ best → Found i best highpri fes r
  new :
      (k : ℕ) (f : IsFastest fes k)
      → (is_set best ≡ true → prio f.found ≤ highpri)
      → r ≡ some (i + k)
      → Found i best highpri fes r
  nothing : best ≡ none → countp is_candidate fes ≡ 0 → r ≡ none → Found i best highpri fes r

AtLeast-weaken : (a b : ℕ) (fes : List Tunnel) → a ≤ b → AtLeast b fes → AtLeast a fes
AtLeast-weaken a b fes le = All-map (λ u h c. omega (arith, h c)) fes

AtLeast-none : (b : ℕ) (fes : List Tunnel) → countp is_candidate fes ≡ 0 → AtLeast b fes
AtLeast-none b [] e = tt
AtLeast-none b (u ∷ fes) e = elim (Bool-cases (is_candidate u)) [
  | inl c ↦ absurd (ground arith)
  | inr c ↦ (λ c'. cc, AtLeast-none b fes (ground arith))
]

-- The step at a tunnel that is better, and at one that is not.
module _ (i : ℕ) (fe : Tunnel) (fes : List Tunnel) (best : Option ℕ) (highpri : ℕ)
    (r : Option ℕ) where
  better_step :
      is_candidate fe ≡ true
      → (is_set best ≡ true → prio fe ≤ highpri)
      → Found (suc i) (some i) (prio fe) fes r
      → Found i best highpri (fe ∷ fes) r
  better_step c le (old _ least e) =
      new 0 (record { found = fe; place = refl; candidate = c; least = (λ _. omega arith, least) })
        le (e ∙ ap some (omega arith))
  better_step c le (new k f lt e) =
      new (suc k)
        (record {
          found = f.found;
          place = f.place;
          candidate = f.candidate;
          least = (λ _. lt refl, f.least);
        })
        (λ s. omega (arith, lt refl, le s)) (e ∙ ap some (omega arith))
  better_step c le (nothing b _ _) = cc

  other_step :
      (is_candidate fe ≡ true → (is_set best ≡ true) × (highpri ≤ prio fe))
      → Found (suc i) best highpri fes r
      → Found i best highpri (fe ∷ fes) r
  other_step no_better (old s least e) = old s (λ c. (no_better c).1, least) e
  other_step no_better (new k f lt e) =
      new (suc k)
        (record {
          found = f.found;
          place = f.place;
          candidate = f.candidate;
          least = (λ c. let (s, le) = no_better c in omega (arith, lt s), f.least);
        })
        lt (e ∙ ap some (omega arith))
  other_step no_better (nothing b none_left e) = elim (Bool-cases (is_candidate fe)) [
    | inl c ↦ let s : is_set best ≡ true = (no_better c).0 in cc
    | inr c ↦ nothing b (rw c (omega (arith, none_left))) e
  ]

fastest-Found :
    (i : ℕ) (best : Option ℕ) (highpri : ℕ) (fes : List Tunnel)
    → Found i best highpri fes (fastest i best highpri fes)
unfolding fastest
fastest-Found i none highpri [] = nothing refl refl refl
fastest-Found i (some b) highpri [] = old refl tt refl
fastest-Found i best highpri (fe ∷ fes) =
    elim (Bool-cases (is_candidate fe && (not (is_set best) || ltb (prio fe) highpri))) [
      | inl yes' ↦ rw yes' (
          better_step i fe fes best highpri _ (ground arith) (λ s. ground arith)
            (fastest-Found (suc i) (some i) (prio fe) fes))
      | inr no' ↦ rw no' (
          other_step i fe fes best highpri _ (λ c. ground arith)
            (fastest-Found (suc i) best highpri fes))
    ]

marked : Tunnel → Tunnel
marked fe = record fe { is_fast = true }

All-mark_fast {κ} :
    (P : Tunnel → Type κ) (fes : List Tunnel) (k : ℕ) {t : Tunnel}
    → get_elem? fes k ≡ some t
    → P (marked t)
    → All P fes
    → All P (mark_fast k fes)
unfolding mark_fast marked
All-mark_fast P [] k at p _ = tt
All-mark_fast P (u ∷ fes) zero at p (_, h) = (subst (λ v. P (marked v)) (some_inj (sym at)) p, h)
All-mark_fast P (u ∷ fes) (suc k) at p (pu, h) = (pu, All-mark_fast P fes k at p h)

-- What counting says of the place that is marked.
countp-mark_fast :
    (p : Tunnel → Bool) (fes : List Tunnel) (k : ℕ) {t : Tunnel}
    → get_elem? fes k ≡ some t
    → countp p (mark_fast k fes) + (if p t then 1 else 0)
      ≡ countp p fes + (if p (marked t) then 1 else 0)
unfolding mark_fast marked
countp-mark_fast p [] k at = cc
countp-mark_fast p (u ∷ fes) zero at = rw (some_inj at) (omega arith)
countp-mark_fast p (u ∷ fes) (suc k) at = omega (arith, countp-mark_fast p fes k at)

marked-is_candidate : (t : Tunnel) → is_candidate (marked t) ≡ false
unfolding is_candidate marked
marked-is_candidate t = ground arith

candidate_chosen :
    (t : Tunnel) → is_candidate t ≡ true → (is_chosen t ≡ false) × (is_chosen (marked t) ≡ true)
unfolding is_candidate is_chosen marked is_frontend
candidate_chosen t c = ground arith

mark_fast-InOrder :
    (fes : List Tunnel) (k : ℕ) → IsFastest fes k → InOrder fes → InOrder (mark_fast k fes)
mark_fast-InOrder fes k f h =
    let keep : (b : ℕ) → AtLeast b fes → AtLeast b (mark_fast k fes) =
      λ b. All-mark_fast _ fes k f.place (λ c. let n = marked-is_candidate f.found in cc) in
    All-mark_fast _ fes k f.place
      (λ _. keep (prio (marked f.found)) (unfold prio marked in f.least))
      (All-map (λ t old c. keep (prio t) (old c)) fes h)

-- What `n` rounds make of the table: as many more are chosen, as far as there are candidates.
record Chosen (n : ℕ) (before after : List Tunnel) : Type 0 where
  count : countp is_chosen after ≡ countp is_chosen before + min n (countp is_candidate before)
  order : InOrder after

choose_round :
    (n : ℕ) (fes : List Tunnel)
    → InOrder fes
    → ((fes' : List Tunnel) → InOrder fes' → Chosen n fes' (choose_fast n fes'))
    → (r : Option ℕ) → Found 0 none 1024000 fes r
    → Chosen (suc n) fes (choose_fast n (mark_if r fes))
unfolding mark_if
choose_round n fes h ih r (old s _ _) = cc
choose_round n fes h ih r (new k f _ e) =
    let rest = ih (mark_fast k fes) (mark_fast-InOrder fes k f h) in
    let (out, in') = candidate_chosen f.found f.candidate in
    let e' : r ≡ some k = e ∙ ap some (omega arith) in
    rw e' (record {
      count = ground (
        arith,
        rest.count,
        countp-mark_fast is_chosen fes k f.place,
        countp-mark_fast is_candidate fes k f.place,
        marked-is_candidate f.found,
        f.candidate,
        out,
        in',
      );
      order = rest.order;
    })
choose_round n fes h ih r (nothing _ none_left e) =
    let rest = ih fes h in
    rw e (record { count = omega (arith, rest.count, none_left); order = rest.order })

choose_rounds : (n : ℕ) (fes : List Tunnel) → InOrder fes → Chosen n fes (choose_fast n fes)
unfolding choose_fast
choose_rounds zero fes h = record { count = omega arith; order = h }
choose_rounds (suc n) fes h =
    choose_round n fes h (choose_rounds n) (fastest 0 none 1024000 fes)
      (fastest-Found 0 none 1024000 fes)

unmarked-is_chosen : (t : Tunnel) → is_chosen (unmarked t) ≡ false
unfolding is_chosen unmarked is_frontend
unmarked-is_chosen t = ground arith

none_chosen : (fes : List Tunnel) → countp is_chosen (map unmarked fes) ≡ 0
none_chosen [] = refl
none_chosen (t ∷ fes) = rw (unmarked-is_chosen t) (omega (arith, none_chosen fes))

unmarked-InOrder :
    (fes us : List Tunnel) → All (λ t. is_chosen t ≡ true → AtLeast (prio t) us) (map unmarked fes)
unmarked-InOrder [] us = tt
unmarked-InOrder (t ∷ fes) us = (λ h. let n = unmarked-is_chosen t in cc, unmarked-InOrder fes us)

-- Of a table whose marks were cleared, choose_fast() marks as many front-ends as it is asked for,
-- or all candidates if they are fewer; no candidate that is left is faster than a marked one.
pub choose_fast-Chosen :
    (n : ℕ) (fes : List Tunnel)
    → (countp is_chosen (choose_fast n (map unmarked fes))
        ≡ min n (countp is_candidate (map unmarked fes)))
      × InOrder (choose_fast n (map unmarked fes))
choose_fast-Chosen n fes =
    let us = map unmarked fes in
    let c = choose_rounds n us (unmarked-InOrder fes us) in
    (omega (arith, c.count, none_chosen fes), c.order)
