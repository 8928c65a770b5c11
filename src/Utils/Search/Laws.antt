-- ===== src/Utils/Search/Laws.antt =====
-- strcaseindex() (libpagekite/pkutils.c) finds the place of a string in a sorted list.
use Prim.Native.Nat.{Ordering}
use libpagekite.Base.{
  ℕ, zero, suc, ◌+◌, ◌-◌, ◌/◌, ◌≤◌, ◌<◌, ◌≡◌, ◌≢◌, refl, sym, ap, ◌∙◌, inl, inr, true, List, [],
  ◌∷◌, arith, ltb, if◌then◌else◌, Bytes, Bool-cases, length, get_or,
}
use libpagekite.Utils.Search.{strcasecmp, compared, search_loop, strcaseindex}

not_eq_gt : Ordering.eq ≡ Ordering.gt → ⊥
not_eq_gt h = ground arith

not_lt_gt : Ordering.lt ≡ Ordering.gt → ⊥
not_lt_gt h = ground arith

not_lt_eq : Ordering.lt ≡ Ordering.eq → ⊥
not_lt_eq h = ground arith

-- A string that is no smaller than a second, which is larger than a third, is larger than that.
strcasecmp_trans :
    (a b c : Bytes)
    → strcasecmp a b ≢ Ordering.lt
    → strcasecmp b c ≡ Ordering.gt
    → strcasecmp a c ≡ Ordering.gt
unfolding strcasecmp
strcasecmp_trans a [] [] h k = absurd (not_eq_gt k)
strcasecmp_trans a [] (c ∷ u) h k = absurd (not_lt_gt k)
strcasecmp_trans [] (b ∷ t) c h k = absurd (h refl)
strcasecmp_trans (a ∷ s) (b ∷ t) [] h k = refl
strcasecmp_trans (a ∷ s) (b ∷ t) (c ∷ u) h k = ground (arith, strcasecmp_trans s t u)

-- Each entry is larger than those before it.
abbrev pub IsSorted : List Bytes → Type 0
IsSorted haystack =
    (i j : ℕ)
    → i < j
    → j < length haystack
    → strcasecmp (get_or haystack j []) (get_or haystack i []) ≡ Ordering.gt

-- The place `r` of the needle: it is larger than what stands before `r`, and than nothing from there on.
abbrev pub IsPlace : List Bytes → Bytes → ℕ → Type 0
IsPlace haystack needle r =
    (r ≤ length haystack)
    × ((i : ℕ) → i < r → compared haystack needle i ≡ Ordering.gt)
    × ((i : ℕ) → r ≤ i → i < length haystack → compared haystack needle i ≢ Ordering.gt)

module _ (haystack : List Bytes) (needle : Bytes) (sorted : IsSorted haystack) where
  -- Where the needle is no smaller, it is larger further down.
  below :
      (i j : ℕ)
      → i < j
      → j < length haystack
      → compared haystack needle j ≢ Ordering.lt
      → compared haystack needle i ≡ Ordering.gt
  below i j lt within h =
      strcasecmp_trans needle (get_or haystack j []) (get_or haystack i []) h (sorted i j lt within)

  -- Where it is no larger, it is no larger further up.
  above :
      (i j : ℕ)
      → i ≤ j
      → j < length haystack
      → compared haystack needle i ≢ Ordering.gt
      → compared haystack needle j ≢ Ordering.gt
  above i j le within h g = elim (Bool-cases (ltb i j)) [
    | inl lt ↦ h (below i j (ground arith) within (λ e. not_lt_gt (sym e ∙ g)))
    | inr same ↦ let e : i ≡ j = ground arith in h (ap (compared haystack needle) e ∙ g)
  ]

  search_loop-IsPlace :
      (fuel bottom top : ℕ)
      → bottom ≤ top
      → top ≤ length haystack
      → top - bottom < fuel
      → ((i : ℕ) → i < bottom → compared haystack needle i ≡ Ordering.gt)
      → ((i : ℕ) → top ≤ i → i < length haystack → compared haystack needle i ≢ Ordering.gt)
      → IsPlace haystack needle (search_loop haystack needle fuel bottom top)
  unfolding search_loop
  search_loop-IsPlace zero bottom top le within h low high = elim h [ ]
  search_loop-IsPlace (suc fuel) bottom top le within h low high =
      elim (Bool-cases (ltb bottom top)) [
        | inr done ↦
            let e : bottom ≡ top = ground arith in
            rw done (omega arith, low, λ i ge. high i (ground arith))
        | inl more ↦ rw more (
            by_order (compared haystack needle ((bottom + top) / 2)) refl (ground arith)
              (search_loop-IsPlace fuel))
      ]
    where
      midp : ℕ
      midp = (bottom + top) / 2

      by_order :
          (o : Ordering)
          → compared haystack needle midp ≡ o
          → bottom < top
          → ((b t : ℕ)
              → b ≤ t
              → t ≤ length haystack
              → t - b < fuel
              → ((i : ℕ) → i < b → compared haystack needle i ≡ Ordering.gt)
              → ((i : ℕ) → t ≤ i → i < length haystack → compared haystack needle i ≢ Ordering.gt)
              → IsPlace haystack needle (search_loop haystack needle fuel b t))
          → IsPlace haystack needle (elim o as (λ _. ℕ) [
            | Ordering.gt ↦
                if ltb bottom midp then search_loop haystack needle fuel midp top else midp + 1
            | Ordering.lt ↦
                if ltb midp top then search_loop haystack needle fuel bottom midp else midp
            | Ordering.eq ↦ midp
          ])
      by_order Ordering.eq e lt again =
          let within' : midp < length haystack = omega arith in
          (
            omega arith,
            (λ i i_lt. below i midp i_lt within' (λ l. not_lt_eq (sym l ∙ e))),
            (λ i ge i_lt. above midp i ge i_lt (λ g. not_eq_gt (sym e ∙ g))),
          )
      by_order Ordering.lt e lt again =
          let moves : ltb midp top ≡ true = ground arith in
          rw moves (
            again bottom midp (omega arith) (omega arith) (omega arith) low
              (λ i ge i_lt. above midp i ge i_lt (λ g. not_lt_gt (sym e ∙ g))))
      by_order Ordering.gt e lt again =
          let low' : (i : ℕ) → i < suc midp → compared haystack needle i ≡ Ordering.gt = λ i i_lt.
            elim (Bool-cases (ltb i midp)) [
              | inl lt' ↦ below i midp (ground arith) (omega arith) (λ l. not_lt_gt (sym l ∙ e))
              | inr same ↦ let is : i ≡ midp = ground arith in ap (compared haystack needle) is ∙ e
            ] in
          elim (Bool-cases (ltb bottom midp)) [
            | inl moves ↦ rw moves (
                again midp top (omega arith) within (ground arith) (λ i i_lt. low' i (omega arith))
                  high)
            | inr stuck ↦ rw stuck (
              ground arith,
              (λ i i_lt. low' i (omega arith)),
              λ i ge i_lt. high i (ground arith) i_lt,
            )
          ]

-- In a list that is sorted without regard to case, strcaseindex() returns the place of the needle: where
-- it is, or where it should be put.
pub strcaseindex-IsPlace :
    (haystack : List Bytes) (needle : Bytes)
    → IsSorted haystack
    → IsPlace haystack needle (strcaseindex haystack needle)
unfolding strcaseindex
strcaseindex-IsPlace haystack needle sorted =
    search_loop-IsPlace haystack needle sorted (suc (length haystack)) 0 (length haystack)
      (omega arith) (omega arith) (omega arith) (λ i lt. elim lt [ ])
      (λ i ge lt. absurd (ground arith))
