-- ===== src/Libc/Decimal.antt =====
-- sscanf() with %d reads back what sprintf() with %d wrote.
use libpagekite.Base.{
  ℕ, zero, suc, ◌+◌, ◌-◌, ◌*◌, ◌/◌, ◌%◌, ◌^◌, ◌<◌, ◌≡◌, refl, ◌∙◌, ap, inl, inr, true, ◌&&◌, [],
  ◌∷◌, Option, none, some, arith, ltb, leb, Bytes, Bool-cases, ℤ, pos, min, isspace, to_int,
  to_int-small,
}
use libpagekite.Libc.Scanf.{
  Sign, is_digit, scan_dec, skip_space, sign_of, after_sign, starts_with_digit, scan_long, sscanf_d,
}
use libpagekite.Libc.Printf.{dec_loop, to_dec}

scan_dec_digit :
    (v d : ℕ) (s : Bytes) → d < 10 → scan_dec v ((48 + d) ∷ s) ≡ scan_dec (v * 10 + d) s
unfolding scan_dec is_digit
scan_dec_digit v d s h =
    let digit : (leb 48 (48 + d) && leb (48 + d) 57) ≡ true = ground arith in
    rw digit (ap (λ k. scan_dec k s) (omega arith))

scan_dec-dec_loop : (f n : ℕ) (out : Bytes) → n < f → scan_dec 0 (dec_loop f n out) ≡ scan_dec n out
unfolding dec_loop
scan_dec-dec_loop zero n out h = elim h [ ]
scan_dec-dec_loop (suc f) n out h = elim (Bool-cases (ltb n 10)) [
  | inl small ↦
      rw small (scan_dec_digit 0 n out (ground arith) ∙ ap (λ k. scan_dec k out) (omega arith))
  | inr big ↦ rw big (
      scan_dec-dec_loop f (n / 10) ((48 + n % 10) ∷ out) (ground arith)
      ∙ scan_dec_digit (n / 10) (n % 10) out (omega arith)
      ∙ ap (λ k. scan_dec k out) (omega arith))
]

-- A digit begins the text.
abbrev LeadsDigit : Bytes → Type 0
LeadsDigit [] = ⊥
LeadsDigit (c ∷ s) = is_digit c ≡ true

dec_loop-LeadsDigit : (f n : ℕ) (out : Bytes) → n < f → LeadsDigit (dec_loop f n out)
unfolding dec_loop is_digit
dec_loop-LeadsDigit zero n out h = elim h [ ]
dec_loop-LeadsDigit (suc f) n out h = elim (Bool-cases (ltb n 10)) [
  | inl small ↦ rw small (ground arith)
  | inr big ↦ rw big (dec_loop-LeadsDigit f (n / 10) ((48 + n % 10) ∷ out) (ground arith))
]

skip_space-LeadsDigit :
    (s : Bytes)
    → LeadsDigit s
    → (skip_space s ≡ s)
      × (sign_of s ≡ Sign.plus)
      × (after_sign s ≡ s)
      × (starts_with_digit is_digit s ≡ true)
unfolding skip_space sign_of after_sign starts_with_digit isspace is_digit
skip_space-LeadsDigit [] h = absurd h
skip_space-LeadsDigit (c ∷ s) h = (ground arith, ground arith, ground arith, h)

scan_long-LeadsDigit :
    (s : Bytes) → LeadsDigit s → scan_long s ≡ some (pos (min (scan_dec 0 s) (2 ^ 63 - 1)))
unfolding scan_long
scan_long-LeadsDigit s h = let (a, b, c, d) = skip_space-LeadsDigit s h in rw (a, b, c, d) refl

of_long : (s : Bytes) (v : ℤ) → scan_long s ≡ some v → sscanf_d s ≡ some (to_int v)
unfolding sscanf_d
of_long s v e =
    ap (λ (o : Option ℤ). elim o as (λ _. Option ℤ) [ none ↦ none | some v ↦ some (to_int v) ]) e

sscanf_d-LeadsDigit :
    (s : Bytes) → LeadsDigit s → scan_dec 0 s < 2 ^ 31 → sscanf_d s ≡ some (pos (scan_dec 0 s))
sscanf_d-LeadsDigit s h small =
    let all : min (scan_dec 0 s) (2 ^ 63 - 1) ≡ scan_dec 0 s = omega (arith, small) in
    of_long s (pos (scan_dec 0 s)) (scan_long-LeadsDigit s h ∙ ap (λ k. some (pos k)) all)
    ∙ ap some (to_int-small (scan_dec 0 s) small)

scan_dec-to_dec : (n : ℕ) → scan_dec 0 (to_dec (pos n)) ≡ n
unfolding to_dec
scan_dec-to_dec n = scan_dec-dec_loop (suc n) n [] (omega arith) ∙ unfold scan_dec in refl

-- sscanf("%d") reads back an int that is not negative.
pub sscanf_d-to_dec : (n : ℕ) → n < 2 ^ 31 → sscanf_d (to_dec (pos n)) ≡ some (pos n)
sscanf_d-to_dec n small =
    let read = scan_dec-to_dec n in
    sscanf_d-LeadsDigit (to_dec (pos n))
      (unfold to_dec in dec_loop-LeadsDigit (suc n) n [] (omega arith)) (rw read small)
    ∙ ap (λ k. some (pos k)) read

-- The bytes of a number are digits.
abbrev pub Digits : Bytes → Type 0
Digits [] = Unit {0}
Digits (c ∷ s) = (is_digit c ≡ true) × Digits s

dec_loop-Digits : (f n : ℕ) (out : Bytes) → Digits out → Digits (dec_loop f n out)
unfolding dec_loop is_digit
dec_loop-Digits zero n out h = h
dec_loop-Digits (suc f) n out h = elim (Bool-cases (ltb n 10)) [
  | inl small ↦ rw small (ground arith, h)
  | inr big ↦ rw big (dec_loop-Digits f (n / 10) ((48 + n % 10) ∷ out) (ground arith, h))
]

pub to_dec-Digits : (n : ℕ) → Digits (to_dec (pos n))
unfolding to_dec
to_dec-Digits n = dec_loop-Digits (suc n) n [] tt
