-- ===== src/Libc/RoundTrip.antt =====
-- sscanf() reads back what sprintf() wrote.
use libpagekite.Base.{
  ℕ, zero, suc, ◌+◌, ◌-◌, ◌*◌, ◌/◌, ◌%◌, ◌^◌, ◌<◌, true, false, [], ◌∷◌, ◌++◌, some, ◌≡◌, refl, ◌∙◌,
  ◌||◌, ap, ◌⊎◌, inl, inr, arith, ltb, ◌==◌, Bytes, pos, Bool-cases, to_long-small, to_long,
  isspace, min,
}
use libpagekite.Libc.Scanf.{
  Sign, is_hex, hex_value, scan_hex, sscanf_lx, skip_space, sign_of, after_sign, after_0x,
  starts_with_digit,
}
use libpagekite.Libc.Printf.{hex_digit, hex_loop, to_hex}

hex_digit_lem : (d : ℕ) → d < 16 → (is_hex (hex_digit d) ≡ true) × (hex_value (hex_digit d) ≡ d)
unfolding hex_digit is_hex hex_value
hex_digit_lem d h = ground arith

scan_hex-cons :
    (v c : ℕ) (s : Bytes) → is_hex c ≡ true → scan_hex v (c ∷ s) ≡ scan_hex (v * 16 + hex_value c) s
unfolding scan_hex
scan_hex-cons v c s h = rw h

scan_hex_digit :
    (v d : ℕ) (s : Bytes) → d < 16 → scan_hex v (hex_digit d ∷ s) ≡ scan_hex (v * 16 + d) s
scan_hex_digit v d s h =
    let (is, val) = hex_digit_lem d h in
    scan_hex-cons v (hex_digit d) s is ∙ ap (λ k. scan_hex (v * 16 + k) s) val

scan_hex-hex_loop : (f n : ℕ) (out : Bytes) → n < f → scan_hex 0 (hex_loop f n out) ≡ scan_hex n out
unfolding hex_loop
scan_hex-hex_loop zero n out h = elim h [ ]
scan_hex-hex_loop (suc f) n out h = elim (Bool-cases (ltb n 16)) [
  | inl small ↦
      rw small (scan_hex_digit 0 n out (ground arith) ∙ ap (λ k. scan_hex k out) (omega arith))
  | inr big ↦ rw big (
      scan_hex-hex_loop f (n / 16) (hex_digit (n % 16) ∷ out) (ground arith)
      ∙ scan_hex_digit (n / 16) (n % 16) out (omega arith)
      ∙ ap (λ k. scan_hex k out) (omega arith))
]

-- What follows the digits: neither a digit nor an x.
abbrev pub Ends : Bytes → Type 0
Ends [] = Unit {0}
Ends (c ∷ s) = (is_hex c ≡ false) × ((c == b'x' || c == b'X') ≡ false)

hex_loop-append : (f n : ℕ) (out s : Bytes) → hex_loop f n out ++ s ≡ hex_loop f n (out ++ s)
unfolding hex_loop
hex_loop-append zero n out s = refl
hex_loop-append (suc f) n out s = elim (Bool-cases (ltb n 16)) [
  | inl small ↦ rw small
  | inr big ↦ rw big (hex_loop-append f (n / 16) (hex_digit (n % 16) ∷ out) s)
]

scan_hex-Ends : (n : ℕ) (s : Bytes) → Ends s → scan_hex n s ≡ n
unfolding scan_hex
scan_hex-Ends n [] e = refl
scan_hex-Ends n (c ∷ s) (h, _) = rw h

-- The number read from digits with anything else behind them.
pub scan_hex-to_hex : (n : ℕ) (s : Bytes) → Ends s → scan_hex 0 (to_hex n ++ s) ≡ n
unfolding to_hex
scan_hex-to_hex n s e =
    ap (scan_hex 0) (hex_loop-append (suc n) n [] s)
    ∙ scan_hex-hex_loop (suc n) n s (omega arith)
    ∙ scan_hex-Ends n s e

-- A number begins the text, and it is not the 0 of a 0x.
abbrev Leads : Bytes → Type 0
Leads [] = ⊥
Leads (c ∷ t) = (is_hex c ≡ true) × (((c == b'0') ≡ false) ⊎ Ends t)

hex_loop-Leads : (f n : ℕ) (out : Bytes) → n < f → (0 < n) ⊎ Ends out → Leads (hex_loop f n out)
unfolding hex_loop
hex_loop-Leads zero n out h e = elim h [ ]
hex_loop-Leads (suc f) n out h e = elim (Bool-cases (ltb n 16)) [
  | inl small ↦ rw small ((hex_digit_lem n (ground arith)).0, first e)
  | inr big ↦
      rw big
        (hex_loop-Leads f (n / 16) (hex_digit (n % 16) ∷ out) (ground arith) (inl (ground arith)))
]
  where
    first : (0 < n) ⊎ Ends out → ((hex_digit n == b'0') ≡ false) ⊎ Ends out
    first (inl p) = inl (unfold hex_digit in ground arith)
    first (inr e) = inr e

to_hex-Leads : (n : ℕ) (s : Bytes) → Ends s → Leads (to_hex n ++ s)
unfolding to_hex
to_hex-Leads n s e = rw hex_loop-append (hex_loop-Leads (suc n) n s (omega arith) (inr e))

-- `after_0x` leaves such a text alone, and there is no blank or sign in front of it.
after_0x-Leads : (s : Bytes) → Leads s → after_0x s ≡ s
unfolding after_0x
after_0x-Leads [] h = absurd h
after_0x-Leads (c ∷ []) h = refl
after_0x-Leads (c ∷ x ∷ s) h = ground arith

skip_space-Leads :
    (s : Bytes)
    → Leads s
    → (skip_space s ≡ s)
      × (sign_of s ≡ Sign.plus)
      × (after_sign s ≡ s)
      × (starts_with_digit is_hex s ≡ true)
unfolding skip_space sign_of after_sign starts_with_digit isspace is_hex
skip_space-Leads [] h = absurd h
skip_space-Leads (c ∷ s) h = (ground arith, ground arith, ground arith, h.0)

sscanf_lx-Leads :
    (s : Bytes) → Leads s → scan_hex 0 s < 2 ^ 63 → sscanf_lx s ≡ some (pos (scan_hex 0 s))
unfolding sscanf_lx
sscanf_lx-Leads s h small =
    let (a, b, c, d) = skip_space-Leads s h in
    rw (a, b, c, after_0x-Leads s h, d)
      (ap some (
        ap to_long (let e : min (scan_hex 0 s) (2 ^ 64 - 1) ≡ scan_hex 0 s = omega arith in e)
        ∙ to_long-small (scan_hex 0 s) small))

-- sscanf("%lx") reads back what sprintf("%zx") wrote, whatever stands behind the digits.
pub sscanf_lx-to_hex :
    (n : ℕ) (s : Bytes) → n < 2 ^ 63 → Ends s → sscanf_lx (to_hex n ++ s) ≡ some (pos n)
sscanf_lx-to_hex n s small e =
    let read = scan_hex-to_hex n s e in
    sscanf_lx-Leads (to_hex n ++ s) (to_hex-Leads n s e) (rw read small)
    ∙ ap (λ k. some (pos k)) read
