-- ===== src/Utils/Printable/Laws.antt =====
-- What printable_binary() (libpagekite/pkutils.c) writes.
use libpagekite.Base.{
  ℕ, suc, ◌+◌, ◌-◌, ◌/◌, ◌%◌, ◌≤◌, ◌<◌, ◌≡◌, refl, sym, ap, ◌∙◌, inl, inr, ◌⊎◌, true, ◌||◌, [], ◌∷◌,
  ◌++◌, append_assoc, arith, ltb, ◌==◌, Bytes, Bool-cases, All, All-append, length, length-append,
  take,
}
use libpagekite.Libc.{hex_digit}
use libpagekite.Utils.Printable.{isgraph, escaped, printable_binary}

-- The text of all of some bytes.
abbrev pub escape : Bytes → Bytes
escape [] = []
escape (c ∷ src) = escaped c ++ escape src

abbrev pub Printable : Bytes → Type 0
Printable = All (λ c. (isgraph c || c == 32) ≡ true)

hex_digit-isgraph : (d : ℕ) → d < 16 → (isgraph (hex_digit d) || hex_digit d == 32) ≡ true
unfolding hex_digit isgraph
hex_digit-isgraph d h = ground arith

escaped-Printable : (c : ℕ) → c < 256 → Printable (escaped c)
unfolding escaped isgraph
escaped-Printable c h =
    ground (
      arith,
      hex_digit-isgraph (c / 16) (omega (arith, h)),
      hex_digit-isgraph (c % 16) (omega arith),
    )

-- With room for at least the NUL, on bytes: the buffer is not overrun; what it holds is the text of the
-- bytes that were taken and a NUL, which all prints; and a byte was left only if its text and the NUL did
-- not fit any more.
pub printable_binary-fits :
    (dlen : ℕ) (src : Bytes)
    → 1 ≤ dlen
    → All (λ c. c < 256) src
    → let r = printable_binary dlen src in
      (length r.0 ≤ dlen)
      × (r.0 ≡ escape (take r.1 src) ++ 0 ∷ [])
      × Printable (escape (take r.1 src))
      × (r.1 ≤ length src)
      × ((r.1 ≡ length src) ⊎ (dlen < length (escape (take (r.1 + 1) src)) + 1))
unfolding printable_binary
printable_binary-fits dlen [] h bytes = (omega arith, refl, tt, omega arith, inl refl)
printable_binary-fits dlen (c ∷ src) h (b, bytes) =
    elim (Bool-cases (ltb dlen (length (escaped c) + 1))) [
      | inl full ↦
          rw full
            (omega arith, refl, tt, omega arith, inr (ground (arith, length-append (escaped c) [])))
      | inr room ↦
          let (le, text, prints, within, most) =
            printable_binary-fits (dlen - length (escaped c)) src (ground arith) bytes in
          let r = printable_binary (dlen - length (escaped c)) src in
          let fits : length (escaped c) + 1 ≤ dlen = ground arith in
          let one : r.1 + 1 ≡ suc r.1 = omega arith in
          let two : r.1 + 1 + 1 ≡ suc (r.1 + 1) = omega arith in
          let next : (r.1 + 1 ≡ suc (length src))
              ⊎ (dlen < length (escape (take (r.1 + 1 + 1) (c ∷ src))) + 1) =
            elim most [
              | inl all ↦ inl (omega (arith, all))
              | inr left ↦ inr (
                  rw two
                    (omega (arith, length-append (escaped c) (escape (take (r.1 + 1) src)), left)))
            ] in
          rw room (
            omega (arith, length-append (escaped c) r.0, le),
            rw one (
                ap (λ t. escaped c ++ t) text
                ∙ sym (append_assoc (escaped c) (escape (take r.1 src)) (0 ∷ []))),
            rw one (
                All-append (λ c. (isgraph c || c == 32) ≡ true) (escaped c) (escape (take r.1 src))
                  (escaped-Printable c b) prints),
            omega (arith, within),
            next,
          )
    ]
