-- ===== src/Proto/Response/Ends.antt =====
-- What zero_first_eol() cuts off, and that the loop of pk_parse_pagekite_response() ends (pkproto.c).
use libpagekite.Base.{
  ℕ, zero, suc, ◌+◌, ◌<◌, ◌≡◌, refl, ap, inl, inr, true, ◌&&◌, [], ◌∷◌, Option, arith, ltb, ◌==◌,
  if◌then◌else◌, Bytes, length, drop, length-drop, Bool-cases, has_prefix_nocase, cstr,
}
use libpagekite.Proto.Kite.{KiteRequest, pk_parse_kite_request}
use libpagekite.Utils.Lines.{behind, eol_loop, zero_first_eol}
use libpagekite.Proto.Response.{line_status, line_session, keeps, is_unknown, walk_lines}

-- The memory behind what was cut off is what it was, and the line in front of it begins with no text
-- that the memory did not begin with.
pub record CutsEol (m : Bytes) (r : ℕ × Bytes) : Type 0 where
  pub behind' : drop r.0 r.1 ≡ drop r.0 m
  pub size : length r.1 ≡ length m

behind-drop :
    (a n : ℕ) (m m' : Bytes)
    → drop n m' ≡ drop n m
    → length m' ≡ length m
    → CutsEol (a ∷ m) (behind a (n, m'))
behind-drop a zero m m' e l = record { behind' = ap (◌∷◌ a) e; size = ap suc l }
behind-drop a (suc n) m m' e l =
    let steps : (if suc n == 0 then 0 else suc (suc n)) ≡ suc (suc n) = ground arith in
    record { behind' = rw steps e; size = ap suc l }

pub eol_loop-CutsEol : (k : ℕ) (m : Bytes) → CutsEol m (eol_loop k m)
unfolding eol_loop
eol_loop-CutsEol zero m = record { behind' = refl; size = refl }
eol_loop-CutsEol (suc k) [] = record { behind' = refl; size = refl }
eol_loop-CutsEol (suc k) (a ∷ []) = elim (Bool-cases (a == 10)) [
  | inl lf ↦ rw lf (record { behind' = refl; size = refl })
  | inr other ↦ rw other (record { behind' = refl; size = refl })
]
eol_loop-CutsEol (suc k) (a ∷ b ∷ m) =
    let rest = eol_loop-CutsEol k (b ∷ m) in
    elim (Bool-cases (ltb 0 k && a == 13 && b == 10)) [
      | inl crlf' ↦ rw crlf' (record { behind' = refl; size = refl })
      | inr no_crlf ↦ elim (Bool-cases (a == 10)) [
        | inl lf ↦ rw (no_crlf, lf) (record { behind' = refl; size = refl })
        | inr other ↦
            rw (no_crlf, other)
              (behind-drop a (eol_loop k (b ∷ m)).0 (b ∷ m) (eol_loop k (b ∷ m)).1 rest.behind'
                rest.size)
      ]
    ]

-- Prefixes of the cut line.
pub eol_loop-prefix :
    (k : ℕ) (m lit : Bytes)
    → has_prefix_nocase (cstr (eol_loop k m).1) lit ≡ true
    → has_prefix_nocase m lit ≡ true
unfolding eol_loop has_prefix_nocase
eol_loop-prefix k m [] h = refl
eol_loop-prefix zero [] (l ∷ lit) h = h
eol_loop-prefix zero (a ∷ m) (l ∷ lit) h = cstr-prefix (a ∷ m) (l ∷ lit) h
  where
    cstr-prefix :
        (m lit : Bytes) → has_prefix_nocase (cstr m) lit ≡ true → has_prefix_nocase m lit ≡ true
    cstr-prefix m [] h = refl
    cstr-prefix [] (l ∷ lit) h = h
    cstr-prefix (a ∷ m) (l ∷ lit) h = ground (arith, cstr-prefix m lit)
eol_loop-prefix (suc k) [] (l ∷ lit) h = h
eol_loop-prefix (suc k) (a ∷ []) (l ∷ lit) h = ground arith
eol_loop-prefix (suc k) (a ∷ b ∷ m) (l ∷ lit) h = ground (arith, eol_loop-prefix k (b ∷ m) lit)

module _ (fresh : ℕ → KiteRequest) where
  -- With more rounds than there are bytes, the number of rounds does not matter.
  pub walk_lines-fuel :
      (fuel more i : ℕ) (r : KiteRequest) (id : Option Bytes) (mem : Bytes)
      → length mem < fuel
      → walk_lines fresh (fuel + more) i r id mem ≡ walk_lines fresh fuel i r id mem
  unfolding walk_lines zero_first_eol
  walk_lines-fuel zero more i r id mem lt = absurd (omega arith)
  walk_lines-fuel (suc fuel) more i r id mem lt =
      let cut = eol_loop (length mem) mem in
      let c = eol_loop-CutsEol (length mem) mem in
      let status = line_status (cstr cut.1) in
      let p = pk_parse_kite_request (cstr cut.1) r in
      let next = keeps status p.2 in
      let r' = if next then fresh (suc i) else if is_unknown status then r else p.0 in
      let sum : suc fuel + more ≡ suc (fuel + more) = omega arith in
      elim (Bool-cases (cut.0 == 0)) [
        | inl last ↦ rw (sum, last) refl
        | inr goes ↦
            let shorter : length (drop cut.0 cut.1) < fuel =
              ground (arith, length-drop cut.0 cut.1, c.size) in
            let ih =
              walk_lines-fuel fuel more (if next then suc i else i) r' (line_session cut.1 id)
                (drop cut.0 cut.1) shorter in
            rw (sum, goes, ih) refl
      ]
