-- ===== src/Proto/Response/Room.antt =====
-- pk_parse_pagekite_response() (libpagekite/pkproto.c) stays within the requests that it allocates.
use libpagekite.Base.{
  ℕ, zero, suc, ◌+◌, ◌-◌, ◌≤◌, ◌<◌, ◌≡◌, ◌≢◌, refl, ap, ◌∙◌, inl, inr, Bool, true, false, not, ◌&&◌,
  ◌||◌, [], ◌∷◌, ◌++◌, Option, arith, leb, ◌==◌, if◌then◌else◌, OfSome, Bytes, length, take, drop,
  replicate, length-append, Bool-cases, All, has_prefix_nocase, cstr, tolower,
}
use libpagekite.Proto.Kite.{KiteRequest, pk_parse_kite_request}
use libpagekite.Utils.Lines.{eol_loop, zero_first_eol}
use libpagekite.Proto.Response.{
  KiteStatus, line_status, line_session, keeps, is_unknown, x_pagekite, count_marks,
  count_responses, walk_lines, pk_parse_pagekite_response,
}
use libpagekite.Proto.Response.Ends.{eol_loop-CutsEol, eol_loop-prefix}

count_marks-drop : (n : ℕ) (m : Bytes) → count_marks (drop n m) ≤ count_marks m
unfolding count_marks
count_marks-drop zero m = omega arith
count_marks-drop (suc n) [] = omega arith
count_marks-drop (suc n) (c ∷ m) = omega (arith, count_marks-drop n m)

-- A line that begins with the mark, and what is behind it.
count_marks-line :
    (n : ℕ) (m : Bytes)
    → has_prefix_nocase m x_pagekite ≡ true
    → 0 < n
    → count_marks (drop n m) + 1 ≤ count_marks m
unfolding count_marks
count_marks-line zero m h lt = absurd (omega arith)
count_marks-line (suc n) [] h lt = unfold has_prefix_nocase in cc
count_marks-line (suc n) (c ∷ m) h lt = rw h (omega (arith, count_marks-drop n m))

count_marks-some : (m : Bytes) → has_prefix_nocase m x_pagekite ≡ true → 1 ≤ count_marks m
count_marks-some m h = omega (arith, count_marks-line 1 m h (omega arith))

known_line :
    (line : Bytes)
    → is_unknown (line_status line) ≡ false
    → has_prefix_nocase line x_pagekite ≡ true
unfolding line_status
known_line line h = elim (Bool-cases (has_prefix_nocase line x_pagekite)) [
  | inl marked ↦ marked
  | inr other ↦ let h' : is_unknown KiteStatus.unknown ≡ false = rw (line_status, other) at h in cc
]

module _ (fresh : ℕ → KiteRequest) where
  -- There are no more requests than marks.
  walk_lines-length :
      (fuel i : ℕ) (r : KiteRequest) (id : Option Bytes) (mem : Bytes)
      → length (walk_lines fresh fuel i r id mem).requests ≤ count_marks mem
  unfolding walk_lines zero_first_eol
  walk_lines-length zero i r id mem = omega arith
  walk_lines-length (suc fuel) i r id mem =
      let cut = eol_loop (length mem) mem in
      let c = eol_loop-CutsEol (length mem) mem in
      let status = line_status (cstr cut.1) in
      let p = pk_parse_kite_request (cstr cut.1) r in
      let next = keeps status p.2 in
      let ih = λ (j : ℕ) (q : KiteRequest).
        walk_lines-length fuel j q (line_session cut.1 id) (drop cut.0 cut.1) in
      let same : count_marks (drop cut.0 cut.1) ≡ count_marks (drop cut.0 mem) =
        ap count_marks c.behind' in
      elim (Bool-cases next) [
        | inr skip ↦ elim (Bool-cases (cut.0 == 0)) [
          | inl last ↦ rw (skip, last) (omega arith)
          | inr goes ↦
              rw (skip, goes)
                (omega (
                  arith,
                  ih i (if is_unknown status then r else p.0),
                  same,
                  count_marks-drop cut.0 mem,
                ))
        ]
        | inl keep ↦
            let marked : has_prefix_nocase mem x_pagekite ≡ true =
              eol_loop-prefix (length mem) mem x_pagekite
                (known_line (cstr cut.1) (unfold keeps in ground arith)) in
            elim (Bool-cases (cut.0 == 0)) [
              | inl last ↦ rw (keep, last) (count_marks-some mem marked)
              | inr goes ↦
                  rw (keep, goes)
                    (omega (
                      arith,
                      ih (suc i) (fresh (suc i)),
                      same,
                      count_marks-line cut.0 mem marked (ground arith),
                    ))
            ]
      ]

-- The mark is not found across a NUL.
prefix-nul :
    (s t lit : Bytes)
    → All (λ l. (tolower 0 == tolower l) ≡ false) lit
    → has_prefix_nocase (s ++ 0 ∷ t) lit ≡ has_prefix_nocase s lit
unfolding has_prefix_nocase
prefix-nul s t [] _ = refl
prefix-nul [] t (l ∷ lit) (h, _) = rw h refl
prefix-nul (c ∷ s) t (l ∷ lit) (_, hs) =
    ap (λ b. (tolower c == tolower l) && b) (prefix-nul s t lit hs)

mark-no_nul : All (λ l. (tolower 0 == tolower l) ≡ false) x_pagekite
unfolding tolower
mark-no_nul =
    (refl, (refl, (refl, (refl, (refl, (refl, (refl, (refl, (refl, (refl, (refl, tt)))))))))))

count_marks-zeros : (k : ℕ) → count_marks (replicate k 0) ≡ 0
unfolding count_marks
count_marks-zeros zero = refl
count_marks-zeros (suc k) =
    let none_here : has_prefix_nocase (0 ∷ replicate k 0) x_pagekite ≡ false =
      prefix-nul [] (replicate k 0) x_pagekite mark-no_nul ∙ unfold has_prefix_nocase in refl in
    rw none_here (omega (arith, count_marks-zeros k))

count_marks-text : (k : ℕ) (s : Bytes) → count_marks (s ++ 0 ∷ replicate k 0) ≡ count_marks s
unfolding count_marks
count_marks-text k [] = count_marks-zeros (suc k)
count_marks-text k (c ∷ s) =
    rw (prefix-nul (c ∷ s) (replicate k 0) x_pagekite mark-no_nul)
      (omega (arith, count_marks-text k s))

cstr-take : (k : ℕ) (s t : Bytes) → All (λ c. c ≢ 0) s → cstr (take (length s + k) (s ++ 0 ∷ t)) ≡ s
cstr-take zero [] t _ = refl
cstr-take (suc k) [] t _ = let e : 0 + suc k ≡ suc k = omega arith in rw e refl
cstr-take k (c ∷ s) t (h, hs) =
    let e : suc (length s) + k ≡ suc (length s + k) = omega arith in
    rw e (ground (arith, cstr-take k s t hs))

length-replicate : (k : ℕ) → length {A = ℕ} (replicate k 0) ≡ k
length-replicate zero = refl
length-replicate (suc k) = ap suc (length-replicate k)

-- On a buffer that holds a text without NUL bytes, and NUL bytes behind it, pk_parse_pagekite_response()
-- returns fewer requests than it allocates, so that the last one is left for the mark of the end; or it
-- returns NULL.
pub pk_parse_pagekite_response-Room :
    (fresh : ℕ → KiteRequest) (malloced : Bool) (k : ℕ) (text : Bytes) (id : Option Bytes)
    → All (λ c. c ≢ 0) text
    → OfSome
        (λ r. length r.requests < count_responses (text ++ 0 ∷ replicate k 0))
        (pk_parse_pagekite_response fresh malloced (text ++ 0 ∷ replicate k 0) id)
unfolding pk_parse_pagekite_response
pk_parse_pagekite_response-Room fresh malloced k text id h =
    let buffer = text ++ 0 ∷ replicate k 0 in
    elim (Bool-cases (leb 1000 (count_responses buffer) || not malloced)) [
      | inl fails ↦ rw fails tt
      | inr goes ↦
          let size : length buffer - 1 ≡ length text + k =
            omega (arith, length-append text (0 ∷ replicate k 0), length-replicate k) in
          let counted : count_responses buffer ≡ 1 + count_marks text =
            unfold count_responses in
            rw size (ap (λ s. 1 + count_marks s) (cstr-take k text (replicate k 0) h)) in
          let few = walk_lines-length fresh (suc (length buffer)) 0 (fresh 0) id buffer in
          rw goes (omega (arith, counted, few, count_marks-text k text))
    ]
