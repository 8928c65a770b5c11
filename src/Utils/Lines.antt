-- ===== src/Utils/Lines.antt =====
-- libpagekite/pkutils.c: the functions that cut a line out of a buffer by writing NUL bytes. Each
-- takes a length, a C int, and the memory from `data` on; it returns the offset behind what it
-- found, or 0, and the memory. The memory may go on behind the length; where it
-- ends before, a loop of the source runs past it, and ends here with 0.
pub mod Laws
pub mod Behind
use libpagekite.Base.{
  ℕ, zero, suc, ◌+◌, ◌-◌, Bool, true, false, ◌&&◌, List, [], ◌∷◌, ◌==◌, ltb, if◌then◌else◌, Bytes,
  isspace, ℤ, pos, negsuc, ◌-ℤ◌, ltb_ℤ,
}

-- The result one byte further on.
abbrev pub behind : ℕ → ℕ × Bytes → ℕ × Bytes
behind c (n, m) = (if n == 0 then 0 else suc n, c ∷ m)

-- `rounds` is length - 1 - i.
unfoldable pub crlf_loop : ℕ → Bytes → ℕ × Bytes
crlf_loop zero m = (0, m)
crlf_loop (suc k) [] = (0, [])
crlf_loop (suc k) (a ∷ []) = (0, a ∷ [])
crlf_loop (suc k) (a ∷ b ∷ m) =
    let rest = behind a (crlf_loop k (b ∷ m)) in if a == 13 && b == 10 then (2, 0 ∷ 0 ∷ m) else rest

unfoldable pub zero_first_crlf : ℤ → Bytes → ℕ × Bytes
unfolding crlf_loop
zero_first_crlf (pos n) m = crlf_loop (n - 1) m
zero_first_crlf (negsuc n) m = (0, m)

-- `rounds` is length - i.
unfoldable pub eol_loop : ℕ → Bytes → ℕ × Bytes
eol_loop zero m = (0, m)
eol_loop (suc k) [] = (0, [])
eol_loop (suc k) (a ∷ []) = if a == 10 then (1, 0 ∷ []) else (0, a ∷ [])
eol_loop (suc k) (a ∷ b ∷ m) =
    let rest = behind a (eol_loop k (b ∷ m)) in
    if ltb 0 k && a == 13 && b == 10
    then (2, 0 ∷ 0 ∷ m)
    else if a == 10
    then (1, 0 ∷ b ∷ m)
    else rest

unfoldable pub zero_first_eol : ℤ → Bytes → ℕ × Bytes
unfolding eol_loop
zero_first_eol (pos n) m = eol_loop n m
zero_first_eol (negsuc n) m = (0, m)

unfoldable pub whitespace_loop : ℕ → Bytes → ℕ × Bytes
whitespace_loop zero m = (0, m)
whitespace_loop (suc k) [] = (0, [])
whitespace_loop (suc k) (a ∷ m) =
    let rest = behind a (whitespace_loop k m) in if isspace a then (1, 0 ∷ m) else rest

unfoldable pub zero_first_whitespace : ℤ → Bytes → ℕ × Bytes
unfolding whitespace_loop
zero_first_whitespace (pos n) m = whitespace_loop n m
zero_first_whitespace (negsuc n) m = (0, m)

-- `left` is the C variable n, which the loop counts down at each occurrence.
unfoldable pub nth_loop : ℕ → ℤ → ℕ → Bytes → ℕ × Bytes
nth_loop zero left c m = (0, m)
nth_loop (suc k) left c [] = (0, [])
nth_loop (suc k) left c (a ∷ m) =
    let hit = a == c in
    let left' = if hit then left -ℤ pos 1 else left in
    let rest = behind a (nth_loop k left' c m) in
    if hit && ltb_ℤ left' (pos 1) then (1, 0 ∷ m) else rest

unfoldable pub zero_nth_char : ℤ → ℕ → ℤ → Bytes → ℕ × Bytes
unfolding nth_loop
zero_nth_char n c (pos length) m = nth_loop length n c m
zero_nth_char n c (negsuc length) m = (0, m)
