-- ===== src/Utils/Printable.antt =====
-- libpagekite/pkutils.c: printable_binary(), which writes bytes as text into a buffer of `dlen` bytes.
-- The result is what it writes, the NUL included, and what it returns: how many bytes it took.
pub mod Laws
use libpagekite.Base.{
  ℕ, zero, suc, ◌+◌, ◌-◌, ◌/◌, ◌%◌, Bool, true, false, ◌&&◌, ◌||◌, List, [], ◌∷◌, ◌++◌, ltb, leb,
  ◌==◌, if◌then◌else◌, Bytes, codes, length,
}
use libpagekite.Libc.{hex_digit}

-- isgraph() in the C locale.
unfoldable pub isgraph : ℕ → Bool
isgraph c = leb 33 c && leb c 126

-- What one byte becomes; the sprintf() prints two hexadecimal digits.
unfoldable pub escaped : ℕ → Bytes
escaped c =
    if c == 0
    then codes "\\0"
    else if isgraph c || c == 32
    then c ∷ []
    else codes "\\x" ++ hex_digit (c / 16) ∷ hex_digit (c % 16) ∷ []

-- The while loop; each of the three tests of the space asks for the byte's text and a NUL.
unfoldable pub printable_binary : ℕ → Bytes → Bytes × ℕ
printable_binary dlen [] = (0 ∷ [], 0)
printable_binary dlen (c ∷ src) =
    let (text, copied) = printable_binary (dlen - length (escaped c)) src in
    if ltb dlen (length (escaped c) + 1) then (0 ∷ [], 0) else (escaped c ++ text, copied + 1)
