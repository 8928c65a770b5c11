-- ===== src/Base/Ascii.antt =====
-- Bytes, text constants, and the C library's comparisons that ignore case.
use Prim.Native.Nat.{ℕ, ◌+◌}
use Prim.Native.Char.{code}
use Prim.Native.String.{String}
use mathlib.Core.Path.{◌≡◌, refl}
use mathlib.Core.Bool.{Bool, true, false, ◌&&◌, ◌||◌}
use mathlib.Core.Logic.{◌≢◌}
use mathlib.Core.List.{List, [], ◌∷◌, ◌++◌}
use native.Mathlib.Omega.{arith}
use libpagekite.Base.Tests.{leb, ◌==◌, if◌then◌else◌}

abbrev pub Bytes : Type 0
Bytes = List ℕ

-- The bytes of an ASCII text.
abbrev pub codes : String → Bytes
codes String.[] = []
codes (String.◌∷◌ c s) = code c ∷ codes s

abbrev pub crlf : Bytes
crlf = 13 ∷ 10 ∷ []

module _ {ℓ κ} {A : Type ℓ} (P : A → Type κ) where
  abbrev pub All : List A → Type κ
  All [] = Unit
  All (x ∷ xs) = P x × All xs

  pub All-append : (xs ys : List A) → All xs → All ys → All (xs ++ ys)
  All-append [] ys _ hy = hy
  All-append (x ∷ xs) ys (px, hx) hy = (px, All-append xs ys hx hy)

pub All-map {ℓ κ κ'} :
    {A : Type ℓ} {P : A → Type κ} {Q : A → Type κ'} (f : (a : A) → P a → Q a) (xs : List A)
    → All P xs
    → All Q xs
All-map f [] _ = tt
All-map f (x ∷ xs) (px, h) = (f x px, All-map f xs h)

-- tolower() in the C locale.
unfoldable pub tolower : ℕ → ℕ
tolower c = if leb b'A' c && leb c b'Z' then c + 32 else c

-- isspace() in the C locale: blank, and \t \n \v \f \r.
unfoldable pub isspace : ℕ → Bool
isspace c = c == 32 || (leb 9 c && leb c 13)

-- 0 == strncasecmp(s, lit, strlen(lit)), for a `lit` without NUL bytes. What ends the list ends
-- the C string.
unfoldable pub has_prefix_nocase : Bytes → Bytes → Bool
unfolding tolower
has_prefix_nocase s [] = true
has_prefix_nocase [] (l ∷ lit) = false
has_prefix_nocase (c ∷ s) (l ∷ lit) = tolower c == tolower l && has_prefix_nocase s lit

-- The C string that starts at the head of a piece of memory.
abbrev pub cstr : Bytes → Bytes
cstr [] = []
cstr (c ∷ s) = if c == 0 then [] else c ∷ cstr s

pub cstr-append : (s t : Bytes) → All (λ c. c ≢ 0) s → cstr (s ++ (0 ∷ t)) ≡ s
cstr-append [] t h = refl
cstr-append (c ∷ s) t (h, hs) = ground (arith, cstr-append s t hs)
