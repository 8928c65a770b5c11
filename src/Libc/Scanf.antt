-- ===== src/Libc/Scanf.antt =====
-- The conversions of sscanf() that the source uses: %lx, %d and %ld, as glibc makes them.
use libpagekite.Base.{
  ℕ, ◌+◌, ◌-◌, ◌*◌, ◌^◌, min, Bool, false, ◌&&◌, ◌||◌, [], ◌∷◌, Option, none, some, ltb, leb, ◌==◌,
  if◌then◌else◌, Bytes, isspace, ℤ, pos, negsuc, to_int, to_long,
}

unfoldable pub skip_space : Bytes → Bytes
skip_space [] = []
skip_space (c ∷ s) = if isspace c then skip_space s else c ∷ s

unfoldable pub is_digit : ℕ → Bool
is_digit c = leb b'0' c && leb c b'9'

unfoldable pub is_hex : ℕ → Bool
unfolding is_digit
is_hex c = is_digit c || (leb b'a' c && leb c b'f') || (leb b'A' c && leb c b'F')

unfoldable pub hex_value : ℕ → ℕ
hex_value c = if leb b'a' c then c - 87 else if leb b'A' c then c - 55 else c - 48

-- The number that the leading digits spell behind `v`.
unfoldable pub scan_dec : ℕ → Bytes → ℕ
unfolding is_digit
scan_dec v [] = v
scan_dec v (c ∷ s) = let more = scan_dec (v * 10 + (c - b'0')) s in if is_digit c then more else v

unfoldable pub scan_hex : ℕ → Bytes → ℕ
unfolding is_hex hex_value
scan_hex v [] = v
scan_hex v (c ∷ s) = let more = scan_hex (v * 16 + hex_value c) s in if is_hex c then more else v

pub data Sign : Type 0 where
  plus minus : Sign

-- An optional sign.
unfoldable pub sign_of : Bytes → Sign
sign_of [] = plus
sign_of (c ∷ s) = if c == b'-' then minus else plus

unfoldable pub after_sign : Bytes → Bytes
after_sign [] = []
after_sign (c ∷ s) = if c == b'-' || c == b'+' then s else c ∷ s

unfoldable pub starts_with_digit : (ℕ → Bool) → Bytes → Bool
starts_with_digit p [] = false
starts_with_digit p (c ∷ s) = p c

-- An optional 0x.
unfoldable pub after_0x : Bytes → Bytes
after_0x (c ∷ x ∷ s) = if c == b'0' && (x == b'x' || x == b'X') then s else c ∷ x ∷ s
after_0x s = s

-- strtol() saturates at the ends of `long`.
unfoldable pub signed_value : Sign → ℕ → ℤ
signed_value plus v = pos (min v (2 ^ 63 - 1))
signed_value minus v = if v == 0 then pos 0 else negsuc (min (v - 1) (2 ^ 63 - 1))

-- strtoul() saturates at ULONG_MAX, and otherwise negates modulo 2 ^ 64.
unfoldable pub unsigned_value : Sign → ℕ → ℕ
unsigned_value plus v = min v (2 ^ 64 - 1)
unsigned_value minus v = if ltb v (2 ^ 64) then (2 ^ 64 - v) else 2 ^ 64 - 1

unfoldable pub scan_long : Bytes → Option ℤ
unfolding skip_space sign_of after_sign starts_with_digit signed_value scan_dec
scan_long s =
    let t = skip_space s in
    let u = after_sign t in
    if starts_with_digit is_digit u then some (signed_value (sign_of t) (scan_dec 0 u)) else none

-- sscanf(s, "%d", &x): what it stores, if it converts.
unfoldable pub sscanf_d : Bytes → Option ℤ
unfolding scan_long to_int
sscanf_d s = elim (scan_long s) [ none ↦ none | some v ↦ some (to_int v) ]

-- sscanf(s, "%ld", &x)
unfoldable pub sscanf_ld : Bytes → Option ℤ
unfolding scan_long
sscanf_ld s = scan_long s

-- sscanf(s, "%lx", (unsigned long*) &x) with `x` read as a ssize_t.
unfoldable pub sscanf_lx : Bytes → Option ℤ
unfolding skip_space sign_of after_sign starts_with_digit unsigned_value scan_hex to_long after_0x
sscanf_lx s =
    let t = skip_space s in
    let u = after_0x (after_sign t) in
    if starts_with_digit is_hex u
    then some (to_long (unsigned_value (sign_of t) (scan_hex 0 u)))
    else none
