-- ===== src/Libc/Printf.antt =====
-- The conversions of sprintf() that the source uses: %zx and %d.
use libpagekite.Base.{
  ℕ, zero, suc, ◌+◌, ◌/◌, ◌%◌, [], ◌∷◌, ltb, if◌then◌else◌, Bytes, ℤ, pos, negsuc,
}

unfoldable pub hex_digit : ℕ → ℕ
hex_digit d = if ltb d 10 then 48 + d else 87 + d

-- The digits of `n` in front of `out`; one round for each digit, and n + 1 rounds are enough.
unfoldable pub hex_loop : ℕ → ℕ → Bytes → Bytes
hex_loop zero n out = out
hex_loop (suc f) n out =
    let more = hex_loop f (n / 16) (hex_digit (n % 16) ∷ out) in
    if ltb n 16 then hex_digit n ∷ out else more

-- sprintf(buf, "%zx", n)
unfoldable pub to_hex : ℕ → Bytes
unfolding hex_loop hex_digit
to_hex n = hex_loop (suc n) n []

unfoldable pub dec_loop : ℕ → ℕ → Bytes → Bytes
dec_loop zero n out = out
dec_loop (suc f) n out =
    let more = dec_loop f (n / 10) ((48 + n % 10) ∷ out) in
    if ltb n 10 then (48 + n) ∷ out else more

-- sprintf(buf, "%d", n)
unfoldable pub to_dec : ℤ → Bytes
unfolding dec_loop
to_dec (pos n) = dec_loop (suc n) n []
to_dec (negsuc n) = b'-' ∷ dec_loop (suc (suc n)) (suc n) []
