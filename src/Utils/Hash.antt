-- ===== src/Utils/Hash.antt =====
-- libpagekite/pkutils.c: murmur3_32() on the bytes of a key, on a machine whose words begin with the
-- lowest byte. A uint32_t is a number below 2 ^ 32.
use Prim.Native.Nat.{bit_or, bit_xor}
use libpagekite.Base.{ℕ, ◌+◌, ◌*◌, ◌/◌, ◌%◌, ◌^◌, [], ◌∷◌, Bytes, length}

abbrev mul32 : ℕ → ℕ → ℕ
mul32 a b = a * b % 2 ^ 32

-- (k << n) | (k >> (32 - n)), for `up` = 2 ^ n and `down` = 2 ^ (32 - n).
abbrev rotated : ℕ → ℕ → ℕ → ℕ
rotated up down k = bit_or (mul32 k up) (k / down)

unfoldable pub scrambled : ℕ → ℕ
scrambled k = mul32 (rotated (2 ^ 15) (2 ^ 17) (mul32 k 0xcc9e2d51)) 0x1b873593

-- A round of the first loop.
unfoldable pub hash_word : ℕ → ℕ → ℕ
unfolding scrambled
hash_word h k =
    let h' = rotated (2 ^ 13) (2 ^ 19) (bit_xor h (scrambled k)) in
    (h' + (mul32 h' 4 + 0xe6546b64) % 2 ^ 32) % 2 ^ 32

-- The loop that shifts the rest of the key into `k`, the last byte first.
unfoldable pub tail_word : Bytes → ℕ
tail_word [] = 0
tail_word (b ∷ bs) = bit_or (mul32 (tail_word bs) 256) b

-- The words of the key, and the rest of it.
unfoldable pub hash_bytes : ℕ → Bytes → ℕ
unfolding hash_word scrambled tail_word
hash_bytes h (a ∷ b ∷ c ∷ d ∷ rest) =
    hash_bytes (hash_word h (a + (b * 2 ^ 8 + (c * 2 ^ 16 + d * 2 ^ 24)))) rest
hash_bytes h [] = h
hash_bytes h (a ∷ []) = bit_xor h (scrambled (tail_word (a ∷ [])))
hash_bytes h (a ∷ b ∷ []) = bit_xor h (scrambled (tail_word (a ∷ b ∷ [])))
hash_bytes h (a ∷ b ∷ c ∷ []) = bit_xor h (scrambled (tail_word (a ∷ b ∷ c ∷ [])))

abbrev xor_shifted : ℕ → ℕ → ℕ
xor_shifted down h = bit_xor h (h / down)

unfoldable pub finish_hash : ℕ → ℕ
finish_hash h =
    let h1 = mul32 (xor_shifted (2 ^ 16) h) 0x85ebca6b in
    let h2 = mul32 (xor_shifted (2 ^ 13) h1) 0xc2b2ae35 in xor_shifted (2 ^ 16) h2

unfoldable pub murmur3_32 : Bytes → ℕ
unfolding hash_bytes finish_hash
murmur3_32 key = finish_hash (bit_xor (hash_bytes 0xd3632a4d key) (length key))
