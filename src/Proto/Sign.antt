-- ===== src/Proto/Sign.antt =====
-- libpagekite/pkproto.c: pk_sign(), pk_prepare_kite_challenge() with a secret, and pk_sign_kite_request().
-- `sha1` gives the digest of the bytes that the updates add in a row; rand() and random_junk are arguments.
-- The C strings of a kite are without their NUL bytes, and the buffers are as large as the code needs.
pub mod Verifies
use libpagekite.Base.{
  ℕ, zero, suc, ◌+◌, ◌/◌, ◌%◌, ◌^◌, List, [], ◌∷◌, ◌++◌, Option, none, some, ltb, if◌then◌else◌,
  Bytes, codes, take, replicate, set, cstr,
}
use libpagekite.Libc.{to_hex, hex_digit}
use libpagekite.Proto.Kite.{Kite, KiteRequest, challenge_protocol, pk_prepare_kite_challenge}

abbrev pub pk_salt_length : ℕ
pk_salt_length = 36

-- sprintf(c, "%02x", b) for a byte.
unfoldable pub hex_byte : ℕ → Bytes
unfolding hex_digit
hex_byte b = hex_digit (b / 16 % 16) ∷ hex_digit (b % 16) ∷ []

unfoldable pub hex_bytes : Bytes → Bytes
unfolding hex_byte
hex_bytes [] = []
hex_bytes (b ∷ bs) = hex_byte b ++ hex_bytes bs

unfoldable pub digest_to_hex : Bytes → Bytes
unfolding hex_bytes
digest_to_hex digest = hex_bytes (take 20 digest)

-- sprintf(s, "%8.8x", n): k digits of an unsigned int.
unfoldable pub hex_padded : ℕ → ℕ → Bytes
unfolding hex_digit
hex_padded zero n = []
hex_padded (suc k) n = hex_padded k (n / 16) ++ (hex_digit (n % 16) ∷ [])

-- strncpy(buffer, token, 8)
unfoldable pub token_bytes : Bytes → Bytes
token_bytes token = take 8 (token ++ replicate 8 0)

-- "Optionally embed a timestamp to the resolution of 10 minutes"
unfoldable pub timestamp : ℕ → Bytes
unfolding to_hex
timestamp ts = if ltb 0 ts then to_hex (ts / 600) else []

-- The first bytes of the signature.
unfoldable pub signed_token : ℕ → Bytes → Bytes
unfolding token_bytes
signed_token ts token = if ltb 0 ts then set (token_bytes token) 0 b't' else token_bytes token

module _ (sha1 : Bytes → Bytes) where
  -- A token from rand(), when there is none.
  unfoldable pub token_or_random : Bytes → ℕ → Bytes → Option Bytes → Bytes
  unfolding hex_padded digest_to_hex
  token_or_random random_junk rand secret none =
      digest_to_hex (sha1 (secret ++ random_junk ++ hex_padded 8 rand))
  token_or_random random_junk rand secret (some token) = token

  -- A payload that is NULL adds nothing.
  unfoldable pub pk_sign : Bytes → ℕ → Option Bytes → Bytes → ℕ → Bytes → ℕ → Bytes
  unfolding token_or_random signed_token timestamp digest_to_hex
  pk_sign random_junk rand token secret ts payload length =
      let front = signed_token ts (token_or_random random_junk rand secret token) in
      let digest = sha1 (secret ++ payload ++ timestamp ts ++ front) in
      cstr (take length (front ++ digest_to_hex digest))

  -- fsalt is the token, if there is one.
  unfoldable pub fsalt_token : Bytes → Option Bytes
  fsalt_token [] = none
  fsalt_token (c ∷ fsalt) = some (c ∷ fsalt)

  -- pk_prepare_kite_challenge() with a secret.
  unfoldable pub signed_challenge : Bytes → ℕ → KiteRequest → Bytes → ℕ → Bytes
  unfolding pk_sign fsalt_token challenge_protocol
  signed_challenge random_junk rand r secret ts =
      let payload = challenge_protocol r.kite ++ b':' ∷ (r.kite.public_domain ++ b':' ∷ r.bsalt) in
      payload
      ++ b':' ∷ pk_sign random_junk rand (fsalt_token r.fsalt) secret ts payload pk_salt_length

  -- pk_make_salt(): the digest of the junk and of sprintf(buffer, "%x %x", rand(), (int) time(0)).
  unfoldable pub pk_make_salt : Bytes → ℕ → ℕ → Bytes
  unfolding to_hex digest_to_hex
  pk_make_salt random_junk rand time =
      take pk_salt_length (
        digest_to_hex (sha1 (random_junk ++ to_hex (rand % 2 ^ 32) ++ 32 ∷ to_hex (time % 2 ^ 32))))

  unfoldable pub with_salt : Bytes → ℕ → ℕ → KiteRequest → KiteRequest
  unfolding pk_make_salt
  with_salt random_junk rand time r = record r {
    bsalt = elim r.bsalt [ [] ↦ pk_make_salt random_junk rand time | c ∷ bsalt ↦ c ∷ bsalt ];
  }

  -- The text that sprintf() writes to the buffer.
  unfoldable pub pk_sign_kite_request : Bytes → ℕ → ℕ → KiteRequest → ℕ → Bytes
  unfolding with_salt pk_sign hex_padded pk_prepare_kite_challenge
  pk_sign_kite_request random_junk rand time r salt =
      let request = pk_prepare_kite_challenge (with_salt random_junk rand time r) in
      let request_sign =
        pk_sign random_junk rand (some (hex_padded 8 salt)) r.kite.auth_secret 0 request 36 in
      codes "X-PageKite: " ++ (request ++ b':' ∷ request_sign) ++ 13 ∷ 10 ∷ []
