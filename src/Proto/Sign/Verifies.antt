-- ===== src/Proto/Sign/Verifies.antt =====
-- A signature contains what is needed to check it (libpagekite/pkproto.c).
use libpagekite.Base.{
  ℕ, zero, suc, ◌/◌, ◌%◌, ◌≤◌, ◌≡◌, ◌≢◌, refl, sym, ap, ◌∙◌, inl, inr, [], ◌∷◌, ◌++◌, some, arith,
  ltb, Bytes, codes, take, replicate, set, cstr, All, Bool-cases, length, length-append, length-set,
  take-length_append,
}
use libpagekite.Libc.{hex_digit}
use libpagekite.Proto.Kite.{KiteRequest, pk_prepare_kite_challenge}
use libpagekite.Proto.Sign.{
  pk_salt_length, hex_byte, hex_bytes, digest_to_hex, hex_padded, token_bytes, timestamp,
  signed_token, token_or_random, pk_sign, with_salt, pk_sign_kite_request,
}

abbrev pub Plain : Bytes → Type 0
Plain = All λ c. c ≢ 0

Plain-append : (s t : Bytes) → Plain s → Plain t → Plain (s ++ t)
Plain-append [] t _ h = h
Plain-append (c ∷ s) t (h, hs) k = (h, Plain-append s t hs k)

Plain-take : (n : ℕ) (s : Bytes) → Plain s → Plain (take n s)
Plain-take zero s _ = tt
Plain-take (suc n) [] _ = tt
Plain-take (suc n) (c ∷ s) (h, hs) = (h, Plain-take n s hs)

cstr-Plain : (s : Bytes) → Plain s → cstr s ≡ s
cstr-Plain [] _ = refl
cstr-Plain (c ∷ s) (h, hs) = ground (arith, cstr-Plain s hs)

hex_digit-some : (d : ℕ) → hex_digit d ≢ 0
unfolding hex_digit
hex_digit-some d = ground arith

hex_bytes-Plain : (bs : Bytes) → Plain (hex_bytes bs)
unfolding hex_bytes hex_byte
hex_bytes-Plain [] = tt
hex_bytes-Plain (b ∷ bs) =
    (hex_digit-some (b / 16 % 16), (hex_digit-some (b % 16), hex_bytes-Plain bs))

hex_padded-Plain : (k n : ℕ) → Plain (hex_padded k n)
unfolding hex_padded
hex_padded-Plain zero n = tt
hex_padded-Plain (suc k) n =
    Plain-append (hex_padded k (n / 16)) _ (hex_padded-Plain k (n / 16))
      (hex_digit-some (n % 16), tt)

length-hex_padded : (k n : ℕ) → length (hex_padded k n) ≡ k
unfolding hex_padded
length-hex_padded zero n = refl
length-hex_padded (suc k) n = omega (
  arith,
  length-append (hex_padded k (n / 16)) (hex_digit (n % 16) ∷ []),
  length-hex_padded k (n / 16),
)

-- The front of a text that is long enough.
take-front : (m : ℕ) (s t u : Bytes) → length s ≤ m → take (length s) (take m (s ++ t) ++ u) ≡ s
take-front m [] t u le = refl
take-front zero (c ∷ s) t u le = absurd (omega arith)
take-front (suc m) (c ∷ s) t u le = ap (◌∷◌ c) (take-front m s t u (omega arith))

take-take_front : (m : ℕ) (s t : Bytes) → length s ≤ m → take (length s) (take m (s ++ t)) ≡ s
take-take_front m [] t le = refl
take-take_front zero (c ∷ s) t le = absurd (omega arith)
take-take_front (suc m) (c ∷ s) t le = ap (◌∷◌ c) (take-take_front m s t (omega arith))

set-set : (s : Bytes) (c : ℕ) → set (set s 0 c) 0 c ≡ set s 0 c
set-set [] c = refl
set-set (d ∷ s) c = refl

token_bytes-short : (token : Bytes) → length token ≡ 8 → token_bytes token ≡ token
unfolding token_bytes
token_bytes-short token e =
    ap (λ n. take n (token ++ replicate 8 0)) (sym e) ∙ take-length_append token (replicate 8 0)

-- The front of a signature, and what a signature gives as the next token.
signed_token-again :
    (ts m : ℕ) (token t : Bytes)
    → length token ≡ 8
    → 8 ≤ m
    → signed_token ts (take m (signed_token ts token ++ t)) ≡ signed_token ts token
unfolding signed_token
signed_token-again ts m token t e le = elim (Bool-cases (ltb 0 ts)) [
  | inl marked ↦
      rw (marked, token_bytes-short token e)
        (ap (λ x. set x 0 b't') (again (set token 0 b't') (length-set token 0 b't' ∙ e))
          ∙ set-set token b't')
  | inr plain ↦ rw (plain, token_bytes-short token e) (again token e)
]
  where
    again : (f : Bytes) → length f ≡ 8 → token_bytes (take m (f ++ t)) ≡ f
    again f l =
        unfold token_bytes in
        ap (λ n. take n (take m (f ++ t) ++ replicate 8 0)) (sym l)
        ∙ take-front m f t (replicate 8 0) (omega arith)

signed_token-Plain :
    (ts : ℕ) (token : Bytes) → length token ≡ 8 → Plain token → Plain (signed_token ts token)
unfolding signed_token
signed_token-Plain ts token e h = elim (Bool-cases (ltb 0 ts)) [
  | inl marked ↦ rw (marked, token_bytes-short token e) (set-Plain token h)
  | inr plain ↦ rw (plain, token_bytes-short token e) h
]
  where
    set-Plain : (s : Bytes) → Plain s → Plain (set s 0 b't')
    set-Plain [] _ = tt
    set-Plain (c ∷ s) (_, hs) = ((λ z. absurd (omega arith)), hs)

module _ (sha1 : Bytes → Bytes) (random_junk : Bytes) (rand : ℕ) (secret : Bytes) where
  pk_sign-Plain :
      (token : Bytes) (ts : ℕ) (payload : Bytes) (m : ℕ)
      → length token ≡ 8
      → Plain token
      → pk_sign sha1 random_junk rand (some token) secret ts payload m
        ≡ take m (
            signed_token ts token
            ++ digest_to_hex (sha1 (secret ++ payload ++ timestamp ts ++ signed_token ts token)))
  unfolding pk_sign token_or_random digest_to_hex
  pk_sign-Plain token ts payload m e h =
      let front = signed_token ts token in
      let digest = sha1 (secret ++ payload ++ timestamp ts ++ front) in
      cstr-Plain (take m (front ++ hex_bytes (take 20 digest))) (
        Plain-take m _ (
          Plain-append front _ (signed_token-Plain ts token e h)
            (hex_bytes-Plain (take 20 digest))))

  pk_sign-token :
      (token payload : Bytes) (m : ℕ)
      → length token ≡ 8
      → Plain token
      → 8 ≤ m
      → take 8 (pk_sign sha1 random_junk rand (some token) secret 0 payload m) ≡ token
  pk_sign-token token payload m e h le =
      let front : signed_token 0 token ≡ token = unfold signed_token in token_bytes-short token e in
      let digest = digest_to_hex (sha1 (secret ++ payload ++ timestamp 0 ++ token)) in
      ap (take 8) (pk_sign-Plain token 0 payload m e h)
      ∙ rw (front, sym e) (take-take_front m token digest (omega arith))

  pk_sign-by :
      (token token' : Bytes) (ts : ℕ) (payload : Bytes) (m : ℕ)
      → signed_token ts token ≡ signed_token ts token'
      → pk_sign sha1 random_junk rand (some token) secret ts payload m
        ≡ pk_sign sha1 random_junk rand (some token') secret ts payload m
  unfolding pk_sign token_or_random
  pk_sign-by token token' ts payload m e =
      ap (λ f. cstr (take m (f ++ digest_to_hex (sha1 (secret ++ payload ++ timestamp ts ++ f))))) e

  pk_sign-again :
      (token : Bytes) (ts : ℕ) (payload : Bytes) (m : ℕ)
      → length token ≡ 8
      → Plain token
      → 8 ≤ m
      → pk_sign sha1 random_junk rand
          (some (pk_sign sha1 random_junk rand (some token) secret ts payload m))
          secret
          ts
          payload
          m
        ≡ pk_sign sha1 random_junk rand (some token) secret ts payload m
  pk_sign-again token ts payload m e h le =
      let front = signed_token ts token in
      let digest = digest_to_hex (sha1 (secret ++ payload ++ timestamp ts ++ front)) in
      let plain = pk_sign-Plain token ts payload m e h in
      pk_sign-by (pk_sign sha1 random_junk rand (some token) secret ts payload m) token ts payload m
        (ap (signed_token ts) plain ∙ signed_token-again ts m token digest e le)

-- The line that is sent ends with a signature, which begins with the digits of the salt; and who signs the text in front of it with the same secret,
-- and with the signature as the token, gets the signature.
pub record IsSigned (sha1 : Bytes → Bytes) (random_junk : Bytes) (rand salt : ℕ)
    (secret request line : Bytes) : Type 0 where
  pub signature : Bytes
  pub sent : line ≡ codes "X-PageKite: " ++ (request ++ b':' ∷ signature) ++ 13 ∷ 10 ∷ []
  pub token : take 8 signature ≡ hex_padded 8 salt
  pub verifies :
      pk_sign sha1 random_junk rand (some signature) secret 0 request pk_salt_length ≡ signature

-- pk_sign_kite_request() sends the request, a colon, and a signature that begins with the eight digits of
-- the salt; pk_sign() gives this signature again for the request, the secret, and the signature itself as
-- the token; whatever the digest is.
pub pk_sign_kite_request-IsSigned :
    (sha1 : Bytes → Bytes) (random_junk : Bytes) (rand time : ℕ) (r : KiteRequest) (salt : ℕ)
    → IsSigned sha1 random_junk rand salt r.kite.auth_secret
        (pk_prepare_kite_challenge (with_salt sha1 random_junk rand time r))
        (pk_sign_kite_request sha1 random_junk rand time r salt)
unfolding pk_sign_kite_request
pk_sign_kite_request-IsSigned sha1 random_junk rand time r salt =
    let request = pk_prepare_kite_challenge (with_salt sha1 random_junk rand time r) in
    let digits = hex_padded 8 salt in
    let secret = r.kite.auth_secret in
    let e = length-hex_padded 8 salt in
    let h = hex_padded-Plain 8 salt in
    record {
      signature = pk_sign sha1 random_junk rand (some digits) secret 0 request pk_salt_length;
      sent = refl;
      token =
          pk_sign-token sha1 random_junk rand secret digits request pk_salt_length e h
            (omega arith);
      verifies =
          pk_sign-again sha1 random_junk rand secret digits 0 request pk_salt_length e h
            (omega arith);
    }
