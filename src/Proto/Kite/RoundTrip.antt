-- ===== src/Proto/Kite/RoundTrip.antt =====
-- pk_parse_kite_request() reads what pk_prepare_kite_challenge() writes (libpagekite/pkproto.c).
use libpagekite.Base.{
  ℕ, zero, suc, ◌^◌, ◌≤◌, ◌<◌, ◌≡◌, ◌≢◌, refl, sym, ap, ◌∙◌, true, false, [], ◌∷◌, ◌++◌, Option,
  none, some, arith, ltb, ◌==◌, Bytes, All, All-append, length, ℤ, pos,
}
use libpagekite.Libc.{to_dec, is_digit}
use libpagekite.Libc.Decimal.{sscanf_d-to_dec, Digits, to_dec-Digits}
use libpagekite.Proto.Kite.{
  Kite, KiteRequest, split, field, behind_blank, with_port, judged, Fields, request_fields,
  too_large, take_fields, pk_parse_kite_request, challenge_protocol, pk_prepare_kite_challenge,
  pk_protocol_length, pk_domain_length, pk_salt_length,
}

-- The text does not hold the byte.
abbrev pub Without : ℕ → Bytes → Type 0
Without c = All (λ b. b ≢ c)

split-Without : (c : ℕ) (s : Bytes) → Without c s → split c s ≡ none
unfolding split
split-Without c [] h = refl
split-Without c (b ∷ s) (ne, h) =
    let other : (b == c) ≡ false = ground arith in rw (other, split-Without c s h) refl

split-first : (c : ℕ) (s t : Bytes) → Without c s → split c (s ++ c ∷ t) ≡ some (s, t)
unfolding split
split-first c [] t h = let same : (c == c) ≡ true = ground arith in rw same refl
split-first c (b ∷ s) t (ne, h) =
    let other : (b == c) ≡ false = ground arith in rw (other, split-first c s t h) refl

field-first : (s t : Bytes) → Without b':' s → field (s ++ b':' ∷ t) ≡ (s, t)
unfolding field
field-first s t h = rw (split-first b':' s t h, field) refl

field-last : (s : Bytes) → Without b':' s → field s ≡ (s, [])
unfolding field
field-last s h = rw (split-Without b':' s h, field) refl

-- A field of a request: neither a blank nor a colon is in it.
abbrev pub Plain : Bytes → Type 0
Plain s = Without b' ' s × Without b':' s

-- What a request must be for its text to be read back: no field holds a separator, none is too long, and
-- those that may not be empty are not.
pub record Sendable (r : KiteRequest) : Type 0 where
  pub port : ℕ
  pub port_is : r.kite.public_port ≡ pos port
  pub port_small : port < 2 ^ 31
  pub protocol_plain : Plain r.kite.protocol
  pub protocol_no_dash : Without b'-' r.kite.protocol
  pub protocol_short : length (challenge_protocol r.kite) ≤ pk_protocol_length
  pub domain_plain : Plain r.kite.public_domain
  pub domain_some : 0 < length r.kite.public_domain
  pub domain_short : length r.kite.public_domain ≤ pk_domain_length
  pub bsalt_plain : Plain r.bsalt
  pub bsalt_some : 0 < length r.bsalt
  pub bsalt_short : length r.bsalt ≤ pk_salt_length
  pub fsalt_plain : Plain r.fsalt
  pub fsalt_some : 0 < length r.fsalt
  pub fsalt_short : length r.fsalt ≤ pk_salt_length

-- Digits are none of the separators.
Digits-Without : (c : ℕ) (s : Bytes) → is_digit c ≡ false → Digits s → Without c s
Digits-Without c [] h d = tt
Digits-Without c (b ∷ s) h (is, d) =
    ((λ e. true_not_false (sym is ∙ ap is_digit e ∙ h)), Digits-Without c s h d)
  where
    true_not_false : true ≡ false → ⊥
    true_not_false e = ground arith

separators : (is_digit b' ' ≡ false) × (is_digit b':' ≡ false) × (is_digit b'-' ≡ false)
unfolding is_digit
separators = (refl, refl, refl)

module _ (p : Bytes) (k : Kite) (no_dash : Without b'-' p) where
  with_port_none : with_port p k ≡ (record k { protocol = p; public_port = pos 0 })
  unfolding with_port
  with_port_none = rw (split-Without b'-' p no_dash, with_port) refl

  with_port_number :
      (n : ℕ)
      → n < 2 ^ 31
      → with_port (p ++ b'-' ∷ to_dec (pos n)) k ≡ (record k { protocol = p; public_port = pos n })
  unfolding with_port
  with_port_number n small =
      rw (split-first b'-' p (to_dec (pos n)) no_dash, with_port)
        (ap
          (λ (o : Option ℤ). record k {
            protocol = p;
            public_port = elim o [ none ↦ k.public_port | some n ↦ n ];
          })
          (sscanf_d-to_dec n small))

-- The protocol with its port is plain, and it is read back.
abbrev PortBack : Kite → Kite → Bytes → Type 0
PortBack k' k text =
    Plain text
    × (with_port text k ≡ (record k { protocol = k'.protocol; public_port = k'.public_port }))

challenge-PortBack :
    (n : ℕ) (k' k : Kite)
    → k'.public_port ≡ pos n
    → n < 2 ^ 31
    → Plain k'.protocol
    → Without b'-' k'.protocol
    → PortBack k' k (challenge_protocol k')
unfolding challenge_protocol
challenge-PortBack zero k' k e small plain no_dash =
    rw e (plain, with_port_none k'.protocol k no_dash)
challenge-PortBack (suc n) k' k e small (no_blank, no_colon) no_dash =
    let positive : ltb 0 (suc n) ≡ true = ground arith in
    let (blank, colon, dash) = separators in
    let digits = to_dec-Digits (suc n) in
    rw (e, positive)
      (
        (
          All-append (λ b. b ≢ b' ') k'.protocol (b'-' ∷ to_dec (pos (suc n))) no_blank
              (ground arith, Digits-Without b' ' (to_dec (pos (suc n))) blank digits),
          All-append (λ b. b ≢ b':') k'.protocol (b'-' ∷ to_dec (pos (suc n))) no_colon
              (ground arith, Digits-Without b':' (to_dec (pos (suc n))) colon digits),
        ),
        with_port_number k'.protocol k no_dash (suc n) small,
      )

-- No blank is in the request.
challenge-Without :
    (r : KiteRequest)
    → Sendable r
    → Plain (challenge_protocol r.kite)
    → Without b' ' (pk_prepare_kite_challenge r)
unfolding pk_prepare_kite_challenge
challenge-Without r s p =
    let blank_free = All-append (λ b. b ≢ b' ') in
    blank_free (challenge_protocol r.kite)
      (b':' ∷ (r.kite.public_domain ++ b':' ∷ (r.bsalt ++ b':' ∷ r.fsalt))) p.0
      (
        ground arith,
        blank_free r.kite.public_domain (b':' ∷ (r.bsalt ++ b':' ∷ r.fsalt)) s.domain_plain.0 (
          ground arith,
          blank_free r.bsalt (b':' ∷ r.fsalt) s.bsalt_plain.0 (ground arith, s.fsalt_plain.0),
        ),
      )

behind_blank-challenge : (s : Bytes) → Without b' ' s → behind_blank s ≡ s
unfolding behind_blank
behind_blank-challenge s h = rw (split-Without b' ' s h, behind_blank) refl

-- The fields of a request without a signature.
abbrev fields_of : KiteRequest → Fields
fields_of r = record {
  protocol = challenge_protocol r.kite;
  public_domain = r.kite.public_domain;
  bsalt = r.bsalt;
  fsalt = r.fsalt;
  bsig = [];
}

request_fields-challenge :
    (r : KiteRequest)
    → Sendable r
    → Plain (challenge_protocol r.kite)
    → request_fields (pk_prepare_kite_challenge r) ≡ fields_of r
unfolding request_fields pk_prepare_kite_challenge
request_fields-challenge r s plain =
    rw
      (
        field-first (challenge_protocol r.kite)
            (r.kite.public_domain ++ b':' ∷ (r.bsalt ++ b':' ∷ r.fsalt)) plain.1,
        field-first r.kite.public_domain (r.bsalt ++ b':' ∷ r.fsalt) s.domain_plain.1,
        field-first r.bsalt r.fsalt s.bsalt_plain.1,
        field-last r.fsalt s.fsalt_plain.1,
      )
      refl

too_large-fields_of : (r : KiteRequest) → Sendable r → too_large (fields_of r) ≡ false
unfolding too_large
too_large-fields_of r s =
    ground (arith, s.protocol_short, s.domain_short, s.bsalt_short, s.fsalt_short)

-- The request without a signature that pk_prepare_kite_challenge() writes is read back by
-- pk_parse_kite_request() into any request: protocol, port, domain and both salts, without an
-- error and with no signature; what the text does not hold stays as it was.
pub pk_parse_kite_request-challenge :
    (r old : KiteRequest)
    → Sendable r
    → pk_parse_kite_request (pk_prepare_kite_challenge r) old ≡ (
      record {
        kite = record old.kite {
          protocol = r.kite.protocol;
          public_domain = r.kite.public_domain;
          public_port = r.kite.public_port;
        };
        bsalt = r.bsalt;
        fsalt = r.fsalt;
      },
      none,
      none,
    )
unfolding pk_parse_kite_request take_fields judged
pk_parse_kite_request-challenge r old s =
    let k : Kite = record old.kite { public_domain = r.kite.public_domain } in
    let (plain, back) =
      challenge-PortBack s.port r.kite k s.port_is s.port_small s.protocol_plain
        s.protocol_no_dash in
    let domain : (length r.kite.public_domain == 0) ≡ false = ground (arith, s.domain_some) in
    let bsalt : (length r.bsalt == 0) ≡ false = ground (arith, s.bsalt_some) in
    let fsalt : (length r.fsalt == 0) ≡ false = ground (arith, s.fsalt_some) in
    ap (λ t. take_fields old (request_fields t))
      (behind_blank-challenge (pk_prepare_kite_challenge r) (challenge-Without r s plain))
    ∙ ap (take_fields old) (request_fields-challenge r s plain)
    ∙ rw (too_large-fields_of r s, back, domain, bsalt, fsalt) refl
