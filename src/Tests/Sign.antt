-- ===== src/Tests/Sign.antt =====
-- Examples for the signatures of kite requests (libpagekite/pkproto.c).
use libpagekite.Base.{◌≡◌, refl, [], ◌∷◌, ◌++◌, Bytes, codes, take, replicate}
use libpagekite.Libc.{hex_digit}
use libpagekite.Proto.Kite.{
  KiteRequest, pk_reset_pagekite, pk_prepare_kite_challenge, challenge_protocol,
}
use libpagekite.Proto.Sign.{token_bytes, with_salt, pk_sign_kite_request, hex_padded, hex_byte}
use libpagekite.Proto.Sign.Verifies.{IsSigned, pk_sign_kite_request-IsSigned}

-- A function in place of the digest: the first bytes of what was added.
abbrev toy_digest : Bytes → Bytes
toy_digest m = take 20 (m ++ replicate 20 7)

abbrev asked : KiteRequest
asked = record {
  kite = record pk_reset_pagekite {
    protocol = codes "http";
    public_domain = codes "b.com";
    auth_secret = codes "xyzzy";
  };
  bsalt = codes "ab";
  fsalt = [];
}

pk_sign_kite_request-IsSigned_example :
    IsSigned toy_digest [] 7 0xbeef
      (codes "xyzzy")
      (pk_prepare_kite_challenge (with_salt toy_digest [] 7 1000 asked))
      (pk_sign_kite_request toy_digest [] 7 1000 asked 0xbeef)
pk_sign_kite_request-IsSigned_example =
    pk_sign_kite_request-IsSigned toy_digest [] 7 1000 asked 0xbeef

line_test :
    pk_sign_kite_request toy_digest [] 7 1000 asked 0xbeef
    ≡ codes "X-PageKite: http:b.com:ab::0000beef78797a7a79687474703a622e636f" ++ 13 ∷ 10 ∷ []
unfolding pk_sign_kite_request challenge_protocol with_salt hex_padded hex_byte hex_digit
    token_bytes pk_reset_pagekite
line_test = refl
