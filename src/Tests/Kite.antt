-- ===== src/Tests/Kite.antt =====
-- An example for the kite requests of libpagekite/pkproto.c.
use libpagekite.Base.{arith, ◌≡◌, refl, [], none, codes, pos}
use libpagekite.Libc.{to_dec}
use libpagekite.Proto.Kite.{
  KiteRequest, pk_reset_pagekite, pk_parse_kite_request, pk_prepare_kite_challenge,
  challenge_protocol,
}
use libpagekite.Proto.Kite.RoundTrip.{Sendable, pk_parse_kite_request-challenge}

abbrev request : KiteRequest
request = record {
  kite = record {
    protocol = codes "http";
    public_domain = codes "b.com";
    public_port = pos 80;
    local_domain = [];
    local_port = pos 0;
    auth_secret = [];
  };
  bsalt = codes "ab";
  fsalt = codes "cd";
}

abbrev nothing : KiteRequest
nothing = record { kite = pk_reset_pagekite; bsalt = []; fsalt = [] }

prepare_test : pk_prepare_kite_challenge request ≡ codes "http-80:b.com:ab:cd"
unfolding pk_prepare_kite_challenge challenge_protocol to_dec
prepare_test = refl

request-Sendable : Sendable request
unfolding challenge_protocol to_dec
request-Sendable = record {
  port = 80;
  port_is = refl;
  port_small = omega arith;
  protocol_plain = ground arith;
  protocol_no_dash = ground arith;
  protocol_short = omega arith;
  domain_plain = ground arith;
  domain_some = omega arith;
  domain_short = omega arith;
  bsalt_plain = ground arith;
  bsalt_some = omega arith;
  bsalt_short = omega arith;
  fsalt_plain = ground arith;
  fsalt_some = omega arith;
  fsalt_short = omega arith;
}

pk_parse_kite_request-challenge_example :
    pk_parse_kite_request (pk_prepare_kite_challenge request) nothing ≡ (
      record {
        kite = record pk_reset_pagekite {
          protocol = codes "http";
          public_domain = codes "b.com";
          public_port = pos 80;
        };
        bsalt = codes "ab";
        fsalt = codes "cd";
      },
      none,
      none,
    )
pk_parse_kite_request-challenge_example =
    pk_parse_kite_request-challenge request nothing request-Sendable
