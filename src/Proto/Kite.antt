-- ===== src/Proto/Kite.antt =====
-- libpagekite/pkproto.c: the requests for kites. Strings are C strings without their NUL, and they are
-- short enough for the buffers they are formatted into. malloc() of the copy of a request succeeds.
pub mod RoundTrip
use libpagekite.Base.{
  ℕ, suc, ◌+◌, Bool, true, false, ◌&&◌, ◌||◌, List, [], ◌∷◌, ◌++◌, Option, none, some, ltb, ◌==◌,
  if◌then◌else◌, Bytes, length, ℤ, pos, ltb_ℤ,
}
use libpagekite.Libc.{sscanf_d, to_dec}

-- struct pk_pagekite; an empty protocol is an empty slot of a table.
pub record Kite : Type 0 where
  pub protocol : Bytes
  pub public_domain : Bytes
  pub public_port : ℤ
  pub local_domain : Bytes
  pub local_port : ℤ
  pub auth_secret : Bytes

-- struct pk_kite_request, without its status.
pub record KiteRequest : Type 0 where
  pub kite : Kite
  pub bsalt : Bytes
  pub fsalt : Bytes

pub data KiteError : Type 0 where
  no_kitename no_bsalt no_fsalt : KiteError

-- pk_reset_pagekite()
unfoldable pub pk_reset_pagekite : Kite
pk_reset_pagekite = record {
  protocol = [];
  public_domain = [];
  public_port = pos 0;
  local_domain = [];
  local_port = pos 0;
  auth_secret = [];
}

-- strchr(): what is in front of the first `c`, and what is behind it.
unfoldable pub split : ℕ → Bytes → Option (Bytes × Bytes)
split c [] = none
split c (b ∷ s) =
    let rest = split c s in
    if b == c then some ([], s) else elim rest [ none ↦ none | some (x, y) ↦ some (b ∷ x, y) ]

-- A field, and what is behind the colon that ends it; with no colon, the fields behind it are empty.
unfoldable pub field : Bytes → Bytes × Bytes
field s = elim (split b':' s) [ none ↦ (s, []) | some (x, y) ↦ (x, y) ]

-- The request's part of the line: behind the first blank, if there is one.
unfoldable pub behind_blank : Bytes → Bytes
behind_blank s = elim (split b' ' s) [ none ↦ s | some (x, y) ↦ y ]

abbrev pub pk_protocol_length : ℕ
pk_protocol_length = 24

abbrev pub pk_domain_length : ℕ
pk_domain_length = 1024

abbrev pub pk_salt_length : ℕ
pk_salt_length = 36

-- "Copy the values": the port is taken off the protocol. A port that is no number stays what it was.
unfoldable pub with_port : Bytes → Kite → Kite
with_port protocol k = elim (split b'-' protocol) [
  | none ↦ record k { protocol = protocol; public_port = pos 0 }
  | some (name, p) ↦ record k {
    protocol = name;
    public_port = elim (sscanf_d p) [ none ↦ k.public_port | some n ↦ n ];
  }
]

-- "Pass judgement"
unfoldable pub judged : KiteRequest → Option KiteError
judged r =
    if length r.kite.public_domain == 0
    then some no_kitename
    else if length r.bsalt == 0
    then some no_bsalt
    else if length r.fsalt == 0
    then some no_fsalt
    else none

-- "Parse the string": the fields of the request.
pub record Fields : Type 0 where
  pub protocol : Bytes
  pub public_domain : Bytes
  pub bsalt : Bytes
  pub fsalt : Bytes
  pub bsig : Bytes

unfoldable pub request_fields : Bytes → Fields
request_fields s =
    let (protocol, s1) = field s in
    let (public_domain, s2) = field s1 in
    let (bsalt, s3) = field s2 in
    let (fsalt, bsig) = field s3 in
    record {
      protocol = protocol;
      public_domain = public_domain;
      bsalt = bsalt;
      fsalt = fsalt;
      bsig = bsig;
    }

-- "Error out if things are too large."
unfoldable pub too_large : Fields → Bool
too_large f =
    ltb pk_protocol_length (length f.protocol)
    || (ltb pk_domain_length (length f.public_domain)
        || (ltb pk_salt_length (length f.bsalt) || ltb pk_salt_length (length f.fsalt)))

-- The request, the signature if there is one, and the error.
unfoldable pub take_fields : KiteRequest → Fields → KiteRequest × Option Bytes × Option KiteError
take_fields r f =
    let kite = with_port f.protocol (record r.kite { public_domain = f.public_domain }) in
    let r' : KiteRequest = record { kite = kite; bsalt = f.bsalt; fsalt = f.fsalt } in
    if too_large f
    then (r, none, some no_kitename)
    else (r', if length f.bsig == 0 then none else some f.bsig, judged r')

unfoldable pub pk_parse_kite_request :
    Bytes → KiteRequest → KiteRequest × Option Bytes × Option KiteError
pk_parse_kite_request line r = take_fields r (request_fields (behind_blank line))

-- The protocol, with the port if there is one.
unfoldable pub challenge_protocol : Kite → Bytes
challenge_protocol k =
    if ltb_ℤ (pos 0) k.public_port then k.protocol ++ b'-' ∷ to_dec k.public_port else k.protocol

-- pk_prepare_kite_challenge() with no secret.
unfoldable pub pk_prepare_kite_challenge : KiteRequest → Bytes
pk_prepare_kite_challenge r =
    challenge_protocol r.kite ++ b':' ∷ (r.kite.public_domain ++ b':' ∷ (r.bsalt ++ b':' ∷ r.fsalt))
