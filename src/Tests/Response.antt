-- ===== src/Tests/Response.antt =====
-- Examples for the relay's answer to a handshake (libpagekite/pkproto.c).
use libpagekite.Base.{
  has_prefix_nocase, ℕ, arith, ◌<◌, ◌≡◌, refl, true, [], ◌∷◌, ◌++◌, none, OfSome, Bytes, codes,
  length, replicate, map, List,
}
use libpagekite.Utils.Lines.{zero_first_eol}
use libpagekite.Proto.Kite.{
  pk_parse_kite_request, take_fields, too_large, request_fields, field, split, behind_blank, judged,
  with_port, KiteRequest, pk_reset_pagekite,
}
use libpagekite.Proto.Response.{
  KiteStatus, Response, count_responses, walk_lines, pk_parse_pagekite_response,
}
use libpagekite.Proto.Response.Room.{pk_parse_pagekite_response-Room}

abbrev zeroed : ℕ → KiteRequest
zeroed _ = record { kite = pk_reset_pagekite; bsalt = []; fsalt = [] }

abbrev duplicate_line : Bytes
duplicate_line = codes "X-PageKite-Duplicate: http:b.com:a:c" ++ 13 ∷ 10 ∷ []

abbrev answer : Bytes
answer = codes "X-PageKite-OK: http:b.com:a:c" ++ 13 ∷ 10 ∷ []

abbrev hidden_line : Bytes
hidden_line = 0 ∷ 10 ∷ duplicate_line ++ 0 ∷ []

abbrev status_of : Response → List KiteStatus
status_of r = map (λ q. q.0) r.requests

statuses_test :
    status_of (walk_lines zeroed 100 0 (zeroed 0) none (answer ++ duplicate_line ++ 0 ∷ []))
    ≡ KiteStatus.flying ∷ KiteStatus.duplicate ∷ []
unfolding walk_lines has_prefix_nocase zero_first_eol pk_parse_kite_request take_fields too_large
    request_fields field split behind_blank judged with_port
statuses_test = refl

-- A NUL byte in front of a line hides it from the count, and not from the loop on the lines.
hidden_test :
    (count_responses hidden_line ≡ 1)
    × (status_of (walk_lines zeroed 100 0 (zeroed 0) none hidden_line) ≡ KiteStatus.duplicate ∷ [])
unfolding count_responses walk_lines has_prefix_nocase zero_first_eol pk_parse_kite_request
    take_fields too_large request_fields field split behind_blank judged with_port
hidden_test = (refl, refl)

pk_parse_pagekite_response-Room_example :
    OfSome
      (λ r. length r.requests < count_responses (answer ++ 0 ∷ replicate 2 0))
      (pk_parse_pagekite_response zeroed true (answer ++ 0 ∷ replicate 2 0) none)
pk_parse_pagekite_response-Room_example =
    pk_parse_pagekite_response-Room zeroed true 2 answer none (ground arith)
