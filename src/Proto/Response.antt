-- ===== src/Proto/Response.antt =====
-- libpagekite/pkproto.c: pk_parse_pagekite_response(). The buffer is its bytes up to bufsize; malloc() gives
-- the requests as `fresh` has them, by their index, or fails. The requests that are returned are those
-- in front of the one whose status is PK_KITE_UNKNOWN.
pub mod Room
pub mod Ends
use libpagekite.Base.{
  ℕ, zero, suc, ◌+◌, ◌-◌, Bool, true, false, not, ◌&&◌, ◌||◌, List, [], ◌∷◌, Option, none, some,
  leb, ◌==◌, if◌then◌else◌, Bytes, codes, length, take, drop, pos, has_prefix_nocase, cstr,
}
use libpagekite.Proto.Kite.{KiteRequest, KiteError, pk_parse_kite_request}
use libpagekite.Utils.Lines.{zero_first_eol}

-- PK_KITE_UNKNOWN and so on, as far as they are set here.
pub data KiteStatus : Type 0 where
  unknown flying duplicate invalid wantsig : KiteStatus

abbrev pub is_unknown : KiteStatus → Bool
is_unknown unknown = true
is_unknown flying = false
is_unknown duplicate = false
is_unknown invalid = false
is_unknown wantsig = false

abbrev pub is_flying : KiteStatus → Bool
is_flying unknown = false
is_flying flying = true
is_flying duplicate = false
is_flying invalid = false
is_flying wantsig = false

abbrev pub x_pagekite : Bytes
x_pagekite = codes "X-PageKite-"

abbrev pub pk_handshake_sessionid_max : ℕ
pk_handshake_sessionid_max = 256

-- How often strcasestr() finds the mark in a C string, each time from one byte behind on.
unfoldable pub count_marks : Bytes → ℕ
count_marks [] = 0
count_marks (c ∷ s) = (if has_prefix_nocase (c ∷ s) x_pagekite then 1 else 0) + count_marks s

-- "count how many responses we have": the last byte of the buffer is a NUL for the time being.
unfoldable pub count_responses : Bytes → ℕ
unfolding count_marks
count_responses buffer = 1 + count_marks (cstr (take (length buffer - 1) buffer))

-- The status that a line gives, by what stands behind the mark.
unfoldable pub line_status : Bytes → KiteStatus
line_status line =
    let rest = drop 11 line in
    if has_prefix_nocase line x_pagekite
    then (if has_prefix_nocase rest (codes "OK:")
        then flying
        else if has_prefix_nocase rest (codes "SSL-OK:")
        then unknown
        else if has_prefix_nocase rest (codes "Duplicate:")
        then duplicate
        else if has_prefix_nocase rest (codes "Invalid:")
        then invalid
        else if has_prefix_nocase rest (codes "Invalid-Why:")
        then unknown
        else if has_prefix_nocase rest (codes "SignThis:")
        then wantsig
        else unknown)
    else unknown

-- session_id, which may be NULL. What is copied may lie behind the line's end.
unfoldable pub line_session : Bytes → Option Bytes → Option Bytes
line_session mem none = none
line_session mem (some id) =
    if has_prefix_nocase (cstr mem) (codes "X-PageKite-SessionID:")
    then some (take pk_handshake_sessionid_max (cstr (drop 22 mem)))
    else some id

abbrev pub is_none : Option KiteError → Bool
is_none none = true
is_none (some e) = false

-- The request is kept, and the next one is written: pk_parse_kite_request() read it, or its status
-- says that it failed.
unfoldable pub keeps : KiteStatus → Option KiteError → Bool
keeps status error = not (is_unknown status) && (is_none error || not (is_flying status))

pub record Response : Type 0 where
  pub requests : List (KiteStatus × KiteRequest)
  pub session_id : Option Bytes

module _ (fresh : ℕ → KiteRequest) where
  -- The loop on the lines: `i` is the index of `rp`, and `r` the request that is there.
  unfoldable pub walk_lines : ℕ → ℕ → KiteRequest → Option Bytes → Bytes → Response
  unfolding line_status line_session keeps
  walk_lines zero i r id mem = record { requests = []; session_id = id }
  walk_lines (suc fuel) i r id mem =
      let (bytes, mem') = zero_first_eol (pos (length mem)) mem in
      let status = line_status (cstr mem') in
      let id' = line_session mem' id in
      let (parsed, _, error) = pk_parse_kite_request (cstr mem') r in
      let next = keeps status error in
      let r' = if next then fresh (suc i) else if is_unknown status then r else parsed in
      let rest = walk_lines fuel (if next then suc i else i) r' id' (drop bytes mem') in
      let more : Response =
        if bytes == 0 then (record { requests = []; session_id = id' }) else rest in
      if next then (record more { requests = (status, parsed) ∷ more.requests }) else more

  -- The result; `none` is NULL with ERR_NO_MORE_KITES.
  unfoldable pub pk_parse_pagekite_response : Bool → Bytes → Option Bytes → Option Response
  unfolding walk_lines count_responses
  pk_parse_pagekite_response malloced buffer session_id =
      if leb 1000 (count_responses buffer) || not malloced
      then none
      else some (walk_lines (suc (length buffer)) 0 (fresh 0) session_id buffer)
