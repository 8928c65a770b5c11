-- ===== src/Proto/Header.antt =====
-- libpagekite/pkproto.c: parse_frame_header() and parse_chunk_header(). The memory from `frame->data`
-- on is walked as a list: a loop round takes one line off it, and `kept` puts it back.
pub mod Bounds
use Prim.Native.Nat.{bit_and}
use libpagekite.Base.{
  ℕ, zero, suc, ◌+◌, ◌-◌, ◌≡◌, Bool, true, false, ◌&&◌, ◌||◌, List, [], ◌∷◌, ◌++◌, Option, none,
  some, ltb, ◌==◌, if◌then◌else◌, Bytes, codes, has_prefix_nocase, ℤ, pos, negsuc, ◌-ℤ◌, to_int,
  length, take, drop, get_or,
}
use libpagekite.Libc.{sscanf_lx, sscanf_d, sscanf_ld}
use libpagekite.Utils.Lines.{zero_first_crlf}
use libpagekite.Proto.Chunk.{Frame, Chunk, Quota}

pub data Error : Type 0 where
  bad_frame bad_chunk no_memory : Error

pub data Status : Type 0 where
  ok : ℕ → Status
  err : Error → Status

-- The offset of a pointer that is not NULL.
abbrev pub at : Option ℕ → ℕ
at none = 0
at (some d) = d

unfoldable pub convert_frame_length : Option ℤ → Frame → Status × Frame
convert_frame_length none f = (err bad_frame, f)
convert_frame_length (some n) f = (ok 0, record f { length = n })

unfoldable pub frame_header_end : ℕ × Bytes → Frame → Status × Frame
frame_header_end (hdr_len, memory) f =
    if ltb 0 hdr_len
    then convert_frame_length (sscanf_lx memory)
        (record f { raw_frame = memory; hdr_length = pos hdr_len; data_at = some hdr_len })
    else (ok 0, f)

unfoldable pub parse_frame_header : Frame → Status × Frame
parse_frame_header f = frame_header_end (zero_first_crlf (to_int (pos f.raw_length)) f.raw_frame) f

-- sscanf() with one conversion: what is stored if it fails is what was there.
abbrev stored : Option ℤ → ℤ → ℤ
stored none old = old
stored (some v) old = v

pub record Parsed : Type 0 where
  pub chunk : Chunk
  pub quota : Quota

abbrev with_chunk : Parsed → Chunk → Parsed
with_chunk s c = record s { chunk = c }

unfoldable pub line_s : ℕ → Bytes → Parsed → Parsed
line_s i p s =
    let c = s.chunk in
    if has_prefix_nocase p (codes "SID: ")
    then with_chunk s (record c { sid = some (i + 5) })
    else if has_prefix_nocase p (codes "SKB: ")
    then with_chunk s (record c { remote_sent_kb = stored (sscanf_ld (drop 5 p)) c.remote_sent_kb })
    else if has_prefix_nocase p (codes "SPD: ")
    then with_chunk s (record c { throttle_spd = stored (sscanf_d (drop 5 p)) c.throttle_spd })
    else s

unfoldable pub line_p : ℕ → Bytes → Parsed → Parsed
line_p i p s =
    let c = s.chunk in
    if has_prefix_nocase p (codes "PING: ")
    then with_chunk s (record c { ping = some (i + 6) })
    else if has_prefix_nocase p (codes "Proto: ")
    then with_chunk s (record c { request_proto = some (i + 7) })
    else if has_prefix_nocase p (codes "Port: ")
    then with_chunk s (record c { request_port = stored (sscanf_d (drop 6 p)) c.request_port })
    else s

unfoldable pub line_r : ℕ → Bytes → Parsed → Parsed
line_r i p s =
    let c = s.chunk in
    if has_prefix_nocase p (codes "RIP: ")
    then with_chunk s (record c { remote_ip = some (i + 5) })
    else if has_prefix_nocase p (codes "RPort: ")
    then with_chunk s (record c { remote_port = stored (sscanf_d (drop 7 p)) c.remote_port })
    else if has_prefix_nocase p (codes "RTLS: ")
    then with_chunk s (record c { remote_tls = some (i + 6) })
    else s

unfoldable pub store_days : Option ℤ → Parsed → Parsed
store_days none s = s
store_days (some v) s = record {
  chunk = record s.chunk { quota_days = v };
  quota = record s.quota { days = v };
}

unfoldable pub store_conns : Option ℤ → Parsed → Parsed
store_conns none s = s
store_conns (some v) s = record {
  chunk = record s.chunk { quota_conns = v };
  quota = record s.quota { conns = v };
}

unfoldable pub store_mb : Option ℤ → Parsed → Parsed
store_mb none s = s
store_mb (some v) s = record {
  chunk = record s.chunk { quota_mb = v };
  quota = record s.quota { mb = v };
}

unfoldable pub line_q : Bytes → Parsed → Parsed
line_q p s =
    if has_prefix_nocase p (codes "QDays: ")
    then store_days (sscanf_d (drop 7 p)) s
    else if has_prefix_nocase p (codes "QConns: ")
    then store_conns (sscanf_d (drop 8 p)) s
    else if has_prefix_nocase p (codes "Quota: ")
    then store_mb (sscanf_d (drop 7 p)) s
    else s

abbrev pub pk_max_chunk_headers : ℕ
pk_max_chunk_headers = 64

-- The body of the loop: the line at offset `i` of the buffer, `p` the memory from there on.
unfoldable pub header_line : ℕ → Bytes → Parsed → Parsed
header_line i p s =
    let first = bit_and (get_or p 0 0) (0xff - 32) in
    let c = s.chunk in
    if first == b'S'
    then line_s i p s
    else if has_prefix_nocase p (codes "NOOP: ")
    then with_chunk s (record c { noop = some (i + 6) })
    else if first == b'P'
    then line_p i p s
    else if has_prefix_nocase p (codes "EOF: ")
    then with_chunk s (record c { eof = some (i + 5) })
    else if first == b'R'
    then line_r i p s
    else if has_prefix_nocase p (codes "Host: ")
    then with_chunk s (record c { request_host = some (i + 6) })
    else if first == b'Q'
    then line_q p s
    else if ltb (length c.headers) pk_max_chunk_headers
    then with_chunk s (record c { headers = c.headers ++ i ∷ [] })
    else s

-- Where the loop stopped: the last result of zero_first_crlf(), `pos`, and the memory.
pub record Lines : Type 0 where
  pub len : ℕ
  pub pos_at : ℕ
  pub memory : Bytes
  pub parsed : Parsed

abbrev pub kept : Bytes → Lines → Lines
kept line r = record r { memory = line ++ r.memory }

-- A round takes off more than two bytes, so a fuel of the memory's length never runs out before
-- the memory does; then zero_first_crlf() finds nothing.
unfoldable pub header_lines : ℕ → ℤ → ℕ → ℕ → Bytes → Parsed → Lines
header_lines zero bytes base at_ m s = record { len = 0; pos_at = at_; memory = m; parsed = s }
header_lines (suc fuel) bytes base at_ m s =
    let (len, m') = zero_first_crlf (to_int (bytes -ℤ pos at_)) m in
    let more =
      kept (take len m')
        (header_lines fuel bytes base (at_ + len) (drop len m') (header_line (base + at_) m' s)) in
    if ltb 2 len then more else record { len = len; pos_at = at_; memory = m'; parsed = s }

abbrev with_memory : Chunk → Bytes → Chunk
with_memory c m = record c { frame = record c.frame { raw_frame = m } }

-- Behind the loop: the empty line ends the header, or there is none.
unfoldable pub finish_header : ℕ → ℤ → Bytes → Lines → Status × Parsed
finish_header base bytes before r =
    let c = with_memory r.parsed.chunk (before ++ r.memory) in
    let end = r.pos_at + r.len in
    if r.len == 2
    then (
      ok end,
      with_chunk r.parsed (record c {
        total = c.frame.length -ℤ pos end;
        length = bytes -ℤ pos end;
        data_at = some (base + end);
        offset = pos 0;
      }),
    )
    else (err bad_chunk, with_chunk r.parsed c)

unfoldable pub parse_chunk_header : ℤ → Parsed → Status × Parsed
parse_chunk_header bytes s =
    let base = at s.chunk.frame.data_at in
    let memory = s.chunk.frame.raw_frame in
    let m = drop base memory in
    finish_header base bytes (take base memory)
      (header_lines (length m) bytes base 0 m (with_chunk s (record s.chunk { headers = [] })))
