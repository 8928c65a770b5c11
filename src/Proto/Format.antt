-- ===== src/Proto/Format.antt =====
-- libpagekite/pkproto.c: pk_format_frame() and the messages made with it. A function here gives what the
-- C function writes to its buffer, without the NUL behind it; what the C function returns is its
-- length. Sizes are those of objects in memory, so their sums do not wrap.
pub mod Size
pub mod Bound
use Prim.Native.Nat.{bit_and}
use libpagekite.Base.{
  ℕ, zero, suc, ◌+◌, ◌-◌, ◌/◌, ◌^◌, ◌≡◌, Bool, true, false, ◌&&◌, List, [], ◌∷◌, ◌++◌, Option, none,
  some, ltb, leb, ◌==◌, if◌then◌else◌, ◌>>=◌, Bytes, codes, crlf, ℤ, pos, ltb_ℤ, pos_part, length,
  take,
}
use libpagekite.Libc.{to_hex, to_dec}

-- sprintf() of a format with one %s and no other conversion.
unfoldable pub sprintf_s : Bytes → Bytes → Bytes
sprintf_s [] arg = []
sprintf_s (c ∷ []) arg = c ∷ []
sprintf_s (c ∷ d ∷ s) arg =
    let rest = c ∷ sprintf_s (d ∷ s) arg in if c == b'%' && d == b's' then arg ++ s else rest

abbrev pub sid_or_empty : Option Bytes → Bytes
sid_or_empty none = []
sid_or_empty (some sid) = sid

unfoldable pub pk_format_frame : Option Bytes → Bytes → ℕ → Bytes
pk_format_frame sid headers bytes =
    let s = sid_or_empty sid in
    to_hex (length s + length headers - 2 + bytes) ++ (crlf ++ sprintf_s headers s)

-- The do-while loop, which counts the hexadecimal digits; `bytes` + 1 rounds are enough.
unfoldable pub overhead_loop : ℕ → ℕ → ℕ → ℕ
overhead_loop zero hexlen bytes = hexlen
overhead_loop (suc fuel) hexlen bytes =
    let more = overhead_loop fuel (hexlen + 1) (bytes / 16) in
    if ltb 0 (bytes / 16) then more else hexlen + 1

unfoldable pub pk_reply_overhead : Bytes → ℕ → ℕ
unfolding overhead_loop
pk_reply_overhead sid bytes =
    let chunkhdr = 5 + length sid + 4 in
    overhead_loop (suc (bytes + chunkhdr)) 0 (bytes + chunkhdr) + 2 + chunkhdr

-- `input` is `bytes` long, or NULL.
unfoldable pub pk_format_reply : Option Bytes → ℕ → Option Bytes → Bytes
pk_format_reply sid bytes none = pk_format_frame sid (codes "SID: %s\r\n\r\n") bytes
pk_format_reply sid bytes (some input) =
    pk_format_frame sid (codes "SID: %s\r\n\r\n") bytes ++ take bytes input

-- The letters of an EOF: PK_EOF_READ is 1, and PK_EOF_WRITE 2.
abbrev pub eof_letters : ℕ → Bytes
eof_letters how =
    (if bit_and how 1 == 0 then [] else codes "R") ++ (if bit_and how 2 == 0 then [] else codes "W")

unfoldable pub pk_format_eof : Option Bytes → ℕ → Bytes
pk_format_eof sid how =
    pk_format_frame sid (codes "SID: %s\r\nEOF: 1" ++ (eof_letters how ++ codes "\r\n\r\n")) 0

unfoldable pub pk_format_skb : Option Bytes → ℤ → Bytes
pk_format_skb sid kilobytes =
    pk_format_frame sid
      (codes "NOOP: 1\r\nSID: %s\r\nSKB: " ++ (to_dec kilobytes ++ codes "\r\n\r\n")) 0

unfoldable pub pk_format_pong : Bytes
pk_format_pong = pk_format_frame (some []) (codes "NOOP: 1%s\r\n\r\n") 0

unfoldable pub pk_format_ping : Bytes
pk_format_ping = pk_format_frame (some []) (codes "NOOP: 1%s\r\nPING: 1\r\n\r\n") 0

-- The fields of struct pk_chunk that pk_format_chunk() reads; a string that is NULL is `none`. It
-- takes strlen() of the SID, so that one is a string.
pub record Outgoing : Type 0 where
  pub sid : Bytes
  pub eof : Option Bytes
  pub noop : Option Bytes
  pub ping : Option Bytes
  pub request_host : Option Bytes
  pub request_port : ℤ
  pub request_proto : Option Bytes
  pub remote_ip : Option Bytes
  pub remote_port : ℤ
  pub remote_tls : Option Bytes
  pub remote_sent_kb : ℤ
  pub quota_days : ℤ
  pub quota_conns : ℤ
  pub quota_mb : ℤ
  pub length : ℤ
  -- data
  pub payload : Bytes

module _ (hlen maxbytes : ℕ) where
  -- _add_str(), on what is in `tbuf`; `none` is ERR_PARSE_NO_MEMORY.
  unfoldable pub add_str : Bytes → Option Bytes → Bytes → Option Bytes
  add_str h none tbuf = some tbuf
  add_str h (some v) tbuf =
      if leb (hlen + length tbuf + length h + length v + 5) maxbytes
      then some (tbuf ++ (h ++ (codes ": " ++ (v ++ crlf))))
      else none

  -- _add_int() and _add_sst(), which differ in the conversion only: %d, and %zd.
  unfoldable pub add_int : Bytes → ℤ → Bytes → Option Bytes
  add_int h v tbuf =
      if ltb_ℤ v (pos 0)
      then some tbuf
      else if leb (hlen + length tbuf + length h + 10 + 5) maxbytes
      then some (tbuf ++ (h ++ (codes ": " ++ (to_dec v ++ crlf))))
      else none

  unfoldable pub add_headers : Outgoing → Option Bytes
  add_headers c = do
    b0 ← add_str (codes "EOF") c.eof []
    b1 ← add_str (codes "NOOP") c.noop b0
    b2 ← add_str (codes "PING") c.ping b1
    b3 ← add_str (codes "Host") c.request_host b2
    b4 ← add_int (codes "Port") c.request_port b3
    b5 ← add_str (codes "Proto") c.request_proto b4
    b6 ← add_str (codes "RIP") c.remote_ip b5
    b7 ← add_int (codes "RPort") c.remote_port b6
    b8 ← add_str (codes "RTLS") c.remote_tls b7
    b9 ← add_int (codes "SKB") c.remote_sent_kb b8
    b10 ← add_int (codes "QDays") c.quota_days b9
    b11 ← add_int (codes "QConns") c.quota_conns b10
    add_int (codes "Quota") c.quota_mb b11

  unfoldable pub add_data : Outgoing → Bytes → Option Bytes
  add_data c tbuf =
      let n = pos_part c.length in
      if leb n 0
      then some tbuf
      else if ltb maxbytes (hlen + n + length tbuf - 2)
      then none
      else some (tbuf ++ take n c.payload)

-- The size that malloc() is asked for, a size_t.
unfoldable pub scratch_size : ℕ → ℕ → ℕ
scratch_size maxbytes hlen = if leb hlen maxbytes then maxbytes - hlen else 2 ^ 64 + maxbytes - hlen

-- What is written into the scratch buffer `tbuf`: behind the headers sprintf() writes CR LF and a NUL, on
-- which the data is put. The buffer has scratch_size bytes, which the code does not ask for here.
unfoldable pub scratch_text : ℕ → ℕ → Outgoing → Option Bytes
scratch_text hlen maxbytes c = do
  headers ← add_headers hlen maxbytes c
  add_data hlen maxbytes c (headers ++ crlf)

-- The body of the function behind the allocation.
unfoldable pub format_into : ℕ → ℕ → Outgoing → Option Bytes
unfolding scratch_text
format_into hlen maxbytes c = do
  tbuf ← scratch_text hlen maxbytes c
  some (pk_format_frame (some c.sid) (codes "SID: %s\r\n") (length tbuf) ++ tbuf)

-- `malloc` tells if the allocation of that many bytes succeeds.
unfoldable pub pk_format_chunk : (ℕ → Bool) → ℕ → Outgoing → Option Bytes
pk_format_chunk malloc maxbytes c =
    let hlen = pk_reply_overhead c.sid maxbytes in
    if malloc (scratch_size maxbytes hlen) then format_into hlen maxbytes c else none
