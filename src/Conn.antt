-- ===== src/Conn.antt =====
-- libpagekite/pkconn.c: struct pk_conn, its reset, and pkc_read(), in a build without OpenSSL: there a
-- connection's state is always CONN_CLEAR_DATA. What read() gave is an argument.
use Prim.Native.Nat.{bit_and, bit_or}
use libpagekite.Base.{
  ℕ, zero, suc, ◌+◌, ◌-◌, ◌*◌, Bool, true, false, [], ◌∷◌, ◌++◌, Option, none, some, leb,
  if◌then◌else◌, Bytes, length, ℤ, minus_one, ltb_ℤ, pos,
}

-- PARSER_BYTES_MAX
abbrev pub conn_io_buffer_size : ℕ
conn_io_buffer_size = 16 * 1024

abbrev pub conn_status_bits : ℕ
conn_status_bits = 0x0000ffff

abbrev pub conn_status_cls_read : ℕ
conn_status_cls_read = 0x00000010

abbrev pub conn_status_cls_write : ℕ
conn_status_cls_write = 0x00000020

abbrev pub conn_status_broken : ℕ
conn_status_broken = 0x00000070

abbrev pub conn_window_size_kb_initial : ℕ
conn_window_size_kb_initial = 128

abbrev pub conn_report_increment : ℕ
conn_report_increment = 16

-- struct pk_conn. The buffers hold their first in_buffer_pos and out_buffer_pos bytes.
pub record Conn : Type 0 where
  pub status : ℕ
  pub sockfd : ℤ
  pub activity : ℕ
  pub read_bytes : ℕ
  pub read_kb : ℕ
  pub sent_kb : ℕ
  pub send_window_kb : ℕ
  pub wrote_bytes : ℕ
  pub reported_kb : ℕ
  pub in_buffer : Bytes
  pub out_buffer : Bytes

-- The connection, and the descriptor that is closed, if there is one.
unfoldable pub pkc_reset_conn : ℕ → ℕ → Conn → Conn × Option ℤ
pkc_reset_conn now status c = (
  record c {
    status = bit_or (c.status - bit_and c.status conn_status_bits) status;
    activity = now;
    out_buffer = [];
    in_buffer = [];
    send_window_kb = conn_window_size_kb_initial;
    read_bytes = 0;
    read_kb = 0;
    sent_kb = 0;
    wrote_bytes = 0;
    reported_kb = 0;
    sockfd = minus_one;
  },
  if ltb_ℤ c.sockfd (pos 0) then none else some c.sockfd,
)

-- The values of errno that the code tells apart; EWOULDBLOCK is EAGAIN.
pub data Errno : Type 0 where
  eintr eagain other : Errno

-- What write() returns: a count, or -1 with errno set.
pub data Wrote : Type 0 where
  wrote : ℕ → Wrote
  failed : Errno → Wrote

-- A call that may fail is repeated: errno is EINTR.
abbrev pub again : Errno → Bool
again eintr = true
again eagain = false
again other = false

-- errno is not EAGAIN, EWOULDBLOCK or 0.
abbrev pub fatal : Errno → Bool
fatal eintr = true
fatal eagain = false
fatal other = true

abbrev pub set_status : ℕ → Conn → Conn
set_status bits c = record c { status = bit_or c.status bits }

-- What read() gives: bytes, the end, or -1 with errno set.
pub data Got : Type 0 where
  got : Bytes → Got
  failed_read : Errno → Got

-- "Update KB counter and window": the loop on the bytes, and the kilobytes and bytes behind it.
unfoldable pub count_kb : ℕ → ℕ → ℕ → ℕ × ℕ
count_kb zero bytes kb = (bytes, kb)
count_kb (suc fuel) bytes kb =
    let more = count_kb fuel (bytes - 1024) (kb + 1) in if leb 1024 bytes then more else (bytes, kb)

-- pkc_read(), with what the read of at most PKC_IN_FREE bytes gave.
unfoldable pub pkc_read : ℕ → Got → Conn → Conn × Option ℕ
unfolding count_kb
pkc_read now (got []) c = (set_status conn_status_cls_read c, some 0)
pkc_read now (got (b ∷ bs)) c =
    let n = length (b ∷ bs) in
    let (bytes, kb) = count_kb (suc (c.read_bytes + n)) (c.read_bytes + n) c.read_kb in
    (
      record c {
        in_buffer = c.in_buffer ++ b ∷ bs;
        activity = now;
        read_bytes = bytes;
        read_kb = kb;
      },
      some n,
    )
pkc_read now (failed_read eintr) c = (c, none)
pkc_read now (failed_read eagain) c = (c, none)
pkc_read now (failed_read other) c = (set_status conn_status_broken c, none)
