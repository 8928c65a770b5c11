-- ===== src/Proto/Chunk.antt =====
-- libpagekite/pkproto.h: the structures of the parser, and their resets in pkproto.c. A pointer into
-- the parser's buffer is an offset into `raw_frame`, and NULL is `none`. The memory canaries are left
-- out: they are empty in a normal build.
use libpagekite.Base.{ℕ, ◌+◌, Bool, false, List, [], Option, none, Bytes, ℤ, pos, minus_one, length}

-- struct pk_frame. `raw_frame` is all of the buffer's memory, the bytes behind `raw_length` included.
pub record Frame : Type 0 where
  pub length : ℤ
  pub data_at : Option ℕ
  pub hdr_length : ℤ
  pub raw_length : ℕ
  pub raw_frame : Bytes

-- struct pk_chunk; `headers` holds the first header_count entries of the array.
pub record Chunk : Type 0 where
  pub headers : List ℕ
  pub sid : Option ℕ
  pub eof : Option ℕ
  pub noop : Option ℕ
  pub ping : Option ℕ
  pub request_host : Option ℕ
  pub request_proto : Option ℕ
  pub request_port : ℤ
  pub remote_ip : Option ℕ
  pub remote_port : ℤ
  pub remote_tls : Option ℕ
  pub remote_sent_kb : ℤ
  pub throttle_spd : ℤ
  pub quota_days : ℤ
  pub quota_conns : ℤ
  pub quota_mb : ℤ
  pub first_chunk : Bool
  pub length : ℤ
  pub total : ℤ
  pub offset : ℤ
  pub data_at : Option ℕ
  pub frame : Frame

-- The quota fields of pk_state, which the header parser updates.
pub record Quota : Type 0 where
  pub days : ℤ
  pub conns : ℤ
  pub mb : ℤ

-- The buffer itself stays.
unfoldable pub frame_reset_values : Frame → Frame
frame_reset_values f = record f {
  data_at = none;
  length = minus_one;
  hdr_length = minus_one;
  raw_length = 0;
}

unfoldable pub pk_chunk_reset_values : Chunk → Chunk
pk_chunk_reset_values c = record c {
  sid = none;
  eof = none;
  noop = none;
  ping = none;
  request_proto = none;
  request_host = none;
  request_port = minus_one;
  remote_ip = none;
  remote_port = minus_one;
  remote_tls = none;
  remote_sent_kb = minus_one;
  throttle_spd = minus_one;
  quota_days = minus_one;
  quota_conns = minus_one;
  quota_mb = minus_one;
  first_chunk = false;
  length = minus_one;
  total = minus_one;
  offset = pos 0;
  data_at = none;
}

-- struct pk_parser, with what a parse can change besides: the quotas, and the state `env` of the
-- chunk callback.
pub record Parser (E : Type 0) : Type 0 where
  pub buffer_bytes_left : ℕ
  pub chunk : Chunk
  pub quota : Quota
  pub env : E

unfoldable pub pk_parser_reset : {E : Type 0} → Parser E → Parser E
unfolding frame_reset_values pk_chunk_reset_values
pk_parser_reset p = record p {
  buffer_bytes_left = p.buffer_bytes_left + p.chunk.frame.raw_length;
  chunk = record (pk_chunk_reset_values p.chunk) { frame = frame_reset_values p.chunk.frame };
}

-- pk_parser_init(): `space` is what the buffer has behind the two structures.
unfoldable pub pk_parser_init : {E : Type 0} → Bytes → Quota → E → Parser E
pk_parser_init space quota env = record {
  buffer_bytes_left = length space;
  chunk = record {
    headers = [];
    sid = none;
    eof = none;
    noop = none;
    ping = none;
    request_host = none;
    request_proto = none;
    request_port = minus_one;
    remote_ip = none;
    remote_port = minus_one;
    remote_tls = none;
    remote_sent_kb = minus_one;
    throttle_spd = minus_one;
    quota_days = minus_one;
    quota_conns = minus_one;
    quota_mb = minus_one;
    first_chunk = false;
    length = minus_one;
    total = minus_one;
    offset = pos 0;
    data_at = none;
    frame = record {
      length = minus_one;
      data_at = none;
      hdr_length = minus_one;
      raw_length = 0;
      raw_frame = space;
    };
  };
  quota = quota;
  env = env;
}
