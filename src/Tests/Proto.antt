-- ===== src/Tests/Proto.antt =====
-- libpagekite/pkproto.c: pkproto_test_parser(), and examples for the parser.
use libpagekite.Base.{
  arith, ◌≤◌, ◌⊎◌, minus_one, ◌≡◌, refl, List, [], ◌∷◌, ◌++◌, some, Bytes, codes, cstr, pos,
  pos_part, negsuc, length, take, drop, replicate, to_int, isspace, has_prefix_nocase,
}
use libpagekite.Libc.{to_hex, sscanf_lx, sscanf_d, sscanf_ld}
use libpagekite.Utils.Lines.{zero_first_crlf}
use libpagekite.Proto.Chunk.{Chunk, Parser, pk_parser_init, pk_parser_reset}
use libpagekite.Proto.Header.{
  Status, ok, err, bad_frame, bad_chunk, at, parse_chunk_header, parse_frame_header, header_line,
  header_lines, finish_header, frame_header_end, convert_frame_length, line_s, line_p, line_r,
  line_q, store_days, store_conns, store_mb,
}
use libpagekite.Utils.Lines.Laws.{NoCrlf, CutsLine, zero_first_crlf-CutsLine}
use libpagekite.Proto.Header.Bounds.{Outcome, parse_chunk_header-Outcome}
use libpagekite.Proto.Header.{Parsed}
use libpagekite.Proto.Format.{pk_format_reply, pk_format_frame, sprintf_s}
use libpagekite.Proto.Stream.Many.{Message, ShowAll, called, parse_each, parse_each-ShowAll}
use libpagekite.Proto.Stream.Reply.{Shows, pk_parser_parse-pk_format_reply}
use libpagekite.Proto.Parser.Bounds.{pk_parser_parse_new_data-fuel}
use libpagekite.Proto.Parser.Invariant.{KeepsFrame, Fits}
use libpagekite.Proto.Parser.Consumed.{Reports}
use libpagekite.Proto.Parser.Whole.{pk_parser_parse-Fits}
use libpagekite.Proto.Parser.{
  Callback, pk_parser_parse, parse_loop, take_in, pk_parser_parse_new_data, new_data_step,
  frame_known, frame_header, parse_frame, parse_fragment, deliver_header, deliver, chunk_header,
  next_fragment, move_leftovers, adjust, call_back, call, count_bytes, write_at, after_call,
  parse_if, with_wanted,
}

abbrev Seen : Type 0
Seen = List (Bytes × Bytes)

-- A callback that keeps what it is shown: the stream ID and the data.
abbrev seen_by : Seen → Chunk → Seen × Chunk
seen_by seen c =
    let m = c.frame.raw_frame in
    (seen ++ (cstr (drop (at c.sid) m), take (pos_part c.length) (drop (at c.data_at) m)) ∷ [], c)

abbrev collect : Callback Seen
collect = some seen_by

abbrev fresh : Parser Seen
fresh =
    pk_parser_init (replicate 200 0xff)
      (record { days = negsuc 0; conns = negsuc 0; mb = negsuc 0 }) []

abbrev test_chunk : Bytes
test_chunk =
    codes
      "SID: 1\r\neOf: r\r\nNOOP: !\r\nProto: http\r\nRIP: 127.0.0.1\r\nQuota: 1234\r\nQDays: 55\r\n\r\n54321"

abbrev test_frame : Bytes
test_frame = to_hex (length test_chunk) ++ (codes "\r\n" ++ test_chunk)

parsed : Bytes → Status × Parser Seen
unfolding pk_parser_parse parse_loop take_in pk_parser_parse_new_data new_data_step frame_known
    frame_header parse_frame parse_fragment deliver_header deliver chunk_header next_fragment
    move_leftovers adjust call_back call count_bytes write_at after_call parse_if with_wanted
    pk_parser_reset pk_parser_init parse_chunk_header header_lines finish_header parse_frame_header
    frame_header_end convert_frame_length header_line line_s line_p line_r line_q store_days
    store_conns store_mb zero_first_crlf to_int sscanf_lx sscanf_d sscanf_ld has_prefix_nocase
    isspace
parsed bytes = pk_parser_parse collect (length bytes) bytes fresh

bad_frame_test : (parsed (codes "z\r\n12345")).0 ≡ err bad_frame
unfolding parsed
bad_frame_test = refl

bad_chunk_test : (parsed (codes "5\r\n54321")).0 ≡ err bad_chunk
unfolding parsed
bad_chunk_test = refl

two_frames_test :
    ((parsed (test_frame ++ test_frame)).0 ≡ ok 178)
    × ((parsed (test_frame ++ test_frame)).1.env
        ≡ (codes "1", codes "54321") ∷ (codes "1", codes "54321") ∷ [])
unfolding parsed to_hex
two_frames_test = (refl, refl)

collect_keeps : KeepsFrame collect
collect_keeps = λ seen c. (refl, refl, refl)

-- A parser with a buffer of 200 bytes, behind which another variable lies.
abbrev followed : Parser Seen
followed = record fresh {
  chunk = record fresh.chunk {
    frame = record fresh.chunk.frame { raw_frame = replicate 200 0xff ++ codes "next" };
  };
}

followed-Fits : Fits 200 (codes "next") followed
unfolding pk_parser_init
followed-Fits = record {
  space = refl;
  memory = record { size = refl; rest = refl };
  header = tt;
  fragment = tt;
}

pk_parser_parse-Fits_example :
    Fits 200 (codes "next") (pk_parser_parse collect (length test_frame) test_frame followed).1
    × Reports
        (length test_frame)
        (pk_parser_parse collect (length test_frame) test_frame followed).0
unfolding parsed to_hex
pk_parser_parse-Fits_example =
    pk_parser_parse-Fits collect collect_keeps {cap = 200} (omega arith) (length test_frame)
      test_frame followed followed-Fits refl ((omega arith, tt), tt)

-- A buffer that holds two frames, so that the parser calls itself for the second one.
two_frames : Parser Seen
two_frames =
    pk_parser_init (test_frame ++ test_frame)
      (record { days = minus_one; conns = minus_one; mb = minus_one }) []

two_frames-Fits : Fits 178 [] two_frames
unfolding two_frames pk_parser_init to_hex
two_frames-Fits = record {
  space = refl;
  memory = record { size = refl; rest = refl };
  header = tt;
  fragment = tt;
}

calls_itself_test :
    (pk_parser_parse_new_data collect 179 178 two_frames).1.env
    ≡ (codes "1", codes "54321") ∷ (codes "1", codes "54321") ∷ []
unfolding parsed two_frames to_hex
calls_itself_test = refl

pk_parser_parse_new_data-fuel_example :
    pk_parser_parse_new_data collect 179 178 two_frames
    ≡ pk_parser_parse_new_data collect 500 178 two_frames
unfolding parsed two_frames to_hex
pk_parser_parse_new_data-fuel_example =
    pk_parser_parse_new_data-fuel collect collect_keeps {cap = 178} (omega arith) 179 500 178
      two_frames two_frames-Fits (omega arith) (omega arith, (omega arith, tt)) (omega arith)
      (omega arith)

abbrev reply : Bytes
reply = pk_format_reply (some (codes "1")) 5 (some (codes "54321"))

pk_parser_parse-pk_format_reply_example :
    (c : Chunk) × (q : Parser Seen) × Shows (codes "1") (codes "54321") c
    × (c.frame.raw_length ≡ length reply)
    × (q.env ≡ (seen_by fresh.env c).0)
    × ((pk_parser_reset q).buffer_bytes_left ≡ (pk_parser_reset fresh).buffer_bytes_left)
    × (pk_parser_parse collect (length reply) reply (pk_parser_reset fresh)
        ≡ (ok (length reply), pk_parser_reset q))
unfolding pk_format_reply pk_format_frame sprintf_s to_hex pk_parser_reset pk_parser_init
pk_parser_parse-pk_format_reply_example =
    pk_parser_parse-pk_format_reply seen_by collect_keeps (codes "1") (codes "54321") fresh tt
      (ground arith, tt) (omega arith) (omega arith)

zero_first_crlf-CutsLine_example :
    let r = zero_first_crlf (pos 7) (codes "55\r\nSID") in
    ((r.0 ≡ 0) × (r.1 ≡ codes "55\r\nSID") × NoCrlf (take 7 (codes "55\r\nSID")))
    ⊎ ((r.0 ≤ 7) × CutsLine r.0 (codes "55\r\nSID") r.1)
zero_first_crlf-CutsLine_example = zero_first_crlf-CutsLine 7 (codes "55\r\nSID")

-- The frame header is behind it: the chunk begins at offset 4.
abbrev with_header : Parsed
with_header = record {
  chunk = record fresh.chunk {
    frame = record fresh.chunk.frame {
      length = pos 14;
      data_at = some 3;
      raw_frame = codes "e\r\nSID: 1\r\n\r\nHello";
    };
  };
  quota = fresh.quota;
}

parse_chunk_header-Outcome_example :
    Outcome 14 with_header (parse_chunk_header (pos 14) with_header)
parse_chunk_header-Outcome_example = parse_chunk_header-Outcome 14 with_header

abbrev messages : List Message
messages = (codes "1", codes "54321") ∷ (codes "2", []) ∷ []

parse_each-ShowAll_example :
    (cs : List Chunk) × (q : Parser Seen) × ShowAll messages cs
    × (q.env ≡ called seen_by cs fresh.env)
    × ((pk_parser_reset q).buffer_bytes_left ≡ (pk_parser_reset fresh).buffer_bytes_left)
    × (parse_each seen_by messages (pk_parser_reset fresh) ≡ pk_parser_reset q)
unfolding pk_format_reply pk_format_frame sprintf_s to_hex pk_parser_reset pk_parser_init
parse_each-ShowAll_example = parse_each-ShowAll seen_by collect_keeps messages fresh (
  (tt, (ground arith, tt), omega arith, omega arith),
  ((tt, (ground arith, tt), omega arith, omega arith), tt),
)
