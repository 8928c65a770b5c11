-- ===== src/Proto/Parser.antt =====
-- libpagekite/pkproto.c: pk_parser_parse_new_data() and pk_parser_parse(). The chunk callback is
-- a parameter: it takes its own state and the chunk, which it may change. Lengths given to the parser
-- are natural numbers; its callers pass what a read returned.
pub mod Invariant
pub mod Deliver
pub mod FrameStep
pub mod Consumed
pub mod Bounds
pub mod Whole
use libpagekite.Base.{
  ℕ, zero, suc, ◌+◌, ◌-◌, ◌≡◌, Bool, true, false, not, ◌&&◌, ◌||◌, List, [], ◌∷◌, ◌++◌, Option,
  none, some, ltb, leb, ◌==◌, if◌then◌else◌, Bytes, ℤ, pos, negsuc, ◌+ℤ◌, ◌-ℤ◌, ltb_ℤ, pos_part,
  to_int, length, take, drop,
}
use libpagekite.Proto.Chunk.{Frame, Chunk, Quota, Parser, pk_chunk_reset_values, pk_parser_reset}
use libpagekite.Proto.Header.{
  Status, ok, err, Error, bad_chunk, no_memory, Parsed, parse_frame_header, parse_chunk_header,
}

-- memcpy(buf + i, bytes, length of bytes)
unfoldable pub write_at : Bytes → ℕ → Bytes → Bytes
write_at buf i bytes = take i buf ++ (bytes ++ drop (i + length bytes) buf)

abbrev pub is_some : {A : Type 0} → Option A → Bool
is_some none = false
is_some (some a) = true

-- The callback of a parser, or NULL.
abbrev pub Callback : Type 0 → Type 0
Callback E = Option (E → Chunk → E × Chunk)

-- What a step of the parser comes to: it returns, or it calls itself for what follows the frame.
pub data Step (E : Type 0) : Type 0 where
  stop : Status → Parser E → Step E
  leftover : ℕ → Parser E → Step E

module _ {E : Type 0} where
  abbrev pub with_frame : Parser E → Frame → Parser E
  with_frame p f = record p { chunk = record p.chunk { frame = f } }

  -- "Update counters."
  unfoldable pub count_bytes : ℕ → Parser E → Parser E
  count_bytes n p = record p {
    buffer_bytes_left = p.buffer_bytes_left - n;
    chunk = record p.chunk {
      frame = record p.chunk.frame { raw_length = p.chunk.frame.raw_length + n };
    };
  }

  unfoldable pub call : Callback E → E → Chunk → E × Chunk
  call none env c = (env, c)
  call (some f) env c = f env c

  -- "adjusting"
  unfoldable pub adjust : Parser E → Parser E
  adjust p =
      let n = p.chunk.length in
      let f = p.chunk.frame in
      record p {
        buffer_bytes_left = pos_part (pos p.buffer_bytes_left +ℤ n);
        chunk = record p.chunk {
          frame = record f {
            length = f.length -ℤ n;
            raw_length = pos_part (pos f.raw_length -ℤ n);
          };
        };
      }

  -- memmove(raw_frame, raw_frame + wanted_length, leftovers)
  unfoldable pub move_leftovers : ℕ → ℕ → Parser E → Parser E
  move_leftovers wanted leftovers p =
      let f = p.chunk.frame in
      with_frame p
        (record f { raw_frame = write_at f.raw_frame 0 (take leftovers (drop wanted f.raw_frame)) })

  -- The length of the fragment that has come, for a chunk whose header is parsed.
  unfoldable pub next_fragment : ℕ → Parser E → Parser E
  next_fragment n p =
      let c = p.chunk in
      record p {
        chunk = record c {
          length = if ltb_ℤ c.total (c.offset +ℤ pos n) then c.total -ℤ c.offset else pos n;
        };
      }

  unfoldable pub chunk_header : ℤ → Parser E → Status × Parser E
  chunk_header bytes p =
      let (status, s) = parse_chunk_header bytes (record { chunk = p.chunk; quota = p.quota }) in
      (status, record p { chunk = s.chunk; quota = s.quota })

  abbrev pub advance : Parser E → Parser E
  advance p = record p { chunk = record p.chunk { offset = p.chunk.offset +ℤ p.chunk.length } }

  -- The frame header, if its length is not known yet.
  unfoldable pub frame_header : Parser E → Status × Parser E
  frame_header p =
      let (status, f) = parse_frame_header p.chunk.frame in
      if ltb_ℤ p.chunk.frame.length (pos 0) then (status, with_frame p f) else (ok 0, p)

  -- Behind the call: more of the chunk is to come, or another frame may follow it.
  unfoldable pub after_call : ℕ → Bool → ℤ → Parser E → Step E
  after_call n fragmenting wanted p =
      let leftovers = to_int (pos p.chunk.frame.raw_length -ℤ wanted) in
      if fragmenting || ltb_ℤ p.chunk.offset p.chunk.total
      then stop (ok n) (adjust p)
      else if ltb_ℤ (pos 0) leftovers
      then leftover (pos_part leftovers)
          (pk_parser_reset (move_leftovers (pos_part wanted) (pos_part leftovers) p))
      else stop (ok n) (pk_parser_reset p)

module _ {E : Type 0} (callback : Callback E) where
  -- The call of the callback, which is not shown an EOF while there is more of the frame to come,
  -- and what is restored behind it.
  unfoldable pub call_back : Bool → Parser E → Parser E
  call_back fragmenting p =
      let c = p.chunk in
      let shown = record c { eof = if fragmenting then none else c.eof } in
      let (env, c') = call callback p.env shown in
      elim callback [
        | none ↦ p
        | some _ ↦ record p {
          env = env;
          chunk = record c' {
            eof = c.eof;
            data_at = c.data_at;
            length = c.length;
            first_chunk = false;
          };
        }
      ]

  -- Behind the header: hand the data over, and see what is left.
  unfoldable pub deliver : ℕ → Bool → ℤ → Parser E → Step E
  deliver n fragmenting wanted p =
      after_call n fragmenting wanted (call_back fragmenting (advance p))

  unfoldable pub deliver_header : ℕ → Bool → ℤ → Status × Parser E → Step E
  deliver_header n fragmenting wanted (err e, p) = stop (err bad_chunk) p
  deliver_header n fragmenting wanted (ok _, p) = deliver n fragmenting wanted p

  -- The chunk header is parsed once.
  unfoldable pub parse_fragment : ℕ → Bool → ℤ → ℤ → Parser E → Step E
  parse_fragment n fragmenting wanted parse_length p =
      if is_some p.chunk.data_at
      then deliver n fragmenting wanted (next_fragment n p)
      else deliver_header n fragmenting wanted (chunk_header parse_length p)

  -- Parse what there is, if it is the whole frame, a part of it in a full buffer, or more of a
  -- chunk whose header is parsed.
  unfoldable pub parse_if : ℕ → Bool → ℤ → Parser E → Step E
  parse_if n fragmenting wanted p =
      let f = p.chunk.frame in
      let parse_length =
        to_int (if fragmenting then pos f.raw_length -ℤ f.hdr_length else f.length) in
      if fragmenting || (is_some p.chunk.data_at || not (ltb_ℤ (pos f.raw_length) wanted))
      then parse_fragment n fragmenting wanted parse_length p
      else stop (ok n) p

  -- With wanted_length.
  unfoldable pub with_wanted : ℕ → ℤ → Parser E → Step E
  with_wanted n wanted p =
      parse_if n (ltb p.buffer_bytes_left 1 && ltb_ℤ (pos p.chunk.frame.raw_length) wanted) wanted p

  -- With the length of the frame known.
  unfoldable pub parse_frame : ℕ → Parser E → Step E
  parse_frame n p = with_wanted n (to_int (p.chunk.frame.length +ℤ p.chunk.frame.hdr_length)) p

  unfoldable pub frame_known : ℕ → Status × Parser E → Step E
  frame_known n (err e, p) = stop (err e) p
  frame_known n (ok _, p) =
      if ltb_ℤ p.chunk.frame.length (pos 0) then stop (ok n) p else parse_frame n p

  -- The function up to its call of itself.
  unfoldable pub new_data_step : ℕ → Parser E → Step E
  new_data_step n p =
      let p' = count_bytes n p in
      if n == 0
      then stop (ok n) p
      else if ltb p'.chunk.frame.raw_length 3
      then stop (ok n) p'
      else frame_known n (frame_header p')

  -- The result for the leftovers is not looked at. They are shorter than what was there before, so a
  -- fuel of one more than the bytes is enough; with no fuel there are no bytes.
  unfoldable pub pk_parser_parse_new_data : ℕ → ℕ → Parser E → Status × Parser E
  pk_parser_parse_new_data zero n p = (ok n, p)
  pk_parser_parse_new_data (suc fuel) n p = elim (new_data_step n p) [
    | stop status q ↦ (status, q)
    | leftover l q ↦ (ok n, (pk_parser_parse_new_data fuel l q).1)
  ]

  -- memcpy() of what fits, and the parse of it.
  unfoldable pub take_in : ℕ → Bytes → Parser E → Status × Parser E
  take_in copy bytes p =
      let f = p.chunk.frame in
      let raw = write_at f.raw_frame f.raw_length (take copy bytes) in
      pk_parser_parse_new_data (suc (f.raw_length + copy)) copy
        (with_frame p (record f { raw_frame = raw }))

  -- The do-while loop: each round takes at least one byte, so length + 1 rounds are enough.
  unfoldable pub parse_loop : ℕ → ℕ → ℕ → Bytes → Parser E → Status × Parser E
  parse_loop zero parsed n bytes p = (ok parsed, p)
  parse_loop (suc fuel) parsed n bytes p =
      let left = p.buffer_bytes_left in
      let (status, p') = take_in (if ltb left n then left else n) bytes p in
      if ltb 0 n && leb left 0 then (err no_memory, p) else elim status [
        | err e ↦ (err e, pk_parser_reset p')
        | ok done ↦
            let more = parse_loop fuel (parsed + done) (n - done) (drop done bytes) p' in
            if ltb 0 (n - done) then more else (ok (parsed + done), p')
      ]

  unfoldable pub pk_parser_parse : ℕ → Bytes → Parser E → Status × Parser E
  pk_parser_parse n bytes p = parse_loop (suc n) 0 n bytes p
