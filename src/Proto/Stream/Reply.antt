-- ===== src/Proto/Stream/Reply.antt =====
-- pk_format_reply() and pk_parser_parse() (libpagekite/pkproto.c): the round trip.
use libpagekite.Base.{
  ℕ, suc, ◌+◌, ◌-◌, ◌^◌, ◌≤◌, ◌<◌, ◌≡◌, ◌≢◌, refl, sym, ap, ◌∙◌, false, ◌&&◌, [], ◌∷◌, ◌++◌,
  append_assoc, append-nil, some, arith, ltb, leb, ◌==◌, if◌then◌else◌, Bytes, crlf, cstr,
  cstr-append, All, length, length-append, take, drop, take-length_append, drop-length_append,
  drop-add, pos,
}
use libpagekite.Libc.{to_hex}
use libpagekite.Utils.Lines.Laws.{NoCrlf}
use libpagekite.Proto.Chunk.{Frame, Chunk, Parser, pk_parser_reset}
use libpagekite.Proto.Header.{Status, ok}
use libpagekite.Proto.Format.{pk_format_reply}
use libpagekite.Proto.Format.Size.{pk_format_reply-is}
use libpagekite.Proto.Parser.{
  Callback, stop, with_frame, count_bytes, call, call_back, advance, new_data_step,
  pk_parser_parse_new_data, take_in, parse_loop, pk_parser_parse, write_at,
}
use libpagekite.Proto.Parser.Invariant.{KeepsFrame}
use libpagekite.Proto.Stream.HeaderLines.{sid_line, nuls}
use libpagekite.Proto.Stream.Whole.{shown, copied_in, frame_known-reply}

-- What the callback is shown of a reply.
pub record Shows (sid body : Bytes) (c : Chunk) : Type 0 where
  pub sid_at : ℕ
  pub sid_is : c.sid ≡ some sid_at
  pub sid_text : cstr (drop sid_at c.frame.raw_frame) ≡ sid
  pub body_at : ℕ
  pub data_is : c.data_at ≡ some body_at
  pub length_is : c.length ≡ pos (length body)
  pub body_text : take (length body) (drop body_at c.frame.raw_frame) ≡ body

drop-past : (before m : Bytes) (k : ℕ) → drop (length before + k) (before ++ m) ≡ drop k m
drop-past before m k =
    drop-add k (length before) (before ++ m) ∙ ap (drop k) (drop-length_append before m)

module _ {E : Type 0} (callback : Callback E) where
  stops :
      (fuel n : ℕ) (p q : Parser E)
      → new_data_step callback n p ≡ stop (ok n) q
      → pk_parser_parse_new_data callback (suc fuel) n p ≡ (ok n, q)
  unfolding pk_parser_parse_new_data
  stops fuel n p q e = rw (e, pk_parser_parse_new_data) refl

  -- A step that takes all of its bytes and stops makes the whole call, and the whole loop.
  parse-one_step :
      (n : ℕ) (bytes : Bytes) (p q : Parser E)
      → 0 < n
      → n ≤ p.buffer_bytes_left
      → length bytes ≡ n
      → new_data_step callback n (
          with_frame p (record p.chunk.frame {
            raw_frame = write_at p.chunk.frame.raw_frame p.chunk.frame.raw_length bytes;
          }))
        ≡ stop (ok n) q
      → pk_parser_parse callback n bytes p ≡ (ok n, q)
  unfolding pk_parser_parse parse_loop
  parse-one_step n bytes p q some_bytes room len e =
      let copies : ltb p.buffer_bytes_left n ≡ false = ground arith in
      let moves : (ltb 0 n && leb p.buffer_bytes_left 0) ≡ false = ground arith in
      let all : take n bytes ≡ bytes =
        ap (λ k. take k bytes) (sym len)
        ∙ ap (take (length bytes)) (sym (append-nil bytes))
        ∙ take-length_append bytes [] in
      let done : ltb 0 (n - n) ≡ false = ground arith in
      let total : 0 + n ≡ n = omega arith in
      let written : take_in callback n bytes p ≡ (ok n, q) =
        unfold take_in in rw all (stops (p.chunk.frame.raw_length + n) n _ q e) in
      let copy : (if ltb p.buffer_bytes_left n then p.buffer_bytes_left else n) ≡ n =
        rw copies refl in
      let taken : take_in callback (if ltb p.buffer_bytes_left n then p.buffer_bytes_left else n)
            bytes p
          ≡ (ok n, q) =
        ap (λ c. take_in callback c bytes p) copy ∙ written in
      rw (moves, taken, done, total) (ap (λ (r : Status × Parser E). (ok n, r.1)) taken)

module _ {E : Type 0} (f : E → Chunk → E × Chunk) (keeps : KeepsFrame (some f)) where
  new_data_step-reply :
      (l : ℕ) (sid rest : Bytes) (p : Parser E) (n : ℕ)
      → n ≡ l + (length (to_hex l) + 2)
      → NoCrlf sid
      → length sid + 9 ≤ l
      → n < 2 ^ 31
      → new_data_step
          (some f)
          n
          (copied_in 0 (to_hex l ++ (crlf ++ (sid_line sid ++ (crlf ++ (crlf ++ rest))))) p)
        ≡ stop (ok n) (
            pk_parser_reset (
              call_back (some f) false (
                advance (
                  shown l
                    (to_hex l ++ nuls [])
                    sid
                    rest
                    (record p { buffer_bytes_left = p.buffer_bytes_left - n })))))
  unfolding new_data_step count_bytes
  new_data_step-reply l sid rest p n is one_line le small =
      let more : (n == 0) ≡ false = ground arith in
      let enough : ltb n 3 ≡ false = ground arith in
      let raw : 0 + n ≡ n = omega arith in
      rw (more, raw, enough, is)
        (frame_known-reply f keeps (l + (length (to_hex l) + 2)) l sid rest
          (record p { buffer_bytes_left = p.buffer_bytes_left - (l + (length (to_hex l) + 2)) })
          one_line le (omega (arith, is, small)))

  shown-Shows :
      (l : ℕ) (before sid body tail : Bytes) (p : Parser E)
      → All (λ c. c ≢ 0) sid
      → l ≡ length sid + 9 + length body
      → Shows sid body (advance (shown l before sid (body ++ tail) p)).chunk
  shown-Shows l before sid body tail p text e = record {
    sid_at = length before + 5;
    sid_is = refl;
    sid_text =
        ap cstr (drop-past before (sid_line sid ++ nuls (nuls (body ++ tail))) 5)
        ∙ cstr-append sid (0 ∷ nuls (body ++ tail)) text;
    body_at = length before + (length sid + 9);
    data_is = refl;
    length_is = ap pos (omega (arith, e));
    body_text = after_header;
  }
    where
      after_header :
          take (length body) (
            drop
              (length before + (length sid + 9))
              (before ++ (sid_line sid ++ nuls (nuls (body ++ tail)))))
          ≡ body
      after_header =
          let seam : sid_line sid ++ nuls (nuls (body ++ tail))
              ≡ (sid_line sid ++ nuls (nuls [])) ++ (body ++ tail) =
            simp (append_assoc) refl in
          let end : length sid + 9 ≡ length (sid_line sid ++ nuls (nuls [])) =
            omega (arith, length-append sid (nuls (nuls []))) in
          ap (take (length body)) (
            drop-past before (sid_line sid ++ nuls (nuls (body ++ tail))) (length sid + 9)
            ∙ rw (seam, end) (drop-length_append (sid_line sid ++ nuls (nuls [])) (body ++ tail)))
          ∙ take-length_append body tail

  abbrev Taken : Bytes → Bytes → Bytes → Parser E → Type 0
  Taken sid body out p =
      (c : Chunk) × (q : Parser E) × Shows sid body c
      × (c.frame.raw_length ≡ length out)
      × (q.env ≡ (f p.env c).0)
      × ((pk_parser_reset q).buffer_bytes_left ≡ (pk_parser_reset p).buffer_bytes_left)
      × (pk_parser_parse (some f) (length out) out (pk_parser_reset p)
          ≡ (ok (length out), pk_parser_reset q))

  text-Taken :
      (l : ℕ) (sid body out : Bytes) (p : Parser E)
      → NoCrlf sid
      → All (λ c. c ≢ 0) sid
      → l ≡ length sid + 9 + length body
      → out ≡ to_hex l ++ (crlf ++ ((sid_line sid ++ crlf) ++ (crlf ++ body)))
      → length out < 2 ^ 31
      → length out ≤ (pk_parser_reset p).buffer_bytes_left
      → Taken sid body out p
  unfolding pk_parser_reset
  text-Taken l sid body out p one_line text l_is out_is small room =
      let n = length out in
      let tail = drop (0 + n) p.chunk.frame.raw_frame in
      let p' = record (pk_parser_reset p) {
        buffer_bytes_left = (pk_parser_reset p).buffer_bytes_left - n;
      } in
      let s = advance (shown l (to_hex l ++ nuls []) sid (body ++ tail) p') in
      let q = call_back (some f) false s in
      let behind : Bytes = (sid_line sid ++ crlf) ++ (crlf ++ body) in
      let size : n ≡ l + (length (to_hex l) + 2) = omega (
        arith,
        ap length out_is,
        length-append (to_hex l) (crlf ++ behind),
        length-append (sid_line sid ++ crlf) (crlf ++ body),
        length-append sid crlf,
        l_is,
      ) in
      let memory : write_at p.chunk.frame.raw_frame 0 out
          ≡ to_hex l ++ (crlf ++ (sid_line sid ++ (crlf ++ (crlf ++ (body ++ tail))))) =
        unfold write_at in ap (λ o. o ++ tail) out_is ∙ simp (append_assoc) refl in
      let step =
        ap (λ m. new_data_step (some f) n (copied_in 0 m (pk_parser_reset p))) memory
        ∙ new_data_step-reply l sid (body ++ tail) (pk_parser_reset p) n size one_line
            (omega (arith, l_is)) small in
      (
        s.chunk,
        q,
        shown-Shows l (to_hex l ++ nuls []) sid body tail p' text l_is,
        omega (arith, size, length-append (to_hex l) (nuls [])),
        unfold call_back call in refl,
        unfold call_back call in
            omega (
              arith,
              ap (λ (g : Frame). g.raw_length) (keeps p.env s.chunk).0,
              size,
              length-append (to_hex l) (nuls []),
              room,
            ),
        parse-one_step (some f) n out (pk_parser_reset p) (pk_parser_reset q) (omega (arith, size))
            room refl step,
      )

  -- A reply that comes in one piece, to a parser that was reset and has room for it: the callback is
  -- called with its SID and its data, and the parser has taken all of it, is reset, and has as much
  -- room as before. The SID has no line break and no NUL in it, the frame's size fits an int, and the
  -- callback keeps the frame.
  pub pk_parser_parse-pk_format_reply :
      (sid body : Bytes) (p : Parser E)
      → NoCrlf sid
      → All (λ c. c ≢ 0) sid
      → let out = pk_format_reply (some sid) (length body) (some body) in
        length out < 2 ^ 31
        → length out ≤ (pk_parser_reset p).buffer_bytes_left
        → (c : Chunk) × (q : Parser E) × Shows sid body c
          × (c.frame.raw_length ≡ length out)
          × (q.env ≡ (f p.env c).0)
          × ((pk_parser_reset q).buffer_bytes_left ≡ (pk_parser_reset p).buffer_bytes_left)
          × (pk_parser_parse (some f) (length out) out (pk_parser_reset p)
              ≡ (ok (length out), pk_parser_reset q))
  pk_parser_parse-pk_format_reply sid body p one_line text small room =
      text-Taken (length sid + 9 + length body) sid body
        (pk_format_reply (some sid) (length body) (some body)) p one_line text refl
        (pk_format_reply-is sid body) small room
