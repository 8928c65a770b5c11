-- ===== src/Proto/Stream/Whole.antt =====
-- pk_parser_parse() (libpagekite/pkproto.c) on a reply that comes in one piece.
use libpagekite.Base.{
  ℕ, ◌+◌, ◌-◌, ◌^◌, ◌≤◌, ◌<◌, ◌≡◌, refl, ap, ◌∙◌, false, ◌&&◌, [], ◌++◌, append_assoc, none, some,
  arith, ltb, Bytes, crlf, length, length-append, pos, ◌-ℤ◌, ltb_ℤ, to_int, to_int-small, minus_one,
}
use libpagekite.Utils.Lines.Laws.{NoCrlf}
use libpagekite.Proto.Chunk.{Frame, Chunk, Parser, pk_parser_reset}
use libpagekite.Proto.Header.{ok}
use libpagekite.Proto.Parser.{
  stop, call, call_back, chunk_header, advance, after_call, deliver, deliver_header, parse_fragment,
  parse_if, with_wanted, parse_frame, frame_header, frame_known,
}
use libpagekite.Proto.Parser.Invariant.{KeepsFrame}
use libpagekite.Libc.{to_hex}
use libpagekite.Proto.Stream.FrameHeader.{parse_frame_header-to_hex}
use libpagekite.Proto.Stream.HeaderLines.{
  headed, sid_chunk, sid_line, nuls, parse_chunk_header-reply,
}

module _ {E : Type 0} where
  -- The frame and all of its chunk were shown to the callback: nothing is left over.
  after_call-whole :
      (n w t : ℕ) (p : Parser E)
      → p.chunk.frame.raw_length ≡ w
      → p.chunk.offset ≡ pos t
      → p.chunk.total ≡ pos t
      → after_call n false (pos w) p ≡ stop (ok n) (pk_parser_reset p)
  unfolding after_call to_int
  after_call-whole n w t p raw offset total =
      let nothing : pos p.chunk.frame.raw_length -ℤ pos w ≡ pos 0 =
        ap (λ k. pos k -ℤ pos w) raw ∙ ground arith in
      let all : ltb_ℤ p.chunk.offset p.chunk.total ≡ false = rw (offset, total) (ground arith) in
      rw (all, nothing) refl

  -- The frame's header is known, and all of it is there.
  abbrev pub ready : ℕ → Bytes → Bytes → Bytes → Parser E → Parser E
  ready l before sid rest p =
      let c = record p.chunk {
        data_at = none;
        frame = record p.chunk.frame {
          hdr_length = pos (length before);
          raw_length = l + length before;
        };
      } in
      record p { chunk = headed l before sid rest c }

  -- ... and the chunk's header is parsed.
  abbrev pub shown : ℕ → Bytes → Bytes → Bytes → Parser E → Parser E
  shown l before sid rest p = record p {
    chunk = sid_chunk l before sid rest (ready l before sid rest p).chunk;
  }

  -- What the parser holds when the frame's bytes are copied in: `total` bytes.
  abbrev pub copied_in : ℕ → Bytes → Parser E → Parser E
  copied_in total memory p = record p {
    chunk = record p.chunk {
      data_at = none;
      frame = record p.chunk.frame { length = minus_one; raw_length = total; raw_frame = memory };
    };
  }

module _ {E : Type 0} (f : E → Chunk → E × Chunk) (keeps : KeepsFrame (some f)) where
  parse_frame-reply :
      (n l : ℕ) (before sid rest : Bytes) (p : Parser E)
      → NoCrlf sid
      → length sid + 9 ≤ l
      → l + length before < 2 ^ 31
      → parse_frame (some f) n (ready l before sid rest p)
        ≡ stop
            (ok n)
            (pk_parser_reset (call_back (some f) false (advance (shown l before sid rest p))))
  unfolding parse_frame with_wanted parse_if parse_fragment deliver_header deliver chunk_header
      call_back call
  parse_frame-reply n l before sid rest p one_line le small =
      let w = l + length before in
      let q = shown l before sid rest p in
      let kept = keeps q.env (advance q).chunk in
      let all_here : ltb w w ≡ false = ground arith in
      let no_part : (ltb p.buffer_bytes_left 1 && false) ≡ false = ground arith in
      rw
        (
          to_int-small w small,
          all_here,
          no_part,
          to_int-small l (omega (arith, small)),
          parse_chunk_header-reply l before sid rest (ready l before sid rest p).chunk p.quota
              one_line le (omega (arith, small)),
        )
        (after_call-whole n w (l - (length sid + 9)) (call_back (some f) false (advance q))
          (ap (λ (g : Frame). g.raw_length) kept.0) (kept.1 ∙ ap pos (omega arith)) kept.2)

  pub frame_known-reply :
      (n l : ℕ) (sid rest : Bytes) (p : Parser E)
      → NoCrlf sid
      → length sid + 9 ≤ l
      → l + (length (to_hex l) + 2) < 2 ^ 31
      → frame_known (some f) n (
          frame_header (
            copied_in
              (l + (length (to_hex l) + 2))
              (to_hex l ++ (crlf ++ (sid_line sid ++ (crlf ++ (crlf ++ rest)))))
              p))
        ≡ stop (ok n) (
            pk_parser_reset
              (call_back (some f) false (advance (shown l (to_hex l ++ nuls []) sid rest p))))
  unfolding frame_known frame_header
  frame_known-reply n l sid rest p one_line le small =
      let body : Bytes = sid_line sid ++ (crlf ++ (crlf ++ rest)) in
      let before : length (to_hex l ++ nuls []) ≡ length (to_hex l) + 2 =
        omega (arith, length-append (to_hex l) (nuls [])) in
      let joined : to_hex l ++ nuls body ≡ (to_hex l ++ nuls []) ++ body =
        simp (append_assoc) refl in
      let natural : ltb l 0 ≡ false = ground arith in
      rw
        (
          parse_frame_header-to_hex l (l + (length (to_hex l) + 2)) body
              (record p.chunk.frame { length = minus_one }) (omega arith) small
              (omega (arith, small)),
          natural,
        )
        (ap (parse_frame (some f) n) (split_header l body p (to_hex l ++ nuls []) before joined)
          ∙ parse_frame-reply n l (to_hex l ++ nuls []) sid rest p one_line le
              (omega (arith, before, small)))
    where
      split_header :
          (l : ℕ) (body : Bytes) (p : Parser E) (before : Bytes)
          → length before ≡ length (to_hex l) + 2
          → to_hex l ++ nuls body ≡ before ++ body
          → ◌≡◌ {A = Parser E}
              (record p {
                chunk = record p.chunk {
                  data_at = none;
                  frame = record p.chunk.frame {
                    length = pos l;
                    data_at = some (length (to_hex l) + 2);
                    hdr_length = pos (length (to_hex l) + 2);
                    raw_length = l + (length (to_hex l) + 2);
                    raw_frame = to_hex l ++ nuls body;
                  };
                };
              })
              (record p {
                chunk = record p.chunk {
                  data_at = none;
                  frame = record p.chunk.frame {
                    length = pos l;
                    data_at = some (length before);
                    hdr_length = pos (length before);
                    raw_length = l + length before;
                    raw_frame = before ++ body;
                  };
                };
              })
      split_header l body p before e e' = rw (e, e') refl
