-- ===== src/Proto/Parser/Bounds.antt =====
-- The parser (libpagekite/pkproto.c) keeps its accounting of the buffer and writes nothing outside
-- it, as long as the frames that the other side announces fit an int.
use libpagekite.Base.{
  ℕ, zero, suc, ◌+◌, ◌^◌, ◌≤◌, ◌<◌, ◌≡◌, refl, ap, subst, ◌∙◌, inl, inr, true, false, arith, ltb,
  ◌==◌, if◌then◌else◌, Bool-cases, ℤ, pos, negsuc, ltb_ℤ, Bytes,
}
use libpagekite.Proto.Chunk.{Parser}
use libpagekite.Proto.Header.{Status, ok, err}
use libpagekite.Proto.Parser.{
  Callback, Step, stop, leftover, count_bytes, parse_frame, frame_header, frame_known,
  new_data_step, pk_parser_parse_new_data,
}
use libpagekite.Proto.Parser.Invariant.{
  HeaderKnown, FitsWith, Fits, KeepsFrame, StepFits, all_seen, count_bytes-FitsWith,
}
use libpagekite.Proto.Parser.FrameStep.{frame_header-FitsWith, parse_frame-StepFits}

module _ {E : Type 0} (callback : Callback E) (keeps : KeepsFrame callback) {cap : ℕ}
    (small : cap < 2 ^ 31) where
  -- The length that the frame header announces, if one is known, fits an int with the buffer's size.
  abbrev pub IsSmall : ℤ → Type 0
  IsSmall (pos l) = l + cap < 2 ^ 31
  IsSmall (negsuc _) = Unit {0}

  pub frame_known-StepFits :
      {beyond : Bytes} (n b : ℕ) (r : Status × Parser E)
      → FitsWith n cap beyond r.1
      → IsSmall r.1.chunk.frame.length
      → r.1.chunk.frame.raw_length ≤ b
      → StepFits cap beyond b (frame_known callback n r)
  unfolding frame_known
  frame_known-StepFits {beyond} n b (err e, p) v s fits = all_seen p v
  frame_known-StepFits {beyond} n b (ok x, p) v s fits = by_length p.chunk.frame.length refl
    where
      by_length :
          (x : ℤ)
          → p.chunk.frame.length ≡ x
          → StepFits cap beyond b (
              if ltb_ℤ p.chunk.frame.length (pos 0)
              then stop (ok n) p
              else parse_frame callback n p)
      by_length (negsuc m) e =
          let t : ltb_ℤ p.chunk.frame.length (pos 0) ≡ true = ap (λ x. ltb_ℤ x (pos 0)) e in
          rw t (all_seen p v)
      by_length (pos l) e =
          let t : ltb_ℤ p.chunk.frame.length (pos 0) ≡ false =
            ap (λ x. ltb_ℤ x (pos 0)) e ∙ ground arith in
          let (h, hdr, data_at, h_pos, h_le) : HeaderKnown (pos l) p.chunk.frame =
            subst (λ x. HeaderKnown x p.chunk.frame) e v.header in
          rw t (
            parse_frame-StepFits callback keeps small n b l h p v e hdr data_at h_pos h_le
              (subst IsSmall e s) fits)

  pub new_data_step-StepFits :
      {beyond : Bytes} (n : ℕ) (p : Parser E)
      → Fits cap beyond p
      → n ≤ p.buffer_bytes_left
      → IsSmall (frame_header (count_bytes n p)).1.chunk.frame.length
      → StepFits cap beyond (p.chunk.frame.raw_length + n) (new_data_step callback n p)
  unfolding new_data_step
  new_data_step-StepFits {beyond} n p v le s =
      let counted = count_bytes-FitsWith p le v in
      let (headed, raw) = frame_header-FitsWith (count_bytes n p) counted in
      elim (Bool-cases (n == 0)) [
        | inl nothing ↦ rw nothing v
        | inr more ↦ elim (Bool-cases (ltb (count_bytes n p).chunk.frame.raw_length 3)) [
          | inl few ↦ rw (more, few) (all_seen (count_bytes n p) counted)
          | inr enough ↦
              rw (more, enough)
                (frame_known-StepFits n _ (frame_header (count_bytes n p)) headed s
                  (omega (arith, raw, count_bytes-raw n p)))
        ]
      ]
    where
      count_bytes-raw :
          (n : ℕ) (p : Parser E)
          → (count_bytes n p).chunk.frame.raw_length ≡ p.chunk.frame.raw_length + n
      count_bytes-raw n p = unfold count_bytes in refl

  abbrev pub AfterStep : (ℕ → Parser E → Type 0) → Step E → Type 0
  AfterStep P (stop _ q) = Unit
  AfterStep P (leftover l q) = P l q

  -- Every frame header that a parse reads announces a length that is small.
  abbrev pub AnnouncesSmall : ℕ → ℕ → Parser E → Type 0
  AnnouncesSmall zero n p = Unit {0}
  AnnouncesSmall (suc fuel) n p =
      IsSmall (frame_header (count_bytes n p)).1.chunk.frame.length
      × AfterStep (AnnouncesSmall fuel) (new_data_step callback n p)

  pub pk_parser_parse_new_data-Fits :
      {beyond : Bytes} (fuel n : ℕ) (p : Parser E)
      → Fits cap beyond p
      → n ≤ p.buffer_bytes_left
      → AnnouncesSmall fuel n p
      → Fits cap beyond (pk_parser_parse_new_data callback fuel n p).1
  unfolding pk_parser_parse_new_data
  pk_parser_parse_new_data-Fits {beyond} zero n p v le s = v
  pk_parser_parse_new_data-Fits {beyond} (suc fuel) n p v le (s, more) =
      after (new_data_step callback n p) (new_data_step-StepFits n p v le s) more
        (λ l q. pk_parser_parse_new_data-Fits fuel l q)
    where
      after :
          (st : Step E)
          → StepFits cap beyond (p.chunk.frame.raw_length + n) st
          → AfterStep (AnnouncesSmall fuel) st
          → ((l : ℕ) (q : Parser E)
              → Fits cap beyond q
              → l ≤ q.buffer_bytes_left
              → AnnouncesSmall fuel l q
              → Fits cap beyond (pk_parser_parse_new_data callback fuel l q).1)
          → Fits cap beyond
              (elim st as (λ _. Status × Parser E) [
                | stop status q ↦ (status, q)
                | leftover l q ↦ (ok n, (pk_parser_parse_new_data callback fuel l q).1)
              ]).1
      after (stop _ q) f m again = f
      after (leftover l q) (f, l_le, _) m again = again l q f l_le m

  -- The recursion ends: from a parser that fits its buffer, with frame headers that announce small
  -- lengths, any two amounts of fuel above the number of bytes give the same result.
  pub pk_parser_parse_new_data-fuel :
      {beyond : Bytes} (fuel fuel' n : ℕ) (p : Parser E)
      → Fits cap beyond p
      → n ≤ p.buffer_bytes_left
      → AnnouncesSmall fuel n p
      → p.chunk.frame.raw_length + n < fuel
      → p.chunk.frame.raw_length + n < fuel'
      → pk_parser_parse_new_data callback fuel n p ≡ pk_parser_parse_new_data callback fuel' n p
  unfolding pk_parser_parse_new_data
  pk_parser_parse_new_data-fuel {beyond} zero fuel' n p v le s h h' = elim h [ ]
  pk_parser_parse_new_data-fuel {beyond} (suc fuel) zero n p v le s h h' = elim h' [ ]
  pk_parser_parse_new_data-fuel {beyond} (suc fuel) (suc fuel') n p v le (s, more) h h' =
      after (new_data_step callback n p) (new_data_step-StepFits n p v le s) more
        (λ l q. pk_parser_parse_new_data-fuel fuel fuel' l q)
    where
      run : ℕ → Step E → Status × Parser E
      run fuel st = elim st [
        | stop status q ↦ (status, q)
        | leftover l q ↦ (ok n, (pk_parser_parse_new_data callback fuel l q).1)
      ]

      after :
          (st : Step E)
          → StepFits cap beyond (p.chunk.frame.raw_length + n) st
          → AfterStep (AnnouncesSmall fuel) st
          → ((l : ℕ) (q : Parser E)
              → Fits cap beyond q
              → l ≤ q.buffer_bytes_left
              → AnnouncesSmall fuel l q
              → q.chunk.frame.raw_length + l < fuel
              → q.chunk.frame.raw_length + l < fuel'
              → pk_parser_parse_new_data callback fuel l q
                ≡ pk_parser_parse_new_data callback fuel' l q)
          → run fuel st ≡ run fuel' st
      after (stop _ q) f m again = refl
      after (leftover l q) (f, l_le, fewer) m again =
          ap (λ (r : Status × Parser E). (ok n, r.1))
            (again l q f l_le m (omega (arith, fewer)) (omega (arith, fewer)))
