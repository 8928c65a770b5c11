-- ===== src/Proto/Parser/Consumed.antt =====
-- What pk_parser_parse_new_data() (libpagekite/pkproto.c) reports is the length it was given, or an
-- error.
use libpagekite.Base.{
  ℕ, zero, suc, ◌≡◌, refl, inl, inr, Bool, not, ◌||◌, arith, ltb, ltb_ℤ, ◌==◌, Bool-cases, ℤ, pos,
}
use libpagekite.Proto.Chunk.{Parser}
use libpagekite.Proto.Header.{Status, ok, err}
use libpagekite.Proto.Parser.{
  Callback, Step, stop, leftover, count_bytes, call_back, advance, chunk_header, next_fragment,
  after_call, deliver, deliver_header, parse_fragment, parse_if, with_wanted, parse_frame,
  frame_header, frame_known, new_data_step, pk_parser_parse_new_data, is_some,
}

abbrev pub Reports : ℕ → Status → Type 0
Reports n (ok m) = m ≡ n
Reports n (err _) = Unit {0}

module _ {E : Type 0} where
  abbrev StepReports : ℕ → Step E → Type 0
  StepReports n (stop s _) = Reports n s
  StepReports n (leftover _ _) = Unit

  after_call-Reports :
      (n : ℕ) (fragmenting : Bool) (w : ℤ) (p : Parser E)
      → StepReports n (after_call n fragmenting w p)
  unfolding after_call
  after_call-Reports n fragmenting w p = ground arith

  module _ (callback : Callback E) where
    deliver_header-Reports :
        (n : ℕ) (fragmenting : Bool) (w : ℤ) (r : Status × Parser E)
        → StepReports n (deliver_header callback n fragmenting w r)
    unfolding deliver_header deliver
    deliver_header-Reports n fragmenting w (ok _, p) = after_call-Reports n fragmenting w _
    deliver_header-Reports n fragmenting w (err _, p) = tt

    parse_fragment-Reports :
        (n : ℕ) (fragmenting : Bool) (w l : ℤ) (p : Parser E)
        → StepReports n (parse_fragment callback n fragmenting w l p)
    unfolding parse_fragment deliver
    parse_fragment-Reports n fragmenting w l p = ground (
      arith,
      after_call-Reports n fragmenting w
          (call_back callback fragmenting (advance (next_fragment n p))),
      deliver_header-Reports n fragmenting w (chunk_header l p),
    )

    parse_if-Reports :
        (n : ℕ) (fragmenting : Bool) (w : ℤ) (p : Parser E)
        → StepReports n (parse_if callback n fragmenting w p)
    unfolding parse_if
    parse_if-Reports n fragmenting w p =
        elim (Bool-cases (
          fragmenting
          || (is_some p.chunk.data_at || not (ltb_ℤ (pos p.chunk.frame.raw_length) w)))) [
            | inl enter ↦ rw enter (parse_fragment-Reports n fragmenting w _ p)
            | inr wait ↦ rw wait
          ]

    frame_known-Reports : (n : ℕ) (r : Status × Parser E) → StepReports n (frame_known callback n r)
    unfolding frame_known parse_frame with_wanted
    frame_known-Reports n (err _, p) = tt
    frame_known-Reports n (ok _, p) = elim (Bool-cases (ltb_ℤ p.chunk.frame.length (pos 0))) [
      | inl unknown ↦ rw unknown
      | inr known ↦ rw known (parse_if-Reports n _ _ p)
    ]

    new_data_step-Reports : (n : ℕ) (p : Parser E) → StepReports n (new_data_step callback n p)
    unfolding new_data_step
    new_data_step-Reports n p = elim (Bool-cases (n == 0)) [
      | inl nothing ↦ rw nothing
      | inr more ↦ elim (Bool-cases (ltb (count_bytes n p).chunk.frame.raw_length 3)) [
        | inl few ↦ rw (more, few)
        | inr enough ↦ rw (more, enough) (frame_known-Reports n (frame_header (count_bytes n p)))
      ]
    ]

    pub pk_parser_parse_new_data-Reports :
        (fuel n : ℕ) (p : Parser E) → Reports n (pk_parser_parse_new_data callback fuel n p).0
    unfolding pk_parser_parse_new_data
    pk_parser_parse_new_data-Reports zero n p = refl
    pk_parser_parse_new_data-Reports (suc fuel) n p =
        after (new_data_step callback n p) (new_data_step-Reports n p)
      where
        after :
            (st : Step E)
            → StepReports n st
            → Reports n
                (elim st as (λ _. Status × Parser E) [
                  | stop status q ↦ (status, q)
                  | leftover l q ↦ (ok n, (pk_parser_parse_new_data callback fuel l q).1)
                ]).0
        after (stop s _) h = h
        after (leftover _ _) h = refl
