-- ===== src/Proto/Parser/Whole.antt =====
-- pk_parser_parse() (libpagekite/pkproto.c): whatever arrives, the buffer's accounting holds, and the
-- call takes all of its input or reports an error.
use libpagekite.Base.{
  ℕ, zero, suc, ◌+◌, ◌-◌, ◌^◌, ◌≤◌, ◌<◌, ◌≡◌, subst, inl, inr, false, ◌&&◌, Option, none, some,
  arith, ltb, leb, if◌then◌else◌, Bytes, Bool-cases, ltb→lt, length, length-take, length-drop, take,
  drop, ℤ, pos, negsuc,
}
use native.Mathlib.Nat.{le_refl}
use libpagekite.Utils.Lines.Behind.{SameBehind}
use libpagekite.Proto.Chunk.{Parser, pk_parser_reset}
use libpagekite.Proto.Header.{Status, ok, err}
use libpagekite.Proto.Parser.{write_at, Callback, with_frame, take_in, parse_loop, pk_parser_parse}
use libpagekite.Proto.Parser.Invariant.{
  write_at-SameBehind, SameBehind-IsBuffer, HeaderKnown, FragmentKnown, Fits, KeepsFrame,
  reset-Fits,
}
use libpagekite.Proto.Parser.Consumed.{Reports, pk_parser_parse_new_data-Reports}
use libpagekite.Proto.Parser.Bounds.{AnnouncesSmall, pk_parser_parse_new_data-Fits}

-- What is asked of the rest of the input, if there is any.
abbrev pub IfMore : ℕ → Type 0 → Type 0
IfMore zero P = Unit
IfMore (suc n) P = P

more_left : (n : ℕ) (P : Type 0) → 0 < n → IfMore n P → P
more_left zero P h p = elim h [ ]
more_left (suc n) P h p = p

module _ {E : Type 0} where
  abbrev written : ℕ → Bytes → Parser E → Parser E
  written copy bytes p =
      let f = p.chunk.frame in
      with_frame p (record f { raw_frame = write_at f.raw_frame f.raw_length (take copy bytes) })

  written-Fits :
      (cap : ℕ) (beyond : Bytes) (copy : ℕ) (bytes : Bytes) (p : Parser E)
      → copy ≤ p.buffer_bytes_left
      → copy ≤ length bytes
      → Fits cap beyond p
      → Fits cap beyond (written copy bytes p)
  written-Fits cap beyond copy bytes p room enough v =
      let f = p.chunk.frame in
      let same : SameBehind cap f.raw_frame (write_at f.raw_frame f.raw_length (take copy bytes)) =
        write_at-SameBehind f.raw_frame f.raw_length (take copy bytes)
          (omega (arith, length-take copy bytes, v.space))
          (omega (arith, length-take copy bytes, v.memory.size, v.space)) in
      record {
        space = v.space;
        memory = SameBehind-IsBuffer (le_refl cap) same v.memory;
        header = header f.length v.header;
        fragment = fragment p.chunk.data_at v.fragment;
      }
    where
      header :
          (x : ℤ) → HeaderKnown x p.chunk.frame → HeaderKnown x (written copy bytes p).chunk.frame
      header (negsuc _) k = tt
      header (pos _) k = k

      fragment :
          (d : Option ℕ)
          → FragmentKnown 0 d p.chunk
          → FragmentKnown 0 d (written copy bytes p).chunk
      fragment none i = tt
      fragment (some _) i = record {
        h = i.h;
        e = i.e;
        o = i.o;
        r = i.r;
        h_pos = i.h_pos;
        hdr = i.hdr;
        frame_left = i.frame_left;
        received = i.received;
        offset = i.offset;
        total = i.total;
      }

  abbrev pub AfterRound : (ℕ → Parser E → Type 0) → Status × Parser E → Type 0
  AfterRound P (ok d, q) = P d q
  AfterRound P (err _, q) = Unit

module _ {E : Type 0} (callback : Callback E) (keeps : KeepsFrame callback) {cap : ℕ}
    (small : cap < 2 ^ 31) where
  -- What the loop copies in one round.
  abbrev copied : ℕ → Parser E → ℕ
  copied n p = if ltb p.buffer_bytes_left n then p.buffer_bytes_left else n

  -- Every frame header in the input announces a length that is small.
  abbrev pub InputSmall : ℕ → ℕ → Bytes → Parser E → Type 0
  InputSmall zero n bytes p = Unit
  InputSmall (suc fuel) n bytes p =
      AnnouncesSmall callback keeps {cap = cap} small (suc (p.chunk.frame.raw_length + copied n p))
        (copied n p) (written (copied n p) bytes p)
      × AfterRound (λ d q. IfMore (n - d) (InputSmall fuel (n - d) (drop d bytes) q))
          (take_in callback (copied n p) bytes p)

  abbrev Kept : Bytes → ℕ → Status × Parser E → Type 0
  Kept beyond n r = Fits cap beyond r.1 × Reports n r.0

  parse_loop-Fits :
      {beyond : Bytes} (fuel parsed n : ℕ) (bytes : Bytes) (p : Parser E)
      → Fits cap beyond p
      → length bytes ≡ n
      → n < fuel
      → InputSmall fuel n bytes p
      → Kept beyond (parsed + n) (parse_loop callback fuel parsed n bytes p)
  unfolding parse_loop
  parse_loop-Fits {beyond} zero parsed n bytes p v len h s = elim h [ ]
  parse_loop-Fits {beyond} (suc fuel) parsed n bytes p v len h (s, more) =
      let c = copied n p in
      let w = written-Fits cap beyond c bytes p (ground arith) (ground arith) v in
      let fits : Fits cap beyond (take_in callback c bytes p).1 =
        unfold take_in in
        pk_parser_parse_new_data-Fits callback keeps small (suc (p.chunk.frame.raw_length + c)) c
          (written c bytes p) w (ground arith) s in
      let reports : Reports c (take_in callback c bytes p).0 =
        unfold take_in in
        pk_parser_parse_new_data-Reports callback (suc (p.chunk.frame.raw_length + c)) c
          (written c bytes p) in
      elim (Bool-cases (ltb 0 n && leb p.buffer_bytes_left 0)) [
        | inl stuck ↦ rw stuck (v, tt)
        | inr moves ↦ rw moves (
            round (take_in callback c bytes p) fits reports more
              (λ d q. parse_loop-Fits fuel (parsed + d) (n - d) (drop d bytes) q) moves)
      ]
    where
      round :
          (r : Status × Parser E)
          → Fits cap beyond r.1
          → Reports (copied n p) r.0
          → AfterRound (λ d q. IfMore (n - d) (InputSmall fuel (n - d) (drop d bytes) q)) r
          → ((d : ℕ) (q : Parser E)
              → Fits cap beyond q
              → length (drop d bytes) ≡ n - d
              → n - d < fuel
              → InputSmall fuel (n - d) (drop d bytes) q
              → Kept beyond
                  (parsed + d + (n - d))
                  (parse_loop callback fuel (parsed + d) (n - d) (drop d bytes) q))
          → (ltb 0 n && leb p.buffer_bytes_left 0) ≡ false
          → Kept beyond (parsed + n) (elim r.0 as (λ _. Status × Parser E) [
            | err e ↦ (err e, pk_parser_reset r.1)
            | ok done ↦
                let more =
                  parse_loop callback fuel (parsed + done) (n - done) (drop done bytes) r.1 in
                if ltb 0 (n - done) then more else (ok (parsed + done), r.1)
          ])
      round (err e, q) f r m again moves = (reset-Fits cap beyond q f.space f.memory, tt)
      round (ok d, q) f r m again moves = elim (Bool-cases (ltb 0 (n - d))) [
        | inl left ↦
            let total : parsed + d + (n - d) ≡ parsed + n = omega (arith, ltb→lt 0 (n - d) left) in
            rw left (
              subst
                (λ k.
                  Kept beyond k (parse_loop callback fuel (parsed + d) (n - d) (drop d bytes) q))
                total
                (again d q f (omega (arith, length-drop d bytes)) (ground arith) (
                  more_left (n - d) (InputSmall fuel (n - d) (drop d bytes) q)
                    (ltb→lt 0 (n - d) left) m)))
        | inr none_left ↦ rw none_left (f, ground arith)
      ]

  -- From a parser that fits its buffer, of less than 2 ^ 31 bytes, whatever memory lies behind the buffer,
  -- and on input whose frame headers announce lengths that fit an int with the buffer's size: afterwards the
  -- memory behind the buffer is what it was, the counters of free and used bytes add up to the buffer's
  -- size, and the parser has taken all of the input or reports an error.
  pub pk_parser_parse-Fits :
      {beyond : Bytes} (n : ℕ) (bytes : Bytes) (p : Parser E)
      → Fits cap beyond p
      → length bytes ≡ n
      → InputSmall (suc n) n bytes p
      → Fits cap beyond (pk_parser_parse callback n bytes p).1
        × Reports n (pk_parser_parse callback n bytes p).0
  unfolding pk_parser_parse
  pk_parser_parse-Fits {beyond} n bytes p v len s =
      let all : 0 + n ≡ n = omega arith in
      subst (λ k. Kept beyond k (parse_loop callback (suc n) 0 n bytes p)) all
        (parse_loop-Fits (suc n) 0 n bytes p v len (omega arith) s)
