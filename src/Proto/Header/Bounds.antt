-- ===== src/Proto/Header/Bounds.antt =====
-- The header parsers (libpagekite/pkproto.c) write into the bytes they are given only, and what they take
-- off them does not exceed their number.
use libpagekite.Base.{
  ℕ, zero, suc, ◌+◌, ◌-◌, ◌≤◌, ◌<◌, ◌≡◌, refl, ap, ◌∙◌, ◌⊎◌, inl, inr, [], ◌++◌, Option, none, some,
  arith, ltb, ◌==◌, Bytes, Bool-cases, if_elim, ltb→lt, length, take, drop, ℤ, pos, ◌-ℤ◌, pos_part,
  to_int,
}
use libpagekite.Libc.{sscanf_lx, sscanf_d}
use libpagekite.Utils.Lines.{zero_first_crlf}
use libpagekite.Utils.Lines.Behind.{
  SameBehind, SameBehind-refl, SameBehind-mono, SameBehind-trans, SameBehind-drop, take-same,
  zero_first_crlf-SameBehind,
}
use libpagekite.Proto.Chunk.{Frame}
use libpagekite.Proto.Header.{
  Status, ok, err, at, parse_frame_header, frame_header_end, convert_frame_length, Parsed,
  header_line, line_s, line_p, line_r, line_q, store_days, store_conns, store_mb, Lines, kept,
  header_lines, finish_header, parse_chunk_header,
}

to_int-le : (k : ℕ) → pos_part (to_int (pos k)) ≤ k
unfolding to_int
to_int-le k = ground arith

remaining_le : (b i : ℕ) → i ≤ b → pos_part (to_int (pos b -ℤ pos i)) + i ≤ b
remaining_le b i h =
    let e : (pos b -ℤ pos i) ≡ pos (b - i) = ground arith in rw e (omega (arith, to_int-le (b - i)))

abbrev pub SameFrame : Parsed → Parsed → Type 0
SameFrame s s' = (s'.chunk.frame ≡ s.chunk.frame) × (s'.chunk.data_at ≡ s.chunk.data_at)

module _ (i : ℕ) (p : Bytes) (s : Parsed) where
  line_s-frame : SameFrame s (line_s i p s)
  unfolding line_s
  line_s-frame = ground arith

  line_p-frame : SameFrame s (line_p i p s)
  unfolding line_p
  line_p-frame = ground arith

  line_r-frame : SameFrame s (line_r i p s)
  unfolding line_r
  line_r-frame = ground arith

module _ (s : Parsed) where
  store-frame :
      (o : Option ℤ)
      → SameFrame s (store_days o s) × SameFrame s (store_conns o s) × SameFrame s (store_mb o s)
  unfolding store_days store_conns store_mb
  store-frame none = ((refl, refl), (refl, refl), (refl, refl))
  store-frame (some v) = ((refl, refl), (refl, refl), (refl, refl))

  line_q-frame : (p : Bytes) → SameFrame s (line_q p s)
  unfolding line_q
  line_q-frame p =
      ground (arith, store-frame (sscanf_d (drop 7 p)), store-frame (sscanf_d (drop 8 p)))

-- No header line changes the frame, or where the data begins.
pub header_line-frame : (i : ℕ) (p : Bytes) (s : Parsed) → SameFrame s (header_line i p s)
unfolding header_line
header_line-frame i p s =
    ground (arith, line_s-frame i p s, line_p-frame i p s, line_r-frame i p s, line_q-frame s p)

-- What the loop over the header lines leaves.
pub record LinesFit (b i : ℕ) (m : Bytes) (s : Parsed) (r : Lines) : Type 0 where
  pub behind : SameBehind (b - i) m r.memory
  pub within : r.pos_at + r.len ≤ b
  pub unchanged : SameFrame s r.parsed

kept-LinesFit :
    {b i : ℕ} {m : Bytes} {s s' : Parsed} {r : Lines} (n : ℕ) (m' : Bytes)
    → i + n ≤ b
    → SameBehind (b - i) m m'
    → SameFrame s s'
    → LinesFit b (i + n) (drop n m') s' r
    → LinesFit b i m s (kept (take n m') r)
kept-LinesFit {b} {i} n m' le same e fit = record {
  behind = SameBehind-trans same (SameBehind-mono (omega arith) (SameBehind-drop n m' fit.behind));
  within = fit.within;
  unchanged = (fit.unchanged.0 ∙ e.0, fit.unchanged.1 ∙ e.1);
}

header_lines-LinesFit :
    (fuel b base i : ℕ) (m : Bytes) (s : Parsed)
    → i ≤ b
    → LinesFit b i m s (header_lines fuel (pos b) base i m s)
unfolding header_lines
header_lines-LinesFit zero b base i m s h = record {
  behind = SameBehind-refl (b - i) m;
  within = omega arith;
  unchanged = (refl, refl);
}
header_lines-LinesFit (suc fuel) b base i m s h =
    let r = zero_first_crlf (to_int (pos b -ℤ pos i)) m in
    let (written, le) = zero_first_crlf-SameBehind (to_int (pos b -ℤ pos i)) m in
    let fits : i + r.0 ≤ b = omega (arith, le, remaining_le b i h) in
    let same = SameBehind-mono (omega (arith, remaining_le b i h)) written in
    if_elim (LinesFit b i m s) _
      (kept-LinesFit r.0 r.1 fits same (header_line-frame (base + i) r.1 s) (
        header_lines-LinesFit fuel b base (i + r.0) (drop r.0 r.1) (header_line (base + i) r.1 s)
          fits))
      (record { behind = same; within = fits; unchanged = (refl, refl) })

-- What a parsed chunk header sets: `e` is its length.
pub record HeaderDone (b : ℕ) (s s' : Parsed) : Type 0 where
  pub e : ℕ
  pub within : e ≤ b
  pub data_at : s'.chunk.data_at ≡ some (at s.chunk.frame.data_at + e)
  pub offset : s'.chunk.offset ≡ pos 0
  pub total : s'.chunk.total ≡ s.chunk.frame.length -ℤ pos e
  pub length_is : s'.chunk.length ≡ pos b -ℤ pos e

-- Failed or not, it leaves the frame as it was, but for what it writes into the `b` bytes that it is
-- given: those in front of them and those behind them stay.
pub record HeaderFits (b : ℕ) (f f' : Frame) : Type 0 where
  pub length_kept : f'.length ≡ f.length
  pub hdr_kept : f'.hdr_length ≡ f.hdr_length
  pub raw_kept : f'.raw_length ≡ f.raw_length
  pub data_kept : f'.data_at ≡ f.data_at
  pub before : take (at f.data_at) f'.raw_frame ≡ take (at f.data_at) f.raw_frame
  pub behind : SameBehind (at f.data_at + b) f.raw_frame f'.raw_frame

abbrev pub Outcome : ℕ → Parsed → Status × Parsed → Type 0
Outcome b s (ok _, s') = HeaderDone b s s' × HeaderFits b s.chunk.frame s'.chunk.frame
Outcome b s (err _, s') =
    HeaderFits b s.chunk.frame s'.chunk.frame × (s'.chunk.data_at ≡ s.chunk.data_at)

finish_header-Outcome :
    (b : ℕ) (s : Parsed) (r : Lines)
    → let d = at s.chunk.frame.data_at in
      LinesFit b 0 (drop d s.chunk.frame.raw_frame) s r
      → Outcome b s (finish_header d (pos b) (take d s.chunk.frame.raw_frame) r)
unfolding finish_header
finish_header-Outcome b s r fit = elim (Bool-cases (r.len == 2)) [
  | inl done ↦ rw done (
    record {
      e = r.pos_at + r.len;
      within = fit.within;
      data_at = refl;
      offset = refl;
      total = cc (fit.unchanged.0);
      length_is = refl;
    },
    frame,
  )
  | inr missing ↦ rw missing (frame, fit.unchanged.1)
]
  where
    d : ℕ
    d = at s.chunk.frame.data_at

    raw : Bytes
    raw = s.chunk.frame.raw_frame

    frame :
        HeaderFits b s.chunk.frame
          (record r.parsed.chunk.frame { raw_frame = take d raw ++ r.memory })
    frame = record {
      length_kept = ap (λ (f : Frame). f.length) fit.unchanged.0;
      hdr_kept = ap (λ (f : Frame). f.hdr_length) fit.unchanged.0;
      raw_kept = ap (λ (f : Frame). f.raw_length) fit.unchanged.0;
      data_kept = ap (λ (f : Frame). f.data_at) fit.unchanged.0;
      before = take-same d raw r.memory fit.behind.same_length;
      behind = SameBehind-mono (omega arith) (SameBehind-drop d raw fit.behind);
    }

-- On `b` bytes, and whatever memory lies in front of them and behind: a header that is read ends within
-- them; the data begins behind it, the total is what the frame has behind it, and the length what there
-- is of that. Read or not, the bytes in front of them and behind them are not written, and the frame's
-- lengths stay; if not, so does where the data begins.
pub parse_chunk_header-Outcome : (b : ℕ) (s : Parsed) → Outcome b s (parse_chunk_header (pos b) s)
unfolding parse_chunk_header
parse_chunk_header-Outcome b s =
    let d = at s.chunk.frame.data_at in
    let m = drop d s.chunk.frame.raw_frame in
    let s' = record s { chunk = record s.chunk { headers = [] } } in
    let fit = header_lines-LinesFit (length m) b d 0 m s' (omega arith) in
    finish_header-Outcome b s (header_lines (length m) (pos b) d 0 m s')
      (record { behind = fit.behind; within = fit.within; unchanged = fit.unchanged })

-- A frame header: the length it may find and the end of it lie within the bytes received.
pub record FrameHeaderFits (f f' : Frame) : Type 0 where
  pub raw_kept : f'.raw_length ≡ f.raw_length
  pub behind : SameBehind f.raw_length f.raw_frame f'.raw_frame
  pub known :
      (f' ≡ f)
      ⊎ ((h : ℕ) × (f'.hdr_length ≡ pos h) × (f'.data_at ≡ some h) × (0 < h) × (h ≤ f.raw_length))

convert-FrameHeaderFits :
    (o : Option ℤ) (f f' : Frame)
    → f'.raw_length ≡ f.raw_length
    → SameBehind f.raw_length f.raw_frame f'.raw_frame
    → ((h : ℕ) × (f'.hdr_length ≡ pos h) × (f'.data_at ≡ some h) × (0 < h) × (h ≤ f.raw_length))
    → FrameHeaderFits f (convert_frame_length o f').1
unfolding convert_frame_length
convert-FrameHeaderFits none f f' r m k = record { raw_kept = r; behind = m; known = inr k }
convert-FrameHeaderFits (some n) f f' r m k = record { raw_kept = r; behind = m; known = inr k }

pub parse_frame_header-FrameHeaderFits : (f : Frame) → FrameHeaderFits f (parse_frame_header f).1
unfolding parse_frame_header frame_header_end
parse_frame_header-FrameHeaderFits f =
    let r = zero_first_crlf (to_int (pos f.raw_length)) f.raw_frame in
    let (written, le) = zero_first_crlf-SameBehind (to_int (pos f.raw_length)) f.raw_frame in
    let same = SameBehind-mono (to_int-le f.raw_length) written in
    elim (Bool-cases (ltb 0 r.0)) [
      | inl found ↦ rw found (
          convert-FrameHeaderFits (sscanf_lx r.1) f _ refl same
            (r.0, refl, refl, ltb→lt 0 r.0 found, omega (arith, le, to_int-le f.raw_length)))
      | inr nothing ↦ rw nothing (record {
        raw_kept = refl;
        behind = SameBehind-refl f.raw_length f.raw_frame;
        known = inl refl;
      })
    ]
