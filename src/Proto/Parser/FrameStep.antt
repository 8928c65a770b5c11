-- ===== src/Proto/Parser/FrameStep.antt =====
-- The part of pk_parser_parse_new_data() (libpagekite/pkproto.c) behind the frame header keeps the
-- invariant.
use libpagekite.Base.{
  ℕ, ◌+◌, ◌-◌, ◌^◌, ◌≤◌, ◌<◌, ◌≡◌, refl, sym, ap, subst, ◌∙◌, inl, inr, Bool, true, false, not,
  ◌||◌, Option, none, some, arith, ltb, if◌then◌else◌, Bool-cases, Option-cases, ℤ, pos, negsuc,
  ◌+ℤ◌, ◌-ℤ◌, ltb_ℤ, Bytes, to_int, to_int-small,
}
use native.Mathlib.Nat.{le_refl}
use libpagekite.Proto.Chunk.{Frame, Parser}
use libpagekite.Proto.Header.{Status, ok, err, at, Parsed, parse_frame_header}
use libpagekite.Proto.Header.Bounds.{
  Outcome, HeaderFits, parse_chunk_header-Outcome, FrameHeaderFits,
  parse_frame_header-FrameHeaderFits,
}
use libpagekite.Proto.Parser.{
  is_some, Callback, next_fragment, chunk_header, with_frame, deliver, parse_if, with_wanted,
  deliver_header, parse_fragment, parse_frame, frame_header,
}
use libpagekite.Proto.Parser.Invariant.{
  IsBuffer, SameBehind-IsBuffer, HeaderKnown, InFragment, FragmentKnown, FitsWith, KeepsFrame,
  StepFits, all_seen,
}
use libpagekite.Proto.Parser.Deliver.{Ready, deliver-StepFits}

module _ {E : Type 0} {cap n : ℕ} {beyond : Bytes} (p : Parser E) where
  pub frame_header-FitsWith :
      FitsWith n cap beyond p
      → FitsWith n cap beyond (frame_header p).1
        × ((frame_header p).1.chunk.frame.raw_length ≡ p.chunk.frame.raw_length)
  unfolding frame_header
  frame_header-FitsWith v = elim (Bool-cases (ltb_ℤ p.chunk.frame.length (pos 0))) [
    | inl unknown ↦ rw unknown (parsed unknown, fit.raw_kept)
    | inr known ↦ rw known (v, refl)
  ]
    where
      f' : Frame
      f' = (parse_frame_header p.chunk.frame).1

      fit : FrameHeaderFits p.chunk.frame f'
      fit = parse_frame_header-FrameHeaderFits p.chunk.frame

      found :
          (x : ℤ)
          → ((h : ℕ) × (f'.hdr_length ≡ pos h)
              × (f'.data_at ≡ some h)
              × (0 < h)
              × (h ≤ p.chunk.frame.raw_length))
          → HeaderKnown x f'
      found (negsuc _) k = tt
      found (pos _) (h, a, b, c, d) = (h, a, b, c, omega (arith, fit.raw_kept))

      no_fragment :
          (d : Option ℕ)
          → ltb_ℤ p.chunk.frame.length (pos 0) ≡ true
          → FragmentKnown n d p.chunk
          → FragmentKnown n d (with_frame p f').chunk
      no_fragment none unknown k = tt
      no_fragment (some _) unknown i = absurd (ground (arith, i.frame_left))

      parsed : ltb_ℤ p.chunk.frame.length (pos 0) ≡ true → FitsWith n cap beyond (with_frame p f')
      parsed unknown = record {
        space = omega (arith, v.space, fit.raw_kept);
        memory = SameBehind-IsBuffer (omega (arith, v.space)) fit.behind v.memory;
        header = elim fit.known [
          | inl same ↦ subst (λ (f : Frame). HeaderKnown f.length f) (sym same) v.header
          | inr k ↦ found f'.length k
        ];
        fragment = no_fragment p.chunk.data_at unknown v.fragment;
      }

module _ {E : Type 0} (callback : Callback E) (keeps : KeepsFrame callback) {cap : ℕ}
    {beyond : Bytes} (small : cap < 2 ^ 31) where
  -- A chunk whose header is parsed: the next `n` bytes of it, or as many as it still lacks.
  pub next-StepFits :
      (n b : ℕ) (fragmenting : Bool) (w : ℕ) (p : Parser E)
      → FitsWith n cap beyond p
      → (i : InFragment n p.chunk) → w ≡ i.h + i.e + i.r
      → p.chunk.frame.data_at ≡ some i.h
      → p.chunk.frame.raw_length ≤ b
      → StepFits cap beyond b (deliver callback n fragmenting (pos w) (next_fragment n p))
  unfolding next_fragment
  next-StepFits n b fragmenting w p v i e d fits =
      let k = if ltb i.r n then i.r else n in
      let len : (next_fragment n p).chunk.length ≡ pos k = rw (i.total, i.offset) (ground arith) in
      let ready : Ready cap beyond i.h i.e i.o k (i.o + i.r) (next_fragment n p) = record {
        space = v.space;
        memory = v.memory;
        small = small;
        h_pos = i.h_pos;
        hdr = i.hdr;
        hdr_data = d;
        frame_left = i.frame_left ∙ ap pos (omega arith);
        offset = i.offset;
        length_is = len;
        total = i.total;
        within = ground arith;
        received = ground (arith, i.received);
      } in
      let e' : w ≡ i.h + i.e + (i.o + i.r - i.o) = omega (arith, e) in
      rw e' (deliver-StepFits ready callback n b fragmenting keeps fits)

  -- A chunk with its header: `k` bytes of the frame's `l` are there.
  pub first-StepFits :
      (n b h k l : ℕ) (fragmenting : Bool) (p : Parser E)
      → FitsWith n cap beyond p
      → p.chunk.data_at ≡ none
      → p.chunk.frame.length ≡ pos l
      → p.chunk.frame.hdr_length ≡ pos h
      → p.chunk.frame.data_at ≡ some h
      → 0 < h
      → k ≤ l
      → h + k ≤ p.chunk.frame.raw_length
      → p.chunk.frame.raw_length ≤ b
      → StepFits cap beyond b
          (deliver_header callback n fragmenting (pos (l + h)) (chunk_header (pos k) p))
  unfolding chunk_header deliver_header
  first-StepFits n b h k l fragmenting p v none_yet len hdr data_at h_pos le received fits =
      with_outcome _ (parse_chunk_header-Outcome k (record { chunk = p.chunk; quota = p.quota }))
    where
      written : {f' : Frame} → HeaderFits k p.chunk.frame f' → IsBuffer cap beyond f'.raw_frame
      written f =
          let end : at p.chunk.frame.data_at + k ≤ cap =
            rw data_at (omega (arith, received, v.space)) in
          SameBehind-IsBuffer end f.behind v.memory

      with_outcome :
          (r : Status × Parsed)
          → Outcome k (record { chunk = p.chunk; quota = p.quota }) r
          → StepFits cap beyond b (
              deliver_header callback n fragmenting
                (pos (l + h))
                (r.0, record p { chunk = r.1.chunk; quota = r.1.quota }))
      with_outcome (err x, s) (f, d) = record {
        space = omega (arith, f.raw_kept, v.space);
        memory = written f;
        header =
            rw (f.length_kept ∙ len)
              (h, f.hdr_kept ∙ hdr, f.data_kept ∙ data_at, h_pos, omega (arith, f.raw_kept));
        fragment = rw (d ∙ none_yet) tt;
      }
      with_outcome (ok x, s) (done, f) =
          let ready : Ready cap beyond h done.e 0 (k - done.e) (l - done.e)
              (record p { chunk = s.chunk; quota = s.quota }) =
            record {
              space = omega (arith, f.raw_kept, v.space);
              memory = written f;
              small = small;
              h_pos = h_pos;
              hdr = f.hdr_kept ∙ hdr;
              hdr_data = f.data_kept ∙ data_at;
              frame_left = f.length_kept ∙ len ∙ ap pos (omega (arith, done.within));
              offset = done.offset;
              length_is = done.length_is ∙ ground (arith, done.within);
              total = done.total ∙ rw len (ground (arith, done.within));
              within = omega arith;
              received = omega (arith, done.within, f.raw_kept);
            } in
          let w : l + h ≡ h + done.e + (l - done.e - 0) = omega (arith, done.within) in
          rw w (deliver-StepFits ready callback n b fragmenting keeps (omega (arith, f.raw_kept)))

  module _ (n b l h : ℕ) (p : Parser E) (v : FitsWith n cap beyond p)
      (len : p.chunk.frame.length ≡ pos l) (hdr : p.chunk.frame.hdr_length ≡ pos h)
      (data_at : p.chunk.frame.data_at ≡ some h) (h_pos : 0 < h)
      (h_le : h ≤ p.chunk.frame.raw_length) (l_small : l + cap < 2 ^ 31)
      (fits : p.chunk.frame.raw_length ≤ b) where
    parse_fragment-StepFits :
        (fragmenting : Bool) (k : ℕ)
        → (p.chunk.data_at ≡ none → (k ≤ l) × (h + k ≤ p.chunk.frame.raw_length))
        → StepFits cap beyond b (parse_fragment callback n fragmenting (pos (l + h)) (pos k) p)
    unfolding parse_fragment
    parse_fragment-StepFits fragmenting k whole = elim (Option-cases p.chunk.data_at) [
      | inl none_yet ↦
          let is : is_some p.chunk.data_at ≡ false = ap is_some none_yet in
          rw is (
            first-StepFits n b h k l fragmenting p v none_yet len hdr data_at h_pos
              (whole none_yet).0 (whole none_yet).1 fits)
      | inr (d, parsed) ↦
          let is : is_some p.chunk.data_at ≡ true = ap is_some parsed in
          let i : InFragment n p.chunk = subst (λ x. FragmentKnown n x p.chunk) parsed v.fragment in
          let same : h ≡ i.h = ground (arith, i.hdr) in
          rw is (
            next-StepFits n b fragmenting (l + h) p v i (ground (arith, i.frame_left))
              (data_at ∙ ap some same) fits)
    ]

    parse_if-StepFits :
        (fragmenting : Bool)
        → (fragmenting ≡ true → p.chunk.frame.raw_length < l + h)
        → StepFits cap beyond b (parse_if callback n fragmenting (pos (l + h)) p)
    unfolding parse_if
    parse_if-StepFits true full =
        let k : to_int (pos p.chunk.frame.raw_length -ℤ p.chunk.frame.hdr_length)
            ≡ pos (p.chunk.frame.raw_length - h) =
          ap to_int (rw hdr (ground arith))
          ∙ to_int-small (p.chunk.frame.raw_length - h) (omega (arith, v.space, small)) in
        rw k (parse_fragment-StepFits true _ (λ _. (omega (arith, full refl), omega arith)))
    parse_if-StepFits false full =
        let complete = is_some p.chunk.data_at || not (ltb p.chunk.frame.raw_length (l + h)) in
        let k : to_int p.chunk.frame.length ≡ pos l =
          ap to_int len ∙ to_int-small l (omega (arith, l_small)) in
        elim (Bool-cases complete) [
          | inl enter ↦
              rw (enter, k)
                (parse_fragment-StepFits false l
                  λ none_yet. (le_refl l, (ground (arith, ap is_some none_yet))))
          | inr wait ↦ rw wait (all_seen p v)
        ]

    with_wanted-StepFits : StepFits cap beyond b (with_wanted callback n (pos (l + h)) p)
    unfolding with_wanted
    with_wanted-StepFits = parse_if-StepFits _ (λ full. ground arith)

    pub parse_frame-StepFits : StepFits cap beyond b (parse_frame callback n p)
    unfolding parse_frame
    parse_frame-StepFits =
        let wanted : to_int (p.chunk.frame.length +ℤ p.chunk.frame.hdr_length) ≡ pos (l + h) =
          ap to_int (rw (len, hdr)) ∙ to_int-small (l + h) (omega (arith, v.space)) in
        rw wanted with_wanted-StepFits
