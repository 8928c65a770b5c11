-- ===== src/Proto/Parser/Deliver.antt =====
-- The part of pk_parser_parse_new_data() (libpagekite/pkproto.c) behind the chunk header keeps the
-- invariant.
use libpagekite.Base.{
  ℕ, ◌+◌, ◌-◌, ◌^◌, ◌≤◌, ◌<◌, ◌≡◌, refl, ap, sym, subst, Bytes, ◌∙◌, inl, inr, Bool, false, ◌||◌,
  Option, none, some, arith, ltb, if◌then◌else◌, Bool-cases, length-take, length-drop, take, drop,
  pos, ◌+ℤ◌, ◌-ℤ◌, ltb_ℤ, pos_part, to_int, to_int-small,
}
use libpagekite.Proto.Chunk.{Frame, Chunk, Parser, pk_parser_reset, frame_reset_values}
use libpagekite.Proto.Header.{ok}
use libpagekite.Proto.Parser.{
  write_at, Callback, stop, leftover, call, call_back, adjust, move_leftovers, advance, after_call,
  deliver,
}
use libpagekite.Proto.Parser.Invariant.{
  IsBuffer, SameBehind-IsBuffer, write_at-SameBehind, InFragment, FragmentKnown, Fits, KeepsFrame,
  reset-Fits, StepFits,
}

module _ {E : Type 0} where
  -- What the call leaves of the chunk.
  pub record Called (p q : Parser E) : Type 0 where
    pub left : q.buffer_bytes_left ≡ p.buffer_bytes_left
    pub frame : q.chunk.frame ≡ p.chunk.frame
    pub offset : q.chunk.offset ≡ p.chunk.offset
    pub total : q.chunk.total ≡ p.chunk.total
    pub length_is : q.chunk.length ≡ p.chunk.length
    pub data_at : q.chunk.data_at ≡ p.chunk.data_at

  pub call_back-Called :
      (callback : Callback E) (fragmenting : Bool) (p : Parser E)
      → KeepsFrame callback
      → Called p (call_back callback fragmenting p)
  unfolding call_back call
  call_back-Called none fragmenting p keeps = record {
    left = refl;
    frame = refl;
    offset = refl;
    total = refl;
    length_is = refl;
    data_at = refl;
  }
  call_back-Called (some f) fragmenting p keeps =
      let k = keeps p.env (record p.chunk { eof = if fragmenting then none else p.chunk.eof }) in
      record {
        left = refl;
        frame = k.0;
        offset = k.1;
        total = k.2;
        length_is = refl;
        data_at = refl;
      }

  -- With the length of the fragment known: `k` bytes, where `o` of the chunk's `t` have gone before.
  pub record Ready (cap : ℕ) (beyond : Bytes) (h e o k t : ℕ) (p : Parser E) : Type 0 where
    pub space : p.buffer_bytes_left + p.chunk.frame.raw_length ≡ cap
    pub memory : IsBuffer cap beyond p.chunk.frame.raw_frame
    pub small : cap < 2 ^ 31
    pub h_pos : 0 < h
    pub hdr : p.chunk.frame.hdr_length ≡ pos h
    pub hdr_data : p.chunk.frame.data_at ≡ some h
    pub frame_left : p.chunk.frame.length ≡ pos (e + (t - o))
    pub offset : p.chunk.offset ≡ pos o
    pub length_is : p.chunk.length ≡ pos k
    pub total : p.chunk.total ≡ pos t
    pub within : o + k ≤ t
    pub received : h + e + k ≤ p.chunk.frame.raw_length

  -- The chunk after the call: `k` bytes further.
  pub record Given (cap : ℕ) (beyond : Bytes) (h e o k t : ℕ) (p : Parser E) : Type 0 where
    pub space : p.buffer_bytes_left + p.chunk.frame.raw_length ≡ cap
    pub memory : IsBuffer cap beyond p.chunk.frame.raw_frame
    pub hdr : p.chunk.frame.hdr_length ≡ pos h
    pub hdr_data : p.chunk.frame.data_at ≡ some h
    pub frame_left : p.chunk.frame.length ≡ pos (e + (t - o))
    pub offset : p.chunk.offset ≡ pos (o + k)
    pub length_is : p.chunk.length ≡ pos k
    pub total : p.chunk.total ≡ pos t
    pub raw : h + e + k ≤ p.chunk.frame.raw_length

  module _ {cap h e o k t : ℕ} {beyond : Bytes} {p : Parser E}
      (r : Ready cap beyond h e o k t p) where
    Given-call :
        (callback : Callback E) (fragmenting : Bool)
        → KeepsFrame callback
        → Given cap beyond h e o k t (call_back callback fragmenting (advance p))
    Given-call callback fragmenting keeps =
        let c = call_back-Called callback fragmenting (advance p) keeps in
        record {
          space =
              ap
                (λ (f : Frame).
                  (call_back callback fragmenting (advance p)).buffer_bytes_left + f.raw_length)
                c.frame
              ∙ ap (λ (n : ℕ). n + p.chunk.frame.raw_length) c.left
              ∙ r.space;
          memory = subst (λ (f : Frame). IsBuffer cap beyond f.raw_frame) (sym c.frame) r.memory;
          hdr = ap (λ (f : Frame). f.hdr_length) c.frame ∙ r.hdr;
          hdr_data = ap (λ (f : Frame). f.data_at) c.frame ∙ r.hdr_data;
          frame_left = ap (λ (f : Frame). f.length) c.frame ∙ r.frame_left;
          offset = c.offset ∙ rw (r.offset, r.length_is);
          length_is = c.length_is ∙ r.length_is;
          total = c.total ∙ r.total;
          raw = omega (arith, ap (λ (f : Frame). f.raw_length) c.frame, r.received);
        }

    adjust-Fits : {q : Parser E} → Given cap beyond h e o k t q → Fits cap beyond (adjust q)
    unfolding adjust
    adjust-Fits {q} g =
        let frame = q.chunk.frame in
        let raw : pos_part (pos frame.raw_length -ℤ q.chunk.length) ≡ frame.raw_length - k =
          rw g.length_is (ground (arith, g.raw)) in
        let left : pos_part (pos q.buffer_bytes_left +ℤ q.chunk.length) ≡ q.buffer_bytes_left + k =
          rw g.length_is in
        let rest : (frame.length -ℤ q.chunk.length) ≡ pos (e + (t - (o + k))) =
          rw (g.length_is, g.frame_left) (ground (arith, r.within)) in
        record {
          space = omega (arith, raw, left, g.space, g.raw);
          memory = g.memory;
          header = rw rest (h, g.hdr, g.hdr_data, r.h_pos, omega (arith, raw, g.raw));
          fragment = known q.chunk.data_at (record {
            h = h;
            e = e;
            o = o + k;
            r = t - (o + k);
            h_pos = r.h_pos;
            hdr = g.hdr;
            frame_left = rest;
            received = omega (arith, raw, g.raw);
            offset = g.offset;
            total = g.total ∙ ap pos (omega (arith, r.within));
          });
        }
      where
        known : (d : Option ℕ) {c : Chunk} → InFragment 0 c → FragmentKnown 0 d c
        known none i = tt
        known (some _) i = i

    moved-Fits :
        {q : Parser E} (w l b : ℕ)
        → Given cap beyond h e o k t q
        → w + l ≡ q.chunk.frame.raw_length
        → 0 < w
        → q.chunk.frame.raw_length ≤ b
        → StepFits cap beyond b (leftover l (pk_parser_reset (move_leftovers w l q)))
    moved-Fits {q} w l b g split w_pos fits =
        let memory = q.chunk.frame.raw_frame in
        let kept : IsBuffer cap beyond (write_at memory 0 (take l (drop w memory))) =
          SameBehind-IsBuffer (omega arith)
            (write_at-SameBehind {k = cap} memory 0 (take l (drop w memory))
              (omega (arith, length-take l (drop w memory), g.space, split))
              (omega (arith, length-take l (drop w memory), length-drop w memory)))
            g.memory in
        let m = move_leftovers w l q in
        let space : m.buffer_bytes_left + m.chunk.frame.raw_length ≡ cap =
          unfold move_leftovers in g.space in
        let reset = reset-Fits cap beyond m space (unfold move_leftovers in kept) in
        (
          reset,
          unfold pk_parser_reset frame_reset_values move_leftovers in omega (arith, g.space),
          unfold pk_parser_reset frame_reset_values in omega arith,
        )

    after_call-StepFits :
        {q : Parser E} (n b : ℕ) (fragmenting : Bool)
        → Given cap beyond h e o k t q
        → q.chunk.frame.raw_length ≤ b
        → StepFits cap beyond b (after_call n fragmenting (pos (h + e + (t - o))) q)
    unfolding after_call
    after_call-StepFits {q} n b fragmenting g fits =
        elim (Bool-cases (fragmenting || ltb_ℤ q.chunk.offset q.chunk.total)) [
          | inl more ↦ rw more (adjust-Fits g)
          | inr last ↦ rw last (whole (ended last))
        ]
      where
        w : ℕ
        w = h + e + (t - o)

        ended : (fragmenting || ltb_ℤ q.chunk.offset q.chunk.total) ≡ false → t ≤ o + k
        ended last = ground (arith, g.offset, g.total)

        whole :
            t ≤ o + k
            → let leftovers = to_int (pos q.chunk.frame.raw_length -ℤ pos w) in
              StepFits cap beyond b (
                if ltb_ℤ (pos 0) leftovers
                then leftover
                    (pos_part leftovers)
                    (pk_parser_reset (move_leftovers (pos_part (pos w)) (pos_part leftovers) q))
                else stop (ok n) (pk_parser_reset q))
        whole last =
            let raw = q.chunk.frame.raw_length in
            let le : w ≤ raw = omega (arith, g.raw, r.within) in
            let split : (pos raw -ℤ pos w) ≡ pos (raw - w) = ground arith in
            let left : to_int (pos raw -ℤ pos w) ≡ pos (raw - w) =
              ap to_int split ∙ to_int-small (raw - w) (omega (arith, g.space, r.small)) in
            elim (Bool-cases (ltb 0 (raw - w))) [
              | inl some_left ↦
                  rw (left, some_left)
                    (moved-Fits w (raw - w) b g (omega arith) (omega (arith, r.h_pos)) fits)
              | inr none_left ↦ rw (left, none_left) (reset-Fits cap beyond q g.space g.memory)
            ]

    pub deliver-StepFits :
        (callback : Callback E) (n b : ℕ) (fragmenting : Bool)
        → KeepsFrame callback
        → p.chunk.frame.raw_length ≤ b
        → StepFits cap beyond b (deliver callback n fragmenting (pos (h + e + (t - o))) p)
    unfolding deliver
    deliver-StepFits callback n b fragmenting keeps fits =
        let c = call_back-Called callback fragmenting (advance p) keeps in
        after_call-StepFits n b fragmenting (Given-call callback fragmenting keeps)
          (omega (arith, ap (λ (f : Frame). f.raw_length) c.frame, fits))
