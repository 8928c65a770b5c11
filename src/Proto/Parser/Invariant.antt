-- ===== src/Proto/Parser/Invariant.antt =====
-- The parser's invariant: what is left of the buffer and what is in it make up the buffer, and what
-- the chunk and the frame say of it agrees. For libpagekite/pkproto.c, pk_parser_parse_new_data().
use libpagekite.Base.{
  ℕ, ◌+◌, ◌≤◌, ◌<◌, ◌≡◌, sym, ap, ◌∙◌, append_assoc, drop-length_append, ◌++◌, Option, none, some,
  arith, Bytes, length, length-append, length-take, length-drop, take, drop, ℤ, pos, negsuc,
}
use libpagekite.Utils.Lines.Behind.{SameBehind, SameBehind-mono}
use libpagekite.Proto.Chunk.{Frame, Chunk, Parser, pk_parser_reset}
use libpagekite.Proto.Parser.{write_at, Callback, Step, stop, leftover, count_bytes}

-- A write in front of the k-th byte.
pub write_at-SameBehind :
    {k : ℕ} (buf : Bytes) (i : ℕ) (bytes : Bytes)
    → i + length bytes ≤ k
    → i + length bytes ≤ length buf
    → SameBehind k buf (write_at buf i bytes)
unfolding write_at
write_at-SameBehind buf i bytes le h = SameBehind-mono le (record {
  same_length = omega (
    arith,
    length-append (take i buf) (bytes ++ rest),
    length-append bytes rest,
    length-take i buf,
    length-drop (i + length bytes) buf,
  );
  same_rest =
      sym (ap (λ n. drop n (take i buf ++ (bytes ++ rest))) seam)
      ∙ ap (drop (length (take i buf ++ bytes))) (sym (append_assoc (take i buf) bytes rest))
      ∙ drop-length_append (take i buf ++ bytes) rest;
})
  where
    rest : Bytes
    rest = drop (i + length bytes) buf

    seam : length (take i buf ++ bytes) ≡ i + length bytes
    seam = omega (arith, length-append (take i buf) bytes, length-take i buf)

-- The memory from the buffer of `cap` bytes on; `beyond` is what lies behind the buffer.
pub record IsBuffer (cap : ℕ) (beyond m : Bytes) : Type 0 where
  pub size : length m ≡ cap + length beyond
  pub rest : drop cap m ≡ beyond

pub SameBehind-IsBuffer :
    {cap k : ℕ} {beyond m m' : Bytes}
    → k ≤ cap
    → SameBehind k m m'
    → IsBuffer cap beyond m
    → IsBuffer cap beyond m'
SameBehind-IsBuffer {cap} le s b =
    let t = SameBehind-mono {k = cap} le s in
    record { size = t.same_length ∙ b.size; rest = t.same_rest ∙ b.rest }

-- The frame header is behind the parser, and lies within the bytes received.
abbrev pub HeaderKnown : ℤ → Frame → Type 0
HeaderKnown (negsuc _) f = Unit {0}
HeaderKnown (pos _) f =
    (h : ℕ) × (f.hdr_length ≡ pos h) × (f.data_at ≡ some h) × (0 < h) × (h ≤ f.raw_length)

-- A chunk of which a part is handed over: `e` is the length of its header, `o` what is handed
-- over, `r` what is to come; `x` bytes are received behind it.
pub record InFragment (x : ℕ) (c : Chunk) : Type 0 where
  pub h : ℕ
  pub e : ℕ
  pub o : ℕ
  pub r : ℕ
  pub h_pos : 0 < h
  pub hdr : c.frame.hdr_length ≡ pos h
  pub frame_left : c.frame.length ≡ pos (e + r)
  pub received : h + e + x ≤ c.frame.raw_length
  pub offset : c.offset ≡ pos o
  pub total : c.total ≡ pos (o + r)

abbrev pub FragmentKnown : ℕ → Option ℕ → Chunk → Type 0
FragmentKnown x none c = Unit {0}
FragmentKnown x (some _) c = InFragment x c

-- The parser's invariant, for a buffer of `cap` bytes and the memory `beyond` it; `x` bytes are not
-- looked at yet.
pub record FitsWith {E : Type 0} (x cap : ℕ) (beyond : Bytes) (p : Parser E) : Type 0 where
  pub space : p.buffer_bytes_left + p.chunk.frame.raw_length ≡ cap
  pub memory : IsBuffer cap beyond p.chunk.frame.raw_frame
  pub header : HeaderKnown p.chunk.frame.length p.chunk.frame
  pub fragment : FragmentKnown x p.chunk.data_at p.chunk

abbrev pub Fits : {E : Type 0} → ℕ → Bytes → Parser E → Type 0
Fits cap beyond p = FitsWith 0 cap beyond p

-- What the parser relies on in its callback: it may change the chunk, but not the frame and the
-- counters that it is not documented to touch.
abbrev pub KeepsFrame : {E : Type 0} → Callback E → Type 0
KeepsFrame none = Unit {0}
KeepsFrame {E} (some f) =
    (env : E) (c : Chunk)
    → ((f env c).1.frame ≡ c.frame)
      × ((f env c).1.offset ≡ c.offset)
      × ((f env c).1.total ≡ c.total)

pub reset-Fits :
    {E : Type 0} (cap : ℕ) (beyond : Bytes) (p : Parser E)
    → p.buffer_bytes_left + p.chunk.frame.raw_length ≡ cap
    → IsBuffer cap beyond p.chunk.frame.raw_frame
    → Fits cap beyond (pk_parser_reset p)
unfolding pk_parser_reset
reset-Fits cap beyond p s m = record {
  space = omega (arith, s);
  memory = m;
  header = tt;
  fragment = tt;
}

module _ {E : Type 0} where
  -- A step of the parser on `b` bytes in all.
  abbrev pub StepFits : ℕ → Bytes → ℕ → Step E → Type 0
  StepFits cap beyond b (stop _ q) = Fits cap beyond q
  StepFits cap beyond b (leftover l q) =
      Fits cap beyond q × (l ≤ q.buffer_bytes_left) × (q.chunk.frame.raw_length + l < b)

module _ {E : Type 0} {cap n : ℕ} {beyond : Bytes} (p : Parser E) where
  -- The bytes count as seen.
  pub all_seen : FitsWith n cap beyond p → Fits cap beyond p
  all_seen v = record {
    space = v.space;
    memory = v.memory;
    header = v.header;
    fragment = known p.chunk.data_at v.fragment;
  }
    where
      known : (d : Option ℕ) → FragmentKnown n d p.chunk → FragmentKnown 0 d p.chunk
      known none i = tt
      known (some _) i = record {
        h = i.h;
        e = i.e;
        o = i.o;
        r = i.r;
        h_pos = i.h_pos;
        hdr = i.hdr;
        frame_left = i.frame_left;
        received = omega (arith, i.received);
        offset = i.offset;
        total = i.total;
      }

  pub count_bytes-FitsWith :
      n ≤ p.buffer_bytes_left → Fits cap beyond p → FitsWith n cap beyond (count_bytes n p)
  unfolding count_bytes
  count_bytes-FitsWith le v = record {
    space = omega (arith, v.space);
    memory = v.memory;
    header = header p.chunk.frame.length v.header;
    fragment = known p.chunk.data_at v.fragment;
  }
    where
      header : (x : ℤ) → HeaderKnown x p.chunk.frame → HeaderKnown x (count_bytes n p).chunk.frame
      header (negsuc _) k = tt
      header (pos _) (h, a, b, c, d) = (h, a, b, c, omega arith)

      known : (d : Option ℕ) → FragmentKnown 0 d p.chunk → FragmentKnown n d (count_bytes n p).chunk
      known none i = tt
      known (some _) i = record {
        h = i.h;
        e = i.e;
        o = i.o;
        r = i.r;
        h_pos = i.h_pos;
        hdr = i.hdr;
        frame_left = i.frame_left;
        received = omega (arith, i.received);
        offset = i.offset;
        total = i.total;
      }
