-- ===== src/Proto/Stream/FrameHeader.antt =====
-- parse_frame_header() (libpagekite/pkproto.c) on the length that pk_format_frame() writes.
use libpagekite.Base.{
  ℕ, zero, suc, ◌+◌, ◌/◌, ◌%◌, ◌^◌, ◌≤◌, ◌<◌, ◌≡◌, refl, inl, inr, true, false, [], ◌∷◌, ◌++◌, some,
  arith, ltb, ◌==◌, Bytes, Bool-cases, crlf, All, length, pos, to_int-small,
}
use libpagekite.Libc.{to_hex, hex_loop, hex_digit, is_hex, is_digit}
use libpagekite.Libc.RoundTrip.{sscanf_lx-to_hex, Ends}
use libpagekite.Utils.Lines.Laws.{NoCrlf, zero_first_crlf-finds}
use libpagekite.Proto.Chunk.{Frame}
use libpagekite.Proto.Header.{ok, parse_frame_header, frame_header_end, convert_frame_length}
use libpagekite.Proto.Stream.HeaderLines.{nuls}

abbrev NoCr : Bytes → Type 0
NoCr = All (λ c. (c == 13) ≡ false)

NoCr-NoCrlf : (m : Bytes) → NoCr m → NoCrlf m
NoCr-NoCrlf [] h = tt
NoCr-NoCrlf (a ∷ []) h = tt
NoCr-NoCrlf (a ∷ b ∷ m) (h, hs) = (ground arith, NoCr-NoCrlf (b ∷ m) hs)

hex_digit-NoCr : (d : ℕ) → (hex_digit d == 13) ≡ false
unfolding hex_digit
hex_digit-NoCr d = ground arith

hex_loop-NoCr : (f n : ℕ) (out : Bytes) → NoCr out → NoCr (hex_loop f n out)
unfolding hex_loop
hex_loop-NoCr zero n out h = h
hex_loop-NoCr (suc f) n out h = elim (Bool-cases (ltb n 16)) [
  | inl small ↦ rw small (hex_digit-NoCr n, h)
  | inr big ↦
      rw big (hex_loop-NoCr f (n / 16) (hex_digit (n % 16) ∷ out) (hex_digit-NoCr (n % 16), h))
]

pub to_hex-NoCrlf : (n : ℕ) → NoCrlf (to_hex n)
unfolding to_hex
to_hex-NoCrlf n = NoCr-NoCrlf (hex_loop (suc n) n []) (hex_loop-NoCr (suc n) n [] tt)

nuls-Ends : (rest : Bytes) → Ends (nuls rest)
unfolding is_hex is_digit
nuls-Ends rest = (refl, refl)

-- The frame header that announces `l` bytes is read, and the rest is left alone.
pub parse_frame_header-to_hex :
    (l n : ℕ) (rest : Bytes) (f : Frame)
    → length (to_hex l) + 2 ≤ n
    → n < 2 ^ 31
    → l < 2 ^ 31
    → parse_frame_header (record f { raw_length = n; raw_frame = to_hex l ++ (crlf ++ rest) }) ≡ (
      ok 0,
      record f {
        length = pos l;
        data_at = some (length (to_hex l) + 2);
        hdr_length = pos (length (to_hex l) + 2);
        raw_length = n;
        raw_frame = to_hex l ++ nuls rest;
      },
    )
unfolding parse_frame_header frame_header_end convert_frame_length
parse_frame_header-to_hex l n rest f le small l_small =
    let found : ltb 0 (length (to_hex l) + 2) ≡ true = ground arith in
    rw
      (
        to_int-small n small,
        zero_first_crlf-finds n (to_hex l) rest (to_hex-NoCrlf l) le,
        found,
        sscanf_lx-to_hex l (nuls rest) (omega (arith, l_small)) (nuls-Ends rest),
      )
      refl
