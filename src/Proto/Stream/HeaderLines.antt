-- ===== src/Proto/Stream/HeaderLines.antt =====
-- parse_chunk_header() (libpagekite/pkproto.c) on the header of a reply.
use libpagekite.Base.{
  ℕ, suc, ◌+◌, ◌-◌, ◌^◌, ◌≤◌, ◌<◌, ◌≡◌, refl, ap, ◌∙◌, true, [], ◌∷◌, ◌++◌, append_assoc, some,
  arith, ltb, Bytes, codes, crlf, length, length-append, take, drop, take-length_append,
  drop-length_append, ℤ, pos, ◌-ℤ◌, to_int, to_int-small, has_prefix_nocase,
}
use libpagekite.Utils.Lines.{zero_first_crlf}
use libpagekite.Utils.Lines.Laws.{NoCrlf, zero_first_crlf-finds}
use libpagekite.Proto.Chunk.{Chunk, Quota}
use libpagekite.Proto.Header.{
  Parsed, ok, header_lines, header_line, line_s, kept, finish_header, parse_chunk_header,
}

module _ (f : ℕ) (bytes : ℤ) (base a : ℕ) (m m' : Bytes) (s : Parsed) where
  header_lines-more :
      (len : ℕ)
      → zero_first_crlf (to_int (bytes -ℤ pos a)) m ≡ (len, m')
      → 2 < len
      → header_lines (suc f) bytes base a m s
        ≡ kept
            (take len m')
            (header_lines f bytes base (a + len) (drop len m') (header_line (base + a) m' s))
  unfolding header_lines
  header_lines-more len e lt = let long : ltb 2 len ≡ true = ground arith in rw (e, long)

  header_lines-last :
      zero_first_crlf (to_int (bytes -ℤ pos a)) m ≡ (2, m')
      → header_lines (suc f) bytes base a m s
        ≡ (record { len = 2; pos_at = a; memory = m'; parsed = s })
  unfolding header_lines
  header_lines-last e = rw e

abbrev pub sid_line : Bytes → Bytes
sid_line sid = codes "SID: " ++ sid

header_line-sid :
    (i : ℕ) (p : Bytes) (s : Parsed)
    → header_line i (sid_line p) s
      ≡ (record { chunk = record s.chunk { sid = some (i + 5) }; quota = s.quota })
unfolding header_line line_s has_prefix_nocase
header_line-sid i p s = refl

-- The NUL bytes that end the line and the header.
abbrev pub nuls : Bytes → Bytes
nuls rest = 0 ∷ 0 ∷ rest

-- The part of an int's range that a loop round looks at.
pub window : (l a : ℕ) → a ≤ l → l < 2 ^ 31 → to_int (pos l -ℤ pos a) ≡ pos (l - a)
window l a le small =
    let natural : pos l -ℤ pos a ≡ pos (l - a) = ground arith in
    ap to_int natural ∙ to_int-small (l - a) (omega arith)

sid_line-NoCrlf : (sid : Bytes) → NoCrlf sid → NoCrlf (sid_line sid)
sid_line-NoCrlf [] h = (refl, (refl, (refl, (refl, tt))))
sid_line-NoCrlf (c ∷ sid) h = (refl, (refl, (refl, (refl, (refl, h)))))

-- The line as it was cut: `n` bytes of it, and what follows.
cut :
    (line rest : Bytes) (n : ℕ)
    → n ≡ length line + 2
    → (take n (line ++ nuls rest) ≡ line ++ nuls []) × (drop n (line ++ nuls rest) ≡ rest)
cut line rest n e =
    let seam : line ++ nuls rest ≡ (line ++ nuls []) ++ rest = simp (append_assoc) refl in
    let n' : n ≡ length (line ++ nuls []) = omega (arith, e, length-append line (nuls [])) in
    rw (seam, n')
      (take-length_append (line ++ nuls []) rest, drop-length_append (line ++ nuls []) rest)

joined :
    (line rest : Bytes) (a b : ℕ) (s : Parsed)
    → a ≡ b
    → kept (line ++ nuls []) (record { len = 2; pos_at = a; memory = nuls rest; parsed = s })
      ≡ (record { len = 2; pos_at = b; memory = line ++ nuls (nuls rest); parsed = s })
joined line rest a b s e =
    let join : (line ++ nuls []) ++ nuls rest ≡ line ++ nuls (nuls rest) =
      simp (append_assoc) refl in
    rw (e, join) refl

-- The header of a reply: the SID's line, and the empty line behind it.
pub sid_header_lines :
    (h l : ℕ) (sid rest : Bytes) (s : Parsed)
    → NoCrlf sid
    → length sid + 9 ≤ l
    → l < 2 ^ 31
    → header_lines
        (length (sid_line sid ++ (crlf ++ (crlf ++ rest))))
        (pos l)
        h
        0
        (sid_line sid ++ (crlf ++ (crlf ++ rest)))
        s
      ≡ (record {
        len = 2;
        pos_at = length sid + 7;
        memory = sid_line sid ++ nuls (nuls rest);
        parsed = record { chunk = record s.chunk { sid = some (h + 5) }; quota = s.quota };
      })
sid_header_lines h l sid rest s one_line le small =
    let line = sid_line sid in
    let m' = line ++ nuls (crlf ++ rest) in
    let f = suc (length (codes "D: " ++ (sid ++ (crlf ++ (crlf ++ rest))))) in
    let s' : Parsed = record { chunk = record s.chunk { sid = some (h + 5) }; quota = s.quota } in
    let first : zero_first_crlf (to_int (pos l -ℤ pos 0)) (line ++ (crlf ++ (crlf ++ rest)))
        ≡ (length sid + 7, m') =
      rw (window l 0 (omega arith) small) (
        zero_first_crlf-finds (l - 0) line (crlf ++ rest) (sid_line-NoCrlf sid one_line)
          (omega arith)
        ∙ ap (λ k. (k, m')) (omega arith)) in
    let second : zero_first_crlf (to_int (pos l -ℤ pos (0 + (length sid + 7)))) (crlf ++ rest)
        ≡ (2, nuls rest) =
      rw (window l (0 + (length sid + 7)) (omega arith) small)
        (zero_first_crlf-finds (l - (0 + (length sid + 7))) [] rest tt (omega arith)) in
    let (line_cut, rest_cut) = cut line (crlf ++ rest) (length sid + 7) (omega arith) in
    let stored : header_line (h + 0) m' s ≡ s' =
      header_line-sid (h + 0) (sid ++ nuls (crlf ++ rest)) s
      ∙ ap (λ i. record { chunk = record s.chunk { sid = some (i + 5) }; quota = s.quota })
          (omega arith) in
    header_lines-more f (pos l) h 0 (line ++ (crlf ++ (crlf ++ rest))) m' s (length sid + 7) first
      (omega arith)
    ∙ rw (line_cut, rest_cut, stored)
        (ap (kept (line ++ nuls [])) (
            header_lines-last (length (codes "D: " ++ (sid ++ (crlf ++ (crlf ++ rest))))) (pos l) h
              (0 + (length sid + 7)) (crlf ++ rest) (nuls rest) s' second)
          ∙ joined line rest (0 + (length sid + 7)) (length sid + 7) s' (omega arith))

-- A chunk whose frame header is parsed: `before`, and then the chunk of a reply, `l` bytes long.
abbrev pub headed : ℕ → Bytes → Bytes → Bytes → Chunk → Chunk
headed l before sid rest c = record c {
  frame = record c.frame {
    length = pos l;
    data_at = some (length before);
    raw_frame = before ++ (sid_line sid ++ (crlf ++ (crlf ++ rest)));
  };
}

-- What parse_chunk_header() makes of it.
abbrev pub sid_chunk : ℕ → Bytes → Bytes → Bytes → Chunk → Chunk
sid_chunk l before sid rest c = record c {
  headers = [];
  sid = some (length before + 5);
  total = pos (l - (length sid + 9));
  length = pos (l - (length sid + 9));
  data_at = some (length before + (length sid + 9));
  offset = pos 0;
  frame = record c.frame {
    length = pos l;
    data_at = some (length before);
    raw_frame = before ++ (sid_line sid ++ nuls (nuls rest));
  };
}

pub parse_chunk_header-reply :
    (l : ℕ) (before sid rest : Bytes) (c : Chunk) (q : Quota)
    → NoCrlf sid
    → length sid + 9 ≤ l
    → l < 2 ^ 31
    → parse_chunk_header (pos l) (record { chunk = headed l before sid rest c; quota = q })
      ≡ (ok (length sid + 9), record { chunk = sid_chunk l before sid rest c; quota = q })
unfolding parse_chunk_header finish_header
parse_chunk_header-reply l before sid rest c q one_line le small =
    let m = sid_line sid ++ (crlf ++ (crlf ++ rest)) in
    let s : Parsed = record {
      chunk = record (headed l before sid rest c) { headers = [] };
      quota = q;
    } in
    let end : length sid + 7 + 2 ≡ length sid + 9 = omega arith in
    let natural : pos l -ℤ pos (length sid + 9) ≡ pos (l - (length sid + 9)) = ground arith in
    rw
      (
        drop-length_append before m,
        take-length_append before m,
        sid_header_lines (length before) l sid rest s one_line le small,
        end,
        natural,
      )
      refl
