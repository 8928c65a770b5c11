-- ===== src/Send/Socket.antt =====
-- What the code relies on in a socket's write, and what a single write of libpagekite/pkconn.c and the
-- loops of pkc_flush() do to the stream of bytes.
use libpagekite.Base.{
  ℕ, zero, suc, ◌+◌, ◌-◌, ◌≤◌, ◌<◌, ◌≡◌, refl, sym, ap, ◌∙◌, inl, inr, Bool, true, false, ◌&&◌,
  ◌||◌, [], ◌∷◌, ◌++◌, append_assoc, arith, ltb, leb, ◌==◌, Bytes, Bool-cases, length, length-drop,
  take, drop, take-append-drop,
}
use libpagekite.Conn.{Conn, Wrote, wrote, failed, again}
use libpagekite.Send.{
  count_wrote, pkc_raw_write, Flushed, flush_round, flush_buffer, no_progress, gives_up,
  wrote_count, write_data,
}

module _ {W : Type 0} (write : W → Bytes → W × Wrote) (sent : W → Bytes) where
  -- A write of some bytes takes at least one of them and sends what it takes, or it fails and sends
  -- nothing.
  abbrev pub Sends : W → Bytes → W × Wrote → Type 0
  Sends w bytes (w', wrote n) = (0 < n) × (n ≤ length bytes) × (sent w' ≡ sent w ++ take n bytes)
  Sends w bytes (w', failed e) = sent w' ≡ sent w

  abbrev pub IsSocket : Type 0
  IsSocket = (w : W) (bytes : Bytes) → 0 < length bytes → Sends w bytes (write w bytes)

-- A write of some bytes that did not fail took some of them.
abbrev pub Advances : Bytes → Wrote → Type 0
Advances bytes (wrote n) = 0 < length bytes → 0 < n
Advances bytes (failed e) = Unit {0}

-- What a write left undone.
abbrev pub undone : Bytes → Wrote → Bytes
undone bytes r = drop (wrote_count r) bytes

module _ {W : Type 0} (write : W → Bytes → W × Wrote) (sent : W → Bytes)
    (is_socket : IsSocket write sent) where
  -- One write: what it sent and what it left are the bytes it was given.
  pub record RawFits (bytes : Bytes) (w : W) (c : Conn) (r : W × Conn × Wrote) : Type 0 where
    pub buffer : r.1.out_buffer ≡ c.out_buffer
    pub stream : sent r.0 ++ undone bytes r.2 ≡ sent w ++ bytes
    pub advances : Advances bytes r.2

  Sends-RawFits :
      (bytes : Bytes) (w : W) (c : Conn) (s : W × Wrote)
      → Sends write sent w bytes s
      → RawFits bytes w c (s.0, count_wrote s.1 c, s.1)
  unfolding count_wrote
  Sends-RawFits bytes w c (w', wrote n) (some_byte, le, e) = record {
    buffer = refl;
    stream =
        ap (λ t. t ++ drop n bytes) e
        ∙ append_assoc (sent w) (take n bytes) (drop n bytes)
        ∙ ap (λ t. sent w ++ t) (take-append-drop n bytes);
    advances = λ _. some_byte;
  }
  Sends-RawFits bytes w c (w', failed x) e = record {
    buffer = refl;
    stream = ap (λ t. t ++ bytes) e;
    advances = tt;
  }

  pub pkc_raw_write-RawFits :
      (bytes : Bytes) (w : W) (c : Conn) → RawFits bytes w c (pkc_raw_write write bytes w c)
  unfolding pkc_raw_write
  pkc_raw_write-RawFits [] w c = record { buffer = refl; stream = refl; advances = λ h. elim h [ ] }
  pkc_raw_write-RawFits (b ∷ bs) w c =
      let some_bytes : (length (b ∷ bs) == 0) ≡ false = ground arith in
      rw some_bytes
        (Sends-RawFits (b ∷ bs) w c (write w (b ∷ bs)) (is_socket w (b ∷ bs) (omega arith)))

  -- What flush_buffer() comes to: the bytes sent and those still in the buffer are what there was, and
  -- a blocking flush with rounds left and no error has emptied the buffer.
  pub record FlushFits (blocking : Bool) (before : Bytes) (size : ℕ) (f : Flushed W) : Type 0 where
    pub stream : sent f.world ++ f.conn.out_buffer ≡ before
    pub no_larger : length f.conn.out_buffer ≤ size
    pub empty :
        blocking ≡ true → 0 < f.left → (n : ℕ) → f.last ≡ wrote n → length f.conn.out_buffer ≡ 0

  round-Fits :
      (flushed : ℕ) (w : W) (c : Conn) (r : W × Conn × Wrote)
      → RawFits c.out_buffer w c r
      → (sent r.0 ++ (flush_round r.2 r.1 flushed).0.out_buffer ≡ sent w ++ c.out_buffer)
        × (length (flush_round r.2 r.1 flushed).0.out_buffer ≤ length c.out_buffer)
  unfolding flush_round
  round-Fits flushed w c (w1, c1, wrote n) f = (
    ap (λ o. sent w1 ++ drop n o) f.buffer ∙ f.stream,
    omega (arith, length-drop n c1.out_buffer, ap (length {0}) f.buffer),
  )
  round-Fits flushed w c (w1, c1, failed e) f =
      (ap (λ o. sent w1 ++ o) f.buffer ∙ f.stream, omega (arith, ap (length {0}) f.buffer))

  goes_on :
      (r : Wrote) (c : Conn) (flushed n : ℕ) → r ≡ wrote n → (flush_round r c flushed).2 ≡ true
  unfolding flush_round
  goes_on r c flushed n e = ap (λ r. (flush_round r c flushed).2) e

  continued :
      (blocking : Bool) (w w1 : W) (c c2 : Conn) (f : Flushed W)
      → sent w1 ++ c2.out_buffer ≡ sent w ++ c.out_buffer
      → length c2.out_buffer ≤ length c.out_buffer
      → FlushFits blocking (sent w1 ++ c2.out_buffer) (length c2.out_buffer) f
      → FlushFits blocking (sent w ++ c.out_buffer) (length c.out_buffer) f
  continued blocking w w1 c c2 f e le fits = record {
    stream = fits.stream ∙ e;
    no_larger = omega (arith, fits.no_larger);
    empty = fits.empty;
  }

  pub flush_buffer-FlushFits :
      (left : ℕ) (blocking : Bool) (flushed : ℕ) (w : W) (c : Conn)
      → FlushFits blocking
          (sent w ++ c.out_buffer)
          (length c.out_buffer)
          (flush_buffer write left blocking flushed w c)
  unfolding flush_buffer
  flush_buffer-FlushFits zero blocking flushed w c =
      let raw = pkc_raw_write write c.out_buffer w c in
      let (stream, le) = round-Fits flushed w c raw (pkc_raw_write-RawFits c.out_buffer w c) in
      record { stream = stream; no_larger = le; empty = λ _ h. elim h [ ] }
  flush_buffer-FlushFits (suc left) blocking flushed w c =
      let raw = pkc_raw_write write c.out_buffer w c in
      let (stream, le) = round-Fits flushed w c raw (pkc_raw_write-RawFits c.out_buffer w c) in
      let c2 = (flush_round raw.2 raw.1 flushed).0 in
      let goes = (flush_round raw.2 raw.1 flushed).2 in
      elim (Bool-cases (goes && (blocking && ltb 0 (length c2.out_buffer)))) [
        | inl on ↦ rw on (
            continued blocking w raw.0 c c2 _ stream le
              (flush_buffer-FlushFits left blocking (flush_round raw.2 raw.1 flushed).1 raw.0 c2))
        | inr done ↦ rw done (record {
          stream = stream;
          no_larger = le;
          empty = λ b _ n is.
              let on = goes_on raw.2 raw.1 flushed n is in
              let t : ltb 0 (length c2.out_buffer) ≡ false = cc (b, on, done) in ground arith;
        })
      ]

  -- What write_data() comes to: it sent the front of the data, and all of it if it did not fail.
  pub record DataFits (bytes : Bytes) (w : W) (c : Conn) (f : Flushed W) : Type 0 where
    pub rest : Bytes
    pub stream : sent f.world ++ rest ≡ sent w ++ bytes
    pub buffer : f.conn.out_buffer ≡ c.out_buffer
    pub all : (n : ℕ) → f.last ≡ wrote n → rest ≡ []

  no_progress_count : (r : Wrote) → no_progress r ≡ true → wrote_count r ≡ 0
  unfolding no_progress
  no_progress_count (wrote zero) h = refl
  no_progress_count (wrote (suc n)) h = ground arith
  no_progress_count (failed e) h = refl

  progress_count : (r : Wrote) → no_progress r ≡ false → 0 < wrote_count r
  unfolding no_progress
  progress_count (wrote zero) h = ground arith
  progress_count (wrote (suc n)) h = omega arith
  progress_count (failed e) h = ground arith

  not_stuck :
      (bytes : Bytes) (r : Wrote) (n : ℕ)
      → 0 < length bytes
      → Advances bytes r
      → no_progress r ≡ true
      → r ≡ wrote n
      → ⊥
  not_stuck bytes (failed e) n h a stuck is = ground arith
  not_stuck bytes (wrote m) n h a stuck is =
      let none_taken = no_progress_count (wrote m) stuck in let taken = a h in ground arith

  resumed :
      (bytes rest : Bytes) (w w1 : W) (c c1 : Conn) (f : Flushed W)
      → sent w1 ++ rest ≡ sent w ++ bytes
      → c1.out_buffer ≡ c.out_buffer
      → DataFits rest w1 c1 f
      → DataFits bytes w c f
  resumed bytes rest w w1 c c1 f e b d = record {
    rest = d.rest;
    stream = d.stream ∙ e;
    buffer = d.buffer ∙ b;
    all = d.all;
  }

  pub write_data-DataFits :
      (fuel left : ℕ) (bytes : Bytes) (flushed : ℕ) (last : Wrote) (w : W) (c : Conn)
      → length bytes + left < fuel
      → DataFits bytes w c (write_data write fuel left bytes flushed last w c)
  unfolding write_data
  write_data-DataFits zero left bytes flushed last w c h = elim h [ ]
  write_data-DataFits (suc fuel) left [] flushed last w c h = record {
    rest = [];
    stream = refl;
    buffer = refl;
    all = λ _ _. refl;
  }
  write_data-DataFits (suc fuel) left (b ∷ bs) flushed last w c h =
      let bytes : Bytes = b ∷ bs in
      let raw = pkc_raw_write write bytes w c in
      let fits = pkc_raw_write-RawFits bytes w c in
      let some_bytes : (length bytes == 0) ≡ false = ground arith in
      elim (Bool-cases (no_progress raw.2)) [
        | inr moves ↦
            rw (some_bytes, moves)
              (resumed bytes (undone bytes raw.2) w raw.0 c raw.1 _ fits.stream fits.buffer (
                write_data-DataFits fuel left (undone bytes raw.2) (flushed + wrote_count raw.2)
                  raw.2 raw.0 raw.1
                  (omega
                    (arith, length-drop (wrote_count raw.2) bytes, progress_count raw.2 moves))))
        | inl stuck ↦
            let nothing : undone bytes raw.2 ≡ bytes =
              ap (λ n. drop n bytes) (no_progress_count raw.2 stuck) in
            let same : sent raw.0 ++ bytes ≡ sent w ++ bytes =
              ap (λ t. sent raw.0 ++ t) (sym nothing) ∙ fits.stream in
            elim (Bool-cases (gives_up raw.2 || leb left 0)) [
              | inl over ↦
                  rw (some_bytes, stuck, over)
                    (record {
                      rest = bytes;
                      stream = same;
                      buffer = fits.buffer;
                      all = λ n is.
                          absurd (not_stuck bytes raw.2 n (omega arith) fits.advances stuck is);
                    })
              | inr again ↦
                  rw (some_bytes, stuck, again)
                    (resumed bytes bytes w raw.0 c raw.1 _ same fits.buffer (
                      write_data-DataFits fuel (left - 1) bytes flushed raw.2 raw.0 raw.1
                        (ground arith)))
            ]
      ]
