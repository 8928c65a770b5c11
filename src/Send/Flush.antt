-- ===== src/Send/Flush.antt =====
-- pkc_flush() (libpagekite/pkconn.c) keeps the stream.
use libpagekite.Base.{
  ℕ, suc, ◌+◌, ◌≤◌, ◌<◌, ◌≡◌, refl, sym, ap, ◌∙◌, inl, inr, Bool, true, ◌&&◌, [], ◌∷◌, ◌++◌,
  append_assoc, append-nil, Option, none, some, arith, leb, ◌==◌, if◌then◌else◌, Bytes, Bool-cases,
  length, ltb_ℤ, pos,
}
use libpagekite.Conn.{Conn, Errno, eintr, eagain, other, Wrote, wrote, failed}
use libpagekite.Send.{
  Flushed, flush_buffer, write_data, close_on, flush_result, flush_data, after_flush, pkc_flush,
}
use libpagekite.Send.Socket.{
  IsSocket, FlushFits, flush_buffer-FlushFits, DataFits, write_data-DataFits,
}

close_on-out_buffer : (e : Errno) (c : Conn) → (close_on e c).out_buffer ≡ c.out_buffer
close_on-out_buffer eintr c = refl
close_on-out_buffer eagain c = refl
close_on-out_buffer other c = refl

pub no_bytes : (m : Bytes) → length m ≡ 0 → m ≡ []
no_bytes [] h = refl
no_bytes (b ∷ m) h = ground arith

module _ {W : Type 0} (write : W → Bytes → W × Wrote) (sent : W → Bytes)
    (is_socket : IsSocket write sent) where
  -- What there is of the stream: the bytes sent, and the bytes in the buffer.
  abbrev pub Stream : W → Conn → Bytes
  Stream w c = sent w ++ c.out_buffer

  -- The outcome of an attempt to add `bytes` to the stream: the result tells if they are all in it; if
  -- not, what was sent is still the front of it.
  abbrev pub Adds : Bytes → ℕ → Bytes → W × Conn × Option ℕ → Type 0
  Adds before size bytes (w, c, some _) =
      (Stream w c ≡ before ++ bytes) × (length c.out_buffer ≤ size)
  Adds before size bytes (w, c, none) =
      ((rest : Bytes) × (sent w ++ rest ≡ before ++ bytes)) × (length c.out_buffer ≤ size)

  -- A flush with no new data keeps the stream, whatever its result.
  abbrev pub Keeps : Bytes → ℕ → W × Conn × Option ℕ → Type 0
  Keeps before size (w, c, _) = (Stream w c ≡ before) × (length c.out_buffer ≤ size)

  kept-closed :
      (before : Bytes) (size : ℕ) (f : Flushed W) (e : Errno)
      → (Stream f.world f.conn ≡ before)
      → length f.conn.out_buffer ≤ size
      → Keeps before size (f.world, close_on e f.conn, none)
  kept-closed before size f e s le = (
    ap (λ o. sent f.world ++ o) (close_on-out_buffer e f.conn) ∙ s,
    omega (arith, ap (length {0}) (close_on-out_buffer e f.conn)),
  )

  flush_result-Keeps :
      (before : Bytes) (size : ℕ) (f : Flushed W)
      → (Stream f.world f.conn ≡ before)
      → length f.conn.out_buffer ≤ size
      → Keeps before size (flush_result f)
  unfolding flush_result
  flush_result-Keeps before size f s le = by_last f.last
    where
      by_last :
          (r : Wrote)
          → Keeps before size (elim r as (λ _. W × Conn × Option ℕ) [
            | wrote _ ↦ (f.world, f.conn, some f.flushed)
            | failed e ↦ (f.world, close_on e f.conn, none)
          ])
      by_last (wrote _) = (s, le)
      by_last (failed e) = kept-closed before size f e s le

  pub pkc_flush-Keeps :
      (blocking : Bool) (w : W) (c : Conn)
      → Keeps (Stream w c) (length c.out_buffer) (pkc_flush write none blocking w c)
  unfolding pkc_flush after_flush flush_data
  pkc_flush-Keeps blocking w c =
      let f = flush_buffer write 1000 blocking 0 w c in
      let fits = flush_buffer-FlushFits write sent is_socket 1000 blocking 0 w c in
      elim (Bool-cases (ltb_ℤ c.sockfd (pos 0))) [
        | inl bogus ↦ rw bogus (refl, omega arith)
        | inr open_ ↦ elim (Bool-cases (leb f.left 0)) [
          | inl stuck ↦ rw (open_, stuck) (fits.stream, fits.no_larger)
          | inr ends ↦ rw (open_, ends) (by_last f fits.stream fits.no_larger f.last)
        ]
      ]
    where
      by_last :
          (f : Flushed W)
          → Stream f.world f.conn ≡ Stream w c
          → length f.conn.out_buffer ≤ length c.out_buffer
          → (r : Wrote)
          → Keeps (Stream w c) (length c.out_buffer) (elim r as (λ _. W × Conn × Option ℕ) [
            | failed e ↦ (f.world, close_on e f.conn, none)
            | wrote _ ↦ flush_result f
          ])
      by_last f s le (failed e) = kept-closed (Stream w c) (length c.out_buffer) f e s le
      by_last f s le (wrote _) = flush_result-Keeps (Stream w c) (length c.out_buffer) f s le

  data-Adds :
      (before bytes : Bytes) (size : ℕ) (f g : Flushed W)
      → (Stream f.world f.conn ≡ before)
      → length f.conn.out_buffer ≤ size
      → length f.conn.out_buffer ≡ 0
      → DataFits write sent is_socket bytes f.world f.conn g
      → Adds before size bytes (flush_result g)
  unfolding flush_result
  data-Adds before bytes size f g s le empty d = by_last g.last refl
    where
      sent_before : sent f.world ≡ before
      sent_before =
          sym (append-nil (sent f.world))
          ∙ ap (λ o. sent f.world ++ o) (sym (no_bytes f.conn.out_buffer empty))
          ∙ s

      by_last :
          (r : Wrote)
          → g.last ≡ r
          → Adds before size bytes (elim r as (λ _. W × Conn × Option ℕ) [
            | wrote _ ↦ (g.world, g.conn, some g.flushed)
            | failed e ↦ (g.world, close_on e g.conn, none)
          ])
      by_last (wrote n) e =
          let out : g.conn.out_buffer ≡ [] = d.buffer ∙ no_bytes f.conn.out_buffer empty in
          (
            ap (λ o. sent g.world ++ o) (out ∙ sym (d.all n e))
                ∙ d.stream
                ∙ ap (λ t. t ++ bytes) sent_before,
            omega (arith, ap (length {0}) d.buffer),
          )
      by_last (failed e) _ = (
        (d.rest, d.stream ∙ ap (λ t. t ++ bytes) sent_before),
        omega (arith, ap (length {0}) (close_on-out_buffer e g.conn), ap (length {0}) d.buffer),
      )

  -- A flush that failed: what was sent is the front of the stream.
  failed-Adds :
      (before bytes : Bytes) (size : ℕ) (w : W) (c : Conn)
      → Stream w c ≡ before
      → length c.out_buffer ≤ size
      → Adds before size bytes (w, c, none)
  failed-Adds before bytes size w c s le = (
    (
      c.out_buffer ++ bytes,
      sym (append_assoc (sent w) c.out_buffer bytes) ∙ ap (λ t. t ++ bytes) s,
    ),
    le,
  )

  closed-Adds :
      (before bytes : Bytes) (size : ℕ) (f : Flushed W) (e : Errno)
      → Stream f.world f.conn ≡ before
      → length f.conn.out_buffer ≤ size
      → Adds before size bytes (f.world, close_on e f.conn, none)
  closed-Adds before bytes size f e s le =
      let (s', le') = kept-closed before size f e s le in
      failed-Adds before bytes size f.world (close_on e f.conn) s' le'

  -- A blocking pkc_flush() with new data, on a socket whose write() sends the front of the data or fails:
  -- if it succeeds, the stream has grown by the new data; if it returns -1, what was sent is a front of
  -- that. The buffer does not grow.
  pub pkc_flush-Adds :
      (bytes : Bytes) (w : W) (c : Conn)
      → Adds (Stream w c) (length c.out_buffer) bytes (pkc_flush write (some bytes) true w c)
  unfolding pkc_flush after_flush flush_data
  pkc_flush-Adds bytes w c =
      let f = flush_buffer write 1000 true 0 w c in
      let fits = flush_buffer-FlushFits write sent is_socket 1000 true 0 w c in
      elim (Bool-cases (ltb_ℤ c.sockfd (pos 0))) [
        | inl bogus ↦
            rw bogus (failed-Adds (Stream w c) bytes (length c.out_buffer) w c refl (omega arith))
        | inr open_ ↦ elim (Bool-cases (leb f.left 0)) [
          | inl stuck ↦
              rw (open_, stuck)
                (failed-Adds (Stream w c) bytes (length c.out_buffer) f.world f.conn fits.stream
                  fits.no_larger)
          | inr ends ↦ rw (open_, ends) (by_last f fits (ground arith) f.last refl)
        ]
      ]
    where
      by_last :
          (f : Flushed W)
          → FlushFits write sent is_socket true (Stream w c) (length c.out_buffer) f
          → 0 < f.left
          → (r : Wrote) → f.last ≡ r
          → Adds (Stream w c) (length c.out_buffer) bytes (elim r as (λ _. W × Conn × Option ℕ) [
            | failed e ↦ (f.world, close_on e f.conn, none)
            | wrote _ ↦
                let new = flush_result (
                  write_data write
                    (suc (length bytes + f.left))
                    f.left
                    bytes
                    0
                    (wrote 0)
                    f.world
                    f.conn) in
                if true && length f.conn.out_buffer == 0 then new else flush_result f
          ])
      by_last f fits left (failed e) is =
          closed-Adds (Stream w c) bytes (length c.out_buffer) f e fits.stream fits.no_larger
      by_last f fits left (wrote n) is =
          let empty = fits.empty refl left n is in
          let zero_left : (length f.conn.out_buffer == 0) ≡ true = ground arith in
          rw zero_left (
            data-Adds (Stream w c) bytes (length c.out_buffer) f
              (write_data write (suc (length bytes + f.left)) f.left bytes 0 (wrote 0) f.world
                f.conn)
              fits.stream fits.no_larger empty
              (write_data-DataFits write sent is_socket (suc (length bytes + f.left)) f.left bytes 0
                (wrote 0) f.world f.conn (omega arith)))
