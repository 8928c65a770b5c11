-- ===== src/Send/Write.antt =====
-- pkc_write() (libpagekite/pkconn.c) keeps the stream.
use libpagekite.Base.{
  ℕ, zero, suc, ◌-◌, ◌≤◌, ◌≡◌, refl, sym, ap, ◌∙◌, inl, inr, true, false, [], ◌++◌, append_assoc,
  append-nil, Option, none, some, arith, ltb, leb, ◌==◌, if◌then◌else◌, OfSome, Bytes, Bool-cases,
  length, length-append, drop,
}
use libpagekite.Conn.{Conn, eintr, eagain, other, Wrote, wrote, failed, again, conn_io_buffer_size}
use libpagekite.Send.{
  pkc_raw_write, wrote_count, pkc_flush, try_write, write_rest, write_new, pkc_write,
}
use libpagekite.Send.Socket.{IsSocket, undone, RawFits, pkc_raw_write-RawFits}
use libpagekite.Send.Flush.{Stream, Adds, pkc_flush-Keeps, pkc_flush-Adds, no_bytes}

module _ {W : Type 0} (write : W → Bytes → W × Wrote) (sent : W → Bytes)
    (is_socket : IsSocket write sent) where
  -- What pkc_write() returns: the number of bytes, and then all of them are in the stream, or -1, and
  -- then what was sent is the front of it. The buffer never overflows.
  abbrev pub Written : Bytes → Bytes → W × Conn × Option ℕ → Type 0
  Written before bytes (w, c, some n) =
      (n ≡ length bytes)
      × (Stream write sent is_socket w c ≡ before ++ bytes)
      × (length c.out_buffer ≤ conn_io_buffer_size)
  Written before bytes (w, c, none) =
      ((rest : Bytes) × (sent w ++ rest ≡ before ++ bytes))
      × (length c.out_buffer ≤ conn_io_buffer_size)

  -- The new data is split: `front` went out, `rest` is to come.
  write_rest-Written :
      (before bytes rest : Bytes) (w : W) (c : Conn)
      → Stream write sent is_socket w c ++ rest ≡ before ++ bytes
      → length c.out_buffer ≤ conn_io_buffer_size
      → Written before bytes (write_rest write (length bytes) rest (w, c))
  unfolding write_rest
  write_rest-Written before bytes rest w c s le = elim (Bool-cases (length rest == 0)) [
    | inl done ↦
        let all : rest ≡ [] = no_bytes rest (ground arith) in
        rw done (
          refl,
          sym (append-nil (Stream write sent is_socket w c))
              ∙ ap (λ r. Stream write sent is_socket w c ++ r) (sym all)
              ∙ s,
          le,
        )
    | inr more ↦ elim (Bool-cases (leb (length rest) (conn_io_buffer_size - length c.out_buffer))) [
      | inl room ↦
          rw (more, room)
            (
              refl,
              sym (append_assoc (sent w) c.out_buffer rest) ∙ s,
              ground (arith, length-append c.out_buffer rest),
            )
      | inr full ↦
          rw (more, full)
            (flushed (pkc_flush write (some rest) true w c)
              (pkc_flush-Adds write sent is_socket rest w c))
    ]
  ]
    where
      flushed :
          (r : W × Conn × Option ℕ)
          → Adds write sent is_socket (Stream write sent is_socket w c) (length c.out_buffer) rest r
          → Written before bytes
              (r.0, r.1, elim r.2 as (λ _. Option ℕ) [ none ↦ none | some _ ↦ some (length bytes) ])
      flushed (w', c', none) ((r, e), l) = ((r, e ∙ s), omega (arith, l))
      flushed (w', c', some n) (e, l) = (refl, e ∙ s, omega (arith, l))

  try_write-stream :
      (rounds : ℕ) (bytes : Bytes) (w : W) (c : Conn)
      → OfSome
          (λ r. (sent r.0 ++ undone bytes r.2 ≡ sent w ++ bytes) × (r.1.out_buffer ≡ c.out_buffer))
          (try_write write rounds bytes w c)
  unfolding try_write
  try_write-stream zero bytes w c = tt
  try_write-stream (suc rounds) bytes w c =
      by_result (pkc_raw_write write bytes w c)
        (pkc_raw_write-RawFits write sent is_socket bytes w c)
        (λ w' c'. try_write-stream rounds bytes w' c')
    where
      Fine : Option (W × Conn × Wrote) → Type 0
      Fine =
          OfSome (λ r.
            (sent r.0 ++ undone bytes r.2 ≡ sent w ++ bytes) × (r.1.out_buffer ≡ c.out_buffer))

      by_result :
          (r : W × Conn × Wrote)
          → RawFits write sent is_socket bytes w c r
          → ((w' : W) (c' : Conn)
              → OfSome
                  (λ r.
                    (sent r.0 ++ undone bytes r.2 ≡ sent w' ++ bytes)
                    × (r.1.out_buffer ≡ c'.out_buffer))
                  (try_write write rounds bytes w' c'))
          → Fine (elim r.2 as (λ _. Option (W × Conn × Wrote)) [
            | wrote n ↦ some (r.0, r.1, wrote n)
            | failed e ↦
                let more = try_write write rounds bytes r.0 r.1 in
                if again e then more else some (r.0, r.1, failed e)
          ])
      by_result (w', c', wrote n) f more = (f.stream, f.buffer)
      by_result (w', c', failed eintr) f more =
          later (try_write write rounds bytes w' c') (more w' c')
        where
          later :
              (o : Option (W × Conn × Wrote))
              → OfSome
                  (λ r.
                    (sent r.0 ++ undone bytes r.2 ≡ sent w' ++ bytes)
                    × (r.1.out_buffer ≡ c'.out_buffer))
                  o
              → Fine o
          later none h = tt
          later (some r) (s, b) = (s ∙ f.stream, b ∙ f.buffer)
      by_result (w', c', failed eagain) f more = (f.stream, f.buffer)
      by_result (w', c', failed other) f more = (f.stream, f.buffer)

  write_new-Written :
      (rounds : ℕ) (bytes : Bytes) (before : Bytes) (r : W × Conn)
      → Stream write sent is_socket r.0 r.1 ≡ before
      → length r.1.out_buffer ≤ conn_io_buffer_size
      → OfSome (Written before bytes) (write_new write rounds bytes r)
  unfolding write_new
  write_new-Written rounds bytes before (w, c) s le = elim (Bool-cases (length c.out_buffer == 0)) [
    | inr waits ↦ rw waits (write_rest-Written before bytes bytes w c (ap (λ t. t ++ bytes) s) le)
    | inl empty ↦ rw empty (
        tried (try_write write rounds bytes w c) (try_write-stream rounds bytes w c) (ground arith))
  ]
    where
      tried :
          (o : Option (W × Conn × Wrote))
          → OfSome
              (λ r.
                (sent r.0 ++ undone bytes r.2 ≡ sent w ++ bytes) × (r.1.out_buffer ≡ c.out_buffer))
              o
          → length c.out_buffer ≡ 0
          → OfSome (Written before bytes) (elim o as (λ _. Option (W × Conn × Option ℕ)) [
            | none ↦ none
            | some (w', c', r) ↦
                some (write_rest write (length bytes) (drop (wrote_count r) bytes) (w', c'))
          ])
      tried none h z = tt
      tried (some (w', c', r)) (e, b) z =
          let none_left : c.out_buffer ≡ [] = no_bytes c.out_buffer z in
          let split : Stream write sent is_socket w' c' ++ undone bytes r ≡ before ++ bytes =
            ap (λ o. (sent w' ++ o) ++ undone bytes r) (b ∙ none_left)
            ∙ ap (λ t. t ++ undone bytes r) (append-nil (sent w'))
            ∙ e
            ∙ ap (λ t. t ++ bytes)
                (sym (append-nil (sent w)) ∙ ap (λ o. sent w ++ o) (sym none_left) ∙ s) in
          write_rest-Written before bytes (undone bytes r) w' c' split
            (omega (arith, ap (length {0}) b))

  -- Whatever the socket does, pkc_write() keeps the order of the stream, which is what the socket
  -- took and then what is buffered: if it returns the number of bytes, all of them are at the end of
  -- the stream, and nothing else changed; if it returns -1, the socket got a front of it. The buffer
  -- does not overflow. It is about a socket whose write() sends the front of the data or fails, and
  -- about every outcome of the loop that repeats an interrupted write.
  pub pkc_write-Written :
      (rounds : ℕ) (bytes : Bytes) (w : W) (c : Conn)
      → length c.out_buffer ≤ conn_io_buffer_size
      → OfSome (Written (sent w ++ c.out_buffer) bytes) (pkc_write write rounds bytes w c)
  unfolding pkc_write
  pkc_write-Written rounds bytes w c le =
      let (s, l) = pkc_flush-Keeps write sent is_socket false w c in
      elim (Bool-cases (ltb 0 (length c.out_buffer))) [
        | inl buffered ↦ rw buffered (
            write_new-Written rounds bytes (Stream write sent is_socket w c) _ s (omega (arith, l)))
        | inr none_buffered ↦
            rw none_buffered
              (write_new-Written rounds bytes (Stream write sent is_socket w c) (w, c) refl le)
      ]
