-- ===== src/Manager/Chunked.antt =====
-- pkm_write_chunked() (libpagekite/pkmanager.c): a backend's data goes into the tunnel as one frame.
use libpagekite.Base.{
  ℕ, ◌+◌, ◌-◌, ◌≤◌, ◌≡◌, refl, sym, ap, ◌∙◌, inl, inr, true, [], ◌++◌, append_assoc, append-nil,
  Option, none, some, arith, ltb, OfSome, OfSome-map, ◌==◌, ◌||◌, if◌then◌else◌, Bytes, Bool-cases,
  length, length-append, take, take-length_append,
}
use libpagekite.Proto.Format.{pk_reply_overhead, pk_format_reply}
use libpagekite.Proto.Format.Size.{pk_format_reply-overhead}
use libpagekite.Conn.{Conn, Wrote, conn_io_buffer_size}
use libpagekite.Send.{pkc_flush, pkc_write}
use libpagekite.Send.Socket.{IsSocket}
use libpagekite.Send.Write.{Written, pkc_write-Written}
use libpagekite.Send.Flush.{pkc_flush-Keeps}
use libpagekite.Send.Empties.{Empty, pkc_flush-Empty}
use libpagekite.Manager.{write_header, pkm_write_chunked}

-- A reply's header and its data.
reply_parts :
    (sid bytes : Bytes)
    → pk_format_reply (some sid) (length bytes) none ++ bytes
      ≡ pk_format_reply (some sid) (length bytes) (some bytes)
unfolding pk_format_reply
reply_parts sid bytes =
    let all : take (length bytes) bytes ≡ bytes =
      ap (take (length bytes)) (sym (append-nil bytes)) ∙ take-length_append bytes [] in
    rw all refl

length-header :
    (sid bytes : Bytes)
    → length (pk_format_reply (some sid) (length bytes) none) ≡ pk_reply_overhead sid (length bytes)
length-header sid bytes = omega (
  arith,
  ap (length {0}) (reply_parts sid bytes),
  pk_format_reply-overhead sid bytes,
  length-append (pk_format_reply (some sid) (length bytes) none) bytes,
)

module _ {W : Type 0} (write : W → Bytes → W × Wrote) (sent : W → Bytes)
    (is_socket : IsSocket write sent) where
  -- The frame for the data is in the stream; or the write failed, and what was sent is a front of it.
  abbrev pub Framed : Bytes → Bytes → Bytes → W × Conn × Option ℕ → Type 0
  Framed before sid bytes (w, c, some n) =
      (n ≡ length bytes)
      × (sent w ++ c.out_buffer ≡ before ++ pk_format_reply (some sid) (length bytes) (some bytes))
      × (length c.out_buffer ≤ conn_io_buffer_size)
  Framed before sid bytes (w, c, none) =
      ((rest : Bytes) × (sent w ++ rest
          ≡ before ++ pk_format_reply (some sid) (length bytes) (some bytes)))
      × (length c.out_buffer ≤ conn_io_buffer_size)

  -- And the header, with its NUL, was written up to the byte behind the buffer if it fills the buffer
  -- or its free space, and within the buffer else.
  abbrev pub InBuffer : Bytes → Bytes → Conn → ℕ → Type 0
  InBuffer sid bytes c end =
      let overhead = pk_reply_overhead sid (length bytes) in
      end ≤ (
        if length c.out_buffer + overhead == conn_io_buffer_size || overhead == conn_io_buffer_size
        then conn_io_buffer_size + 1
        else conn_io_buffer_size)

  -- Where the NUL behind the header ends.
  abbrev HeaderEnd : Bytes → Bytes → Conn → ℕ → Type 0
  HeaderEnd sid bytes c end = end ≡ length c.out_buffer + pk_reply_overhead sid (length bytes) + 1

  write_header-Framed :
      (rounds : ℕ) (sid bytes before : Bytes) (w : W) (c : Conn)
      → sent w ++ c.out_buffer ≡ before
      → length c.out_buffer + pk_reply_overhead sid (length bytes) ≤ conn_io_buffer_size
      → OfSome
          (λ r. Framed before sid bytes r.0 × HeaderEnd sid bytes c r.1)
          (write_header write rounds sid bytes (w, c))
  unfolding write_header
  write_header-Framed rounds sid bytes before w c s room =
      let header = pk_format_reply (some sid) (length bytes) none in
      let c' = record c { out_buffer = c.out_buffer ++ header } in
      framed (pkc_write write rounds bytes w c') (
        pkc_write-Written write sent is_socket rounds bytes w c'
          (omega (arith, length-append c.out_buffer header, length-header sid bytes)))
    where
      whole :
          (sent w ++ (c.out_buffer ++ pk_format_reply (some sid) (length bytes) none)) ++ bytes
          ≡ before ++ pk_format_reply (some sid) (length bytes) (some bytes)
      whole =
          let header = pk_format_reply (some sid) (length bytes) none in
          ap (λ t. t ++ bytes)
            (sym (append_assoc (sent w) c.out_buffer header) ∙ ap (λ t. t ++ header) s)
          ∙ append_assoc before header bytes
          ∙ ap (λ t. before ++ t) (reply_parts sid bytes)

      framed :
          (o : Option (W × Conn × Option ℕ))
          → OfSome
              (Written write sent is_socket
                (sent w ++ (c.out_buffer ++ pk_format_reply (some sid) (length bytes) none))
                bytes)
              o
          → OfSome
              (λ r. Framed before sid bytes r.0 × HeaderEnd sid bytes c r.1)
              (elim o as (λ _. Option ((W × Conn × Option ℕ) × ℕ)) [
                | none ↦ none
                | some r ↦
                    let header = pk_format_reply (some sid) (length bytes) none in
                    some (r, length c.out_buffer + length header + 1)
              ])
      framed none h = tt
      framed (some (w', c', some n)) (e, stream, le) =
          ((e, stream ∙ whole, le), omega (arith, length-header sid bytes))
      framed (some (w', c', none)) ((rest, stream), le) =
          (((rest, stream ∙ whole), le), omega (arith, length-header sid bytes))

  -- Whatever the socket does, if out_buffer was no longer than its size and the frame's header fits an empty
  -- buffer: pkm_write_chunked() puts one whole reply frame with the SID and the data behind the stream, or
  -- fails with a front of that sent, and out_buffer is no longer than its size then. The NUL behind the
  -- header lies within the buffer; but when the header fills the free space, or all of the buffer, it may
  -- be the byte behind the buffer.
  pub pkm_write_chunked-Framed :
      (rounds : ℕ) (sid bytes : Bytes) (w : W) (c : Conn)
      → length c.out_buffer ≤ conn_io_buffer_size
      → pk_reply_overhead sid (length bytes) ≤ conn_io_buffer_size
      → OfSome
          (λ r. Framed (sent w ++ c.out_buffer) sid bytes r.0 × InBuffer sid bytes c r.1)
          (pkm_write_chunked write rounds sid bytes w c)
  unfolding pkm_write_chunked
  pkm_write_chunked-Framed rounds sid bytes w c le header_le =
      elim (Bool-cases
        (ltb (conn_io_buffer_size - length c.out_buffer) (pk_reply_overhead sid (length bytes)))) [
          | inr room ↦ rw room (
              OfSome-map _ Whole (write_header write rounds sid bytes (w, c))
                (λ r f. (f.0, in_free_space r.1 f.1 (ground arith)))
                (write_header-Framed rounds sid bytes before w c refl (ground arith)))
          | inl full ↦
              let (s, l) = pkc_flush-Keeps write sent is_socket true w c in
              rw full (
                flushed (pkc_flush write none true w c) s (omega (arith, l))
                  (pkc_flush-Empty write sent is_socket w c))
        ]
    where
      before : Bytes
      before = sent w ++ c.out_buffer

      Whole : (W × Conn × Option ℕ) × ℕ → Type 0
      Whole r = Framed before sid bytes r.0 × InBuffer sid bytes c r.1

      in_free_space :
          (end : ℕ)
          → HeaderEnd sid bytes c end
          → length c.out_buffer + pk_reply_overhead sid (length bytes) ≤ conn_io_buffer_size
          → InBuffer sid bytes c end
      in_free_space end is room = ground arith

      in_empty :
          (end : ℕ) → end ≡ pk_reply_overhead sid (length bytes) + 1 → InBuffer sid bytes c end
      in_empty end is = ground arith

      flushed :
          (r : W × Conn × Option ℕ)
          → sent r.0 ++ r.1.out_buffer ≡ before
          → length r.1.out_buffer ≤ conn_io_buffer_size
          → Empty write sent is_socket r
          → OfSome Whole (elim r.2 as (λ _. Option ((W × Conn × Option ℕ) × ℕ)) [
            | none ↦ some ((r.0, r.1, none), 0)
            | some _ ↦ write_header write rounds sid bytes (r.0, r.1)
          ])
      flushed (w', c', none) s l e =
          let frame = pk_format_reply (some sid) (length bytes) (some bytes) in
          (
            (
              (
                c'.out_buffer ++ frame,
                sym (append_assoc (sent w') c'.out_buffer frame) ∙ ap (λ t. t ++ frame) s,
              ),
              l,
            ),
            ground arith,
          )
      flushed (w', c', some _) s l e =
          OfSome-map _ Whole (write_header write rounds sid bytes (w', c'))
            (λ r f. (f.0, in_empty r.1 (omega (arith, f.1, e))))
            (write_header-Framed rounds sid bytes before w' c' s (omega (arith, e)))
