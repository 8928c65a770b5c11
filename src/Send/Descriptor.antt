-- ===== src/Send/Descriptor.antt =====
-- pkc_flush() and pkc_write() (libpagekite/pkconn.c) keep the descriptor of the connection.
use libpagekite.Base.{
  ℕ, zero, suc, ◌+◌, ◌-◌, ◌≡◌, refl, ◌∙◌, inl, inr, Bool, true, false, not, if◌then◌else◌, ◌&&◌,
  ◌||◌, Option, none, some, leb, ltb, ◌==◌, OfSome, Bytes, Bool-cases, length, drop, pos, ltb_ℤ,
  if_elim,
}
use libpagekite.Conn.{Conn, Errno, Wrote, wrote, failed, fatal, again, conn_io_buffer_size}
use libpagekite.Send.{
  count_wrote, flush_round, no_progress, gives_up, wrote_count, close_on, Flushed, flush_result,
  pkc_raw_write, flush_buffer, write_data, flush_data, after_flush, pkc_flush, try_write,
  write_rest, write_new, pkc_write,
}

close_on-sockfd : (e : Errno) (c : Conn) → (close_on e c).sockfd ≡ c.sockfd
close_on-sockfd e c = elim (Bool-cases (fatal e)) [ inl h ↦ rw h refl | inr h ↦ rw h refl ]

flush_round-sockfd : (r : Wrote) (c : Conn) (n : ℕ) → (flush_round r c n).0.sockfd ≡ c.sockfd
unfolding flush_round
flush_round-sockfd (wrote k) c n = refl
flush_round-sockfd (failed e) c n = refl

count_wrote-sockfd : (r : Wrote) (c : Conn) → (count_wrote r c).sockfd ≡ c.sockfd
unfolding count_wrote
count_wrote-sockfd (wrote k) c = refl
count_wrote-sockfd (failed e) c = refl

module _ {W : Type 0} where
  flush_result-sockfd : (f : Flushed W) → (flush_result f).1.sockfd ≡ f.conn.sockfd
  unfolding flush_result
  flush_result-sockfd f = by_last f.last
    where
      by_last :
          (r : Wrote)
          → (elim r as (λ _. W × Conn × Option ℕ) [
            | wrote _ ↦ (f.world, f.conn, some f.flushed)
            | failed e ↦ (f.world, close_on e f.conn, none)
          ]).1.sockfd
            ≡ f.conn.sockfd
      by_last (wrote _) = refl
      by_last (failed e) = close_on-sockfd e f.conn

module _ {W : Type 0} (write : W → Bytes → W × Wrote) where
  raw_write-sockfd :
      (bytes : Bytes) (w : W) (c : Conn) → (pkc_raw_write write bytes w c).1.sockfd ≡ c.sockfd
  unfolding pkc_raw_write
  raw_write-sockfd bytes w c = elim (Bool-cases (length bytes == 0)) [
    | inl nothing ↦ rw nothing refl
    | inr something ↦ rw something (count_wrote-sockfd (write w bytes).1 c)
  ]

  flush_buffer-sockfd :
      (left : ℕ) (blocking : Bool) (flushed : ℕ) (w : W) (c : Conn)
      → (flush_buffer write left blocking flushed w c).conn.sockfd ≡ c.sockfd
  unfolding flush_buffer
  flush_buffer-sockfd zero blocking flushed w c =
      let r = pkc_raw_write write c.out_buffer w c in
      flush_round-sockfd r.2 r.1 flushed ∙ raw_write-sockfd c.out_buffer w c
  flush_buffer-sockfd (suc left) blocking flushed w c =
      let r = pkc_raw_write write c.out_buffer w c in
      let round = flush_round r.2 r.1 flushed in
      let here : round.0.sockfd ≡ c.sockfd =
        flush_round-sockfd r.2 r.1 flushed ∙ raw_write-sockfd c.out_buffer w c in
      if_elim (λ (f : Flushed W). f.conn.sockfd ≡ c.sockfd) _
        (flush_buffer-sockfd left blocking round.1 r.0 round.0 ∙ here) here

  write_data-sockfd :
      (fuel left : ℕ) (bytes : Bytes) (flushed : ℕ) (last : Wrote) (w : W) (c : Conn)
      → (write_data write fuel left bytes flushed last w c).conn.sockfd ≡ c.sockfd
  unfolding write_data
  write_data-sockfd zero left bytes flushed last w c = refl
  write_data-sockfd (suc fuel) left bytes flushed last w c =
      let r = pkc_raw_write write bytes w c in
      let n = wrote_count r.2 in
      let here : r.1.sockfd ≡ c.sockfd = raw_write-sockfd bytes w c in
      let P : Flushed W → Type 0 = λ f. f.conn.sockfd ≡ c.sockfd in
      if_elim P (length bytes == 0) refl (
        if_elim P (not (no_progress r.2))
          (write_data-sockfd fuel left (drop n bytes) (flushed + n) r.2 r.0 r.1 ∙ here)
          (if_elim P (gives_up r.2 || leb left 0) here
            (write_data-sockfd fuel (left - 1) bytes flushed r.2 r.0 r.1 ∙ here)))

  flush_data-sockfd :
      (bytes : Option Bytes) (blocking : Bool) (f : Flushed W)
      → (flush_data write bytes blocking f).1.sockfd ≡ f.conn.sockfd
  unfolding flush_data
  flush_data-sockfd none blocking f = flush_result-sockfd f
  flush_data-sockfd (some bytes) blocking f =
      if_elim (λ (r : W × Conn × Option ℕ). r.1.sockfd ≡ f.conn.sockfd)
        (blocking && length f.conn.out_buffer == 0)
        (flush_result-sockfd _
          ∙ write_data-sockfd (suc (length bytes + f.left)) f.left bytes 0 (wrote 0) f.world f.conn)
        (flush_result-sockfd f)

  after_flush-sockfd :
      (bytes : Option Bytes) (blocking : Bool) (f : Flushed W)
      → (after_flush write bytes blocking f).1.sockfd ≡ f.conn.sockfd
  unfolding after_flush
  after_flush-sockfd bytes blocking f =
      if_elim (λ (r : W × Conn × Option ℕ). r.1.sockfd ≡ f.conn.sockfd) (leb f.left 0) refl
        (by_last f.last)
    where
      by_last :
          (r : Wrote)
          → (elim r as (λ _. W × Conn × Option ℕ) [
            | failed e ↦ (f.world, close_on e f.conn, none)
            | wrote _ ↦ flush_data write bytes blocking f
          ]).1.sockfd
            ≡ f.conn.sockfd
      by_last (wrote _) = flush_data-sockfd bytes blocking f
      by_last (failed e) = close_on-sockfd e f.conn

  pub pkc_flush-sockfd :
      (bytes : Option Bytes) (blocking : Bool) (w : W) (c : Conn)
      → (pkc_flush write bytes blocking w c).1.sockfd ≡ c.sockfd
  unfolding pkc_flush
  pkc_flush-sockfd bytes blocking w c =
      if_elim (λ (r : W × Conn × Option ℕ). r.1.sockfd ≡ c.sockfd) (ltb_ℤ c.sockfd (pos 0)) refl
        (after_flush-sockfd bytes blocking _ ∙ flush_buffer-sockfd 1000 blocking 0 w c)

  try_write-sockfd :
      (rounds : ℕ) (bytes : Bytes) (w : W) (c : Conn)
      → OfSome (λ r. r.1.sockfd ≡ c.sockfd) (try_write write rounds bytes w c)
  unfolding try_write
  try_write-sockfd zero bytes w c = tt
  try_write-sockfd (suc rounds) bytes w c =
      by_last (pkc_raw_write write bytes w c) (raw_write-sockfd bytes w c)
        (λ w1 c1. try_write-sockfd rounds bytes w1 c1)
    where
      by_last :
          (r : W × Conn × Wrote)
          → r.1.sockfd ≡ c.sockfd
          → ((w1 : W) (c1 : Conn)
              → OfSome (λ r. r.1.sockfd ≡ c1.sockfd) (try_write write rounds bytes w1 c1))
          → OfSome
              (λ r. r.1.sockfd ≡ c.sockfd)
              (elim r.2 as (λ _. Option (W × Conn × Wrote)) [
                | wrote n ↦ some (r.0, r.1, wrote n)
                | failed e ↦
                    if again e
                    then try_write write rounds bytes r.0 r.1
                    else some (r.0, r.1, failed e)
              ])
      by_last (w1, c1, wrote n) here more = here
      by_last (w1, c1, failed e) here more =
          if_elim (OfSome (λ (r : W × Conn × Wrote). r.1.sockfd ≡ c.sockfd)) (again e)
            (on (try_write write rounds bytes w1 c1) (more w1 c1)) here
        where
          on :
              (o : Option (W × Conn × Wrote))
              → OfSome (λ r. r.1.sockfd ≡ c1.sockfd) o
              → OfSome (λ r. r.1.sockfd ≡ c.sockfd) o
          on none h = tt
          on (some r) h = h ∙ here

  write_rest-sockfd :
      (n : ℕ) (rest : Bytes) (w : W) (c : Conn)
      → (write_rest write n rest (w, c)).1.sockfd ≡ c.sockfd
  unfolding write_rest
  write_rest-sockfd n rest w c =
      let P : W × Conn × Option ℕ → Type 0 = λ r. r.1.sockfd ≡ c.sockfd in
      if_elim P (length rest == 0) refl (
        if_elim P (leb (length rest) (conn_io_buffer_size - length c.out_buffer)) refl
          (pkc_flush-sockfd (some rest) true w c))

  write_new-sockfd :
      (rounds : ℕ) (bytes : Bytes) (w : W) (c : Conn)
      → OfSome (λ r. r.1.sockfd ≡ c.sockfd) (write_new write rounds bytes (w, c))
  unfolding write_new
  write_new-sockfd rounds bytes w c =
      if_elim (OfSome (λ (r : W × Conn × Option ℕ). r.1.sockfd ≡ c.sockfd))
        (length c.out_buffer == 0)
        (on (try_write write rounds bytes w c) (try_write-sockfd rounds bytes w c))
        (write_rest-sockfd (length bytes) bytes w c)
    where
      on :
          (o : Option (W × Conn × Wrote))
          → OfSome (λ r. r.1.sockfd ≡ c.sockfd) o
          → OfSome
              (λ r. r.1.sockfd ≡ c.sockfd)
              (elim o as (λ _. Option (W × Conn × Option ℕ)) [
                | none ↦ none
                | some (w', c', r) ↦
                    some (write_rest write (length bytes) (drop (wrote_count r) bytes) (w', c'))
              ])
      on none h = tt
      on (some (w', c', r)) h =
          write_rest-sockfd (length bytes) (drop (wrote_count r) bytes) w' c' ∙ h

  pub pkc_write-sockfd :
      (rounds : ℕ) (bytes : Bytes) (w : W) (c : Conn)
      → OfSome (λ r. r.1.sockfd ≡ c.sockfd) (pkc_write write rounds bytes w c)
  unfolding pkc_write
  pkc_write-sockfd rounds bytes w c = elim (Bool-cases (ltb 0 (length c.out_buffer))) [
    | inr nothing ↦ rw nothing (write_new-sockfd rounds bytes w c)
    | inl something ↦
        rw something (on _ (write_new-sockfd rounds bytes _ (pkc_flush write none false w c).1))
  ]
    where
      on :
          (o : Option (W × Conn × Option ℕ))
          → OfSome (λ r. r.1.sockfd ≡ (pkc_flush write none false w c).1.sockfd) o
          → OfSome (λ r. r.1.sockfd ≡ c.sockfd) o
      on none h = tt
      on (some r) h = h ∙ pkc_flush-sockfd none false w c
