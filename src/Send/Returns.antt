-- ===== src/Send/Returns.antt =====
-- pkc_write() (libpagekite/pkconn.c) returns, when the socket is not interrupted for ever.
use libpagekite.Base.{
  ℕ, zero, suc, ◌≤◌, ◌<◌, ◌≡◌, refl, ap, inl, inr, false, ◌&&◌, Option, none, some, arith, ltb, leb,
  ◌==◌, if◌then◌else◌, Bytes, Bool-cases, length, ltb_ℤ, pos,
}
use libpagekite.Conn.{Conn, eintr, eagain, other, Wrote, wrote, failed, again}
use libpagekite.Send.{
  pkc_raw_write, Flushed, flush_round, flush_buffer, close_on, flush_result, flush_data,
  after_flush, pkc_flush, try_write, write_new, pkc_write,
}

module _ {W : Type 0} (write : W → Bytes → W × Wrote) (patience : W → ℕ) where
  abbrev pub LosesPatience : W → W × Wrote → Type 0
  LosesPatience w (w', wrote n) = patience w' ≤ patience w
  LosesPatience w (w', failed eintr) = patience w' < patience w
  LosesPatience w (w', failed eagain) = patience w' ≤ patience w
  LosesPatience w (w', failed other) = patience w' ≤ patience w

  -- A bound on the interrupts to come, which no write raises and an interrupted write lowers.
  abbrev pub BoundsInterrupts : Type 0
  BoundsInterrupts = (w : W) (bytes : Bytes) → LosesPatience w (write w bytes)

module _ {W : Type 0} (write : W → Bytes → W × Wrote) (patience : W → ℕ)
    (bounded : BoundsInterrupts write patience) where
  raw-LosesPatience :
      (bytes : Bytes) (w : W) (c : Conn)
      → let r = pkc_raw_write write bytes w c in LosesPatience write patience w (r.0, r.2)
  unfolding pkc_raw_write
  raw-LosesPatience bytes w c = elim (Bool-cases (length bytes == 0)) [
    | inl nothing ↦ rw nothing (omega arith)
    | inr some_bytes ↦ rw some_bytes (bounded w bytes)
  ]

  no_gain : (w : W) (r : W × Wrote) → LosesPatience write patience w r → patience r.0 ≤ patience w
  no_gain w (w', wrote n) h = h
  no_gain w (w', failed eintr) h = omega (arith, h)
  no_gain w (w', failed eagain) h = h
  no_gain w (w', failed other) h = h

  -- A flush that does not block writes once.
  flush_once :
      (w : W) (c : Conn) → patience (flush_buffer write 1000 false 0 w c).world ≤ patience w
  unfolding flush_buffer
  flush_once w c =
      let r = pkc_raw_write write c.out_buffer w c in
      let once : ((flush_round r.2 r.1 0).2 && false) ≡ false = ground arith in
      rw once (no_gain w (r.0, r.2) (raw-LosesPatience c.out_buffer w c))

  flush_result-world : (f : Flushed W) → (flush_result f).0 ≡ f.world
  unfolding flush_result
  flush_result-world f = by_last f.last
    where
      by_last :
          (r : Wrote)
          → (elim r as (λ _. W × Conn × Option ℕ) [
            | wrote _ ↦ (f.world, f.conn, some f.flushed)
            | failed e ↦ (f.world, close_on e f.conn, none)
          ]).0
            ≡ f.world
      by_last (wrote _) = refl
      by_last (failed _) = refl

  pkc_flush-patience : (w : W) (c : Conn) → patience (pkc_flush write none false w c).0 ≤ patience w
  unfolding pkc_flush after_flush flush_data
  pkc_flush-patience w c =
      let f = flush_buffer write 1000 false 0 w c in
      elim (Bool-cases (ltb_ℤ c.sockfd (pos 0))) [
        | inl bogus ↦ rw bogus (omega arith)
        | inr open_ ↦ elim (Bool-cases (leb f.left 0)) [
          | inl stuck ↦ rw (open_, stuck) (flush_once w c)
          | inr ends ↦ rw (open_, ends) (by_last f (flush_once w c) f.last)
        ]
      ]
    where
      by_last :
          (f : Flushed W)
          → patience f.world ≤ patience w
          → (r : Wrote)
          → patience
              (elim r as (λ _. W × Conn × Option ℕ) [
                | failed e ↦ (f.world, close_on e f.conn, none)
                | wrote _ ↦ flush_result f
              ]).0
            ≤ patience w
      by_last f h (failed e) = h
      by_last f h (wrote _) = omega (arith, h, ap patience (flush_result-world f))

  abbrev Returns : {A : Type 0} → Option A → Type 0
  Returns {A} o = (a : A) × (o ≡ some a)

  try_write-Returns :
      (rounds : ℕ) (bytes : Bytes) (w : W) (c : Conn)
      → patience w < rounds
      → Returns (try_write write rounds bytes w c)
  unfolding try_write
  try_write-Returns zero bytes w c h = elim h [ ]
  try_write-Returns (suc rounds) bytes w c h =
      by_result (pkc_raw_write write bytes w c) (raw-LosesPatience bytes w c)
        (λ w' c'. try_write-Returns rounds bytes w' c')
    where
      by_result :
          (r : W × Conn × Wrote)
          → LosesPatience write patience w (r.0, r.2)
          → ((w' : W) (c' : Conn)
              → patience w' < rounds
              → Returns (try_write write rounds bytes w' c'))
          → Returns (elim r.2 as (λ _. Option (W × Conn × Wrote)) [
            | wrote n ↦ some (r.0, r.1, wrote n)
            | failed e ↦
                let more = try_write write rounds bytes r.0 r.1 in
                if again e then more else some (r.0, r.1, failed e)
          ])
      by_result (w', c', wrote n) l more = (_, refl)
      by_result (w', c', failed eintr) l more = more w' c' (omega (arith, l))
      by_result (w', c', failed eagain) l more = (_, refl)
      by_result (w', c', failed other) l more = (_, refl)

  write_new-Returns :
      (rounds : ℕ) (bytes : Bytes) (r : W × Conn)
      → patience r.0 < rounds
      → Returns (write_new write rounds bytes r)
  unfolding write_new
  write_new-Returns rounds bytes (w, c) h = elim (Bool-cases (length c.out_buffer == 0)) [
    | inr waits ↦ rw waits (_, refl)
    | inl empty ↦ let (r, e) = try_write-Returns rounds bytes w c h in rw (empty, e) (_, refl)
  ]

  -- More rounds than there are interrupts to come, and pkc_write() returns.
  pub pkc_write-Returns :
      (rounds : ℕ) (bytes : Bytes) (w : W) (c : Conn)
      → patience w < rounds
      → (r : W × Conn × Option ℕ) × (pkc_write write rounds bytes w c ≡ some r)
  unfolding pkc_write
  pkc_write-Returns rounds bytes w c h =
      let f = pkc_flush write none false w c in
      let l = pkc_flush-patience w c in
      elim (Bool-cases (ltb 0 (length c.out_buffer))) [
        | inl buffered ↦ rw buffered (write_new-Returns rounds bytes (f.0, f.1) (omega (arith, l)))
        | inr none_buffered ↦ rw none_buffered (write_new-Returns rounds bytes (w, c) h)
      ]
