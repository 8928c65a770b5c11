-- ===== src/Send/Empties.antt =====
-- A blocking pkc_flush() (libpagekite/pkconn.c) that succeeds leaves nothing in the buffer.
use libpagekite.Base.{
  ℕ, ◌≡◌, refl, inl, inr, true, Option, none, some, arith, leb, Bytes, Bool-cases, length, ltb_ℤ,
  pos,
}
use libpagekite.Conn.{Conn, Wrote, wrote, failed}
use libpagekite.Send.{
  Flushed, flush_buffer, close_on, flush_result, flush_data, after_flush, pkc_flush,
}
use libpagekite.Send.Socket.{IsSocket, flush_buffer-FlushFits}

module _ {W : Type 0} (write : W → Bytes → W × Wrote) (sent : W → Bytes)
    (is_socket : IsSocket write sent) where
  abbrev pub Empty : W × Conn × Option ℕ → Type 0
  Empty (w, c, none) = Unit {0}
  Empty (w, c, some _) = length c.out_buffer ≡ 0

  flush_result-Empty : (f : Flushed W) → length f.conn.out_buffer ≡ 0 → Empty (flush_result f)
  unfolding flush_result
  flush_result-Empty f h = by_last f.last
    where
      by_last :
          (r : Wrote)
          → Empty (elim r as (λ _. W × Conn × Option ℕ) [
            | wrote _ ↦ (f.world, f.conn, some f.flushed)
            | failed e ↦ (f.world, close_on e f.conn, none)
          ])
      by_last (wrote _) = h
      by_last (failed e) = tt

  pub pkc_flush-Empty : (w : W) (c : Conn) → Empty (pkc_flush write none true w c)
  unfolding pkc_flush after_flush flush_data
  pkc_flush-Empty w c =
      let f = flush_buffer write 1000 true 0 w c in
      let fits = flush_buffer-FlushFits write sent is_socket 1000 true 0 w c in
      elim (Bool-cases (ltb_ℤ c.sockfd (pos 0))) [
        | inl bogus ↦ rw bogus tt
        | inr open_ ↦ elim (Bool-cases (leb f.left 0)) [
          | inl stuck ↦ rw (open_, stuck) tt
          | inr ends ↦
              rw (open_, ends) (by_last f (λ n. fits.empty refl (ground arith) n) f.last refl)
        ]
      ]
    where
      by_last :
          (f : Flushed W)
          → ((n : ℕ) → f.last ≡ wrote n → length f.conn.out_buffer ≡ 0)
          → (r : Wrote) → f.last ≡ r
          → Empty (elim r as (λ _. W × Conn × Option ℕ) [
            | failed e ↦ (f.world, close_on e f.conn, none)
            | wrote _ ↦ flush_result f
          ])
      by_last f h (failed e) is = tt
      by_last f h (wrote n) is = flush_result-Empty f (h n is)
