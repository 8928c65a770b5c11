-- ===== src/Send/Count.antt =====
-- The counters of bytes and kilobytes in libpagekite/pkconn.c.
use libpagekite.Base.{
  ℕ, zero, suc, ◌+◌, ◌-◌, ◌*◌, ◌/◌, ◌≤◌, ◌<◌, ◌≡◌, refl, inl, inr, ◌∷◌, ◌++◌, Option, some, arith,
  leb, OfSome, Bytes, Bool-cases, Option-cases, ◌⊎◌, length, pos, to_int,
}
use libpagekite.Conn.{Conn, Wrote, got, count_kb, pkc_read, conn_report_increment}
use libpagekite.Send.{pkc_write, pkc_report_progress}
use libpagekite.Proto.Format.{pk_format_skb}

count_kb_lem :
    (fuel bytes kb : ℕ)
    → bytes < fuel
    → let r = count_kb fuel bytes kb in (1024 * r.1 + r.0 ≡ 1024 * kb + bytes) × (r.0 < 1024)
unfolding count_kb
count_kb_lem zero bytes kb h = elim h [ ]
count_kb_lem (suc fuel) bytes kb h = elim (Bool-cases (leb 1024 bytes)) [
  | inl more ↦
      let (total, small) = count_kb_lem fuel (bytes - 1024) (kb + 1) (ground arith) in
      rw more (ground (arith, total), small)
  | inr done ↦ rw done (refl, ground arith)
]

-- A read of some bytes: they are behind what was in the buffer, the counters of kilobytes and bytes
-- add up to what they were and the bytes read, and the bytes are less than a kilobyte.
pub pkc_read-counts :
    (now b : ℕ) (bs : Bytes) (c : Conn)
    → let c' = (pkc_read now (got (b ∷ bs)) c).0 in
      (c'.in_buffer ≡ c.in_buffer ++ b ∷ bs)
      × (1024 * c'.read_kb + c'.read_bytes ≡ 1024 * c.read_kb + c.read_bytes + length (b ∷ bs))
      × (c'.read_bytes < 1024)
unfolding pkc_read
pkc_read-counts now b bs c =
    let n = length (b ∷ bs) in
    let (total, small) =
      count_kb_lem (suc (c.read_bytes + n)) (c.read_bytes + n) c.read_kb (omega arith) in
    (refl, omega (arith, total), small)

module _ {W : Type 0} (write : W → Bytes → W × Wrote) where
  -- A progress report loses no bytes: what is reported and what is to be reported add up to what they
  -- did. With less than 16 kilobytes to report nothing changes; from 16 kilobytes on, less than a kilobyte
  -- stays behind, and the other side's connection was given one message, with the new total.
  pub pkc_report_progress-counts :
      (rounds : ℕ) (sid : Option Bytes) (w : W) (feconn pkc : Conn)
      → OfSome
          (λ r.
            (1024 * r.2.reported_kb + r.2.wrote_bytes ≡ 1024 * pkc.reported_kb + pkc.wrote_bytes)
            × (((pkc.wrote_bytes < 16 * 1024) × (r ≡ (w, feconn, pkc)))
                ⊎ ((16 * 1024 ≤ pkc.wrote_bytes)
                    × (r.2.wrote_bytes < 1024)
                    × ((n : Option ℕ) × (pkc_write write rounds
                            (pk_format_skb sid (to_int (pos r.2.reported_kb)))
                            w
                            feconn
                          ≡ some (r.0, r.1, n))))))
          (pkc_report_progress write rounds sid w feconn pkc)
  unfolding pkc_report_progress
  pkc_report_progress-counts rounds sid w feconn pkc =
      let kb = pkc.reported_kb + pkc.wrote_bytes / 1024 in
      elim (Bool-cases (leb (conn_report_increment * 1024) pkc.wrote_bytes)) [
        | inr few ↦ rw few (refl, inl (ground arith, refl))
        | inl enough ↦
            elim (Option-cases
              (pkc_write write rounds (pk_format_skb sid (to_int (pos kb))) w feconn)) [
                | inl loops ↦ rw (enough, loops) tt
                | inr (r, e) ↦
                    rw (enough, e) (omega arith, inr (ground arith, omega arith, (r.2, e)))
              ]
      ]
