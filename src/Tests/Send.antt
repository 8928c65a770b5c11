-- ===== src/Tests/Send.antt =====
-- Examples for libpagekite/pkconn.c: a socket that is interrupted a few times, and takes three bytes a
-- write.
use libpagekite.Base.{
  ℕ, zero, suc, arith, ◌+◌, ◌-◌, ◌*◌, ◌≤◌, ◌<◌, ◌≡◌, ◌⊎◌, refl, ap, inl, inr, true, [], ◌∷◌, ◌++◌,
  Option, some, OfSome, Bytes, codes, length, take, min, ltb, if◌then◌else◌, Bool-cases, pos,
  to_int,
}
use libpagekite.Proto.Format.{pk_format_skb}
use libpagekite.Conn.{Conn, Wrote, wrote, failed, eintr}
use libpagekite.Send.{pkc_flush, pkc_write, pkc_report_progress}
use libpagekite.Send.Socket.{IsSocket}
use libpagekite.Send.Flush.{Adds, pkc_flush-Adds}
use libpagekite.Send.Write.{Written, pkc_write-Written}
use libpagekite.Send.Returns.{BoundsInterrupts, pkc_write-Returns}
use libpagekite.Send.Count.{pkc_report_progress-counts}

pub record Wire : Type 0 where
  pub interrupts : ℕ
  pub on_wire : Bytes

abbrev pub slow : Wire → Bytes → Wire × Wrote
slow w bytes =
    if ltb 0 w.interrupts
    then (record w { interrupts = w.interrupts - 1 }, failed eintr)
    else (record w { on_wire = w.on_wire ++ take 3 bytes }, wrote (min 3 (length bytes)))

abbrev pub sent : Wire → Bytes
sent w = w.on_wire

take-min : (n : ℕ) (bytes : Bytes) → take (min n (length bytes)) bytes ≡ take n bytes
take-min zero bytes = let e : min 0 (length bytes) ≡ 0 = omega arith in rw e refl
take-min (suc n) [] = let e : min (suc n) 0 ≡ 0 = omega arith in rw e refl
take-min (suc n) (b ∷ bs) =
    let e : min (suc n) (suc (length bs)) ≡ suc (min n (length bs)) = omega arith in
    rw e (ap (◌∷◌ b) (take-min n bs))

pub slow-IsSocket : IsSocket slow sent
slow-IsSocket = λ w bytes some_bytes. elim (Bool-cases (ltb 0 w.interrupts)) [
  | inl interrupted ↦ rw interrupted refl
  | inr calm ↦ rw calm (ground arith, omega arith, rw take-min refl)
]

slow-BoundsInterrupts : BoundsInterrupts slow (λ w. w.interrupts)
slow-BoundsInterrupts = λ w bytes. elim (Bool-cases (ltb 0 w.interrupts)) [
  | inl interrupted ↦ rw interrupted (ground arith)
  | inr calm ↦ rw calm (omega arith)
]

abbrev pub wire : Wire
wire = record { interrupts = 2; on_wire = [] }

abbrev pub conn : Conn
conn = record {
  status = 0x80;
  sockfd = pos 5;
  activity = 0;
  read_bytes = 1000;
  read_kb = 3;
  sent_kb = 0;
  send_window_kb = 128;
  wrote_bytes = 20000;
  reported_kb = 7;
  in_buffer = [];
  out_buffer = codes "SID";
}

pkc_write-Written_example :
    OfSome
      (Written slow sent slow-IsSocket (codes "SID") (codes ": 1"))
      (pkc_write slow 9 (codes ": 1") wire conn)
pkc_write-Written_example =
    pkc_write-Written slow sent slow-IsSocket 9 (codes ": 1") wire conn (omega arith)

pkc_write-Returns_example :
    (r : Wire × Conn × Option ℕ) × (pkc_write slow 9 (codes ": 1") wire conn ≡ some r)
pkc_write-Returns_example =
    pkc_write-Returns slow (λ w. w.interrupts) slow-BoundsInterrupts 9 (codes ": 1") wire conn
      (omega arith)

pkc_flush-Adds_example :
    Adds slow sent slow-IsSocket
      (codes "SID")
      3
      (codes ": 1")
      (pkc_flush slow (some (codes ": 1")) true wire conn)
pkc_flush-Adds_example = pkc_flush-Adds slow sent slow-IsSocket (codes ": 1") wire conn

pkc_report_progress-counts_example :
    OfSome
      (λ r.
        (1024 * r.2.reported_kb + r.2.wrote_bytes ≡ 1024 * 7 + 20000)
        × (((20000 < 16 * 1024) × (r ≡ (wire, conn, conn)))
            ⊎ ((16 * 1024 ≤ 20000)
                × (r.2.wrote_bytes < 1024)
                × ((n : Option ℕ) × (pkc_write slow 9
                        (pk_format_skb (some (codes "1")) (to_int (pos r.2.reported_kb)))
                        wire
                        conn
                      ≡ some (r.0, r.1, n))))))
      (pkc_report_progress slow 9 (some (codes "1")) wire conn conn)
pkc_report_progress-counts_example =
    pkc_report_progress-counts slow 9 (some (codes "1")) wire conn conn
