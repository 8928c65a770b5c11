-- ===== src/Send.antt =====
-- libpagekite/pkconn.c: pkc_raw_write(), pkc_flush(), pkc_write() and pkc_report_progress(), in a build
-- without OpenSSL. The socket is a parameter: its write() takes the state of the world and the bytes.
-- errno is 0 behind a write that succeeds, because each write is preceded by a reset of it; the switch
-- between blocking and non-blocking sockets belongs to that parameter.
pub mod Socket
pub mod Flush
pub mod Write
pub mod Empties
pub mod Returns
pub mod Count
pub mod Descriptor
use libpagekite.Base.{
  ℕ, zero, suc, ◌+◌, ◌-◌, ◌*◌, ◌/◌, ◌%◌, ◌≤◌, ◌<◌, ◌≡◌, Bool, true, false, not, ◌&&◌, ◌||◌, List,
  [], ◌∷◌, ◌++◌, Option, none, some, ltb, leb, ◌==◌, if◌then◌else◌, Bytes, length, take, drop, ℤ,
  pos, negsuc, ltb_ℤ, minus_one, to_int,
}
use libpagekite.Proto.Format.{pk_format_skb}
use libpagekite.Conn.{
  Conn, Errno, eintr, eagain, other, Wrote, wrote, failed, again, fatal, set_status,
  conn_io_buffer_size, conn_status_cls_write, conn_report_increment,
}

unfoldable pub count_wrote : Wrote → Conn → Conn
count_wrote (wrote n) c = record c { wrote_bytes = c.wrote_bytes + n }
count_wrote (failed e) c = c

-- A round of the first loop behind its write: the connection, what is flushed, and if it goes on.
unfoldable pub flush_round : Wrote → Conn → ℕ → Conn × ℕ × Bool
flush_round (wrote n) c flushed = (record c { out_buffer = drop n c.out_buffer }, flushed + n, true)
flush_round (failed e) c flushed = (c, flushed, again e)

-- A write of new data that gave nothing: once more, or no more.
unfoldable pub no_progress : Wrote → Bool
no_progress (wrote zero) = true
no_progress (wrote (suc n)) = false
no_progress (failed e) = true

abbrev pub gives_up : Wrote → Bool
gives_up (wrote n) = false
gives_up (failed e) = not (again e)

abbrev pub wrote_count : Wrote → ℕ
wrote_count (wrote n) = n
wrote_count (failed e) = 0

-- An error other than "try again" closes the connection for writing.
abbrev pub close_on : Errno → Conn → Conn
close_on e c = if fatal e then set_status conn_status_cls_write c else c

-- The result of pkc_flush()'s loops: the last write, how much they flushed, and loops_left.
pub record Flushed (W : Type 0) : Type 0 where
  pub world : W
  pub conn : Conn
  pub last : Wrote
  pub flushed : ℕ
  pub left : ℕ

module _ {W : Type 0} where
  -- What a loop of pkc_flush() comes to: -1 is `none`.
  unfoldable pub flush_result : Flushed W → W × Conn × Option ℕ
  flush_result f = elim f.last [
    | wrote _ ↦ (f.world, f.conn, some f.flushed)
    | failed e ↦ (f.world, close_on e f.conn, none)
  ]

module _ {W : Type 0} (write : W → Bytes → W × Wrote) where
  unfoldable pub pkc_raw_write : Bytes → W → Conn → W × Conn × Wrote
  pkc_raw_write bytes w c =
      let (w', r) = write w bytes in
      if length bytes == 0 then (w, c, wrote 0) else (w', count_wrote r c, r)

  -- "First, flush whatever was in the conn buffers": the do-while loop, on loops_left.
  unfoldable pub flush_buffer : ℕ → Bool → ℕ → W → Conn → Flushed W
  flush_buffer zero blocking flushed w c =
      let (w1, c1, r) = pkc_raw_write c.out_buffer w c in
      let (c2, flushed', _) = flush_round r c1 flushed in
      record { world = w1; conn = c2; last = r; flushed = flushed'; left = 0 }
  flush_buffer (suc left) blocking flushed w c =
      let (w1, c1, r) = pkc_raw_write c.out_buffer w c in
      let (c2, flushed', goes_on) = flush_round r c1 flushed in
      let more = flush_buffer left blocking flushed' w1 c2 in
      if goes_on && (blocking && ltb 0 (length c2.out_buffer))
      then more
      else record { world = w1; conn = c2; last = r; flushed = flushed'; left = suc left }

  -- "Write the new data!": the while loop. A round takes a byte off the data, or one off loops_left.
  unfoldable pub write_data : ℕ → ℕ → Bytes → ℕ → Wrote → W → Conn → Flushed W
  write_data zero left bytes flushed last w c = record {
    world = w;
    conn = c;
    last = last;
    flushed = flushed;
    left = left;
  }
  write_data (suc fuel) left bytes flushed last w c =
      let (w1, c1, r) = pkc_raw_write bytes w c in
      let n = wrote_count r in
      let progress = write_data fuel left (drop n bytes) (flushed + n) r w1 c1 in
      let once_more = write_data fuel (left - 1) bytes flushed r w1 c1 in
      if length bytes == 0
      then record { world = w; conn = c; last = last; flushed = flushed; left = left }
      else if not (no_progress r)
      then progress
      else if gives_up r || leb left 0
      then record { world = w1; conn = c1; last = r; flushed = flushed; left = left - 1 }
      else once_more

  unfoldable pub flush_data : Option Bytes → Bool → Flushed W → W × Conn × Option ℕ
  flush_data none blocking f = flush_result f
  flush_data (some bytes) blocking f =
      let new =
        flush_result
          (write_data (suc (length bytes + f.left)) f.left bytes 0 (wrote 0) f.world f.conn) in
      if blocking && length f.conn.out_buffer == 0 then new else flush_result f

  unfoldable pub after_flush : Option Bytes → Bool → Flushed W → W × Conn × Option ℕ
  after_flush bytes blocking f = if leb f.left 0 then (f.world, f.conn, none) else elim f.last [
    | failed e ↦ (f.world, close_on e f.conn, none)
    | wrote _ ↦ flush_data bytes blocking f
  ]

  -- `bytes` is the new data, or NULL.
  unfoldable pub pkc_flush : Option Bytes → Bool → W → Conn → W × Conn × Option ℕ
  pkc_flush bytes blocking w c =
      let f = flush_buffer 1000 blocking 0 w c in
      if ltb_ℤ c.sockfd (pos 0) then (w, c, none) else after_flush bytes blocking f

  -- The do-while loop of pkc_write(), which has no bound: `none` is that it goes on after that many
  -- rounds.
  unfoldable pub try_write : ℕ → Bytes → W → Conn → Option (W × Conn × Wrote)
  try_write zero bytes w c = none
  try_write (suc rounds) bytes w c =
      let (w1, c1, r) = pkc_raw_write bytes w c in
      let more = try_write rounds bytes w1 c1 in
      elim r [
        | wrote n ↦ some (w1, c1, wrote n)
        | failed e ↦ if again e then more else some (w1, c1, failed e)
      ]

  -- Behind the writes: `rest` is what is not written of the `n` bytes.
  unfoldable pub write_rest : ℕ → Bytes → W × Conn → W × Conn × Option ℕ
  write_rest n rest (w, c) =
      let (w', c', r) = pkc_flush (some rest) true w c in
      if length rest == 0
      then (w, c, some n)
      else if leb (length rest) (conn_io_buffer_size - length c.out_buffer)
      then (w, record c { out_buffer = c.out_buffer ++ rest }, some n)
      else (w', c', elim r [ none ↦ none | some _ ↦ some n ])

  unfoldable pub write_new : ℕ → Bytes → W × Conn → Option (W × Conn × Option ℕ)
  write_new rounds bytes (w, c) =
      if length c.out_buffer == 0
      then elim (try_write rounds bytes w c) [
        | none ↦ none
        | some (w', c', r) ↦ some (write_rest (length bytes) (drop (wrote_count r) bytes) (w', c'))
      ]
      else some (write_rest (length bytes) bytes (w, c))

  unfoldable pub pkc_write : ℕ → Bytes → W → Conn → Option (W × Conn × Option ℕ)
  pkc_write rounds bytes w c =
      let (w', c', _) = pkc_flush none false w c in
      write_new rounds bytes (if ltb 0 (length c.out_buffer) then (w', c') else (w, c))

  -- pkc_report_progress(): `feconn` is another connection, with a world of its own.
  unfoldable pub pkc_report_progress : ℕ → Option Bytes → W → Conn → Conn → Option (W × Conn × Conn)
  pkc_report_progress rounds sid w feconn pkc =
      let kb = pkc.reported_kb + pkc.wrote_bytes / 1024 in
      let pkc' = record pkc { reported_kb = kb; wrote_bytes = pkc.wrote_bytes % 1024 } in
      let sent = pkc_write rounds (pk_format_skb sid (to_int (pos kb))) w feconn in
      if leb (conn_report_increment * 1024) pkc.wrote_bytes
      then elim sent [ none ↦ none | some (w', fe, _) ↦ some (w', fe, pkc') ]
      else some (w, feconn, pkc)
