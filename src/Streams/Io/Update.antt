-- ===== src/Streams/Io/Update.antt =====
-- pkm_update_io() for a stream (libpagekite/pkmanager.c).
use libpagekite.Base.{
  ℕ, ◌+◌, ◌*◌, ◌/◌, ◌≤◌, ◌<◌, ◌≡◌, ◌≢◌, refl, sym, not, ◌&&◌, ap, ◌∙◌, inl, inr, ◌⊎◌, Bool, true,
  false, Option, some, none, OfSome, subst, arith, ltb, leb, ◌==◌, if◌then◌else◌, Bytes, length,
  get_elem?, get_elem?-set_self, get_elem?-set_ne, Bool-cases, ℤ, pos, minus_one, ◌-ℤ◌, ltb_ℤ,
  length-set, to_int,
}
use libpagekite.Base.Bits.{bit, bit-le_one}
use libpagekite.Proto.Format.{pk_format_eof, pk_format_skb}
use libpagekite.Conn.{Conn, Wrote, conn_report_increment}
use libpagekite.Send.{pkc_write, pkc_report_progress}
use libpagekite.Send.Descriptor.{pkc_flush-sockfd, pkc_write-sockfd}
use libpagekite.Streams.{BackendConn, pkm_free_be_conn}
use libpagekite.Streams.Find.{get_elem?-lt}
use libpagekite.Streams.Io.{
  pkm_flow_control_conn, dst_blocked, set_status, has_status, clear_status, read_side, write_side,
  eof_bits, count_flows, Loop, send_eof, finish_stream, stream_sides, update_stream,
}
use libpagekite.Streams.Io.Status.{bit-set_status, bit-clear_status}
use libpagekite.Streams.Io.Sides.{
  read_side-ReadDone, write_side-WriteDone, closes_read, closes_write, SameBits, closes_read-same,
  closes_write-same,
}

-- The other end knows what is closed: a direction that is closed for reading has ended and the other
-- way round, one that is closed for writing has ended, and one that has ended for writing is closed
-- unless something is still to be written.
pub record IsSettled (c : Conn) : Type 0 where
  pub read : bit 0 c.status ≡ bit 4 c.status
  pub write : bit 5 c.status ≤ bit 1 c.status
  pub drained : bit 1 c.status ≤ bit 5 c.status + bit 9 c.status + length c.out_buffer

-- The k-th stream was freed, and its socket closed; or it is settled.
pub record IsFreed (before : ℤ) (after : ℤ) (pkb : BackendConn) (flows : ℕ) : Type 0 where
  pub status : pkb.conn.status ≡ 0
  pub sockfd : pkb.conn.sockfd ≡ minus_one
  pub no_flow : flows ≡ 0
  pub counted : after ≡ before -ℤ pos 1

pub record IsAlive (c : Conn) (pkb : BackendConn) (flows : ℕ) : Type 0 where
  pub settled : IsSettled pkb.conn
  pub sockfd : pkb.conn.sockfd ≡ c.sockfd
  pub open_flows : flows + bit 4 pkb.conn.status + bit 5 pkb.conn.status ≡ 2
  pub some_flow : 0 < flows
  pub ended : (bit 0 c.status ≤ bit 0 pkb.conn.status) × (bit 1 c.status ≤ bit 1 pkb.conn.status)

module _ {W : Type 0} where
  -- What became of the k-th stream, which was `pkb`.
  pub record Updated (k : ℕ) (pkb : BackendConn) (s : Loop W) (r : Loop W × ℕ) : Type 0 where
    pub stream : BackendConn
    pub place : get_elem? r.0.be_conns k ≡ some stream
    pub names : (stream.sid ≡ pkb.sid) × (stream.tunnel ≡ pkb.tunnel)
    pub life :
        ((closes_read pkb.conn && closes_write pkb.conn) ≡ true)
          × IsFreed s.live_streams r.0.live_streams stream r.1
        ⊎ (((closes_read pkb.conn && closes_write pkb.conn) ≡ false) × IsAlive pkb.conn stream r.1)
    pub others : (j : ℕ) → k ≢ j → get_elem? r.0.be_conns j ≡ get_elem? s.be_conns j
    pub size : length r.0.be_conns ≡ length s.be_conns
    pub tunnel_fd : r.0.fe_conn.sockfd ≡ s.fe_conn.sockfd

pkm_flow_control_conn-SameBits :
    (blocked : Bool) (c : Conn) → SameBits c (pkm_flow_control_conn blocked c)
unfolding pkm_flow_control_conn
pkm_flow_control_conn-SameBits blocked c = elim (Bool-cases (has_status dst_blocked c)) [
  | inl was ↦ rw was (cleared blocked)
  | inr was_not ↦ rw was_not (was_set blocked)
]
  where
    cleared : (b : Bool) → SameBits c (if b then c else clear_status dst_blocked c)
    cleared true = (refl, refl, λ k _. refl)
    cleared false = (refl, refl, λ k ne. bit-clear_status k 2 c ∙ rw ne refl)

    was_set : (b : Bool) → SameBits c (if b then set_status dst_blocked c else c)
    was_set true = (refl, refl, λ k ne. bit-set_status k 2 c ∙ rw ne refl)
    was_set false = (refl, refl, λ k _. refl)

-- Both directions of a connection, in the order of the code.
record BothSides (c c' : Conn) (flows : ℕ) : Type 0 where
  settled : IsSettled c'
  sockfd : c'.sockfd ≡ c.sockfd
  open_flows : flows + bit 4 c'.status + bit 5 c'.status ≡ 2
  ended : (bit 0 c.status ≤ bit 0 c'.status) × (bit 1 c.status ≤ bit 1 c'.status)
  closes : (flows == 0) ≡ (closes_read c && closes_write c)

both_sides :
    (c : Conn)
    → let r = read_side false c in
      let w = write_side r.conn in BothSides c w.conn (count_flows r.flows w.flows)
both_sides c =
    let r = read_side false c in
    let w = write_side r.conn in
    let rd = read_side-ReadDone c in
    let wd = write_side-WriteDone r.conn in
    record {
      settled = record {
        read = omega (arith, rd.closed, wd.kept);
        write = wd.closed;
        drained = wd.drained;
      };
      sockfd = wd.same ∙ rd.same.0;
      open_flows = ground (
        arith,
        rd.open',
        wd.still,
        wd.kept.1,
        bit-le_one 4 w.conn.status,
        bit-le_one 5 w.conn.status,
      );
      ended = (
        ground (arith, rd.ended, wd.kept.0, bit-le_one 0 c.status),
        ground (arith, wd.ended, rd.kept.0, bit-le_one 1 c.status),
      );
      closes =
          rw (rd.shuts, wd.shuts, closes_write-same c r.conn rd.same.1 rd.kept.0 rd.kept.1 rd.want)
            (none_open (closes_read c) (closes_write c));
    }
  where
    none_open : (a b : Bool) → (count_flows (not a) (not b) == 0) ≡ (a && b)
    none_open true true = refl
    none_open true false = refl
    none_open false true = refl
    none_open false false = refl

module _ {W : Type 0} (write : W → Bytes → W × Wrote) (rounds : ℕ) where
  finish_stream-Updated :
      (k : ℕ) (pkb : BackendConn) (c c' : Conn) (flows : ℕ) (s s1 : Loop W)
      → get_elem? s.be_conns k ≡ some pkb
      → s1.be_conns ≡ s.be_conns
      → s1.live_streams ≡ s.live_streams
      → s1.fe_conn.sockfd ≡ s.fe_conn.sockfd
      → SameBits pkb.conn c
      → BothSides c c' flows
      → Updated k pkb s (finish_stream write rounds k (record pkb { conn = c' }) flows s1, flows)
  unfolding finish_stream pkm_free_be_conn
  finish_stream-Updated k pkb c c' flows s s1 place same live tunnel_fd (fd, buffer, bits) b =
      let lt : k < length s1.be_conns = rw same (get_elem?-lt s.be_conns k place) in
      let as_before : (closes_read c && closes_write c)
          ≡ (closes_read pkb.conn && closes_write pkb.conn) =
        λ i.
          closes_read-same pkb.conn c (bits 0 refl) (bits 4 refl) i
          && closes_write-same pkb.conn c buffer (bits 1 refl) (bits 5 refl) (bits 9 refl) i in
      let shut : (flows == 0) ≡ (closes_read pkb.conn && closes_write pkb.conn) =
        b.closes ∙ as_before in
      elim (Bool-cases (flows == 0)) [
        | inl over ↦ rw over (record {
          stream = _;
          place = get_elem?-set_self s1.be_conns k _ lt;
          names = (refl, refl);
          life = inl (
            sym shut ∙ over,
            record {
              status = refl;
              sockfd = refl;
              no_flow = ground arith;
              counted = ap (λ n. n -ℤ pos 1) live;
            },
          );
          others = λ j ne. get_elem?-set_ne s1.be_conns _ ne ∙ ap (λ l. get_elem? l j) same;
          size = length-set s1.be_conns k _ ∙ ap (length {0}) same;
          tunnel_fd = tunnel_fd;
        })
        | inr open_ ↦ rw open_ (record {
          stream = _;
          place = get_elem?-set_self s1.be_conns k _ lt;
          names = (refl, refl);
          life = inr (
            sym shut ∙ open_,
            record {
              settled = b.settled;
              sockfd = b.sockfd ∙ fd;
              open_flows = b.open_flows;
              some_flow = ground arith;
              ended = (omega (arith, b.ended, bits 0 refl), omega (arith, b.ended, bits 1 refl));
            },
          );
          others = λ j ne. get_elem?-set_ne s1.be_conns _ ne ∙ ap (λ l. get_elem? l j) same;
          size = length-set s1.be_conns k _ ∙ ap (length {0}) same;
          tunnel_fd = tunnel_fd;
        })
      ]

  -- pkc_write() returns.
  abbrev pub WritesReturn : Type 0
  WritesReturn =
      (bytes : Bytes) (w : W) (c : Conn)
      → (r : W × Conn × Option ℕ) × (pkc_write write rounds bytes w c ≡ some r)

  -- A step that gives a result, with a property.
  abbrev pub Does : {A : Type 0} → (A → Type 0) → Option A → Type 0
  Does {A} P o = (a : A) × (o ≡ some a) × P a

  write-sockfd :
      (bytes : Bytes) (w : W) (c : Conn) {r : W × Conn × Option ℕ}
      → pkc_write write rounds bytes w c ≡ some r
      → r.1.sockfd ≡ c.sockfd
  write-sockfd bytes w c e =
      subst (OfSome (λ r. r.1.sockfd ≡ c.sockfd)) e (pkc_write-sockfd write rounds bytes w c)

  module _ (returns : WritesReturn) where
    send_eof-Returns :
        (sid : Bytes) (eof : ℕ) (w : W) (fe : Conn)
        → (r : W × Conn) × (send_eof write rounds sid eof w fe ≡ some r) × (r.1.sockfd ≡ fe.sockfd)
    unfolding send_eof
    send_eof-Returns sid eof w fe =
        let (r, e) = returns (pk_format_eof (some sid) eof) w fe in
        rw e (_, refl, pkc_flush-sockfd write none true r.0 r.1 ∙ write-sockfd _ w fe e)

    stream_sides-Updated :
        (k : ℕ) (pkb : BackendConn) (c : Conn) (s s1 : Loop W)
        → get_elem? s.be_conns k ≡ some pkb
        → s1.be_conns ≡ s.be_conns
        → s1.live_streams ≡ s.live_streams
        → s1.fe_conn.sockfd ≡ s.fe_conn.sockfd
        → SameBits pkb.conn c
        → Does (Updated k pkb s) (stream_sides write rounds k (record pkb { conn = c }) s1)
    unfolding stream_sides
    stream_sides-Updated k pkb c s s1 place same live tunnel_fd (fd, buffer, bits) =
        let blocked = ltb (c.sent_kb + c.send_window_kb) c.read_kb in
        let c' = pkm_flow_control_conn blocked c in
        let (fd', buffer', bits') = pkm_flow_control_conn-SameBits blocked c in
        let r = read_side false c' in
        let w = write_side r.conn in
        let eof = eof_bits r.eof w.eof in
        let ((w1, fe), e, fe_fd) = send_eof-Returns pkb.sid eof s1.world s1.fe_conn in
        let flags : SameBits pkb.conn c' =
          (fd' ∙ fd, buffer' ∙ buffer, λ k ne. bits' k ne ∙ bits k ne) in
        elim (Bool-cases (eof == 0)) [
          | inl no_eof ↦ rw no_eof (
            _,
            refl,
            finish_stream-Updated k pkb c' w.conn (count_flows r.flows w.flows) s _ place same live
                tunnel_fd flags (both_sides c'),
          )
          | inr some_eof ↦
              rw (some_eof, e)
                (
                  _,
                  refl,
                  finish_stream-Updated k pkb c' w.conn (count_flows r.flows w.flows) s _ place same
                      live (fe_fd ∙ tunnel_fd) flags (both_sides c'),
                )
        ]

    report-Does :
        (sid : Option Bytes) (w : W) (fe pkc : Conn)
        → Does {A = W × Conn × Conn}
            (λ r.
              (r.2.status ≡ pkc.status)
              × (r.2.sockfd ≡ pkc.sockfd)
              × (r.2.out_buffer ≡ pkc.out_buffer)
              × (r.1.sockfd ≡ fe.sockfd))
            (pkc_report_progress write rounds sid w fe pkc)
    unfolding pkc_report_progress
    report-Does sid w fe pkc =
        elim (Bool-cases (leb (conn_report_increment * 1024) pkc.wrote_bytes)) [
          | inr few ↦ rw few (_, refl, (refl, refl, refl, refl))
          | inl enough ↦
              let kb = pkc.reported_kb + pkc.wrote_bytes / 1024 in
              let (r, e) = returns (pk_format_skb sid (to_int (pos kb))) w fe in
              rw (enough, e) (_, refl, (refl, refl, refl, write-sockfd _ w fe e))
        ]

    -- If pkc_write() returns, pkm_update_io() for a stream with a live socket returns. It frees the stream
    -- if reading is closed or has ended, and writing is closed, or has ended with nothing left to write;
    -- else it leaves it settled, with the socket that it had and with no direction opened again. The
    -- other streams are not touched.
    pub update_stream-Updated :
        (recursion k : ℕ) (pkb : BackendConn) (s : Loop W)
        → recursion ≤ 2
        → get_elem? s.be_conns k ≡ some pkb
        → ltb_ℤ (pos 0) pkb.conn.sockfd ≡ true
        → Does (Updated k pkb s) (update_stream write rounds recursion k s)
    unfolding update_stream
    update_stream-Updated recursion k pkb s le place live_fd =
        let shallow : ltb 3 (recursion + 1) ≡ false = ground arith in
        let ((w, fe, c), e, (status, fd, buffer, fe_fd)) =
          report-Does (some pkb.sid) s.world s.fe_conn pkb.conn in
        rw (shallow, place, live_fd, e)
          (stream_sides-Updated k pkb c s (record s { world = w; fe_conn = fe }) place refl refl
            fe_fd (fd, buffer, λ k _. ap (bit k) status))
