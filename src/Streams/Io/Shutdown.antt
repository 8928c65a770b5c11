-- ===== src/Streams/Io/Shutdown.antt =====
-- pkm_update_io() for a tunnel that cannot be read any more (libpagekite/pkmanager.c).
use libpagekite.Base.{
  ℕ, zero, suc, ◌+◌, ◌≤◌, ◌<◌, ◌≡◌, ◌≢◌, refl, sym, ap, subst, ◌∙◌, inl, inr, ◌⊎◌, true, false, not,
  ◌&&◌, ◌||◌, some, arith, ltb, ◌==◌, Bytes, length, get_elem?, get_elem?-set_self,
  get_elem?-set_ne, length-set, Bool-cases, some_inj, ℤ, pos, negsuc, minus_one, ltb_ℤ, dec_lt,
  List, [], ◌∷◌, ◌++◌,
}
use libpagekite.Base.Bits.{bit, bit-le_one}
use libpagekite.Conn.{Conn, Wrote, set_status, pkc_reset_conn}
use libpagekite.Streams.{BackendConn, has_status, same_tunnel}
use libpagekite.Streams.Find.{get_elem?-lt, get_elem?-some}
use libpagekite.Streams.Io.{
  end_read, end_write, cls_read, cls_write, Action, tick, close, Loop, put_stream, update_stream,
  end_streams, pkm_update_io, finish_update, finish_tunnel, read_side, write_side, stop_read,
  shutdown_read, flow_op_none,
}
use libpagekite.Streams.Io.Sides.{write_side-WriteDone}
use libpagekite.Streams.Io.Status.{bit-set_status, has_status-bit}
use libpagekite.Streams.Io.Update.{IsFreed, IsAlive, WritesReturn, Does, update_stream-Updated}

-- The slot is free, or both directions of its connection have ended.
abbrev pub IsEnded : BackendConn → Type 0
IsEnded b = (b.conn.status ≡ 0) ⊎ ((bit 0 b.conn.status ≡ 1) × (bit 1 b.conn.status ≡ 1))

abbrev ended : BackendConn → BackendConn
ended pkb = record pkb { conn = set_status end_write (set_status end_read pkb.conn) }

ended-bits :
    (pkb : BackendConn) → (bit 0 (ended pkb).conn.status ≡ 1) × (bit 1 (ended pkb).conn.status ≡ 1)
ended-bits pkb =
    let c = set_status end_read pkb.conn in
    (bit-set_status 0 1 c ∙ bit-set_status 0 0 pkb.conn, bit-set_status 1 1 c)

module _ {W : Type 0} where
  -- The k-th slot has ended, and the others are what they were.
  record EndsOne (k : ℕ) (pkb : BackendConn) (s : Loop W) (r : Loop W × ℕ) : Type 0 where
    slot : BackendConn
    place : get_elem? r.0.be_conns k ≡ some slot
    tunnel : slot.tunnel ≡ pkb.tunnel
    ended' : IsEnded slot
    others : (j : ℕ) → k ≢ j → get_elem? r.0.be_conns j ≡ get_elem? s.be_conns j
    size : length r.0.be_conns ≡ length s.be_conns
    tunnel_fd : r.0.fe_conn.sockfd ≡ s.fe_conn.sockfd

  -- All streams of the tunnel from the k-th slot on have ended; the slots below and the streams of
  -- other tunnels are what they were.
  pub record EndsFrom (fe k : ℕ) (s r : Loop W) : Type 0 where
    pub all :
        (j : ℕ) (b : BackendConn)
        → k ≤ j
        → get_elem? r.be_conns j ≡ some b
        → same_tunnel b.tunnel (some fe) ≡ true
        → IsEnded b
    pub below : (j : ℕ) → j < k → get_elem? r.be_conns j ≡ get_elem? s.be_conns j
    pub others :
        (j : ℕ) (b : BackendConn)
        → get_elem? s.be_conns j ≡ some b
        → same_tunnel b.tunnel (some fe) ≡ false
        → get_elem? r.be_conns j ≡ some b
    pub size : length r.be_conns ≡ length s.be_conns

module _ {W : Type 0} (write : W → Bytes → W × Wrote) (rounds : ℕ)
    (returns : WritesReturn write rounds) where
  end_one :
      (recursion k : ℕ) (pkb : BackendConn) (s : Loop W)
      → recursion ≤ 2
      → get_elem? s.be_conns k ≡ some pkb
      → Does write rounds
          (EndsOne k pkb s)
          (update_stream write rounds recursion k (put_stream k (ended pkb) s))
  end_one recursion k pkb s le place =
      let s1 = put_stream k (ended pkb) s in
      let at : get_elem? s1.be_conns k ≡ some (ended pkb) =
        get_elem?-set_self s.be_conns k (ended pkb) (get_elem?-lt s.be_conns k place) in
      let rest : (j : ℕ) → k ≢ j → get_elem? s1.be_conns j ≡ get_elem? s.be_conns j =
        λ j ne. get_elem?-set_ne s.be_conns (ended pkb) ne in
      let size : length s1.be_conns ≡ length s.be_conns = length-set s.be_conns k (ended pkb) in
      elim (Bool-cases (ltb_ℤ (pos 0) pkb.conn.sockfd)) [
        | inl live ↦
            let (r, e, u) =
              update_stream-Updated write rounds returns recursion k (ended pkb) s1 le at live in
            (
              r,
              e,
              record {
                slot = u.stream;
                place = u.place;
                tunnel = u.names.1;
                ended' = gone u.stream r.0.live_streams r.1 s1.live_streams u.life;
                others = λ j ne. u.others j ne ∙ rest j ne;
                size = u.size ∙ size;
                tunnel_fd = u.tunnel_fd;
              },
            )
        | inr dead ↦
            let shallow : ltb 3 (recursion + 1) ≡ false = ground arith in
            unfold update_stream in
            rw (shallow, at, dead)
              (
                (s1, 0),
                refl,
                record {
                  slot = ended pkb;
                  place = at;
                  tunnel = refl;
                  ended' = inr (ended-bits pkb);
                  others = rest;
                  size = size;
                  tunnel_fd = refl;
                },
              )
      ]
    where
      gone :
          (b : BackendConn) (after : ℤ) (flows : ℕ) (before : ℤ)
          → {P Q : Type 0}
          → P × IsFreed before after b flows ⊎ (Q × IsAlive (ended pkb).conn b flows)
          → IsEnded b
      gone b after flows before (inl (_, f)) = inl f.status
      gone b after flows before (inr (_, a)) = inr (
        omega (arith, a.ended, ended-bits pkb, bit-le_one 0 b.conn.status),
        omega (arith, a.ended, ended-bits pkb, bit-le_one 1 b.conn.status),
      )

  skipped :
      (fe k : ℕ) (pkb : BackendConn) (s r : Loop W)
      → get_elem? s.be_conns k ≡ some pkb
      → (same_tunnel pkb.tunnel (some fe) && not (pkb.conn.status == 0)) ≡ false
      → EndsFrom fe (suc k) s r
      → EndsFrom fe k s r
  skipped fe k pkb s r place not_mine rest = record {
    all = λ j b le at mine. elim (dec_lt k j) [
      | yes later ↦ rest.all j b (omega arith) at mine
      | no same ↦
          let e : j ≡ k = omega arith in
          let found : some b ≡ some pkb =
            sym at ∙ ap (λ n. get_elem? r.be_conns n) e ∙ rest.below k (omega arith) ∙ place in
          let is = some_inj found in
          let zero' : pkb.conn.status ≡ 0 = ground arith in inl (ap (λ b. b.conn.status) is ∙ zero')
    ];
    below = λ j lt. rest.below j (omega arith);
    others = rest.others;
    size = rest.size;
  }

  stepped :
      (fe k : ℕ) (pkb : BackendConn) (s r : Loop W) (s1 : Loop W × ℕ)
      → get_elem? s.be_conns k ≡ some pkb
      → same_tunnel pkb.tunnel (some fe) ≡ true
      → EndsOne k pkb s s1
      → EndsFrom fe (suc k) s1.0 r
      → EndsFrom fe k s r
  stepped fe k pkb s r s1 place mine one rest = record {
    all = λ j b le at mine'. elim (dec_lt k j) [
      | yes later ↦ rest.all j b (omega arith) at mine'
      | no same ↦
          let e : j ≡ k = omega arith in
          let found : some b ≡ some one.slot =
            sym at ∙ ap (λ n. get_elem? r.be_conns n) e ∙ rest.below k (omega arith) ∙ one.place in
          subst IsEnded (sym (some_inj found)) one.ended'
    ];
    below = λ j lt. rest.below j (omega arith) ∙ one.others j (λ e. absurd (omega arith));
    others = λ j b at other. rest.others j b (one.others j (not_here j b at other) ∙ at) other;
    size = rest.size ∙ one.size;
  }
    where
      not_here :
          (j : ℕ) (b : BackendConn)
          → get_elem? s.be_conns j ≡ some b
          → same_tunnel b.tunnel (some fe) ≡ false
          → k ≢ j
      not_here j b at other e =
          let found : some b ≡ some pkb =
            sym at ∙ ap (λ n. get_elem? s.be_conns n) (sym e) ∙ place in
          let same : same_tunnel b.tunnel (some fe) ≡ same_tunnel pkb.tunnel (some fe) =
            ap (λ b. same_tunnel b.tunnel (some fe)) (some_inj found) in
          cc

  end_streams-EndsFrom :
      (recursion fe left k : ℕ) (s : Loop W)
      → recursion ≤ 2
      → k + left ≡ length s.be_conns
      → Does write rounds
          (λ r. EndsFrom fe k s r × (r.fe_conn.sockfd ≡ s.fe_conn.sockfd))
          (end_streams write rounds recursion fe left k s)
  unfolding end_streams
  end_streams-EndsFrom recursion fe zero k s le e = (
    s,
    refl,
    (
      record {
        all = λ j b le' at _. let lt = get_elem?-lt s.be_conns j at in absurd (omega arith);
        below = λ j _. refl;
        others = λ j b at _. at;
        size = refl;
      },
      refl,
    ),
  )
  end_streams-EndsFrom recursion fe (suc left) k s le e =
      let (pkb, place) = get_elem?-some s.be_conns k (omega arith) in
      elim (Bool-cases (same_tunnel pkb.tunnel (some fe) && not (pkb.conn.status == 0))) [
        | inr not_mine ↦
            let (r, is, (rest, fd)) =
              end_streams-EndsFrom recursion fe left (suc k) s le (omega arith) in
            rw (end_streams, place, not_mine)
              (r, is, (skipped fe k pkb s r place not_mine rest, fd))
        | inl mine ↦
            let (s1, is1, one) = end_one recursion k pkb s le place in
            let (r, is, (rest, fd)) =
              end_streams-EndsFrom recursion fe left (suc k) s1.0 le (omega (arith, one.size)) in
            rw (end_streams, place, mine, is1)
              (r, is, (stepped fe k pkb s r s1 place (ground arith) one rest, fd ∙ one.tunnel_fd))
      ]

  -- The tunnel's connection, closed in both directions.
  abbrev shut_conn : Conn → Conn
  shut_conn c = set_status cls_write (set_status cls_read (set_status end_read c))

  read_side-shut :
      (c : Conn)
      → bit 4 c.status ≡ 1
      → bit 0 c.status ≡ 0
      → read_side true c ≡ record {
        conn = shut_conn c;
        eof = true;
        flows = false;
        actions = stop_read c.sockfd ∷ shutdown_read c.sockfd ∷ [];
        op = flow_op_none;
      }
  unfolding read_side
  read_side-shut c closed open_ =
      let shut : (has_status cls_read c || has_status end_read c) ≡ true =
        ground (arith, has_status-bit 4 c) in
      let told : has_status end_read c ≡ false = ground (arith, has_status-bit 0 c) in
      rw (shut, told) refl

  write_side-shut : (c : Conn) → (write_side (shut_conn c)).flows ≡ false
  unfolding write_side
  write_side-shut c =
      let no_write : has_status cls_write (shut_conn c) ≡ true = ground (
        arith,
        has_status-bit 5 (shut_conn c),
        bit-set_status 5 5 (set_status cls_read (set_status end_read c)),
      ) in
      rw no_write refl

  write_side-sockfd : (c : Conn) → (write_side c).conn.sockfd ≡ c.sockfd
  write_side-sockfd c = (write_side-WriteDone c).same

  -- What is left of a tunnel that is shut down.
  pub record ShutDown (fe : ℕ) (s : Loop W) (r : Loop W × ℕ) : Type 0 where
    pub flows : r.1 ≡ 0
    pub tunnel : (r.0.fe_conn.sockfd ≡ minus_one) × (r.0.fe_conn.out_buffer ≡ [])
    pub requests : r.0.request_count ≡ 0
    pub streams : EndsFrom fe 0 s r.0
    pub closes :
        (before : List Action) × (r.0.actions
          ≡ before ++ close s.fe_conn.sockfd ∷ close s.fe_conn.sockfd ∷ tick ∷ [])

  finish_tunnel-closes :
      (now interval : ℕ) (fd : ℤ) (s : Loop W)
      → s.fe_conn.sockfd ≡ fd
      → ltb_ℤ (pos 0) fd ≡ true
      → (finish_tunnel write rounds now interval s).actions
        ≡ s.actions ++ close fd ∷ close fd ∷ tick ∷ []
  unfolding finish_tunnel pkc_reset_conn
  finish_tunnel-closes now interval fd s same live =
      let natural : ltb_ℤ fd (pos 0) ≡ false = by_fd fd live in rw (same, natural) refl
    where
      by_fd : (fd : ℤ) → ltb_ℤ (pos 0) fd ≡ true → ltb_ℤ fd (pos 0) ≡ false
      by_fd (pos n) h = ground arith
      by_fd (negsuc n) h = cc

  -- If pkc_write() returns, then pkm_update_io() for a live tunnel whose reads have just come to an end
  -- returns. Both directions of all its streams have ended then, or they are freed, and those of other
  -- tunnels are what they were. The last three things that it does are to close the tunnel's descriptor,
  -- to close it again, and to ask for a tick of the manager; it has no descriptor then, nothing to
  -- write, and no requests.
  pub pkm_update_io-ShutDown :
      (now interval recursion fe : ℕ) (s : Loop W)
      → recursion ≤ 1
      → ltb_ℤ (pos 0) s.fe_conn.sockfd ≡ true
      → bit 4 s.fe_conn.status ≡ 1
      → bit 0 s.fe_conn.status ≡ 0
      → Does write rounds (ShutDown fe s) (pkm_update_io write rounds now interval recursion fe s)
  unfolding pkm_update_io finish_update finish_tunnel pkc_reset_conn
  pkm_update_io-ShutDown now interval recursion fe s le fd closed open_ =
      let c = s.fe_conn in
      let shallow : ltb 3 (recursion + 1) ≡ false = ground arith in
      let w = write_side (shut_conn c) in
      let acts = s.actions ++ (stop_read c.sockfd ∷ shutdown_read c.sockfd ∷ []) ++ w.actions in
      let s1 = record s { fe_conn = w.conn; actions = acts } in
      let (r, is, (rest, kept)) =
        end_streams-EndsFrom (recursion + 1) fe (length s.be_conns) 0 s1 (omega arith)
          (omega arith) in
      rw (pkm_update_io, shallow, fd, read_side-shut c closed open_, write_side-shut c, is)
        (
          _,
          refl,
          record {
            flows = refl;
            tunnel = (refl, refl);
            requests = refl;
            streams = record {
              all = rest.all;
              below = rest.below;
              others = rest.others;
              size = rest.size;
            };
            closes = (
              _,
              finish_tunnel-closes now interval c.sockfd r (kept ∙ write_side-sockfd (shut_conn c))
                  fd,
            );
          },
        )
