-- ===== src/Streams/Io.antt =====
-- libpagekite/pkmanager.c: pkm_update_io(), pkm_flow_control_tunnel() and pkm_flow_control_conn(), in a
-- build without OpenSSL. pkm_update_io() is two functions here: update_stream() where `pkb` is not NULL,
-- and pkm_update_io() itself on a tunnel. What they ask of libev and of the sockets is a list of actions.
-- No other thread works on the table while the event loop yields, which it does at the end.
pub mod Status
pub mod Sides
pub mod Update
pub mod Shutdown
use Prim.Native.Nat.{bit_and}
use libpagekite.Base.{
  ℕ, zero, suc, ◌+◌, ◌-◌, ◌^◌, Bool, true, false, not, ◌&&◌, ◌||◌, List, [], ◌∷◌, ◌++◌, Option,
  none, some, ltb, ◌==◌, if◌then◌else◌, ◌>>=◌, Bytes, length, get_elem?, set, ℤ, pos, minus_one,
  ◌-ℤ◌, ltb_ℤ,
}
use libpagekite.Proto.Format.{pk_format_eof}
use libpagekite.Conn.{Conn, Wrote, set_status, pkc_reset_conn}
use libpagekite.Send.{pkc_flush, pkc_write, pkc_report_progress}
use libpagekite.Manager.Flow.{tunnel_blocked}
use libpagekite.Streams.{
  BackendConn, has_status, same_tunnel, pkm_free_be_conn, conn_status_allocated,
}

abbrev pub end_read : ℕ
end_read = 2 ^ 0

abbrev pub end_write : ℕ
end_write = 2 ^ 1

abbrev pub dst_blocked : ℕ
dst_blocked = 2 ^ 2

abbrev pub tnl_blocked : ℕ
tnl_blocked = 2 ^ 3

abbrev pub cls_read : ℕ
cls_read = 2 ^ 4

abbrev pub cls_write : ℕ
cls_write = 2 ^ 5

abbrev pub want_read : ℕ
want_read = 2 ^ 8

abbrev pub want_write : ℕ
want_write = 2 ^ 9

abbrev pub clear_status : ℕ → Conn → Conn
clear_status mask c = record c { status = c.status - bit_and c.status mask }

abbrev pub pk_status_problems : ℕ
pk_status_problems = 50

-- What is asked of libev and of the operating system, for a descriptor.
pub data Action : Type 0 where
  start_read stop_read start_write stop_write shutdown_read shutdown_write close : ℤ → Action
  tick : Action

-- flow_op
pub data FlowOp : Type 0 where
  flow_op_none conn_tunnel_blocked conn_tunnel_unblocked : FlowOp

-- pkm_flow_control_conn(), where `blocked` tells CONN_DEST_BLOCKED from CONN_DEST_UNBLOCKED.
unfoldable pub pkm_flow_control_conn : Bool → Conn → Conn
pkm_flow_control_conn blocked c =
    if has_status dst_blocked c
    then (if blocked then c else clear_status dst_blocked c)
    else if blocked
    then set_status dst_blocked c
    else c

-- What a direction comes to: the connection, if an EOF is to be sent, if the direction is still open,
-- the actions, and what a tunnel does about it.
pub record Side : Type 0 where
  pub conn : Conn
  pub eof : Bool
  pub flows : Bool
  pub actions : List Action
  pub op : FlowOp

unfoldable pub read_side : Bool → Conn → Side
read_side is_tunnel c =
    let closing = set_status cls_read (set_status end_read c) in
    if has_status cls_read c || has_status end_read c
    then (record {
      conn = if is_tunnel then set_status cls_write closing else closing;
      eof = not (has_status end_read c);
      flows = false;
      actions = stop_read c.sockfd ∷ shutdown_read c.sockfd ∷ [];
      op = flow_op_none;
    })
    else if (has_status tnl_blocked c || has_status dst_blocked c) && not (has_status want_read c)
    then (record {
      conn = c;
      eof = false;
      flows = true;
      actions = stop_read c.sockfd ∷ [];
      op = flow_op_none;
    })
    else (record {
      conn = c;
      eof = false;
      flows = true;
      actions = start_read c.sockfd ∷ [];
      op = flow_op_none;
    })

unfoldable pub write_side : Conn → Side
write_side c =
    if has_status cls_write c
    then (record {
      conn = record (set_status cls_write (set_status end_write c)) { out_buffer = [] };
      eof = not (has_status end_write c);
      flows = false;
      actions = shutdown_write c.sockfd ∷ stop_write c.sockfd ∷ [];
      op = flow_op_none;
    })
    else if ltb 0 (length c.out_buffer) || has_status want_write c
    then (record {
      conn = c;
      eof = false;
      flows = true;
      actions = start_write c.sockfd ∷ [];
      op = conn_tunnel_blocked;
    })
    else if has_status end_write c
    then (record {
      conn = set_status cls_write c;
      eof = false;
      flows = false;
      actions = shutdown_write c.sockfd ∷ stop_write c.sockfd ∷ [];
      op = flow_op_none;
    })
    else (record {
      conn = c;
      eof = false;
      flows = true;
      actions = stop_write c.sockfd ∷ [];
      op = conn_tunnel_unblocked;
    })

-- The PK_EOF bits.
abbrev pub eof_bits : Bool → Bool → ℕ
eof_bits r w = (if r then 1 else 0) + (if w then 2 else 0)

abbrev pub count_flows : Bool → Bool → ℕ
count_flows r w = (if r then 1 else 0) + (if w then 1 else 0)

-- What the functions work on: the tunnel's connection, the streams, and counters of pk_state and of the
-- manager.
pub record Loop (W : Type 0) : Type 0 where
  pub world : W
  pub fe_conn : Conn
  pub request_count : ℕ
  pub be_conns : List BackendConn
  pub live_streams : ℤ
  pub live_tunnels : ℤ
  pub status : ℕ
  pub next_tick : ℕ
  pub actions : List Action

abbrev pub put_stream : {W : Type 0} → ℕ → BackendConn → Loop W → Loop W
put_stream k pkb s = record s { be_conns = set s.be_conns k pkb }

module _ {W : Type 0} (write : W → Bytes → W × Wrote) (rounds : ℕ) where
  -- "forcibly send EOF over tunnel"
  unfoldable pub send_eof : Bytes → ℕ → W → Conn → Option (W × Conn)
  send_eof sid eof w fe = do
    (w1, fe1, _) ← pkc_write write rounds (pk_format_eof (some sid) eof) w fe
    let (w2, fe2, _) = pkc_flush write none true w1 fe1
    some (w2, fe2)

  -- The end of pkm_update_io() for a stream whose directions are closed, or not.
  unfoldable pub finish_stream : ℕ → BackendConn → ℕ → Loop W → Loop W
  finish_stream k pkb flows s =
      let freed = pkm_free_be_conn pkb in
      let gone = record freed { conn = record freed.conn { sockfd = minus_one } } in
      if flows == 0
      then (record (put_stream k gone s) {
        live_streams = s.live_streams -ℤ pos 1;
        actions = s.actions ++ close pkb.conn.sockfd ∷ [];
      })
      else put_stream k pkb s

  -- The part of pkm_update_io() between the progress report and the end, for the k-th stream.
  unfoldable pub stream_sides : ℕ → BackendConn → Loop W → Option (Loop W × ℕ)
  unfolding read_side write_side pkm_flow_control_conn
  stream_sides k pkb s =
      let c = pkb.conn in
      let c' = pkm_flow_control_conn (ltb (c.sent_kb + c.send_window_kb) c.read_kb) c in
      let r = read_side false c' in
      let w = write_side r.conn in
      let eof = eof_bits r.eof w.eof in
      let flows = count_flows r.flows w.flows in
      let pkb' = record pkb { conn = w.conn } in
      let s' = record s { actions = s.actions ++ r.actions ++ w.actions } in
      let sent = send_eof pkb.sid eof s.world s.fe_conn in
      if eof == 0 then some (finish_stream k pkb' flows s', flows) else elim sent [
        | none ↦ none
        | some (w1, fe) ↦
            some (finish_stream k pkb' flows (record s' { world = w1; fe_conn = fe }), flows)
      ]

  -- pkm_update_io() for the k-th stream, which is one of the tunnel's.
  unfoldable pub update_stream : ℕ → ℕ → Loop W → Option (Loop W × ℕ)
  update_stream recursion k s =
      if ltb 3 (recursion + 1) then some (s, 0) else elim (get_elem? s.be_conns k) [
        | none ↦ some (s, 0)
        | some pkb ↦
            if ltb_ℤ (pos 0) pkb.conn.sockfd
            then (do
              (w, fe, c) ←
                  pkc_report_progress write rounds (some pkb.sid) s.world s.fe_conn pkb.conn
              stream_sides k (record pkb { conn = c }) (record s { world = w; fe_conn = fe }))
            else some (s, 0)
      ]

  -- "Other end": the loop that closes the streams of a tunnel; `left` slots from the k-th on.
  unfoldable pub end_streams : ℕ → ℕ → ℕ → ℕ → Loop W → Option (Loop W)
  end_streams recursion fe zero k s = some s
  end_streams recursion fe (suc left) k s = elim (get_elem? s.be_conns k) [
    | none ↦ some s
    | some pkb ↦
        let ended = record pkb { conn = set_status end_write (set_status end_read pkb.conn) } in
        if same_tunnel pkb.tunnel (some fe) && not (pkb.conn.status == 0)
        then (do
          (s1, _) ← update_stream recursion k (put_stream k ended s)
          end_streams recursion fe left (suc k) s1)
        else end_streams recursion fe left (suc k) s
  ]

  -- The change of a stream's status and window in pkm_flow_control_tunnel(), and if there is one.
  unfoldable pub flow_stream : FlowOp → Conn → Conn × Bool
  flow_stream conn_tunnel_blocked c =
      if has_status tnl_blocked c
      then (c, false)
      else (tunnel_blocked (set_status tnl_blocked c), true)
  flow_stream conn_tunnel_unblocked c =
      if has_status tnl_blocked c then (clear_status tnl_blocked c, true) else (c, false)
  flow_stream flow_op_none c = (c, false)

  -- pkm_flow_control_tunnel(): `left` slots from the k-th on.
  unfoldable pub flow_streams : ℕ → ℕ → FlowOp → ℕ → ℕ → Loop W → Option (Loop W)
  unfolding flow_stream
  flow_streams recursion fe op zero k s = some s
  flow_streams recursion fe op (suc left) k s = elim (get_elem? s.be_conns k) [
    | none ↦ some s
    | some pkb ↦
        let (c, changed) = flow_stream op pkb.conn in
        let mine = same_tunnel pkb.tunnel (some fe) && not (ltb_ℤ pkb.conn.sockfd (pos 0)) in
        if mine && changed
        then (do
          (s1, _) ← update_stream recursion k (put_stream k (record pkb { conn = c }) s)
          flow_streams recursion fe op left (suc k) s1)
        else flow_streams recursion fe op left (suc k) s
  ]

  unfoldable pub pkm_flow_control_tunnel : ℕ → ℕ → FlowOp → Loop W → Option (Loop W)
  pkm_flow_control_tunnel recursion fe op s = flow_streams recursion fe op (length s.be_conns) 0 s

  -- "close and clean up" for a tunnel: it is closed here, and pkc_reset_conn() closes it again.
  unfoldable pub finish_tunnel : ℕ → ℕ → Loop W → Loop W
  finish_tunnel now housekeeping_interval_min s =
      let fd = s.fe_conn.sockfd in
      let (reset, again) = pkc_reset_conn now conn_status_allocated s.fe_conn in
      let left = s.live_tunnels -ℤ pos 1 in
      let again' : List Action = elim again [ none ↦ [] | some fd' ↦ close fd' ∷ [] ] in
      record s {
        fe_conn = reset;
        request_count = 0;
        live_tunnels = left;
        status = pk_status_problems;
        next_tick = if ltb_ℤ left (pos 1) then 1 + housekeeping_interval_min else s.next_tick;
        actions = s.actions ++ close fd ∷ (again' ++ tick ∷ []);
      }

  -- The end of pkm_update_io() for a tunnel: it is cleaned up, or its streams are told.
  unfoldable pub finish_update : ℕ → ℕ → ℕ → ℕ → FlowOp → ℕ → Loop W → Option (Loop W × ℕ)
  unfolding finish_tunnel
  finish_update now interval recursion fe op zero s = some (finish_tunnel now interval s, 0)
  finish_update now interval recursion fe flow_op_none (suc n) s = some (s, suc n)
  finish_update now interval recursion fe conn_tunnel_blocked (suc n) s = do
    s' ← pkm_flow_control_tunnel recursion fe conn_tunnel_blocked s
    some (s', suc n)
  finish_update now interval recursion fe conn_tunnel_unblocked (suc n) s = do
    s' ← pkm_flow_control_tunnel recursion fe conn_tunnel_unblocked s
    some (s', suc n)

  -- pkm_update_io() for the tunnel `fe` itself.
  unfoldable pub pkm_update_io : ℕ → ℕ → ℕ → ℕ → Loop W → Option (Loop W × ℕ)
  unfolding read_side write_side end_streams
  pkm_update_io now interval recursion fe s =
      let r = read_side true s.fe_conn in
      let w = write_side r.conn in
      let flows = count_flows r.flows w.flows in
      let s1 = record s { fe_conn = w.conn; actions = s.actions ++ r.actions ++ w.actions } in
      let eof = r.eof || w.eof in
      let ended =
        if eof then end_streams (recursion + 1) fe (length s.be_conns) 0 s1 else some s1 in
      let op = if eof then flow_op_none else w.op in
      if ltb 3 (recursion + 1) || not (ltb_ℤ (pos 0) s.fe_conn.sockfd)
      then some (s, 0)
      else ended >>= finish_update now interval (recursion + 1) fe op flows
