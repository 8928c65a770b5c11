-- ===== src/Manager/Flow.antt =====
-- libpagekite/pkmanager.c: the sending window of a backend's connection, as pkm_chunk_cb() changes it by
-- what a chunk reports, and pkm_flow_control_tunnel() when the tunnel blocks.
pub mod Window
use libpagekite.Base.{
  ℕ, suc, ◌+◌, ◌-◌, ◌/◌, ◌%◌, ◌^◌, Bool, true, false, ltb, leb, ◌==◌, if◌then◌else◌, ℤ, pos, negsuc,
  ◌+ℤ◌, ◌-ℤ◌, ltb_ℤ, to_int, pos_part,
}
use libpagekite.Conn.{Conn, conn_window_size_kb_initial}

abbrev pub conn_window_size_kb_maximum : ℕ
conn_window_size_kb_maximum = 384

abbrev pub conn_window_size_kb_minimum : ℕ
conn_window_size_kb_minimum = 4

-- A conversion to size_t.
unfoldable pub to_size : ℤ → ℕ
to_size (pos n) = n % 2 ^ 64
to_size (negsuc n) = 2 ^ 64 - 1 - n % 2 ^ 64

-- The quotient of an int, towards 0.
unfoldable pub quotient : ℤ → ℕ → ℤ
quotient (pos n) d = pos (n / d)
quotient (negsuc n) d = pos 0 -ℤ pos (suc n / d)

-- send_window_kb -= (1 + send_window_kb / part)
unfoldable pub reduced : ℕ → ℕ → ℕ
unfolding to_size
reduced part w = to_size (pos w -ℤ pos (1 + w / part))

unfoldable pub throttled : ℤ → Conn → Conn
throttled spd c =
    if ltb_ℤ (pos 0) spd then (record c { send_window_kb = reduced 5 c.send_window_kb }) else c

-- The window from the data that is under way.
unfoldable pub measured : ℕ → ℕ → ℕ
unfolding to_size quotient
measured read_kb sent_kb =
    let window_kb = to_int (pos (to_size (pos read_kb -ℤ pos sent_kb))) in
    to_size (window_kb +ℤ quotient window_kb 8)

unfoldable pub reported : ℤ → Conn → Conn
unfolding to_size
reported kb c =
    let sent_kb = to_size kb in
    let w =
      if c.send_window_kb == conn_window_size_kb_initial
      then measured c.read_kb sent_kb
      else to_size (pos (c.send_window_kb + 1)) in
    if ltb_ℤ (pos 0) kb then (record c { sent_kb = sent_kb; send_window_kb = w }) else c

unfoldable pub clamped : Conn → Conn
clamped c =
    let w = c.send_window_kb in
    record c {
      send_window_kb =
          if ltb conn_window_size_kb_maximum w
          then conn_window_size_kb_maximum
          else if ltb w conn_window_size_kb_minimum
          then conn_window_size_kb_minimum
          else w;
    }

-- The flow control part of pkm_chunk_cb(), on a chunk's throttle_spd and remote_sent_kb.
unfoldable pub chunk_window : ℤ → ℤ → Conn → Conn
chunk_window spd kb c = clamped (reported kb (throttled spd c))

-- The part of pkm_flow_control_tunnel() for a connection that the tunnel has just blocked.
unfoldable pub tunnel_blocked : Conn → Conn
tunnel_blocked c =
    let w = reduced 3 c.send_window_kb in
    record c {
      send_window_kb = if ltb w conn_window_size_kb_minimum then conn_window_size_kb_minimum else w;
    }
