-- ===== src/Tunnels/Disconnect.antt =====
-- libpagekite/pkmanager.c: pkm_disconnect_unused(). Closing a socket and stopping its watchers are
-- calls of other libraries: what is left of them here is that sockfd is -1.
pub mod Laws
use libpagekite.Base.{
  ℕ, suc, ◌+◌, ◌*◌, Bool, true, false, not, ◌&&◌, ◌||◌, List, [], ◌∷◌, any, Option, none, some, leb,
  ◌==◌, if◌then◌else◌, ℤ, pos, minus_one, ◌-ℤ◌, ltb_ℤ, to_int,
}
use libpagekite.Tunnels.{Tunnel, is_set}

-- What the loop reads of a stream: its socket and its tunnel's index.
pub record Stream : Type 0 where
  pub sockfd : ℤ
  pub tunnel : ℕ

-- "Check if there are any live streams"
unfoldable pub is_busy : List Stream → ℕ → Bool
is_busy streams i = any (λ (s : Stream). ltb_ℤ (pos 0) s.sockfd && s.tunnel == i) streams

-- What makes the loop count a tunnel as live.
unfoldable pub is_live : Tunnel → Bool
is_live fe = is_set fe.fe_hostname && (not fe.changing && ltb_ℤ (pos 0) fe.sockfd)

-- Not wanted, and pinged in the window: nothing else went over it.
unfoldable pub is_idle : ℤ → Tunnel → Bool
is_idle ping_window fe = not (fe.wanted || fe.in_dns) && not (ltb_ℤ (pos fe.last_ping) ping_window)

-- The counters of one pass.
pub record Counts : Type 0 where
  pub live : ℕ
  pub disconnect : ℕ
  pub disconnected : ℕ

abbrev pub no_counts : Counts
no_counts = record { live = 0; disconnect = 0; disconnected = 0 }

-- pkc_reset_conn(), and of the status only the bits for front-ends.
unfoldable pub closed : ℕ → Tunnel → Tunnel
closed now fe = record fe {
  sockfd = minus_one;
  activity = now;
  changing = false;
  broken = false;
  request_count = 0;
}

-- The body of the loop. The second test for changes in flight never holds.
unfoldable pub visit : Bool → Bool → ℤ → ℕ → Counts → Tunnel → Counts × Tunnel
unfolding is_live is_idle closed
visit second busy ping_window now c fe =
    let c' = record c { live = c.live + 1 } in
    let disconnect = if busy then c.disconnect else c.disconnect + 1 in
    if is_live fe
    then (if is_idle ping_window fe
        then (if second && not (disconnect == 0)
            then (record c' { disconnect = 0; disconnected = c.disconnected + 1 }, closed now fe)
            else (record c' { disconnect = disconnect }, fe))
        else (c', fe))
    else (c, fe)

-- One pass over the tunnels from the i-th on.
unfoldable pub walk : Bool → List Stream → ℤ → ℕ → ℕ → Counts → List Tunnel → Counts × List Tunnel
unfolding visit is_busy
walk second streams ping_window now i c [] = (c, [])
walk second streams ping_window now i c (fe ∷ fes) =
    let (c1, fe') = visit second (is_busy streams i) ping_window now c fe in
    let (c2, fes') = walk second streams ping_window now (suc i) c1 fes in (c2, fe' ∷ fes')

-- The tunnels, pk_state.live_tunnels, and the result.
pub record Outcome : Type 0 where
  pub tunnels : List Tunnel
  pub live_tunnels : ℤ
  pub disconnected : ℕ

-- "If we're about to go disconnecting all our live tunnels, abort."
unfoldable pub pkm_disconnect_unused : ℕ → ℕ → List Stream → List Tunnel → Outcome
unfolding walk
pkm_disconnect_unused now housekeeping_interval_min streams fes =
    let ping_window = to_int (pos now -ℤ pos (4 * housekeeping_interval_min)) in
    let (c1, fes1) = walk false streams ping_window now 0 no_counts fes in
    let (c2, fes2) = walk true streams ping_window now 0 no_counts fes1 in
    if leb c1.live c1.disconnect
    then (record {
      tunnels = fes1;
      live_tunnels = pos c1.live -ℤ pos c1.disconnected;
      disconnected = c1.disconnected;
    })
    else (record {
      tunnels = fes2;
      live_tunnels = pos c2.live -ℤ pos c2.disconnected;
      disconnected = c2.disconnected;
    })
