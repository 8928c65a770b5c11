-- ===== src/Tunnels/Refresh.antt =====
-- libpagekite/pkblocker.c: pkb_check_frontend_dns(), which looks the front-ends' host names up again, and
-- forgets the front-ends that are out of use. The clock does not move within a call, and does not reach the
-- ends of its type.
pub mod Stays
pub mod Distinct
use libpagekite.Base.{
  ℕ, zero, suc, ◌+◌, ◌*◌, Bool, true, false, not, ◌&&◌, List, [], ◌∷◌, map, get_elem?, length,
  Option, none, some, ltb, ◌==◌, if◌then◌else◌, Bytes, ℤ, pos, ltb_ℤ,
}
use libpagekite.Tunnels.{Tunnel, SockAddr, is_set}
use libpagekite.Tunnels.Frontends.{memcmp, pkm_add_frontend}

-- The state of the loop on the tunnels.
pub record FrontendCheck : Type 0 where
  pub changes : ℕ
  pub have_nulls : ℕ
  pub last_fe_hostname : Bytes
  pub tunnels : List Tunnel

-- A front-end without an address is a null record.
unfoldable pub is_null : Option Tunnel → Bool
is_null none = false
is_null (some fe) = is_set fe.fe_hostname && not (is_set fe.ai_addr)

unfoldable pub count_null : ℕ → FrontendCheck → FrontendCheck
unfolding is_null
count_null i s = record s {
  have_nulls = s.have_nulls + (if is_null (get_elem? s.tunnels i) then 1 else 0);
}

module _ (now : ℕ) (malloced : SockAddr → Bool) (getaddrinfo : Bytes → ℤ → Option (List SockAddr))
    (use_ipv4 use_ipv6 : Bool) where
  -- "Checking for new IPs", for a host name other than the last one.
  unfoldable pub check_hostname : Option Bytes → ℤ → FrontendCheck → FrontendCheck
  unfolding memcmp pkm_add_frontend
  check_hostname none port s = s
  check_hostname (some hostname) port s =
      let (added, fes) =
        pkm_add_frontend now malloced getaddrinfo use_ipv4 use_ipv6 s.tunnels hostname port 0 in
      if memcmp hostname s.last_fe_hostname == 0
      then s
      else (record s { changes = s.changes + added; last_fe_hostname = hostname; tunnels = fes })

  unfoldable pub check_tunnel : ℕ → Option Tunnel → FrontendCheck → FrontendCheck
  unfolding check_hostname count_null
  check_tunnel i none s = s
  check_tunnel i (some fe) s = count_null i (check_hostname fe.fe_hostname fe.fe_port s)

  -- The loop, with the rounds left, on the index i.
  unfoldable pub check_tunnels : ℕ → ℕ → FrontendCheck → FrontendCheck
  unfolding check_tunnel
  check_tunnels zero i s = s
  check_tunnels (suc rounds) i s =
      check_tunnels rounds (suc i) (check_tunnel i (get_elem? s.tunnels i) s)

-- The test of the second pass, with obsolete = now - window.
unfoldable pub is_obsolete : ℕ → ℕ → Tunnel → Bool
is_obsolete now window fe =
    is_set fe.fe_hostname
    && (is_set fe.ai_addr
        && (ltb (fe.last_configured + window) now
            && (ltb (fe.last_ping + window) now && ltb_ℤ fe.sockfd (pos 1))))

unfoldable pub forget_obsolete : ℕ → ℕ → Tunnel → Tunnel
unfolding is_obsolete
forget_obsolete now window fe =
    if is_obsolete now window fe
    then (record fe { fe_uuid = none; fe_hostname = none; ai_addr = none })
    else fe

-- The number of changes, and the tunnels.
unfoldable pub pkb_check_frontend_dns :
    ℕ
    → (SockAddr → Bool)
    → (Bytes → ℤ → Option (List SockAddr))
    → Bool
    → Bool
    → ℕ
    → List Tunnel
    → ℕ × List Tunnel
unfolding check_tunnels forget_obsolete
pkb_check_frontend_dns now malloced getaddrinfo use_ipv4 use_ipv6 check_world_interval fes =
    let start : FrontendCheck = record {
      changes = 0;
      have_nulls = 0;
      last_fe_hostname = [];
      tunnels = fes;
    } in
    let s = check_tunnels now malloced getaddrinfo use_ipv4 use_ipv6 (length fes) 0 start in
    if s.have_nulls == 0
    then (s.changes, s.tunnels)
    else (s.changes, map (forget_obsolete now (check_world_interval * 4)) s.tunnels)
