-- ===== src/Tunnels/Dns.antt =====
-- libpagekite/pkblocker.c: pkb_check_kites_dns() and pkb_check_frontend_dns(). The kites are given by
-- public_domain, for each slot of the table; what getaddrinfo() answers is a list of addresses, or an error.
-- The clock does not move within a call.
pub mod OnePass
pub mod LastSeen
pub mod Keeps
use libpagekite.Base.{
  ℕ, zero, suc, ◌+◌, ◌*◌, Bool, true, false, not, ◌&&◌, ◌||◌, List, [], ◌∷◌, map, countp, get_elem?,
  length, Option, none, some, ltb, ◌==◌, if◌then◌else◌, Bytes, ℤ, pos, ltb_ℤ, to_int,
}
use libpagekite.Tunnels.{Tunnel, SockAddr, is_set, is_frontend}
use libpagekite.Tunnels.Frontends.{addrcmp, change_at, results_of, pkm_lookup_and_add_frontend}

abbrev pub pk_ddns_update_interval_min : ℕ
pk_ddns_update_interval_min = 360

-- What the loop on the kites changes: cleared_flags, in_dns and the tunnels.
pub record DnsCheck : Type 0 where
  pub cleared_flags : Bool
  pub found : ℕ
  pub tunnels : List Tunnel

unfoldable pub matches : SockAddr → Tunnel → Bool
matches a fe = is_frontend fe && addrcmp fe.ai_addr (some a) == 0

unfoldable pub mark_in_dns : ℕ → SockAddr → Tunnel → Tunnel
mark_in_dns now a fe = if matches a fe then (record fe { in_dns = true; last_ddnsup = now }) else fe

unfoldable pub mark_results : ℕ → List SockAddr → DnsCheck → DnsCheck
unfolding mark_in_dns
mark_results now [] s = s
mark_results now (a ∷ more) s = mark_results now more (record s {
  found = s.found + countp (matches a) s.tunnels;
  tunnels = map (mark_in_dns now a) s.tunnels;
})

unfoldable pub out_of_dns : Tunnel → Tunnel
out_of_dns fe = record fe { in_dns = false }

-- "Clear DNS flag everywhere, once we know DNS is responding."
unfoldable pub clear_once : DnsCheck → DnsCheck
clear_once s = record s {
  cleared_flags = true;
  tunnels = if s.cleared_flags then s.tunnels else map out_of_dns s.tunnels;
}

-- The answer for a kite. An error and an empty answer are passed over.
unfoldable pub take_answer : ℕ → List SockAddr → DnsCheck → DnsCheck
unfolding mark_results
take_answer now [] s = s
take_answer now (a ∷ more) s = mark_results now (a ∷ more) (clear_once s)

unfoldable pub look_up_kites :
    ℕ → (Bytes → Option (List SockAddr)) → List Bytes → DnsCheck → DnsCheck
unfolding take_answer
look_up_kites now getaddrinfo [] s = s
look_up_kites now getaddrinfo (kite ∷ kites) s =
    look_up_kites now getaddrinfo kites (take_answer now (results_of (getaddrinfo kite)) s)

-- "renew … if they were either last updated within our window"
unfoldable pub is_recent : ℕ → Tunnel → Bool
is_recent now fe =
    is_frontend fe
    && (ltb 0 fe.last_ddnsup && ltb now (fe.last_ddnsup + pk_ddns_update_interval_min))

unfoldable pub renewed : ℕ → Tunnel → Tunnel
renewed now fe = if is_recent now fe then (record fe { in_dns = true }) else fe

-- dns_fe and recently_in_dns, which is an int.
unfoldable pub latest : ℕ → Option ℕ → ℤ → List Tunnel → Option ℕ
latest i dns_fe recently [] = dns_fe
latest i dns_fe recently (fe ∷ fes) =
    let later = is_frontend fe && ltb_ℤ recently (pos fe.last_ddnsup) in
    latest (suc i) (if later then some i else dns_fe)
      (if later then to_int (pos fe.last_ddnsup) else recently) fes

unfoldable pub keep_latest : Option ℕ → List Tunnel → List Tunnel
keep_latest none fes = fes
keep_latest (some i) fes = change_at (λ fe. record fe { in_dns = true }) i fes

-- Behind the loop on the kites.
unfoldable pub conclude : ℕ → DnsCheck → ℕ × List Tunnel
unfolding renewed latest keep_latest
conclude now s =
    let found = s.found + countp (is_recent now) s.tunnels in
    let fes = map (renewed now) s.tunnels in
    if not s.cleared_flags
    then (1, s.tunnels)
    else if found == 0
    then (1, keep_latest (latest 0 none (pos 0) s.tunnels) fes)
    else (0, fes)

-- The result, and the tunnels.
unfoldable pub pkb_check_kites_dns :
    ℕ → (Bytes → Option (List SockAddr)) → List Bytes → List Tunnel → ℕ × List Tunnel
unfolding look_up_kites conclude
pkb_check_kites_dns now getaddrinfo kites tunnels = conclude now (
    look_up_kites now getaddrinfo kites
      (record { cleared_flags = false; found = 0; tunnels = tunnels }))
