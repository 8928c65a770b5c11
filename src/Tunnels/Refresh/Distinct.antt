-- ===== src/Tunnels/Refresh/Distinct.antt =====
-- pkb_check_frontend_dns() makes no two front-ends with one address (libpagekite/pkblocker.c).
use libpagekite.Base.{
  ℕ, zero, suc, ◌*◌, ◌≡◌, refl, sym, inl, inr, Bool, false, List, [], ◌∷◌, map, get_elem?, length,
  Option, none, some, ◌==◌, All, Bool-cases, Bytes, ℤ, subst,
}
use libpagekite.Tunnels.{Tunnel, SockAddr, is_set}
use libpagekite.Tunnels.Frontends.{memcmp, pkm_add_frontend}
use libpagekite.Tunnels.Frontends.Adds.{hits}
use libpagekite.Tunnels.Frontends.Distinct.{Differs, Distinct, pkm_lookup_and_add_frontend-Distinct}
use libpagekite.Tunnels.Refresh.{
  FrontendCheck, check_hostname, count_null, check_tunnel, check_tunnels, is_obsolete,
  forget_obsolete, pkb_check_frontend_dns,
}

module _ (now : ℕ) (malloced : SockAddr → Bool) (getaddrinfo : Bytes → ℤ → Option (List SockAddr))
    (use_ipv4 use_ipv6 : Bool) where
  check_hostname-Distinct :
      (hostname : Option Bytes) (port : ℤ) (s : FrontendCheck)
      → Distinct s.tunnels
      → Distinct (check_hostname now malloced getaddrinfo use_ipv4 use_ipv6 hostname port s).tunnels
  unfolding check_hostname pkm_add_frontend
  check_hostname-Distinct none port s h = h
  check_hostname-Distinct (some hostname) port s h =
      elim (Bool-cases (memcmp hostname s.last_fe_hostname == 0)) [
        | inl again ↦ rw again h
        | inr other ↦ rw other (
            pkm_lookup_and_add_frontend-Distinct now malloced use_ipv4 use_ipv6 hostname getaddrinfo
              s.tunnels port 0 false h)
      ]

  check_tunnel-Distinct :
      (i : ℕ) (fe : Option Tunnel) (s : FrontendCheck)
      → Distinct s.tunnels
      → Distinct (check_tunnel now malloced getaddrinfo use_ipv4 use_ipv6 i fe s).tunnels
  unfolding check_tunnel count_null
  check_tunnel-Distinct i none s h = h
  check_tunnel-Distinct i (some fe) s h = check_hostname-Distinct fe.fe_hostname fe.fe_port s h

  check_tunnels-Distinct :
      (rounds i : ℕ) (s : FrontendCheck)
      → Distinct s.tunnels
      → Distinct (check_tunnels now malloced getaddrinfo use_ipv4 use_ipv6 rounds i s).tunnels
  unfolding check_tunnels
  check_tunnels-Distinct zero i s h = h
  check_tunnels-Distinct (suc rounds) i s h =
      check_tunnels-Distinct rounds (suc i) _ (check_tunnel-Distinct i (get_elem? s.tunnels i) s h)

-- A front-end that is forgotten has no address in common with another one.
hits-forget :
    (now w : ℕ) (ai : Option SockAddr) (u : Tunnel)
    → hits ai u ≡ false
    → hits ai (forget_obsolete now w u) ≡ false
unfolding forget_obsolete hits
hits-forget now w ai u h = elim (Bool-cases (is_obsolete now w u)) [
  | inl old ↦ rw old refl
  | inr current ↦ rw current h
]

forget-Differs :
    (now w : ℕ) (fe u : Tunnel)
    → Differs fe u
    → Differs (forget_obsolete now w fe) (forget_obsolete now w u)
forget-Differs now w fe u d = elim (Bool-cases (is_obsolete now w fe)) [
  | inl old ↦
      let e : is_set (forget_obsolete now w fe).fe_hostname ≡ false =
        unfold forget_obsolete in rw old refl in
      λ used. cc
  | inr current ↦
      let e : forget_obsolete now w fe ≡ fe = unfold forget_obsolete in rw current refl in
      subst (λ x. Differs x (forget_obsolete now w u)) (sym e)
        (λ used. hits-forget now w fe.ai_addr u (d used))
]

map-Distinct :
    (now w : ℕ) (fes : List Tunnel) → Distinct fes → Distinct (map (forget_obsolete now w) fes)
map-Distinct now w [] h = h
map-Distinct now w (fe ∷ fes) (ds, h) = (all_differ fes ds, map-Distinct now w fes h)
  where
    all_differ :
        (us : List Tunnel)
        → All (Differs fe) us
        → All (Differs (forget_obsolete now w fe)) (map (forget_obsolete now w) us)
    all_differ [] _ = tt
    all_differ (u ∷ us) (d, h') = (forget-Differs now w fe u d, all_differ us h')

-- If no two front-ends of the table have the same address, then that is so behind
-- pkb_check_frontend_dns(), too, whatever getaddrinfo() answers.
pub pkb_check_frontend_dns-Distinct :
    (now : ℕ) (malloced : SockAddr → Bool) (getaddrinfo : Bytes → ℤ → Option (List SockAddr))
    (use_ipv4 use_ipv6 : Bool) (check_world_interval : ℕ) (fes : List Tunnel)
    → Distinct fes
    → Distinct
        (pkb_check_frontend_dns now malloced getaddrinfo use_ipv4 use_ipv6 check_world_interval
          fes).1
unfolding pkb_check_frontend_dns
pkb_check_frontend_dns-Distinct now malloced getaddrinfo use_ipv4 use_ipv6 check_world_interval fes
      h =
    let start : FrontendCheck = record {
      changes = 0;
      have_nulls = 0;
      last_fe_hostname = [];
      tunnels = fes;
    } in
    let s = check_tunnels now malloced getaddrinfo use_ipv4 use_ipv6 (length fes) 0 start in
    let h' =
      check_tunnels-Distinct now malloced getaddrinfo use_ipv4 use_ipv6 (length fes) 0 start h in
    elim (Bool-cases (s.have_nulls == 0)) [
      | inl no_nulls ↦ rw no_nulls h'
      | inr nulls ↦ rw nulls (map-Distinct now (check_world_interval * 4) s.tunnels h')
    ]
