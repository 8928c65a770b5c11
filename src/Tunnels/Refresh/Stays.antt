-- ===== src/Tunnels/Refresh/Stays.antt =====
-- Which front-ends pkb_check_frontend_dns() leaves where they are (libpagekite/pkblocker.c).
use libpagekite.Base.{
  ℕ, zero, suc, ◌+◌, ◌*◌, ◌≡◌, refl, sym, ap, ◌∙◌, inl, inr, Bool, true, false, ◌&&◌, List, [], ◌∷◌,
  map, get_elem?, set, length, Option, none, some, arith, ◌==◌, if◌then◌else◌, Bool-cases, Bytes, ℤ,
  subst, some_inj, ltb, ltb_ℤ, pos,
}
use libpagekite.Tunnels.{Tunnel, SockAddr, is_set}
use libpagekite.Tunnels.Frontends.{
  memcmp, pkm_add_frontend_ai, is_skipped, add_results, results_of, pkm_lookup_and_add_frontend,
  pkm_add_frontend,
}
use libpagekite.Tunnels.Frontends.Adds.{IsAdded, added, seen, no_room, pkm_add_frontend_ai-IsAdded}
use libpagekite.Tunnels.Refresh.{
  FrontendCheck, check_hostname, count_null, check_tunnel, check_tunnels, is_obsolete,
  forget_obsolete, pkb_check_frontend_dns,
}

-- The same front-end, which was configured at the same time or is so now.
pub record Same (now : ℕ) (fe u : Tunnel) : Type 0 where
  pub hostname : u.fe_hostname ≡ fe.fe_hostname
  pub address : u.ai_addr ≡ fe.ai_addr
  pub socket : u.sockfd ≡ fe.sockfd
  pub ping : u.last_ping ≡ fe.last_ping
  pub when :
      (window : ℕ)
      → ltb (fe.last_configured + window) now ≡ false
      → ltb (u.last_configured + window) now ≡ false

-- The slot holds this front-end.
pub record Stays (now : ℕ) (fes : List Tunnel) (k : ℕ) (fe : Tunnel) : Type 0 where
  pub tunnel : Tunnel
  pub place : get_elem? fes k ≡ some tunnel
  pub same : Same now fe tunnel

Same-refl : (now : ℕ) (fe : Tunnel) → Same now fe fe
Same-refl now fe = record {
  hostname = refl;
  address = refl;
  socket = refl;
  ping = refl;
  when = λ w h. h;
}

Same-trans : (now : ℕ) (a b c : Tunnel) → Same now a b → Same now b c → Same now a c
Same-trans now a b c p q = record {
  hostname = q.hostname ∙ p.hostname;
  address = q.address ∙ p.address;
  socket = q.socket ∙ p.socket;
  ping = q.ping ∙ p.ping;
  when = λ w h. q.when w (p.when w h);
}

-- Another slot is set, or this one to the same front-end.
set-Stays :
    (now : ℕ) (fes : List Tunnel) (i k : ℕ) (old v fe : Tunnel)
    → get_elem? fes i ≡ some old
    → (is_set old.fe_hostname ≡ true → Same now old v)
    → get_elem? fes k ≡ some fe
    → is_set fe.fe_hostname ≡ true
    → Stays now (set fes i v) k fe
set-Stays now [] i k old v fe at same here used = cc
set-Stays now (u ∷ fes) zero zero old v fe at same here used =
    let e : old ≡ fe = some_inj (sym at ∙ here) in
    record {
      tunnel = v;
      place = refl;
      same = subst (λ x. is_set x.fe_hostname ≡ true → Same now x v) e same used;
    }
set-Stays now (u ∷ fes) zero (suc k) old v fe at same here used = record {
  tunnel = fe;
  place = here;
  same = Same-refl now fe;
}
set-Stays now (u ∷ fes) (suc i) zero old v fe at same here used = record {
  tunnel = fe;
  place = here;
  same = Same-refl now fe;
}
set-Stays now (u ∷ fes) (suc i) (suc k) old v fe at same here used =
    let r = set-Stays now fes i k old v fe at same here used in
    record { tunnel = r.tunnel; place = r.place; same = r.same }

-- A step that leaves each front-end in its slot, and several of them.
abbrev pub Leaves : ℕ → List Tunnel → List Tunnel → Type 0
Leaves now fes fes' =
    (k : ℕ) (fe : Tunnel)
    → get_elem? fes k ≡ some fe
    → is_set fe.fe_hostname ≡ true
    → Stays now fes' k fe

Leaves-refl : (now : ℕ) (fes : List Tunnel) → Leaves now fes fes
Leaves-refl now fes k fe at used = record { tunnel = fe; place = at; same = Same-refl now fe }

Leaves-trans : (now : ℕ) (a b c : List Tunnel) → Leaves now a b → Leaves now b c → Leaves now a c
Leaves-trans now a b c p q k fe at used =
    let r = p k fe at used in
    let r' = q k r.tunnel r.place (ap is_set r.same.hostname ∙ used) in
    record {
      tunnel = r'.tunnel;
      place = r'.place;
      same = Same-trans now fe r.tunnel r'.tunnel r.same r'.same;
    }

module _ (now : ℕ) (malloced : SockAddr → Bool) where
  IsAdded-Leaves :
      (fes : List Tunnel) (ai : Option SockAddr) (hostname : Bytes) (port : ℤ) (flags : ℕ)
      {r : Option ℕ × List Tunnel}
      → IsAdded now malloced fes ai hostname port flags r
      → Leaves now fes r.1
  IsAdded-Leaves fes ai hostname port flags (added i old at f nh) k fe here used =
      set-Stays now fes i k old _ fe at (λ u. cc) here used
  IsAdded-Leaves fes ai hostname port flags (seen i old at hit) k fe here used =
      set-Stays now fes i k old _ fe at
        (λ u. record {
          hostname = refl;
          address = refl;
          socket = refl;
          ping = refl;
          when = λ w h. ground arith;
        })
        here used
  IsAdded-Leaves fes ai hostname port flags (no_room us nh) k fe here used =
      Leaves-refl now fes k fe here used

  add-Leaves :
      (fes : List Tunnel) (ai : Option SockAddr) (hostname : Bytes) (port : ℤ) (flags : ℕ)
      → Leaves now fes (pkm_add_frontend_ai now malloced fes ai hostname port flags).1
  add-Leaves fes ai hostname port flags =
      IsAdded-Leaves fes ai hostname port flags
        (pkm_add_frontend_ai-IsAdded now malloced fes ai hostname port flags)

  module _ (use_ipv4 use_ipv6 : Bool) (hostname : Bytes) where
    add_results-Leaves :
        (port : ℤ) (flags : ℕ) (results : List SockAddr) (fes : List Tunnel)
        → Leaves now fes
            (add_results now malloced use_ipv4 use_ipv6 hostname port flags results fes).1
    unfolding add_results
    add_results-Leaves port flags [] fes = Leaves-refl now fes
    add_results-Leaves port flags (a ∷ more) fes =
        elim (Bool-cases (is_skipped use_ipv4 use_ipv6 a)) [
          | inl skipped ↦ rw skipped (add_results-Leaves port flags more fes)
          | inr tried ↦ rw tried (
              Leaves-trans now fes _ _ (add-Leaves fes (some a) hostname port flags)
                (add_results-Leaves port flags more _))
        ]

    pkm_add_frontend-Leaves :
        (getaddrinfo : Bytes → ℤ → Option (List SockAddr)) (fes : List Tunnel) (port : ℤ)
        (flags : ℕ)
        → Leaves now fes
            (pkm_add_frontend now malloced getaddrinfo use_ipv4 use_ipv6 fes hostname port flags).1
    unfolding pkm_add_frontend pkm_lookup_and_add_frontend
    pkm_add_frontend-Leaves getaddrinfo fes port flags =
        let port' = if ltb_ℤ port (pos 1) then pos 443 else port in
        let results = results_of (getaddrinfo hostname port') in
        let r = add_results now malloced use_ipv4 use_ipv6 hostname port' flags results fes in
        let h = add_results-Leaves port' flags results fes in
        let never : (r.0 == 0 && false) ≡ false = ground arith in rw never h

module _ (now : ℕ) (malloced : SockAddr → Bool) (getaddrinfo : Bytes → ℤ → Option (List SockAddr))
    (use_ipv4 use_ipv6 : Bool) where
  check_hostname-Leaves :
      (hostname : Option Bytes) (port : ℤ) (s : FrontendCheck)
      → Leaves now s.tunnels
          (check_hostname now malloced getaddrinfo use_ipv4 use_ipv6 hostname port s).tunnels
  unfolding check_hostname
  check_hostname-Leaves none port s = Leaves-refl now s.tunnels
  check_hostname-Leaves (some hostname) port s =
      elim (Bool-cases (memcmp hostname s.last_fe_hostname == 0)) [
        | inl again ↦ rw again (Leaves-refl now s.tunnels)
        | inr other ↦ rw other (
            pkm_add_frontend-Leaves now malloced use_ipv4 use_ipv6 hostname getaddrinfo s.tunnels
              port 0)
      ]

  check_tunnel-Leaves :
      (i : ℕ) (fe : Option Tunnel) (s : FrontendCheck)
      → Leaves now s.tunnels
          (check_tunnel now malloced getaddrinfo use_ipv4 use_ipv6 i fe s).tunnels
  unfolding check_tunnel count_null
  check_tunnel-Leaves i none s = Leaves-refl now s.tunnels
  check_tunnel-Leaves i (some fe) s = check_hostname-Leaves fe.fe_hostname fe.fe_port s

  check_tunnels-Leaves :
      (rounds i : ℕ) (s : FrontendCheck)
      → Leaves now s.tunnels
          (check_tunnels now malloced getaddrinfo use_ipv4 use_ipv6 rounds i s).tunnels
  unfolding check_tunnels
  check_tunnels-Leaves zero i s = Leaves-refl now s.tunnels
  check_tunnels-Leaves (suc rounds) i s =
      Leaves-trans now s.tunnels _ _ (check_tunnel-Leaves i (get_elem? s.tunnels i) s)
        (check_tunnels-Leaves rounds (suc i) _)

-- A front-end in use stays so, as the time when it was configured can only be later.
Same-is_obsolete :
    (now w : ℕ) (fe u : Tunnel)
    → Same now fe u
    → is_obsolete now w fe ≡ false
    → is_obsolete now w u ≡ false
unfolding is_obsolete
Same-is_obsolete now w fe u same h =
    rw (same.hostname, same.address, same.socket, same.ping) (ground (arith, same.when w))

get_elem?-map :
    (f : Tunnel → Tunnel) (fes : List Tunnel) (k : ℕ) {u : Tunnel}
    → get_elem? fes k ≡ some u
    → get_elem? (map f fes) k ≡ some (f u)
get_elem?-map f [] k at = cc
get_elem?-map f (x ∷ fes) zero at = ap (λ y. some (f y)) (some_inj at)
get_elem?-map f (x ∷ fes) (suc k) at = get_elem?-map f fes k at

-- A front-end that was configured or answered a ping within four intervals, or has a live socket, or is a
-- null record, is still in its slot behind pkb_check_frontend_dns(), with its name, address and socket.
pub pkb_check_frontend_dns-Stays :
    (now : ℕ) (malloced : SockAddr → Bool) (getaddrinfo : Bytes → ℤ → Option (List SockAddr))
    (use_ipv4 use_ipv6 : Bool) (check_world_interval : ℕ) (fes : List Tunnel) (k : ℕ) (fe : Tunnel)
    → get_elem? fes k ≡ some fe
    → is_set fe.fe_hostname ≡ true
    → is_obsolete now (check_world_interval * 4) fe ≡ false
    → Stays now
        (pkb_check_frontend_dns now malloced getaddrinfo use_ipv4 use_ipv6 check_world_interval
          fes).1
        k
        fe
unfolding pkb_check_frontend_dns
pkb_check_frontend_dns-Stays now malloced getaddrinfo use_ipv4 use_ipv6 check_world_interval fes k
      fe at used current =
    let start : FrontendCheck = record {
      changes = 0;
      have_nulls = 0;
      last_fe_hostname = [];
      tunnels = fes;
    } in
    let s = check_tunnels now malloced getaddrinfo use_ipv4 use_ipv6 (length fes) 0 start in
    let w = check_world_interval * 4 in
    let r =
      check_tunnels-Leaves now malloced getaddrinfo use_ipv4 use_ipv6 (length fes) 0 start k fe at
        used in
    let current' = Same-is_obsolete now w fe r.tunnel r.same current in
    let kept : forget_obsolete now w r.tunnel ≡ r.tunnel =
      unfold forget_obsolete in rw current' refl in
    elim (Bool-cases (s.have_nulls == 0)) [
      | inl no_nulls ↦ rw no_nulls r
      | inr nulls ↦ rw nulls (record {
        tunnel = r.tunnel;
        place = get_elem?-map (forget_obsolete now w) s.tunnels k r.place ∙ ap some kept;
        same = r.same;
      })
    ]
