-- ===== src/Tunnels/Frontends/Distinct.antt =====
-- No two front-ends have the same address (libpagekite/pkmanager.c).
use libpagekite.Base.{
  ℕ, zero, suc, ◌≡◌, refl, sym, inl, inr, Bool, true, false, ◌&&◌, List, [], ◌∷◌, get_elem?, set,
  Option, none, some, arith, ◌==◌, if◌then◌else◌, All, All-map, Bool-cases, Bytes, ℤ, some_inj,
  subst, ltb_ℤ, pos,
}
use libpagekite.Tunnels.{Tunnel, SockAddr, Family, inet, inet6, other_family, is_set}
use libpagekite.Tunnels.Frontends.{
  memcmp, addr_of, addrcmp, configured, copy_addrinfo_data, pkm_add_frontend_ai, is_skipped,
  add_results, results_of, pkm_lookup_and_add_frontend,
}
use libpagekite.Tunnels.Frontends.Adds.{
  hits, IsAdded, added, seen, no_room, pkm_add_frontend_ai-IsAdded,
}

-- If `fe` is a front-end, then no slot `u` with its address is one.
abbrev pub Differs : Tunnel → Tunnel → Type 0
Differs fe u = is_set fe.fe_hostname ≡ true → hits fe.ai_addr u ≡ false

abbrev pub Distinct : List Tunnel → Type 0
Distinct [] = Unit
Distinct (fe ∷ fes) = All (Differs fe) fes × Distinct fes

memcmp_comm : (s t : Bytes) → memcmp s t ≡ memcmp t s
unfolding memcmp
memcmp_comm [] [] = refl
memcmp_comm [] (b ∷ t) = refl
memcmp_comm (a ∷ s) [] = refl
memcmp_comm (a ∷ s) (b ∷ t) = ground (arith, memcmp_comm s t)

addr_of_comm : (a b : SockAddr) → addr_of a b ≡ addr_of b a
unfolding addr_of
addr_of_comm a b = by_family a.sa_family b.sa_family
  where
    by_family :
        (f g : Family)
        → addr_of (record a { sa_family = f }) (record b { sa_family = g })
          ≡ addr_of (record b { sa_family = g }) (record a { sa_family = f })
    by_family inet inet = memcmp_comm a.address b.address
    by_family inet inet6 = refl
    by_family inet other_family = refl
    by_family inet6 inet = refl
    by_family inet6 inet6 = memcmp_comm a.address b.address
    by_family inet6 other_family = refl
    by_family other_family inet = refl
    by_family other_family inet6 = refl
    by_family other_family other_family = refl

addrcmp_comm : (a b : Option SockAddr) → addrcmp a b ≡ addrcmp b a
unfolding addrcmp
addrcmp_comm none none = refl
addrcmp_comm none (some b) = refl
addrcmp_comm (some a) none = refl
addrcmp_comm (some a) (some b) = addr_of_comm a b

Differs-comm : (fe u : Tunnel) → Differs fe u → Differs u fe
unfolding hits
Differs-comm fe u d used = elim (Bool-cases (is_set fe.fe_hostname)) [
  | inl set' ↦ rw (set', addrcmp_comm fe.ai_addr u.ai_addr, sym (d set'), used) refl
  | inr unset ↦ rw unset refl
]

All-set {κ} :
    (P : Tunnel → Type κ) (fes : List Tunnel) (i : ℕ) (v : Tunnel)
    → P v
    → All P fes
    → All P (set fes i v)
All-set P [] i v pv _ = tt
All-set P (u ∷ fes) zero v pv (_, h) = (pv, h)
All-set P (u ∷ fes) (suc i) v pv (pu, h) = (pu, All-set P fes i v pv h)

-- A slot that is set to a front-end which differs from all.
set-Distinct :
    (fes : List Tunnel) (i : ℕ) (v : Tunnel)
    → All (Differs v) fes
    → Distinct fes
    → Distinct (set fes i v)
set-Distinct [] i v ds _ = tt
set-Distinct (u ∷ fes) zero v (_, ds) (_, h) = (ds, h)
set-Distinct (u ∷ fes) (suc i) v (d, ds) (du, h) =
    (All-set (Differs u) fes i v (Differs-comm v u d) du, set-Distinct fes i v ds h)

-- A slot that keeps its address.
set-Distinct_same :
    (fes : List Tunnel) (i : ℕ) (old v : Tunnel)
    → get_elem? fes i ≡ some old
    → ((u : Tunnel) → Differs old u → Differs v u)
    → Distinct fes
    → Distinct (set fes i v)
set-Distinct_same [] i old v at keeps _ = tt
set-Distinct_same (u ∷ fes) zero old v at keeps (du, h) =
    (All-map (λ w d. keeps w (subst (λ x. Differs x w) (some_inj at) d)) fes du, h)
set-Distinct_same (u ∷ fes) (suc i) old v at keeps (du, h) =
    (apart fes i at du, set-Distinct_same fes i old v at keeps h)
  where
    apart :
        (ws : List Tunnel) (k : ℕ)
        → get_elem? ws k ≡ some old
        → All (Differs u) ws
        → All (Differs u) (set ws k v)
    apart [] k at' _ = tt
    apart (w ∷ ws) zero at' (d, ds) =
        (Differs-comm v u (keeps u (Differs-comm u old (subst (Differs u) (some_inj at') d))), ds)
    apart (w ∷ ws) (suc k) at' (d, ds) = (d, apart ws k at' ds)

addrcmp-none : (a : Option SockAddr) → (addrcmp a none == 0) ≡ false
unfolding addrcmp
addrcmp-none none = refl
addrcmp-none (some a) = refl

hits-none : (u : Tunnel) → hits none u ≡ false
unfolding hits
hits-none u = rw (addrcmp-none u.ai_addr) (ground arith)

module _ (now : ℕ) (malloced : SockAddr → Bool) where
  configured-Differs :
      (ai : Option SockAddr) (hostname : Bytes) (port : ℤ) (flags : ℕ) (old u : Tunnel)
      → hits ai u ≡ false
      → Differs (configured now malloced ai hostname port flags old) u
  unfolding configured copy_addrinfo_data hits addrcmp
  configured-Differs none hostname port flags old u h used = h
  configured-Differs (some a) hostname port flags old u h used = elim (Bool-cases (malloced a)) [
    | inl room ↦ rw room h
    | inr oom ↦ rw oom (hits-none u)
  ]

  IsAdded-Distinct :
      (fes : List Tunnel) (ai : Option SockAddr) (hostname : Bytes) (port : ℤ) (flags : ℕ)
      {r : Option ℕ × List Tunnel}
      → IsAdded now malloced fes ai hostname port flags r
      → Distinct fes
      → Distinct r.1
  IsAdded-Distinct fes ai hostname port flags (added i old at f nh) h =
      set-Distinct fes i _ (All-map (configured-Differs ai hostname port flags old) fes nh) h
  IsAdded-Distinct fes ai hostname port flags (seen i old at hit) h =
      set-Distinct_same fes i old _ at (λ u d. d) h
  IsAdded-Distinct fes ai hostname port flags (no_room us nh) h = h

  pkm_add_frontend_ai-Distinct :
      (fes : List Tunnel) (ai : Option SockAddr) (hostname : Bytes) (port : ℤ) (flags : ℕ)
      → Distinct fes
      → Distinct (pkm_add_frontend_ai now malloced fes ai hostname port flags).1
  pkm_add_frontend_ai-Distinct fes ai hostname port flags =
      IsAdded-Distinct fes ai hostname port flags
        (pkm_add_frontend_ai-IsAdded now malloced fes ai hostname port flags)

  module _ (use_ipv4 use_ipv6 : Bool) (hostname : Bytes) where
    add_results-Distinct :
        (port : ℤ) (flags : ℕ) (results : List SockAddr) (fes : List Tunnel)
        → Distinct fes
        → Distinct (add_results now malloced use_ipv4 use_ipv6 hostname port flags results fes).1
    unfolding add_results
    add_results-Distinct port flags [] fes h = h
    add_results-Distinct port flags (a ∷ more) fes h =
        elim (Bool-cases (is_skipped use_ipv4 use_ipv6 a)) [
          | inl skipped ↦ rw skipped (add_results-Distinct port flags more fes h)
          | inr tried ↦ rw tried (
              add_results-Distinct port flags more _
                (pkm_add_frontend_ai-Distinct fes (some a) hostname port flags h))
        ]

    -- If no two front-ends of the table have the same address, then that is so behind
    -- pkm_lookup_and_add_frontend(), too, whatever getaddrinfo() answers.
    pub pkm_lookup_and_add_frontend-Distinct :
        (getaddrinfo : Bytes → ℤ → Option (List SockAddr)) (fes : List Tunnel) (port : ℤ)
        (flags : ℕ) (add_null_record : Bool)
        → Distinct fes
        → Distinct
            (pkm_lookup_and_add_frontend now malloced getaddrinfo use_ipv4 use_ipv6 fes hostname
              port flags add_null_record).1
    unfolding pkm_lookup_and_add_frontend
    pkm_lookup_and_add_frontend-Distinct getaddrinfo fes port flags add_null_record h =
        let port' = if ltb_ℤ port (pos 1) then pos 443 else port in
        let results = results_of (getaddrinfo hostname port') in
        let r = add_results now malloced use_ipv4 use_ipv6 hostname port' flags results fes in
        let h' = add_results-Distinct port' flags results fes h in
        elim (Bool-cases (r.0 == 0 && add_null_record)) [
          | inl placeholder ↦
              rw placeholder (pkm_add_frontend_ai-Distinct r.1 none hostname port' flags h')
          | inr found ↦ rw found h'
        ]
