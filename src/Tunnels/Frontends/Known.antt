-- ===== src/Tunnels/Frontends/Known.antt =====
-- What pkm_lookup_and_add_frontend() has done for each address of the answer (libpagekite/pkmanager.c).
use libpagekite.Base.{
  ℕ, zero, suc, ◌≡◌, refl, inl, inr, Bool, true, false, not, ◌&&◌, ◌||◌, List, [], ◌∷◌, get_elem?,
  set, any, Option, none, some, arith, ◌==◌, if◌then◌else◌, All, All-map, Bool-cases, Bytes, ℤ,
  some_inj, subst, ltb, pos, ◌<◌,
}
use libpagekite.Tunnels.{Tunnel, SockAddr, Family, inet, inet6, other_family, is_set}
use libpagekite.Tunnels.Frontends.{
  memcmp, addr_of, addrcmp, configured, copy_addrinfo_data, pkm_add_frontend_ai, is_skipped,
  add_results, results_of, pkm_lookup_and_add_frontend,
}
use libpagekite.Tunnels.Frontends.Adds.{
  hits, IsAdded, added, seen, no_room, pkm_add_frontend_ai-IsAdded,
}

-- A front-end of the table has the address, or the table is full.
unfoldable pub is_served : SockAddr → List Tunnel → Bool
is_served a fes = any (hits (some a)) fes || not (any (λ u. not (is_set u.fe_hostname)) fes)

abbrev pub can_compare : SockAddr → Bool
can_compare a = elim a.sa_family [ inet ↦ true | inet6 ↦ true | other_family ↦ false ]

memcmp_refl : (s : Bytes) → memcmp s s ≡ 0
unfolding memcmp
memcmp_refl [] = refl
memcmp_refl (a ∷ s) = ground (arith, memcmp_refl s)

addr_of_refl : (a : SockAddr) → can_compare a ≡ true → addr_of a a ≡ 0
unfolding addr_of
addr_of_refl a = by_family a.sa_family
  where
    by_family :
        (f : Family)
        → can_compare (record a { sa_family = f }) ≡ true
        → addr_of (record a { sa_family = f }) (record a { sa_family = f }) ≡ 0
    by_family inet c = memcmp_refl a.address
    by_family inet6 c = memcmp_refl a.address
    by_family other_family c = cc

pub any-set :
    (p : Tunnel → Bool) (fes : List Tunnel) (i : ℕ) (old v : Tunnel)
    → get_elem? fes i ≡ some old
    → p v ≡ true
    → any p (set fes i v) ≡ true
any-set p [] i old v at pv = cc
any-set p (u ∷ fes) zero old v at pv = rw pv refl
any-set p (u ∷ fes) (suc i) old v at pv = rw (any-set p fes i old v at pv) (ground arith)

any-set_keeps :
    (p : Tunnel → Bool) (fes : List Tunnel) (i : ℕ) (old v : Tunnel)
    → get_elem? fes i ≡ some old
    → (p old ≡ true → p v ≡ true)
    → any p fes ≡ true
    → any p (set fes i v) ≡ true
any-set_keeps p [] i old v at keeps h = h
any-set_keeps p (u ∷ fes) zero old v at keeps h = elim (Bool-cases (p u)) [
  | inl pu ↦ rw (keeps (subst (λ x. p x ≡ true) (some_inj at) pu)) refl
  | inr pu ↦ ground arith
]
any-set_keeps p (u ∷ fes) (suc i) old v at keeps h =
    ground (arith, any-set_keeps p fes i old v at keeps)

none-set :
    (p : Tunnel → Bool) (fes : List Tunnel) (i : ℕ) (v : Tunnel)
    → any p fes ≡ false
    → p v ≡ false
    → any p (set fes i v) ≡ false
none-set p [] i v h pv = refl
none-set p (u ∷ fes) zero v h pv = ground arith
none-set p (u ∷ fes) (suc i) v h pv = ground (arith, none-set p fes i v)

All-used :
    (fes : List Tunnel)
    → All (λ u. is_set u.fe_hostname ≡ true) fes
    → any (λ u. not (is_set u.fe_hostname)) fes ≡ false
All-used [] _ = refl
All-used (u ∷ fes) (used, h) = rw (used, All-used fes h) refl

hits-used : (ai : Option SockAddr) (u : Tunnel) → hits ai u ≡ true → is_set u.fe_hostname ≡ true
unfolding hits
hits-used ai u h = ground arith

-- Slots are only set to front-ends, and those that have an address keep it.
set-is_served :
    (a : SockAddr) (fes : List Tunnel) (i : ℕ) (old v : Tunnel)
    → get_elem? fes i ≡ some old
    → (hits (some a) old ≡ true → hits (some a) v ≡ true)
    → is_set v.fe_hostname ≡ true
    → is_served a fes ≡ true
    → is_served a (set fes i v) ≡ true
unfolding is_served
set-is_served a fes i old v at keeps used h = elim (Bool-cases (any (hits (some a)) fes)) [
  | inl known ↦ rw (any-set_keeps (hits (some a)) fes i old v at keeps known) refl
  | inr unknown ↦
      let full : any (λ u. not (is_set u.fe_hostname)) fes ≡ false = ground arith in
      rw (none-set (λ u. not (is_set u.fe_hostname)) fes i v full (rw used refl)) (ground arith)
]

-- The address, if it is tried and can be stored, is served.
abbrev pub Serves : (SockAddr → Bool) → Bool → Bool → List Tunnel → SockAddr → Type 0
Serves malloced use_ipv4 use_ipv6 fes a =
    is_skipped use_ipv4 use_ipv6 a ≡ false
    → can_compare a ≡ true
    → malloced a ≡ true
    → is_served a fes ≡ true

module _ (now : ℕ) (malloced : SockAddr → Bool) where
  IsAdded-is_served :
      (a : SockAddr) (fes : List Tunnel) (ai : Option SockAddr) (hostname : Bytes) (port : ℤ)
      (flags : ℕ) {r : Option ℕ × List Tunnel}
      → IsAdded now malloced fes ai hostname port flags r
      → is_served a fes ≡ true
      → is_served a r.1 ≡ true
  IsAdded-is_served a fes ai hostname port flags (added i old at f nh) h =
      set-is_served a fes i old _ at (λ hit. let used = hits-used (some a) old hit in cc)
        (unfold configured in refl) h
  IsAdded-is_served a fes ai hostname port flags (seen i old at hit) h =
      set-is_served a fes i old _ at (λ k. unfold hits in k) (hits-used ai old hit) h
  IsAdded-is_served a fes ai hostname port flags (no_room us nh) h = h

  IsAdded-new :
      (a : SockAddr) (fes : List Tunnel) (hostname : Bytes) (port : ℤ) (flags : ℕ)
      {r : Option ℕ × List Tunnel}
      → can_compare a ≡ true
      → malloced a ≡ true
      → IsAdded now malloced fes (some a) hostname port flags r
      → is_served a r.1 ≡ true
  unfolding is_served
  IsAdded-new a fes hostname port flags {r} c room (added i old at f nh) =
      let hit : hits (some a) (configured now malloced (some a) hostname port flags old) ≡ true =
        unfold configured copy_addrinfo_data hits addrcmp in rw (room, addr_of_refl a c) refl in
      rw (any-set (hits (some a)) fes i old _ at hit) refl
  IsAdded-new a fes hostname port flags {r} c room (seen i old at hit) =
      rw
        (any-set (hits (some a)) fes i old (record old { last_configured = now }) at
          (unfold hits in hit))
        refl
  IsAdded-new a fes hostname port flags {r} c room (no_room us nh) =
      rw (All-used fes us) (ground arith)

  module _ (use_ipv4 use_ipv6 : Bool) (hostname : Bytes) (port : ℤ) (flags : ℕ) where
    add_results-keeps :
        (a : SockAddr) (results : List SockAddr) (fes : List Tunnel)
        → is_served a fes ≡ true
        → is_served a (add_results now malloced use_ipv4 use_ipv6 hostname port flags results fes).1
          ≡ true
    unfolding add_results
    add_results-keeps a [] fes h = h
    add_results-keeps a (b ∷ more) fes h = elim (Bool-cases (is_skipped use_ipv4 use_ipv6 b)) [
      | inl skipped ↦ rw skipped (add_results-keeps a more fes h)
      | inr tried ↦ rw tried (
          add_results-keeps a more _ (
            IsAdded-is_served a fes (some b) hostname port flags
              (pkm_add_frontend_ai-IsAdded now malloced fes (some b) hostname port flags) h))
    ]

    add_results-Serves :
        (results : List SockAddr) (fes : List Tunnel)
        → All
            (Serves malloced use_ipv4 use_ipv6
              (add_results now malloced use_ipv4 use_ipv6 hostname port flags results fes).1)
            results
    unfolding add_results
    add_results-Serves [] fes = tt
    add_results-Serves (a ∷ more) fes =
        let next =
          if is_skipped use_ipv4 use_ipv6 a
          then fes
          else (pkm_add_frontend_ai now malloced fes (some a) hostname port flags).1 in
        (
          λ tried c room. add_results-keeps a more next (
              rw tried (
                IsAdded-new a fes hostname port flags c room
                  (pkm_add_frontend_ai-IsAdded now malloced fes (some a) hostname port flags))),
          add_results-Serves more next,
        )

-- Behind pkm_lookup_and_add_frontend(), each address of the answer that is IPv4 or IPv6 and of a family
-- in use, and for whose copy there was memory, belongs to a front-end of the table; or the table is full.
pub pkm_lookup_and_add_frontend-Serves :
    (now : ℕ) (malloced : SockAddr → Bool) (getaddrinfo : Bytes → ℤ → Option (List SockAddr))
    (use_ipv4 use_ipv6 : Bool) (fes : List Tunnel) (hostname : Bytes) (port : ℕ) (flags : ℕ)
    (add_null_record : Bool)
    → 0 < port
    → All
        (Serves malloced use_ipv4 use_ipv6
          (pkm_lookup_and_add_frontend now malloced getaddrinfo use_ipv4 use_ipv6 fes hostname
            (pos port)
            flags
            add_null_record).1)
        (results_of (getaddrinfo hostname (pos port)))
unfolding pkm_lookup_and_add_frontend
pkm_lookup_and_add_frontend-Serves now malloced getaddrinfo use_ipv4 use_ipv6 fes hostname port
      flags add_null_record lt =
    let results = results_of (getaddrinfo hostname (pos port)) in
    let r = add_results now malloced use_ipv4 use_ipv6 hostname (pos port) flags results fes in
    let h =
      add_results-Serves now malloced use_ipv4 use_ipv6 hostname (pos port) flags results fes in
    let given : ltb port 1 ≡ false = ground arith in
    elim (Bool-cases (r.0 == 0 && add_null_record)) [
      | inl placeholder ↦
          rw (given, placeholder)
            (All-map
              (λ a serves tried c room.
                IsAdded-is_served now malloced a r.1 none hostname (pos port) flags
                  (pkm_add_frontend_ai-IsAdded now malloced r.1 none hostname (pos port) flags)
                  (serves tried c room))
              results h)
      | inr found ↦ rw (given, found) h
    ]
