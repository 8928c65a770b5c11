-- ===== src/Tunnels/Dns/Keeps.antt =====
-- pkb_check_kites_dns() keeps a front-end in DNS (libpagekite/pkblocker.c).
use libpagekite.Base.{
  ℕ, suc, ◌+◌, ◌≡◌, ◌≢◌, refl, ap, ◌∙◌, inl, inr, Bool, true, false, ◌&&◌, ◌||◌, List, [], ◌∷◌, map,
  any, get_elem?, Option, none, some, arith, ltb, Bool-cases, Bytes, ℤ, pos, ltb_ℤ, to_int,
}
use libpagekite.Tunnels.{Tunnel, SockAddr, is_set, is_frontend}
use libpagekite.Tunnels.Frontends.Adds.{change_at-set}
use libpagekite.Tunnels.Frontends.Known.{any-set}
use libpagekite.Tunnels.Dns.{matches, is_recent, latest, keep_latest, pkb_check_kites_dns}
use libpagekite.Tunnels.Dns.OnePass.{
  is_named, all_results, named_or_recent, pass_by_latest, any-map, pkb_check_kites_dns-by_latest,
}

-- A front-end that was seen in DNS at some time, and one that counts as in DNS.
unfoldable pub was_in_dns : Tunnel → Bool
was_in_dns fe = is_frontend fe && ltb 0 fe.last_ddnsup

unfoldable pub is_in_dns : Tunnel → Bool
is_in_dns fe = is_frontend fe && fe.in_dns

-- What the search for the last one gives.
data Latest (i : ℕ) (dns_fe : Option ℕ) (fes : List Tunnel) (r : Option ℕ) : Type 0 where
  earlier : r ≡ dns_fe → Latest i dns_fe fes r
  place :
      (k : ℕ) (fe : Tunnel)
      → get_elem? fes k ≡ some fe
      → is_frontend fe ≡ true
      → r ≡ some (i + k)
      → Latest i dns_fe fes r

Latest-step :
    (i : ℕ) (dns_fe : Option ℕ) (fe : Tunnel) (fes : List Tunnel) (r : Option ℕ)
    → Latest (suc i) dns_fe fes r
    → Latest i dns_fe (fe ∷ fes) r
Latest-step i dns_fe fe fes r (earlier e) = earlier e
Latest-step i dns_fe fe fes r (place k u at f e) = place (suc k) u at f (e ∙ ap some (omega arith))

Latest-here :
    (i : ℕ) (dns_fe : Option ℕ) (fe : Tunnel) (fes : List Tunnel) (r : Option ℕ)
    → is_frontend fe ≡ true
    → Latest (suc i) (some i) fes r
    → Latest i dns_fe (fe ∷ fes) r
Latest-here i dns_fe fe fes r front (earlier e) = place 0 fe refl front (e ∙ ap some (omega arith))
Latest-here i dns_fe fe fes r front (place k u at f e) =
    place (suc k) u at f (e ∙ ap some (omega arith))

latest-Latest :
    (i : ℕ) (dns_fe : Option ℕ) (recently : ℤ) (fes : List Tunnel)
    → Latest i dns_fe fes (latest i dns_fe recently fes)
unfolding latest
latest-Latest i dns_fe recently [] = earlier refl
latest-Latest i dns_fe recently (fe ∷ fes) =
    elim (Bool-cases (is_frontend fe && ltb_ℤ recently (pos fe.last_ddnsup))) [
      | inl later ↦ rw later (
          Latest-here i dns_fe fe fes _ (ground arith)
            (latest-Latest (suc i) (some i) (to_int (pos fe.last_ddnsup)) fes))
      | inr not_later ↦
          rw not_later (Latest-step i dns_fe fe fes _ (latest-Latest (suc i) dns_fe recently fes))
    ]

latest-set :
    (i j : ℕ) (recently : ℤ) (fes : List Tunnel) → is_set (latest i (some j) recently fes) ≡ true
unfolding latest
latest-set i j recently [] = refl
latest-set i j recently (fe ∷ fes) =
    elim (Bool-cases (is_frontend fe && ltb_ℤ recently (pos fe.last_ddnsup))) [
      | inl later ↦ rw later (latest-set (suc i) i (to_int (pos fe.last_ddnsup)) fes)
      | inr not_later ↦ rw not_later (latest-set (suc i) j recently fes)
    ]

latest-some :
    (i : ℕ) (fes : List Tunnel)
    → any was_in_dns fes ≡ true
    → is_set (latest i none (pos 0) fes) ≡ true
unfolding latest was_in_dns
latest-some i [] h = cc
latest-some i (fe ∷ fes) h = elim (Bool-cases (is_frontend fe && ltb 0 fe.last_ddnsup)) [
  | inl later ↦ rw later (latest-set (suc i) i (to_int (pos fe.last_ddnsup)) fes)
  | inr not_later ↦ rw not_later (latest-some (suc i) fes (ground arith))
]

keep_latest-is_in_dns :
    (fes : List Tunnel)
    → any was_in_dns fes ≡ true
    → any is_in_dns (keep_latest (latest 0 none (pos 0) fes) fes) ≡ true
unfolding keep_latest
keep_latest-is_in_dns fes h = by_place _ (latest-Latest 0 none (pos 0) fes) (latest-some 0 fes h)
  where
    by_place :
        (r : Option ℕ)
        → Latest 0 none fes r
        → is_set r ≡ true
        → any is_in_dns (keep_latest r fes) ≡ true
    by_place r (earlier e) found = cc
    by_place r (place k fe at front e) found =
        let start : 0 + k ≡ k = omega arith in
        rw (e, start, change_at-set (λ u. record u { in_dns = true }) k fes at)
          (any-set is_in_dns fes k fe _ at (unfold is_in_dns is_frontend in ground arith))

-- The last pass leaves the marks that it should.
is_named-front :
    (results : List SockAddr) (fe : Tunnel) → is_frontend fe ≡ false → is_named results fe ≡ false
unfolding is_named matches
is_named-front [] fe f = refl
is_named-front (a ∷ results) fe f = rw f (is_named-front results fe f)

named_or_recent-is_in_dns :
    (now : ℕ) (results : List SockAddr) (fe : Tunnel)
    → is_in_dns (named_or_recent now results fe) ≡ (is_named results fe || is_recent now fe)
unfolding is_in_dns named_or_recent is_frontend
named_or_recent-is_in_dns now results fe = elim (Bool-cases (is_named results fe)) [
  | inl n ↦ elim (Bool-cases (is_frontend fe)) [
    | inl front ↦ rw n (ground arith)
    | inr other ↦ let n' = is_named-front results fe other in cc
  ]
  | inr n ↦ rw n (unfold is_recent in ground arith)
]

named_or_recent-was :
    (now : ℕ) (results : List SockAddr) (fe : Tunnel)
    → is_named results fe ≡ false
    → was_in_dns (named_or_recent now results fe) ≡ was_in_dns fe
unfolding named_or_recent was_in_dns is_frontend
named_or_recent-was now results fe n = rw n refl

was_kept :
    (now : ℕ) (results : List SockAddr) (fes : List Tunnel)
    → any (λ fe. is_named results fe || is_recent now fe) fes ≡ false
    → any was_in_dns fes ≡ true
    → any was_in_dns (map (named_or_recent now results) fes) ≡ true
was_kept now results [] no_hit h = h
was_kept now results (fe ∷ fes) no_hit h =
    rw (named_or_recent-was now results fe (ground arith))
      (ground (arith, was_kept now results fes))

pass_by_latest-keeps :
    (now : ℕ) (results : List SockAddr) (fes : List Tunnel)
    → results ≢ []
    → any was_in_dns fes ≡ true
    → any is_in_dns (pass_by_latest now results fes).1 ≡ true
unfolding pass_by_latest
pass_by_latest-keeps now [] fes some' h = absurd (some' refl)
pass_by_latest-keeps now (a ∷ more) fes some' h =
    let results = a ∷ more in
    elim (Bool-cases (any (λ fe. is_named results fe || is_recent now fe) fes)) [
      | inl hit ↦ rw hit (
          any-map is_in_dns (λ fe. is_named results fe || is_recent now fe)
            (named_or_recent now results) fes (named_or_recent-is_in_dns now results)
          ∙ hit)
      | inr no_hit ↦ rw no_hit (
          keep_latest-is_in_dns (map (named_or_recent now results) fes)
            (was_kept now results fes no_hit h))
    ]

-- If there is an answer for one of the kites, and some front-end was seen in DNS at some time, then
-- pkb_check_kites_dns() leaves a front-end that counts as in DNS.
pub pkb_check_kites_dns-keeps :
    (now : ℕ) (getaddrinfo : Bytes → Option (List SockAddr)) (kites : List Bytes)
    (fes : List Tunnel)
    → all_results getaddrinfo kites ≢ []
    → any was_in_dns fes ≡ true
    → any is_in_dns (pkb_check_kites_dns now getaddrinfo kites fes).1 ≡ true
pkb_check_kites_dns-keeps now getaddrinfo kites fes some' h =
    rw (pkb_check_kites_dns-by_latest now getaddrinfo kites fes)
      (pass_by_latest-keeps now (all_results getaddrinfo kites) fes some' h)
