-- ===== src/Tunnels/Dns/OnePass.antt =====
-- pkb_check_kites_dns() as one pass on all addresses of all answers (libpagekite/pkblocker.c).
use libpagekite.Base.{
  ℕ, suc, ◌+◌, ◌≡◌, refl, sym, ap, ◌∙◌, inl, inr, Bool, true, false, not, ◌&&◌, ◌||◌, List, [], ◌∷◌,
  ◌++◌, map, any, countp, Option, none, some, arith, ◌==◌, if◌then◌else◌, Bool-cases, Bytes, ℤ, pos,
  ltb_ℤ, to_int,
}
use libpagekite.Tunnels.{Tunnel, SockAddr, is_frontend}
use libpagekite.Tunnels.Frontends.{results_of}
use libpagekite.Tunnels.Dns.{
  DnsCheck, conclude, matches, mark_in_dns, mark_results, out_of_dns, clear_once, take_answer,
  look_up_kites, is_recent, renewed, latest, keep_latest, pkb_check_kites_dns,
}

-- One of the addresses is that of the front-end.
unfoldable pub is_named : List SockAddr → Tunnel → Bool
is_named results fe = any (λ a. matches a fe) results

unfoldable pub all_results : (Bytes → Option (List SockAddr)) → List Bytes → List SockAddr
all_results getaddrinfo [] = []
all_results getaddrinfo (kite ∷ kites) =
    results_of (getaddrinfo kite) ++ all_results getaddrinfo kites

unfoldable pub named_or_recent : ℕ → List SockAddr → Tunnel → Tunnel
unfolding is_named
named_or_recent now results fe =
    if is_named results fe
    then (record fe { in_dns = true; last_ddnsup = now })
    else (record fe { in_dns = is_recent now fe })

unfoldable pub pass_by_latest : ℕ → List SockAddr → List Tunnel → ℕ × List Tunnel
unfolding named_or_recent
pass_by_latest now [] fes = (1, fes)
pass_by_latest now (a ∷ more) fes =
    let results = a ∷ more in
    let fes' = map (named_or_recent now results) fes in
    if any (λ fe. is_named results fe || is_recent now fe) fes
    then (0, fes')
    else (1, keep_latest (latest 0 none (pos 0) fes') fes')

-- Lists of front-ends, changed and tested one by one.
map-map :
    (f g h : Tunnel → Tunnel) (fes : List Tunnel)
    → ((fe : Tunnel) → f (g fe) ≡ h fe)
    → map f (map g fes) ≡ map h fes
map-map f g h [] e = refl
map-map f g h (fe ∷ fes) e = rw (e fe, map-map f g h fes e) refl

map_same : (f : Tunnel → Tunnel) (fes : List Tunnel) → ((fe : Tunnel) → f fe ≡ fe) → map f fes ≡ fes
map_same f [] e = refl
map_same f (fe ∷ fes) e = rw (e fe, map_same f fes e) refl

pub any-map :
    (p q : Tunnel → Bool) (f : Tunnel → Tunnel) (fes : List Tunnel)
    → ((fe : Tunnel) → p (f fe) ≡ q fe)
    → any p (map f fes) ≡ any q fes
any-map p q f [] e = refl
any-map p q f (fe ∷ fes) e = rw (e fe, any-map p q f fes e) refl

any-or :
    (p q r : Tunnel → Bool) (fes : List Tunnel)
    → ((fe : Tunnel) → (p fe || q fe) ≡ r fe)
    → (any p fes || any q fes) ≡ any r fes
any-or p q r [] e = refl
any-or p q r (fe ∷ fes) e = rw (sym (e fe), sym (any-or p q r fes e)) (ground arith)

-- Two counts are zero.
none_counted :
    (n : ℕ) (p : Tunnel → Bool) (fes : List Tunnel)
    → (n + countp p fes == 0) ≡ (n == 0 && not (any p fes))
none_counted n p [] = ground arith
none_counted n p (fe ∷ fes) = ground (arith, none_counted n p fes)

-- What marking by all the addresses makes of one front-end.
marked_by : ℕ → List SockAddr → Tunnel → Tunnel
marked_by now results fe =
    if is_named results fe then (record fe { in_dns = true; last_ddnsup = now }) else fe

matches-mark :
    (now : ℕ) (a b : SockAddr) (fe : Tunnel) → matches a (mark_in_dns now b fe) ≡ matches a fe
unfolding matches mark_in_dns is_frontend
matches-mark now a b fe = elim (Bool-cases (matches b fe)) [
  | inl m ↦ rw (mark_in_dns, m) refl
  | inr m ↦ rw (mark_in_dns, m) refl
]

is_named-mark :
    (now : ℕ) (results : List SockAddr) (b : SockAddr) (fe : Tunnel)
    → is_named results (mark_in_dns now b fe) ≡ is_named results fe
unfolding is_named
is_named-mark now [] b fe = refl
is_named-mark now (a ∷ results) b fe =
    rw (matches-mark now a b fe, is_named-mark now results b fe) refl

marked_by-mark :
    (now : ℕ) (a : SockAddr) (more : List SockAddr) (fe : Tunnel)
    → marked_by now more (mark_in_dns now a fe) ≡ marked_by now (a ∷ more) fe
unfolding marked_by is_named mark_in_dns
marked_by-mark now a more fe = elim (Bool-cases (is_named more fe)) [
  | inl n ↦ elim (Bool-cases (matches a fe)) [
    | inl m ↦ rw (is_named-mark now more a fe, n, m) refl
    | inr m ↦ rw (is_named-mark now more a fe, n, m) refl
  ]
  | inr n ↦ elim (Bool-cases (matches a fe)) [
    | inl m ↦ rw (is_named-mark now more a fe, n, m) refl
    | inr m ↦ rw (is_named-mark now more a fe, n, m) refl
  ]
]

mark_results-tunnels :
    (now : ℕ) (results : List SockAddr) (s : DnsCheck)
    → (mark_results now results s).tunnels ≡ map (marked_by now results) s.tunnels
unfolding mark_results
mark_results-tunnels now [] s =
    sym (map_same (marked_by now []) s.tunnels (λ fe. unfold marked_by is_named in refl))
mark_results-tunnels now (a ∷ more) s =
    mark_results-tunnels now more _
    ∙ map-map (marked_by now more) (mark_in_dns now a) (marked_by now (a ∷ more)) s.tunnels
        (marked_by-mark now a more)

none_named : (fes : List Tunnel) → any (is_named []) fes ≡ false
unfolding is_named
none_named [] = refl
none_named (fe ∷ fes) = none_named fes

mark_results-found :
    (now : ℕ) (results : List SockAddr) (s : DnsCheck)
    → ((mark_results now results s).found == 0)
      ≡ (s.found == 0 && not (any (is_named results) s.tunnels))
unfolding mark_results
mark_results-found now [] s = rw (none_named s.tunnels) (ground arith)
mark_results-found now (a ∷ more) s =
    let same =
      any-map (is_named more) (is_named more) (mark_in_dns now a) s.tunnels
        (is_named-mark now more a) in
    let count = none_counted s.found (matches a) s.tunnels in
    let both =
      any-or (matches a) (is_named more) (is_named (a ∷ more)) s.tunnels
        (λ fe. unfold is_named in refl) in
    mark_results-found now more _ ∙ rw (same, count, sym both) (ground arith)

mark_results-cleared_flags :
    (now : ℕ) (results : List SockAddr) (s : DnsCheck)
    → (mark_results now results s).cleared_flags ≡ s.cleared_flags
unfolding mark_results
mark_results-cleared_flags now [] s = refl
mark_results-cleared_flags now (a ∷ more) s = mark_results-cleared_flags now more _

mark_results-append :
    (now : ℕ) (xs ys : List SockAddr) (s : DnsCheck)
    → mark_results now (xs ++ ys) s ≡ mark_results now ys (mark_results now xs s)
unfolding mark_results
mark_results-append now [] ys s = refl
mark_results-append now (x ∷ xs) ys s = mark_results-append now xs ys _

-- What the loop on the kites comes to.
take_answer-cleared :
    (now : ℕ) (answer : List SockAddr) (s : DnsCheck)
    → s.cleared_flags ≡ true
    → take_answer now answer s ≡ mark_results now answer s
unfolding take_answer mark_results clear_once
take_answer-cleared now [] s c = refl
take_answer-cleared now (a ∷ more) s c = ap (mark_results now (a ∷ more)) once
  where
    kept : (if s.cleared_flags then s.tunnels else map out_of_dns s.tunnels) ≡ s.tunnels
    kept = rw c refl

    once : clear_once s ≡ s
    once = λ i. record s { cleared_flags = sym c i; tunnels = kept i }

look_up-cleared :
    (now : ℕ) (getaddrinfo : Bytes → Option (List SockAddr)) (kites : List Bytes) (s : DnsCheck)
    → s.cleared_flags ≡ true
    → look_up_kites now getaddrinfo kites s ≡ mark_results now (all_results getaddrinfo kites) s
unfolding look_up_kites all_results
look_up-cleared now getaddrinfo [] s c = unfold mark_results in refl
look_up-cleared now getaddrinfo (kite ∷ kites) s c =
    let answer = results_of (getaddrinfo kite) in
    let rest = all_results getaddrinfo kites in
    let e = take_answer-cleared now answer s c in
    let c' =
      ap (λ (t : DnsCheck). t.cleared_flags) e ∙ mark_results-cleared_flags now answer s ∙ c in
    look_up-cleared now getaddrinfo kites (take_answer now answer s) c'
    ∙ ap (mark_results now rest) e
    ∙ sym (mark_results-append now answer rest s)

look_up-fresh :
    (now : ℕ) (getaddrinfo : Bytes → Option (List SockAddr)) (kites : List Bytes) (s : DnsCheck)
    → look_up_kites now getaddrinfo kites s ≡ take_answer now (all_results getaddrinfo kites) s
unfolding look_up_kites all_results take_answer
look_up-fresh now getaddrinfo [] s = refl
look_up-fresh now getaddrinfo (kite ∷ kites) s =
    by_answer (results_of (getaddrinfo kite)) (look_up-fresh now getaddrinfo kites s)
  where
    by_answer :
        (answer : List SockAddr)
        → look_up_kites now getaddrinfo kites s ≡ take_answer now (all_results getaddrinfo kites) s
        → look_up_kites now getaddrinfo kites (take_answer now answer s)
          ≡ take_answer now (answer ++ all_results getaddrinfo kites) s
    by_answer [] ih = ih
    by_answer (a ∷ more) ih =
        let s' = mark_results now (a ∷ more) (clear_once s) in
        let c' : s'.cleared_flags ≡ true =
          mark_results-cleared_flags now (a ∷ more) (clear_once s) ∙ unfold clear_once in refl in
        look_up-cleared now getaddrinfo kites s' c'
        ∙ sym (mark_results-append now (a ∷ more) (all_results getaddrinfo kites) (clear_once s))

-- Of one front-end: its mark is cleared, it is marked by the answers, and renewed.
is_named-out_of_dns :
    (results : List SockAddr) (fe : Tunnel) → is_named results (out_of_dns fe) ≡ is_named results fe
unfolding is_named matches is_frontend out_of_dns
is_named-out_of_dns results fe = refl

is_recent-out_of_dns : (now : ℕ) (fe : Tunnel) → is_recent now (out_of_dns fe) ≡ is_recent now fe
unfolding is_recent is_frontend out_of_dns
is_recent-out_of_dns now fe = refl

marked_by-named :
    (now : ℕ) (results : List SockAddr) (fe : Tunnel)
    → is_named results fe ≡ true
    → marked_by now results (out_of_dns fe) ≡ record fe { in_dns = true; last_ddnsup = now }
unfolding marked_by
marked_by-named now results fe n =
    rw (is_named-out_of_dns results fe, n) (unfold out_of_dns in refl)

marked_by-unnamed :
    (now : ℕ) (results : List SockAddr) (fe : Tunnel)
    → is_named results fe ≡ false
    → marked_by now results (out_of_dns fe) ≡ out_of_dns fe
unfolding marked_by
marked_by-unnamed now results fe n = rw (is_named-out_of_dns results fe, n) refl

renewed-in_dns : (now : ℕ) (fe : Tunnel) → fe.in_dns ≡ true → renewed now fe ≡ fe
unfolding renewed
renewed-in_dns now fe e = elim (Bool-cases (is_recent now fe)) [
  | inl r ↦ rw r (λ i. record fe { in_dns = sym e i })
  | inr r ↦ rw r refl
]

renewed-out_of_dns :
    (now : ℕ) (fe : Tunnel) → renewed now (out_of_dns fe) ≡ record fe { in_dns = is_recent now fe }
unfolding renewed
renewed-out_of_dns now fe = elim (Bool-cases (is_recent now fe)) [
  | inl r ↦ rw (is_recent-out_of_dns now fe, r) (unfold out_of_dns in refl)
  | inr r ↦ rw (is_recent-out_of_dns now fe, r) (unfold out_of_dns in refl)
]

renewed-marked :
    (now : ℕ) (results : List SockAddr) (fe : Tunnel)
    → renewed now (marked_by now results (out_of_dns fe)) ≡ named_or_recent now results fe
unfolding named_or_recent
renewed-marked now results fe = elim (Bool-cases (is_named results fe)) [
  | inl n ↦ rw (marked_by-named now results fe n, n) (renewed-in_dns now _ refl)
  | inr n ↦ rw (marked_by-unnamed now results fe n, n) (renewed-out_of_dns now fe)
]

recent-marked :
    (now : ℕ) (results : List SockAddr) (fe : Tunnel)
    → (is_named results fe || is_recent now (marked_by now results (out_of_dns fe)))
      ≡ (is_named results fe || is_recent now fe)
recent-marked now results fe = elim (Bool-cases (is_named results fe)) [
  | inl n ↦ rw n refl
  | inr n ↦ rw (marked_by-unnamed now results fe n, is_recent-out_of_dns now fe) refl
]

latest-map :
    (f : Tunnel → Tunnel) (i : ℕ) (dns_fe : Option ℕ) (recently : ℤ) (fes : List Tunnel)
    → ((fe : Tunnel) → is_frontend (f fe) ≡ is_frontend fe)
    → ((fe : Tunnel) → (f fe).last_ddnsup ≡ fe.last_ddnsup)
    → latest i dns_fe recently (map f fes) ≡ latest i dns_fe recently fes
unfolding latest
latest-map f i dns_fe recently [] front when = refl
latest-map f i dns_fe recently (fe ∷ fes) front when =
    latest-map f (suc i) _ _ fes front when ∙ λ j.
    (let later = front fe j && ltb_ℤ recently (pos (when fe j)) in
      latest (suc i) (if later then some i else dns_fe)
        (if later then to_int (pos (when fe j)) else recently) fes)

abbrev named_tunnels : ℕ → List SockAddr → List Tunnel → List Tunnel
named_tunnels now results fes = map (marked_by now results) (map out_of_dns fes)

renewed-named :
    (now : ℕ) (results : List SockAddr) (fes : List Tunnel)
    → map (renewed now) (named_tunnels now results fes) ≡ map (named_or_recent now results) fes
renewed-named now results fes =
    ap (map (renewed now)) (
      map-map (marked_by now results) out_of_dns (λ fe. marked_by now results (out_of_dns fe)) fes
        (λ fe. refl))
    ∙ map-map (renewed now) (λ fe. marked_by now results (out_of_dns fe))
        (named_or_recent now results) fes (renewed-marked now results)

-- How many were found: none, if no front-end is named or recent.
found-named :
    (now : ℕ) (results : List SockAddr) (fes : List Tunnel)
    → (not (any (is_named results) fes)
        && not (any (is_recent now) (named_tunnels now results fes)))
      ≡ not (any (λ fe. is_named results fe || is_recent now fe) fes)
found-named now results fes =
    let m : Tunnel → Tunnel = λ fe. marked_by now results (out_of_dns fe) in
    let step =
      any-map (is_recent now) (λ fe. is_recent now (marked_by now results fe))
        (marked_by now results) (map out_of_dns fes) (λ fe. refl)
      ∙ any-map (λ fe. is_recent now (marked_by now results fe)) (λ fe. is_recent now (m fe))
          out_of_dns fes (λ fe. refl) in
    let both =
      any-or (is_named results) (λ fe. is_recent now (m fe))
        (λ fe. is_named results fe || is_recent now fe) fes (recent-marked now results) in
    rw (step, sym both) (ground arith)

renewed-is_frontend : (now : ℕ) (fe : Tunnel) → is_frontend (renewed now fe) ≡ is_frontend fe
unfolding renewed is_frontend
renewed-is_frontend now fe = elim (Bool-cases (is_recent now fe)) [
  | inl r ↦ rw r refl
  | inr r ↦ rw r refl
]

renewed-last_ddnsup : (now : ℕ) (fe : Tunnel) → (renewed now fe).last_ddnsup ≡ fe.last_ddnsup
unfolding renewed
renewed-last_ddnsup now fe = elim (Bool-cases (is_recent now fe)) [
  | inl r ↦ rw r refl
  | inr r ↦ rw r refl
]

conclude-named :
    (now : ℕ) (results : List SockAddr) (fes : List Tunnel) (s : DnsCheck)
    → s.cleared_flags ≡ true
    → s.tunnels ≡ named_tunnels now results fes
    → (s.found == 0) ≡ not (any (is_named results) fes)
    → conclude now s ≡ (
        let fes' = map (named_or_recent now results) fes in
        if any (λ fe. is_named results fe || is_recent now fe) fes
        then (0, fes')
        else (1, keep_latest (latest 0 none (pos 0) fes') fes'))
unfolding conclude
conclude-named now results fes s c t f =
    let counted =
      none_counted s.found (is_recent now) s.tunnels
      ∙ (λ i. f i && not (any (is_recent now) (t i)))
      ∙ found-named now results fes in
    let renewal = ap (map (renewed now)) t ∙ renewed-named now results fes in
    let last =
      sym (
        latest-map (renewed now) 0 none (pos 0) s.tunnels (renewed-is_frontend now)
          (renewed-last_ddnsup now))
      ∙ ap (latest 0 none (pos 0)) renewal in
    elim (Bool-cases (any (λ fe. is_named results fe || is_recent now fe) fes)) [
      | inl some' ↦ rw (c, counted, some', renewal) refl
      | inr none' ↦ rw (c, counted, none', last, renewal) refl
    ]

-- The single pass, with the search of the code for the front-end that is kept.
pub pkb_check_kites_dns-by_latest :
    (now : ℕ) (getaddrinfo : Bytes → Option (List SockAddr)) (kites : List Bytes)
    (fes : List Tunnel)
    → pkb_check_kites_dns now getaddrinfo kites fes
      ≡ pass_by_latest now (all_results getaddrinfo kites) fes
unfolding pkb_check_kites_dns conclude pass_by_latest take_answer clear_once
pkb_check_kites_dns-by_latest now getaddrinfo kites fes =
    ap (conclude now) (look_up-fresh now getaddrinfo kites start)
    ∙ by_results (all_results getaddrinfo kites)
  where
    start : DnsCheck
    start = record { cleared_flags = false; found = 0; tunnels = fes }

    by_results :
        (results : List SockAddr)
        → conclude now (take_answer now results start) ≡ pass_by_latest now results fes
    by_results [] = refl
    by_results (a ∷ more) =
        let s = clear_once start in
        conclude-named now (a ∷ more) fes (mark_results now (a ∷ more) s)
          (mark_results-cleared_flags now (a ∷ more) s) (mark_results-tunnels now (a ∷ more) s)
          (mark_results-found now (a ∷ more) s ∙ ap not unmarked)
      where
        unmarked : any (is_named (a ∷ more)) (map out_of_dns fes) ≡ any (is_named (a ∷ more)) fes
        unmarked =
            any-map (is_named (a ∷ more)) (is_named (a ∷ more)) out_of_dns fes
              (is_named-out_of_dns (a ∷ more))
