-- ===== src/Tunnels/Dns/LastSeen.antt =====
-- The front-end that pkb_check_kites_dns() (libpagekite/pkblocker.c) keeps in DNS, where no other is.
use libpagekite.Base.{
  ℕ, suc, ◌^◌, ◌<◌, ◌≡◌, refl, ap, ◌∙◌, inl, inr, Bool, true, false, ◌&&◌, ◌||◌, List, [], ◌∷◌, map,
  any, All, Option, none, some, arith, ltb, ◌==◌, max, if◌then◌else◌, Bool-cases, Bytes, ℤ, pos,
  to_int-small,
}
use libpagekite.Tunnels.{Tunnel, SockAddr, is_frontend}
use libpagekite.Tunnels.Dns.{is_recent, latest, keep_latest, pkb_check_kites_dns}
use libpagekite.Tunnels.Dns.OnePass.{
  is_named, all_results, named_or_recent, pass_by_latest, pkb_check_kites_dns-by_latest,
}

-- When one of the front-ends was last seen in DNS, 0 if none ever was.
abbrev pub last_time : List Tunnel → ℕ
last_time [] = 0
last_time (fe ∷ fes) = max (if is_frontend fe then fe.last_ddnsup else 0) (last_time fes)

-- The first front-end that was seen at that time; the table begins at `i`.
abbrev pub first_seen : ℕ → ℕ → List Tunnel → Option ℕ
first_seen time i [] = none
first_seen time i (fe ∷ fes) =
    if is_frontend fe && fe.last_ddnsup == time then some i else first_seen time (suc i) fes

abbrev pub last_seen : List Tunnel → Option ℕ
last_seen fes = if last_time fes == 0 then none else first_seen (last_time fes) 0 fes

abbrev pub one_pass : ℕ → List SockAddr → List Tunnel → ℕ × List Tunnel
one_pass now [] fes = (1, fes)
one_pass now (a ∷ more) fes =
    let results = a ∷ more in
    let fes' = map (named_or_recent now results) fes in
    if any (λ fe. is_named results fe || is_recent now fe) fes
    then (0, fes')
    else (1, keep_latest (last_seen fes) fes')

-- The times fit an int.
abbrev pub IntTimes : List Tunnel → Type 0
IntTimes = All (λ fe. fe.last_ddnsup < 2 ^ 31)

-- A front-end that was seen later than `since`, or not, in front of others of which `find` gives the first
-- one that was seen at a time, and whose last time is `t`; `m` is the last time of all.
module _ (front : Bool) (v t since m i : ℕ) (best : Option ℕ) (find : ℕ → Option ℕ)
    (is : m ≡ max (if front then v else 0) t) where
  found_later :
      (front && ltb since v) ≡ true
      → (if ltb v t then find t else some i)
        ≡ (if ltb since m then (if front && v == m then some i else find m) else best)
  found_later later =
      let more : ltb since m ≡ true = ground arith in
      elim (Bool-cases (ltb v t)) [
        | inl greater ↦
            let top : t ≡ m = ground arith in
            let differs : (front && v == m) ≡ false = ground arith in
            rw (greater, more, differs) (ap find top)
        | inr least ↦
            let same : (front && v == m) ≡ true = ground arith in rw (least, more, same) refl
      ]

  found_before :
      (front && ltb since v) ≡ false
      → (if ltb since t then find t else best)
        ≡ (if ltb since m then (if front && v == m then some i else find m) else best)
  found_before earlier = elim (Bool-cases (ltb since t)) [
    | inl greater ↦
        let top : t ≡ m = ground arith in
        let more : ltb since m ≡ true = ground arith in
        let differs : (front && v == m) ≡ false = ground arith in
        rw (greater, more, differs) (ap find top)
    | inr least ↦ let no_more : ltb since m ≡ false = ground arith in rw (least, no_more) refl
  ]

-- The search of the code, from a time on.
latest-first_seen :
    (i : ℕ) (best : Option ℕ) (since : ℕ) (fes : List Tunnel)
    → IntTimes fes
    → latest i best (pos since) fes
      ≡ (if ltb since (last_time fes) then first_seen (last_time fes) i fes else best)
unfolding latest
latest-first_seen i best since [] h = rw (never since) refl
  where
    never : (n : ℕ) → ltb n 0 ≡ false
    never n = ground arith
latest-first_seen i best since (fe ∷ fes) (small, h) =
    let find : ℕ → Option ℕ = λ t. first_seen t (suc i) fes in
    let t = last_time fes in
    let v = fe.last_ddnsup in
    elim (Bool-cases (is_frontend fe && ltb since v)) [
      | inl later ↦
          rw (later, to_int-small v small)
            (latest-first_seen (suc i) (some i) v fes h
              ∙ found_later (is_frontend fe) v t since _ i best find refl later)
      | inr earlier ↦ rw earlier (
          latest-first_seen (suc i) best since fes h
          ∙ found_before (is_frontend fe) v t since _ i best find refl earlier)
    ]

-- A front-end that is not named keeps its time.
latest-named_or_recent :
    (now : ℕ) (results : List SockAddr) (i : ℕ) (best : Option ℕ) (since : ℤ) (fes : List Tunnel)
    → any (λ fe. is_named results fe || is_recent now fe) fes ≡ false
    → latest i best since (map (named_or_recent now results) fes) ≡ latest i best since fes
unfolding latest named_or_recent is_frontend
latest-named_or_recent now results i best since [] h = refl
latest-named_or_recent now results i best since (fe ∷ fes) h =
    let unnamed : is_named results fe ≡ false = ground arith in
    rw unnamed (latest-named_or_recent now results (suc i) _ _ fes (ground arith))

last_seen-latest : (fes : List Tunnel) → IntTimes fes → latest 0 none (pos 0) fes ≡ last_seen fes
last_seen-latest fes h = latest-first_seen 0 none 0 fes h ∙ by_time (last_time fes)
  where
    by_time :
        (t : ℕ)
        → (if ltb 0 t then first_seen t 0 fes else none)
          ≡ (if t == 0 then none else first_seen t 0 fes)
    by_time t = elim (Bool-cases (t == 0)) [
      | inl zero_time ↦
          let none_yet : ltb 0 t ≡ false = ground arith in rw (zero_time, none_yet) refl
      | inr some_time ↦ let seen : ltb 0 t ≡ true = ground arith in rw (some_time, seen) refl
    ]

-- For front-ends that were last seen in DNS before 2038: pkb_check_kites_dns() is a single pass on the
-- tunnels, with the addresses of all answers in a row. Without an address nothing changes. Else a
-- front-end is in DNS if it was named, or seen in DNS within the last six minutes; and if there is none such,
-- then the front-end with the greatest time of a sighting is kept in DNS, the first of them if there are
-- several, and none if none was ever seen.
pub pkb_check_kites_dns-one_pass :
    (now : ℕ) (getaddrinfo : Bytes → Option (List SockAddr)) (kites : List Bytes)
    (fes : List Tunnel)
    → IntTimes fes
    → pkb_check_kites_dns now getaddrinfo kites fes
      ≡ one_pass now (all_results getaddrinfo kites) fes
pkb_check_kites_dns-one_pass now getaddrinfo kites fes small =
    pkb_check_kites_dns-by_latest now getaddrinfo kites fes
    ∙ by_results (all_results getaddrinfo kites)
  where
    by_results :
        (results : List SockAddr) → pass_by_latest now results fes ≡ one_pass now results fes
    by_results [] = unfold pass_by_latest in refl
    by_results (a ∷ more) =
        unfold pass_by_latest in
        elim (Bool-cases (any (λ fe. is_named (a ∷ more) fe || is_recent now fe) fes)) [
          | inl hit ↦ rw hit refl
          | inr no_hit ↦
              let kept =
                latest-named_or_recent now (a ∷ more) 0 none (pos 0) fes no_hit
                ∙ last_seen-latest fes small in
              rw (no_hit, kept) refl
        ]
