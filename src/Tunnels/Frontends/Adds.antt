-- ===== src/Tunnels/Frontends/Adds.antt =====
-- What pkm_add_frontend_ai() does to the table (libpagekite/pkmanager.c).
use libpagekite.Base.{
  ℕ, zero, suc, ◌+◌, ◌≡◌, refl, sym, ap, ◌∙◌, inl, inr, Bool, true, false, ◌&&◌, List, [], ◌∷◌,
  get_elem?, Option, none, some, arith, ◌==◌, if◌then◌else◌, All, Bool-cases, Bytes, ℤ, some_inj,
  set,
}
use libpagekite.Tunnels.{Tunnel, SockAddr, is_set}
use libpagekite.Tunnels.Frontends.{
  addrcmp, Slot, known, free, full, first_free, scan, configured, change_at, pkm_add_frontend_ai,
}

-- The slot is a front-end that has this address.
unfoldable pub hits : Option SockAddr → Tunnel → Bool
hits ai fe = is_set fe.fe_hostname && addrcmp fe.ai_addr ai == 0

abbrev pub NoHits : Option SockAddr → List Tunnel → Type 0
NoHits ai = All λ u. hits ai u ≡ false

-- What the scan finds in the rest of a table, from the index i on.
data Scanned (ai : Option SockAddr) (i : ℕ) (adding : Option ℕ) (fes : List Tunnel) (r : Slot)
    : Type 0 where
  is_known :
      (k : ℕ) (old : Tunnel)
      → get_elem? fes k ≡ some old
      → hits ai old ≡ true
      → r ≡ known (i + k)
      → Scanned ai i adding fes r
  earlier : (j : ℕ) → adding ≡ some j → NoHits ai fes → r ≡ free j → Scanned ai i adding fes r
  is_free :
      (k : ℕ) (old : Tunnel)
      → adding ≡ none
      → get_elem? fes k ≡ some old
      → is_set old.fe_hostname ≡ false
      → NoHits ai fes
      → r ≡ free (i + k)
      → Scanned ai i adding fes r
  is_full :
      adding ≡ none
      → All (λ u. is_set u.fe_hostname ≡ true) fes
      → NoHits ai fes
      → r ≡ full
      → Scanned ai i adding fes r

addrcmp-set :
    (a b : Option SockAddr) → (is_set b && (is_set a && addrcmp a b == 0)) ≡ (addrcmp a b == 0)
unfolding addrcmp
addrcmp-set none none = refl
addrcmp-set none (some b) = refl
addrcmp-set (some a) none = refl
addrcmp-set (some a) (some b) = refl

-- The steps of the scan.
module _ (ai : Option SockAddr) (i : ℕ) (fe : Tunnel) (fes : List Tunnel) (r : Slot) where
  used_step :
      (adding : Option ℕ)
      → is_set fe.fe_hostname ≡ true
      → hits ai fe ≡ false
      → Scanned ai (suc i) adding fes r
      → Scanned ai i adding (fe ∷ fes) r
  used_step adding used h (is_known k old at hit e) =
      is_known (suc k) old at hit (e ∙ ap known (omega arith))
  used_step adding used h (earlier j a nh e) = earlier j a (h, nh) e
  used_step adding used h (is_free k old a at f nh e) =
      is_free (suc k) old a at f (h, nh) (e ∙ ap free (omega arith))
  used_step adding used h (is_full a us nh e) = is_full a (used, us) (h, nh) e

  free_step :
      (adding : Option ℕ)
      → is_set fe.fe_hostname ≡ false
      → hits ai fe ≡ false
      → Scanned ai (suc i) (if is_set adding then adding else some i) fes r
      → Scanned ai i adding (fe ∷ fes) r
  free_step adding f h (is_known k old at hit e) =
      is_known (suc k) old at hit (e ∙ ap known (omega arith))
  free_step none f h (earlier j a nh e) =
      is_free 0 fe refl refl f (h, nh) (e ∙ ap free (some_inj (sym a) ∙ omega arith))
  free_step (some b) f h (earlier j a nh e) = earlier j a (h, nh) e
  free_step none f h (is_free k old a at f' nh e) = cc
  free_step (some b) f h (is_free k old a at f' nh e) = cc
  free_step none f h (is_full a us nh e) = cc
  free_step (some b) f h (is_full a us nh e) = cc

scan-Scanned :
    (ai : Option SockAddr) (i : ℕ) (adding : Option ℕ) (fes : List Tunnel)
    → Scanned ai i adding fes (scan ai i adding fes)
unfolding scan first_free hits
scan-Scanned ai i none [] = is_full refl tt tt refl
scan-Scanned ai i (some j) [] = earlier j refl tt refl
scan-Scanned ai i adding (fe ∷ fes) = elim (Bool-cases (is_set fe.fe_hostname)) [
  | inr unused ↦ rw unused (
      free_step ai i fe fes _ adding unused (rw unused refl)
        (scan-Scanned ai (suc i) (if is_set adding then adding else some i) fes))
  | inl used ↦ elim (Bool-cases (addrcmp fe.ai_addr ai == 0)) [
    | inl hit ↦
        rw (used, addrcmp-set fe.ai_addr ai, hit)
          (is_known 0 fe refl (rw (used, hit) refl) (ap known (omega arith)))
    | inr misses ↦
        rw (used, addrcmp-set fe.ai_addr ai, misses)
          (used_step ai i fe fes _ adding used (rw (used, misses) refl)
            (scan-Scanned ai (suc i) adding fes))
  ]
]

module _ (now : ℕ) (malloced : SockAddr → Bool) where
  -- What a call gives: a slot, which was free, or NULL.
  pub data IsAdded (fes : List Tunnel) (ai : Option SockAddr) (hostname : Bytes) (port : ℤ)
      (flags : ℕ) : Option ℕ × List Tunnel → Type 0 where
    added :
        (i : ℕ) (old : Tunnel)
        → get_elem? fes i ≡ some old
        → is_set old.fe_hostname ≡ false
        → NoHits ai fes
        → IsAdded fes ai hostname port flags
            (some i, set fes i (configured now malloced ai hostname port flags old))
    seen :
        (i : ℕ) (old : Tunnel)
        → get_elem? fes i ≡ some old
        → hits ai old ≡ true
        → IsAdded fes ai hostname port flags
            (none, set fes i (record old { last_configured = now }))
    no_room :
        All (λ u. is_set u.fe_hostname ≡ true) fes
        → NoHits ai fes
        → IsAdded fes ai hostname port flags (none, fes)

pub change_at-set :
    (f : Tunnel → Tunnel) (i : ℕ) (fes : List Tunnel) {old : Tunnel}
    → get_elem? fes i ≡ some old
    → change_at f i fes ≡ set fes i (f old)
unfolding change_at
change_at-set f i [] at = refl
change_at-set f zero (fe ∷ fes) at = rw (some_inj at) refl
change_at-set f (suc i) (fe ∷ fes) at = ap (◌∷◌ fe) (change_at-set f i fes at)

-- pkm_add_frontend_ai() gives a slot that was free, with no front-end in the table that has this address,
-- and sets it; or it returns NULL and notes the time at a front-end that has the address; or it returns NULL,
-- and the table is what it was, as no slot is free and no front-end has the address.
pub pkm_add_frontend_ai-IsAdded :
    (now : ℕ) (malloced : SockAddr → Bool) (fes : List Tunnel) (ai : Option SockAddr)
    (hostname : Bytes) (port : ℤ) (flags : ℕ)
    → IsAdded now malloced fes ai hostname port flags
        (pkm_add_frontend_ai now malloced fes ai hostname port flags)
unfolding pkm_add_frontend_ai
pkm_add_frontend_ai-IsAdded now malloced fes ai hostname port flags =
    by_scan (scan ai 0 none fes) (scan-Scanned ai 0 none fes)
  where
    start : (k : ℕ) → 0 + k ≡ k
    start k = omega arith

    by_scan :
        (r : Slot)
        → Scanned ai 0 none fes r
        → IsAdded now malloced fes ai hostname port flags (elim r [
          | known i ↦ (none, change_at (λ fe. record fe { last_configured = now }) i fes)
          | free i ↦ (some i, change_at (configured now malloced ai hostname port flags) i fes)
          | full ↦ (none, fes)
        ])
    by_scan r (is_known k old at hit e) =
        rw (e, start k, change_at-set (λ fe. record fe { last_configured = now }) k fes at)
          (seen k old at hit)
    by_scan r (earlier j a nh e) = cc
    by_scan r (is_free k old a at f nh e) =
        rw (e, start k, change_at-set (configured now malloced ai hostname port flags) k fes at)
          (added k old at f nh)
    by_scan r (is_full a us nh e) = rw e (no_room us nh)
