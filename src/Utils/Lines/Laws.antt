-- ===== src/Utils/Lines/Laws.antt =====
-- What zero_first_crlf() and zero_first_eol() find, and what they write.
use libpagekite.Base.{
  ℕ, zero, suc, ◌+◌, ◌-◌, ◌≤◌, ◌<◌, ◌≡◌, refl, sym, subst, ap, ◌⊎◌, inl, inr, false, ◌&&◌, [], ◌∷◌,
  ◌++◌, arith, ◌==◌, if◌then◌else◌, Bytes, Bool-cases, crlf, length, take, pos,
}
use libpagekite.Utils.Lines.{behind, crlf_loop, zero_first_crlf}

-- The bytes hold no CR followed by a LF.
abbrev pub NoCrlf : Bytes → Type 0
NoCrlf [] = Unit {0}
NoCrlf (a ∷ []) = Unit {0}
NoCrlf (a ∷ b ∷ m) = ((a == 13 && b == 10) ≡ false) × NoCrlf (b ∷ m)

-- The line that a result cuts off: the memory was `line`, CR, LF, and `rest`.
pub record CutsLine (n : ℕ) (before after : Bytes) : Type 0 where
  pub line : Bytes
  pub rest : Bytes
  pub first : NoCrlf line
  pub was : before ≡ line ++ (crlf ++ rest)
  pub now : after ≡ line ++ (0 ∷ 0 ∷ rest)
  pub ends : n ≡ length line + 2

NoCrlf-cons :
    (a b : ℕ) (m line rest : Bytes)
    → (a == 13 && b == 10) ≡ false
    → ◌≡◌ {A = Bytes} (b ∷ m) (line ++ rest)
    → NoCrlf line
    → NoCrlf (a ∷ line)
NoCrlf-cons a b m [] rest ne e h = tt
NoCrlf-cons a b m (x ∷ line) rest ne e h = (ground arith, h)

CutsLine-behind :
    (a b n : ℕ) (m m' : Bytes)
    → (a == 13 && b == 10) ≡ false
    → CutsLine n (b ∷ m) m'
    → CutsLine (suc n) (a ∷ b ∷ m) (a ∷ m')
CutsLine-behind a b n m m' ne c = record {
  line = a ∷ c.line;
  rest = c.rest;
  first = NoCrlf-cons a b m c.line (crlf ++ c.rest) ne c.was c.first;
  was = ap (◌∷◌ a) c.was;
  now = ap (◌∷◌ a) c.now;
  ends = omega (arith, c.ends);
}

abbrev Crlf : ℕ → Bytes → ℕ × Bytes → Type 0
Crlf k m (n, m') = ((n ≡ 0) × (m' ≡ m) × NoCrlf (take (suc k) m)) ⊎ ((n ≤ k + 1) × CutsLine n m m')

behind-Crlf :
    (k a b : ℕ) (m : Bytes) (r : ℕ × Bytes)
    → (a == 13 && b == 10) ≡ false
    → Crlf k (b ∷ m) r
    → Crlf (suc k) (a ∷ b ∷ m) (behind a r)
behind-Crlf k a b m (n, m') ne (inl (z, e, no_crlf)) =
    inl (ground arith, ap (◌∷◌ a) e, (ne, no_crlf))
behind-Crlf k a b m (n, m') ne (inr (le, c)) =
    let e : (if n == 0 then 0 else suc n) ≡ suc n = ground (arith, c.ends) in
    inr (rw e (omega arith), rw e (CutsLine-behind a b n m m' ne c))

crlf_loop_miss :
    (k a b : ℕ) (m : Bytes)
    → (a == 13 && b == 10) ≡ false
    → crlf_loop (suc k) (a ∷ b ∷ m) ≡ behind a (crlf_loop k (b ∷ m))
unfolding crlf_loop
crlf_loop_miss k a b m miss = rw miss

crlf_loop-Crlf : (k : ℕ) (m : Bytes) → Crlf k m (crlf_loop k m)
unfolding crlf_loop
crlf_loop-Crlf zero [] = inl (refl, refl, tt)
crlf_loop-Crlf zero (a ∷ m) = inl (refl, refl, tt)
crlf_loop-Crlf (suc k) [] = inl (refl, refl, tt)
crlf_loop-Crlf (suc k) (a ∷ []) = inl (refl, refl, tt)
crlf_loop-Crlf (suc k) (a ∷ b ∷ m) = elim (Bool-cases (a == 13 && b == 10)) [
  | inl hit ↦ rw hit (
      inr (
        omega arith,
        record {
          line = [];
          rest = m;
          first = tt;
          was = ground arith;
          now = refl;
          ends = omega arith;
        },
      ))
  | inr miss ↦
      subst (Crlf (suc k) (a ∷ b ∷ m)) (sym (crlf_loop_miss k a b m miss))
        (behind-Crlf k a b m (crlf_loop k (b ∷ m)) miss (crlf_loop-Crlf k (b ∷ m)))
]

-- The result for a length of `n`: nothing found and nothing written, and no CR LF in the first `n`
-- bytes; or the first line of the memory, within its first `n` bytes, with its CR LF made NUL.
pub zero_first_crlf-CutsLine :
    (n : ℕ) (m : Bytes)
    → let r = zero_first_crlf (pos n) m in
      ((r.0 ≡ 0) × (r.1 ≡ m) × NoCrlf (take n m)) ⊎ ((r.0 ≤ n) × CutsLine r.0 m r.1)
unfolding zero_first_crlf
zero_first_crlf-CutsLine zero m = elim (crlf_loop-Crlf 0 m) [
  | inl (z, e, no_crlf) ↦ inl (z, e, tt)
  | inr (le, c) ↦ inr (omega (arith, c.ends), c)
]
zero_first_crlf-CutsLine (suc n) m =
    let e : suc n - 1 ≡ n = omega arith in
    rw e (elim (crlf_loop-Crlf n m) [ inl z ↦ inl z | inr (le, c) ↦ inr (omega (arith, le), c) ])

crlf_loop-finds :
    (k : ℕ) (line rest : Bytes)
    → NoCrlf line
    → length line < k
    → crlf_loop k (line ++ (crlf ++ rest)) ≡ (length line + 2, line ++ (0 ∷ 0 ∷ rest))
unfolding crlf_loop
crlf_loop-finds zero line rest h lt = elim lt [ ]
crlf_loop-finds (suc k) [] rest h lt = refl
crlf_loop-finds (suc k) (a ∷ []) rest h lt = ground (arith, crlf_loop-finds k [] rest tt)
crlf_loop-finds (suc k) (a ∷ b ∷ line) rest (ne, h) lt =
    rw (ne, crlf_loop-finds k (b ∷ line) rest h (omega arith)) (ground arith)

-- A first line that lies within the length is found.
pub zero_first_crlf-finds :
    (n : ℕ) (line rest : Bytes)
    → NoCrlf line
    → length line + 2 ≤ n
    → zero_first_crlf (pos n) (line ++ (crlf ++ rest)) ≡ (length line + 2, line ++ (0 ∷ 0 ∷ rest))
unfolding zero_first_crlf
zero_first_crlf-finds n line rest h le = crlf_loop-finds (n - 1) line rest h (omega arith)
