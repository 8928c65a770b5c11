-- ===== src/Utils/Lines/Behind.antt =====
-- Changes of a buffer that leave the bytes behind a place alone, and those of zero_first_crlf()
-- (libpagekite/pkutils.c).
use libpagekite.Base.{
  ℕ, zero, suc, ◌+◌, ◌-◌, ◌≤◌, ◌≡◌, refl, sym, ap, subst, ◌∙◌, inl, inr, [], ◌∷◌, ◌++◌, arith,
  Bytes, length, length-append, length-take, take, drop, take-append-drop, drop-length_append,
  drop-add, ℤ, pos, negsuc, pos_part, crlf,
}
use libpagekite.Utils.Lines.{zero_first_crlf}
use libpagekite.Utils.Lines.Laws.{CutsLine, zero_first_crlf-CutsLine}

-- As many bytes as before, and from the k-th on the same ones.
pub record SameBehind (k : ℕ) (m m' : Bytes) : Type 0 where
  pub same_length : length m' ≡ length m
  pub same_rest : drop k m' ≡ drop k m

pub SameBehind-refl : (k : ℕ) (m : Bytes) → SameBehind k m m
SameBehind-refl k m = record { same_length = refl; same_rest = refl }

pub SameBehind-mono : {j k : ℕ} {m m' : Bytes} → j ≤ k → SameBehind j m m' → SameBehind k m m'
SameBehind-mono {j} {k} {m} {m'} le s =
    let split : j + (k - j) ≡ k = omega arith in
    record {
      same_length = s.same_length;
      same_rest =
          sym (ap (λ n. drop n m') split)
          ∙ drop-add (k - j) j m'
          ∙ ap (drop (k - j)) s.same_rest
          ∙ sym (drop-add (k - j) j m)
          ∙ ap (λ n. drop n m) split;
    }

pub SameBehind-trans :
    {k : ℕ} {m m' m'' : Bytes} → SameBehind k m m' → SameBehind k m' m'' → SameBehind k m m''
SameBehind-trans s t = record {
  same_length = t.same_length ∙ s.same_length;
  same_rest = t.same_rest ∙ s.same_rest;
}

pub SameBehind-front :
    {k : ℕ} (x : Bytes) {y y' : Bytes}
    → SameBehind k y y'
    → SameBehind (length x + k) (x ++ y) (x ++ y')
SameBehind-front {k} x {y} {y'} s = record {
  same_length = omega (arith, length-append x y, length-append x y', s.same_length);
  same_rest =
      drop-add k (length x) (x ++ y')
      ∙ ap (drop k) (drop-length_append x y')
      ∙ s.same_rest
      ∙ sym (ap (drop k) (drop-length_append x y))
      ∙ sym (drop-add k (length x) (x ++ y));
}

-- A change behind the n-th byte.
pub SameBehind-drop :
    {k : ℕ} (n : ℕ) (m : Bytes) {m' : Bytes}
    → SameBehind k (drop n m) m'
    → SameBehind (n + k) m (take n m ++ m')
SameBehind-drop {k} n m {m'} s =
    let t : SameBehind (n + k) (take n m ++ drop n m) (take n m ++ m') =
      SameBehind-mono (omega (arith, length-take n m)) (SameBehind-front (take n m) s) in
    subst (λ x. SameBehind (n + k) x (take n m ++ m')) (take-append-drop n m) t

-- And the n bytes in front of it.
pub take-same :
    (n : ℕ) (m m' : Bytes) → length m' ≡ length (drop n m) → take n (take n m ++ m') ≡ take n m
take-same zero m m' e = refl
take-same (suc n) [] [] e = refl
take-same (suc n) [] (x ∷ m') e = absurd (omega (arith, e))
take-same (suc n) (x ∷ m) m' e = ap (◌∷◌ x) (take-same n m m' e)

CutsLine-SameBehind : {n : ℕ} {m m' : Bytes} → CutsLine n m m' → SameBehind n m m'
CutsLine-SameBehind {n} {m} {m'} c =
    let marks : SameBehind 2 (crlf ++ c.rest) (0 ∷ 0 ∷ c.rest) = record {
      same_length = refl;
      same_rest = refl;
    } in
    let s = SameBehind-front c.line marks in
    subst (λ k. SameBehind k m m') (sym c.ends)
      (subst (λ x. SameBehind (length c.line + 2) x m') (sym c.was)
        (subst (λ x. SameBehind (length c.line + 2) (c.line ++ (crlf ++ c.rest)) x) (sym c.now) s))

-- What zero_first_crlf() returns is no more than the length that it is given, and it writes nothing
-- behind that.
pub zero_first_crlf-SameBehind :
    (n : ℤ) (m : Bytes)
    → SameBehind (pos_part n) m (zero_first_crlf n m).1 × ((zero_first_crlf n m).0 ≤ pos_part n)
zero_first_crlf-SameBehind (pos n) m = elim (zero_first_crlf-CutsLine n m) [
  | inl (z, e, _) ↦
      (record { same_length = ap (length {0}) e; same_rest = ap (drop n) e }, omega (arith, z))
  | inr (le, c) ↦ (SameBehind-mono le (CutsLine-SameBehind c), le)
]
zero_first_crlf-SameBehind (negsuc n) m =
    unfold zero_first_crlf in (SameBehind-refl 0 m, omega arith)
