-- ===== src/Streams/Find.antt =====
-- pkm_find_be_conn() (libpagekite/pkmanager.c) looks at every slot of the table.
use libpagekite.Base.{
  ℕ, zero, suc, ◌+◌, ◌-◌, ◌%◌, ◌≤◌, ◌<◌, ◌≡◌, refl, sym, ap, subst, ◌∙◌, inl, inr, Bool, true,
  false, List, [], ◌∷◌, Option, none, some, arith, if◌then◌else◌, Bytes, length, get_elem?, any,
  Bool-cases, some_inj, dec_lt,
}
use libpagekite.Streams.{BackendConn, is_stream, pkm_sid_shift, find_from, pkm_find_be_conn}

module _ {ℓ} {A : Type ℓ} where
  pub get_elem?-some : (xs : List A) (k : ℕ) → k < length xs → (a : A) × (get_elem? xs k ≡ some a)
  get_elem?-some [] k h = absurd (omega arith)
  get_elem?-some (x ∷ xs) zero h = (x, refl)
  get_elem?-some (x ∷ xs) (suc k) h = get_elem?-some xs k (omega arith)

  pub get_elem?-lt : (xs : List A) (k : ℕ) {a : A} → get_elem? xs k ≡ some a → k < length xs
  get_elem?-lt [] k h = cc
  get_elem?-lt (x ∷ xs) zero h = omega arith
  get_elem?-lt (x ∷ xs) (suc k) h = omega (arith, get_elem?-lt xs k h)

  -- No element at the place passes the test.
  abbrev pub FailsAt : (A → Bool) → List A → ℕ → Type ℓ
  FailsAt p xs k = (a : A) → get_elem? xs k ≡ some a → p a ≡ false

  pub any-FailsAt :
      (p : A → Bool) (xs : List A) → ((k : ℕ) → k < length xs → FailsAt p xs k) → any p xs ≡ false
  any-FailsAt p [] h = refl
  any-FailsAt p (x ∷ xs) h =
      rw (h 0 (omega arith) x refl) (any-FailsAt p xs (λ k lt. h (suc k) (omega arith)))

  pub FailsAt-any : (p : A → Bool) (xs : List A) → any p xs ≡ false → (k : ℕ) → FailsAt p xs k
  FailsAt-any p [] e k a at = cc
  FailsAt-any p (x ∷ xs) e zero a at = let i = some_inj at in ground (arith, ap p i)
  FailsAt-any p (x ∷ xs) e (suc k) a at = FailsAt-any p xs (ground arith) k a at

-- The slots that are visited from `shift` on, round the table, are all of it.
pub rotation : (n shift k : ℕ) → shift < n → k < n → (i : ℕ) × (i < n) × ((i + shift) % n ≡ k)
rotation n shift k hs hk = elim (dec_lt k shift) [
  | yes lt ↦ (
    k + n - shift,
    omega arith,
    let e : k + n - shift + shift ≡ k + n = omega arith in rw e (grind arith),
  )
  | no ge ↦
      (k - shift, omega arith, let e : k - shift + shift ≡ k = omega arith in rw e (grind arith))
]

module _ (fe : Option ℕ) (sid : Bytes) (be_conns : List BackendConn) where
  -- A slot that holds the stream, or no slot does.
  abbrev pub Finds : Option ℕ → Type 0
  Finds none = any (is_stream fe sid) be_conns ≡ false
  Finds (some k) =
      (pkb : BackendConn) × (get_elem? be_conns k ≡ some pkb) × (is_stream fe sid pkb ≡ true)

  abbrev FindsFrom : ℕ → ℕ → Option ℕ → Type 0
  FindsFrom shift i none =
      (j : ℕ)
      → i ≤ j
      → j < length be_conns
      → FailsAt (is_stream fe sid) be_conns ((j + shift) % length be_conns)
  FindsFrom shift i (some k) = Finds (some k)

  find_from-FindsFrom :
      (shift rounds i : ℕ)
      → i + rounds ≡ length be_conns
      → FindsFrom shift i (find_from fe sid shift be_conns rounds i)
  unfolding find_from
  find_from-FindsFrom shift zero i e = λ j le lt. absurd (omega arith)
  find_from-FindsFrom shift (suc rounds) i e =
      stepped (get_elem? be_conns ((i + shift) % length be_conns)) refl
        (find_from-FindsFrom shift rounds (suc i) (omega arith))
    where
      further :
          (r : Option ℕ) (pkb : BackendConn)
          → get_elem? be_conns ((i + shift) % length be_conns) ≡ some pkb
          → is_stream fe sid pkb ≡ false
          → FindsFrom shift (suc i) r
          → FindsFrom shift i r
      further (some k) pkb place not_this h = h
      further none pkb place not_this h = λ j le lt a at. elim (dec_lt i j) [
        | yes later ↦ h j (omega arith) lt a at
        | no same ↦
            let e : j ≡ i = omega arith in
            let found : some a ≡ some pkb =
              sym at ∙ ap (λ n. get_elem? be_conns ((n + shift) % length be_conns)) e ∙ place in
            ap (is_stream fe sid) (some_inj found) ∙ not_this
      ]

      stepped :
          (o : Option BackendConn)
          → get_elem? be_conns ((i + shift) % length be_conns) ≡ o
          → FindsFrom shift (suc i) (find_from fe sid shift be_conns rounds (suc i))
          → FindsFrom shift i (elim o as (λ _. Option ℕ) [
            | none ↦ none
            | some pkb ↦
                if is_stream fe sid pkb
                then some ((i + shift) % length be_conns)
                else find_from fe sid shift be_conns rounds (suc i)
          ])
      stepped none place rest =
          let (pkb, at) = get_elem?-some be_conns ((i + shift) % length be_conns) (omega arith) in
          cc
      stepped (some pkb) place rest = elim (Bool-cases (is_stream fe sid pkb)) [
        | inl is ↦ rw is (pkb, place, is)
        | inr not_this ↦
            rw not_this
              (further (find_from fe sid shift be_conns rounds (suc i)) pkb place not_this rest)
      ]

  -- pkm_find_be_conn() returns a slot that is allocated to a stream of the tunnel with the SID, as
  -- far as an SID is stored, or NULL if there is none in the table.
  pub pkm_find_be_conn-Finds : Finds (pkm_find_be_conn fe sid be_conns)
  unfolding pkm_find_be_conn
  pkm_find_be_conn-Finds =
      let shift = pkm_sid_shift sid % length be_conns in
      whole (find_from fe sid shift be_conns (length be_conns) 0)
        (find_from-FindsFrom shift (length be_conns) 0 (omega arith))
    where
      whole : (r : Option ℕ) → FindsFrom (pkm_sid_shift sid % length be_conns) 0 r → Finds r
      whole (some k) h = h
      whole none h = any-FailsAt (is_stream fe sid) be_conns λ k lt.
          let (i, i_lt, e) =
            rotation (length be_conns) (pkm_sid_shift sid % length be_conns) k (omega arith) lt in
          subst (FailsAt (is_stream fe sid) be_conns) e (h i (omega arith) i_lt)
