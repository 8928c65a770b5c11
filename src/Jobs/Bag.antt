-- ===== src/Jobs/Bag.antt =====
-- The pile of jobs is a bag (libpagekite/pkblocker.c): the order is not kept, and nothing else is lost.
use mathlib.Core.List.{Perm, perm_middle}
use mathlib.Core.List.Perm
use libpagekite.Base.{
  ℕ, zero, suc, ◌≡◌, refl, sym, ap, ◌∙◌, inl, inr, true, false, List, [], ◌∷◌, ◌++◌, Option, none,
  some, arith, ◌==◌, if◌then◌else◌, Bool-cases, ℤ, pos, minus_one, length, replicate, subst,
}
use libpagekite.Jobs.{
  Job, JobPile, is_no_job, empty_job, empty_pile, put, behind_job, with_pile, pkb_add_job, get,
  behind_got, with_got, pkb_get_job,
}

-- The jobs that wait in the pile.
unfoldable pub jobs : List Job → List Job
jobs [] = []
jobs (j ∷ js) = let rest = jobs js in if is_no_job j.job then rest else j ∷ rest

jobs-free : (j : Job) (js : List Job) → is_no_job j.job ≡ true → jobs (j ∷ js) ≡ jobs js
unfolding jobs
jobs-free j js h = rw h refl

jobs-taken : (j : Job) (js : List Job) → is_no_job j.job ≡ false → jobs (j ∷ js) ≡ j ∷ jobs js
unfolding jobs
jobs-taken j js h = rw h refl

-- A job is put into a free slot, if there is one.
abbrev Puts : Job → List Job → Option (List Job) → Type 0
Puts new_job js none = Unit
Puts new_job js (some js') =
    Perm (jobs js') (new_job ∷ jobs js) × (length (jobs js') ≡ suc (length (jobs js)))

put-Puts :
    (new_job : Job) (js : List Job)
    → is_no_job new_job.job ≡ false
    → Puts new_job js (put new_job js)
unfolding put
put-Puts new_job [] h = tt
put-Puts new_job (j ∷ js) h = elim (Bool-cases (is_no_job j.job)) [
  | inl free ↦ rw (free, jobs-taken new_job js h, jobs-free j js free) (Perm.rfl, refl)
  | inr taken ↦ rw taken (by_rest (put new_job js) (put-Puts new_job js h) taken)
]
  where
    by_rest :
        (r : Option (List Job))
        → Puts new_job js r
        → is_no_job j.job ≡ false
        → Puts new_job (j ∷ js) (behind_job j r)
    by_rest none p taken = tt
    by_rest (some js') (p, size) taken =
        rw (jobs-taken j js' taken, jobs-taken j js taken)
          (Perm.trans (Perm.cons j p) (Perm.swap new_job j (jobs js)), ap suc size)

-- A job is got from the first slot that has one, or there is none.
abbrev Gets : List Job → Option (Job × List Job) → Type 0
Gets js none = jobs js ≡ []
Gets js (some (got, js')) = jobs js ≡ got ∷ jobs js'

get-Gets : (js : List Job) → Gets js (get js)
unfolding get
get-Gets [] = unfold jobs in refl
get-Gets (j ∷ js) = elim (Bool-cases (is_no_job j.job)) [
  | inl free ↦ rw free (by_rest (get js) (get-Gets js) free)
  | inr taken ↦ rw taken (jobs-taken j js taken ∙ ap (◌∷◌ j) (sym (jobs-free empty_job js refl)))
]
  where
    by_rest :
        (r : Option (Job × List Job))
        → Gets js r
        → is_no_job j.job ≡ true
        → Gets (j ∷ js) (behind_got j r)
    by_rest none e free = jobs-free j js free ∙ e
    by_rest (some (got, js')) e free =
        jobs-free j js free ∙ e ∙ ap (◌∷◌ got) (sym (jobs-free j js' free))

-- The jobs that were added, those that were got, and the pile behind these calls, in any order.
pub data Reachable : List Job → List Job → JobPile → Type 0 where
  start : (max : ℕ) → Reachable [] [] (empty_pile max)
  add :
      (added got : List Job) (pkj : JobPile) (new_job : Job)
      → Reachable added got pkj
      → is_no_job new_job.job ≡ false
      → (pkb_add_job pkj new_job).0 ≡ pos 1
      → Reachable (new_job ∷ added) got (pkb_add_job pkj new_job).1
  refused :
      (added got : List Job) (pkj : JobPile) (new_job : Job)
      → Reachable added got pkj
      → (pkb_add_job pkj new_job).0 ≡ minus_one
      → Reachable added got (pkb_add_job pkj new_job).1
  take :
      (added got : List Job) (pkj pkj' : JobPile) (result : ℤ) (dest : Job)
      → Reachable added got pkj
      → pkb_get_job pkj ≡ some (result, (dest, pkj'))
      → Reachable added (dest ∷ got) pkj'

-- No job is lost or made up, and the count is that of the jobs that wait.
pub record IsBag (added got : List Job) (pkj : JobPile) : Type 0 where
  pub all_there : Perm added (got ++ jobs pkj.pile)
  pub counted : pkj.count ≡ length (jobs pkj.pile)

jobs-empty : (max : ℕ) → jobs (replicate max empty_job) ≡ []
jobs-empty zero = unfold jobs in refl
jobs-empty (suc max) = jobs-free empty_job (replicate max empty_job) refl ∙ jobs-empty max

add-IsBag :
    (added got : List Job) (pkj : JobPile) (new_job : Job) (r : Option (List Job))
    → Puts new_job pkj.pile r
    → (with_pile pkj r).0 ≡ pos 1
    → IsBag added got pkj
    → IsBag (new_job ∷ added) got (with_pile pkj r).1
add-IsBag added got pkj new_job none p e b = cc
add-IsBag added got pkj new_job (some js) (p, size) e b = record {
  all_there = Perm.trans (Perm.cons new_job b.all_there) (
      Perm.trans (Perm.symm (perm_middle got (jobs pkj.pile)))
        (Perm.append_left got (Perm.symm p)));
  counted = omega (arith, b.counted, size);
}

refused-IsBag :
    (added got : List Job) (pkj : JobPile) (r : Option (List Job))
    → (with_pile pkj r).0 ≡ minus_one
    → IsBag added got pkj
    → IsBag added got (with_pile pkj r).1
refused-IsBag added got pkj none e b = b
refused-IsBag added got pkj (some js) e b = cc

-- What is known of a call that does not wait.
abbrev TakesFrom : List Job → List Job → Option (ℤ × (Job × JobPile)) → Type 0
TakesFrom added got none = Unit
TakesFrom added got (some (result, (dest, pkj'))) = (result ≡ pos 1) × IsBag added (dest ∷ got) pkj'

with_got-TakesFrom :
    (added got : List Job) (pkj : JobPile) (r : Option (Job × List Job))
    → Gets pkj.pile r
    → (pkj.count == 0) ≡ false
    → IsBag added got pkj
    → TakesFrom added got (some (with_got pkj r))
with_got-TakesFrom added got pkj none g some' b =
    let size = b.counted ∙ ap length g in absurd (ground arith)
with_got-TakesFrom added got pkj (some (dest, js)) g some' b =
    let size = b.counted ∙ ap length g in
    (
      refl,
      record {
        all_there = Perm.trans b.all_there (
            subst (λ l. Perm (got ++ l) (dest ∷ got ++ jobs js)) (sym g)
              (perm_middle got (jobs js)));
        counted = omega (arith, size);
      },
    )

pkb_get_job-TakesFrom :
    (added got : List Job) (pkj : JobPile)
    → IsBag added got pkj
    → TakesFrom added got (pkb_get_job pkj)
unfolding pkb_get_job
pkb_get_job-TakesFrom added got pkj b = elim (Bool-cases (pkj.count == 0)) [
  | inl waits ↦ rw waits tt
  | inr some' ↦
      rw some' (with_got-TakesFrom added got pkj (get pkj.pile) (get-Gets pkj.pile) some' b)
]

-- Whatever calls add jobs and get jobs, and in what order: the jobs that were added are those that were got
-- and those that wait in the pile, each as often; and the count is the number of those that wait.
pub Reachable-IsBag :
    (added got : List Job) (pkj : JobPile) → Reachable added got pkj → IsBag added got pkj
unfolding pkb_add_job empty_pile
Reachable-IsBag added got pkj (start max) =
    let e = jobs-empty max in record { all_there = rw e Perm.rfl; counted = rw e refl }
Reachable-IsBag _ got pkj (add added _ before new_job reached kind e) =
    add-IsBag added got before new_job (put new_job before.pile) (put-Puts new_job before.pile kind)
      e (Reachable-IsBag added got before reached)
Reachable-IsBag added got pkj (refused _ _ before new_job reached e) =
    refused-IsBag added got before (put new_job before.pile) e
      (Reachable-IsBag added got before reached)
Reachable-IsBag added _ pkj (take _ got before _ result dest reached e) =
    (subst (TakesFrom added got) e
      (pkb_get_job-TakesFrom added got before (Reachable-IsBag added got before reached))).1
