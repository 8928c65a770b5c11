-- ===== src/Jobs.antt =====
-- libpagekite/pkblocker.c: the pile of jobs for the blocking threads, struct pk_job_pile. Each call holds the
-- mutex. ptr_data is the number of a pointer, or NULL.
pub mod Bag
use libpagekite.Base.{
  ℕ, zero, suc, ◌+◌, ◌-◌, Bool, true, false, not, List, [], ◌∷◌, Option, none, some, ◌==◌,
  if◌then◌else◌, ℤ, pos, minus_one, replicate,
}

pub data JobKind : Type 0 where
  no_job check_world check_frontends relay_incoming quit : JobKind

pub record Job : Type 0 where
  pub job : JobKind
  pub int_data : ℤ
  pub ptr_data : Option ℕ

-- `max` is the length of the pile.
pub record JobPile : Type 0 where
  pub pile : List Job
  pub count : ℕ

abbrev pub is_no_job : JobKind → Bool
is_no_job no_job = true
is_no_job check_world = false
is_no_job check_frontends = false
is_no_job relay_incoming = false
is_no_job quit = false

abbrev pub empty_job : Job
empty_job = record { job = no_job; int_data = pos 0; ptr_data = none }

-- The pile that pkm_manager_init() makes.
unfoldable pub empty_pile : ℕ → JobPile
empty_pile max = record { pile = replicate max empty_job; count = 0 }

abbrev pub behind_job : Job → Option (List Job) → Option (List Job)
behind_job j none = none
behind_job j (some js) = some (j ∷ js)

-- The loop of pkb_add_job(): the first slot with no job.
unfoldable pub put : Job → List Job → Option (List Job)
put new_job [] = none
put new_job (j ∷ js) =
    let rest = put new_job js in if is_no_job j.job then some (new_job ∷ js) else behind_job j rest

abbrev pub with_pile : JobPile → Option (List Job) → ℤ × JobPile
with_pile pkj none = (minus_one, pkj)
with_pile pkj (some js) = (pos 1, record { pile = js; count = pkj.count + 1 })

unfoldable pub pkb_add_job : JobPile → Job → ℤ × JobPile
unfolding put
pkb_add_job pkj new_job = with_pile pkj (put new_job pkj.pile)

abbrev pub behind_got : Job → Option (Job × List Job) → Option (Job × List Job)
behind_got j none = none
behind_got j (some (got, js)) = some (got, j ∷ js)

-- The loop of pkb_get_job(): the first slot with a job.
unfoldable pub get : List Job → Option (Job × List Job)
get [] = none
get (j ∷ js) =
    let rest = get js in if is_no_job j.job then behind_got j rest else some (j, empty_job ∷ js)

abbrev pub with_got : JobPile → Option (Job × List Job) → ℤ × (Job × JobPile)
with_got pkj none = (minus_one, (empty_job, pkj))
with_got pkj (some (got, js)) = (pos 1, (got, record { pile = js; count = pkj.count - 1 }))

-- The result, what is written to *dest, and the pile; with `none` it waits for a job.
unfoldable pub pkb_get_job : JobPile → Option (ℤ × (Job × JobPile))
unfolding get
pkb_get_job pkj = if pkj.count == 0 then none else some (with_got pkj (get pkj.pile))
