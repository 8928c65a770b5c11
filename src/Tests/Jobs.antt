-- ===== src/Tests/Jobs.antt =====
-- Examples for the pile of jobs (libpagekite/pkblocker.c), the source's own test among them.
use libpagekite.Base.{◌≡◌, refl, [], ◌∷◌, some, none, pos}
use libpagekite.Jobs.{
  Job, JobPile, quit, check_world, empty_job, empty_pile, pkb_add_job, pkb_get_job,
}
use libpagekite.Jobs.Bag.{start, add, take, IsBag, Reachable-IsBag}

abbrev leave : Job
leave = record { job = quit; int_data = pos 0; ptr_data = none }

abbrev look : Job
look = record { job = check_world; int_data = pos 5; ptr_data = some 9 }

abbrev one_job : JobPile
one_job = record { pile = look ∷ empty_job ∷ []; count = 1 }

abbrev two_jobs : JobPile
two_jobs = record { pile = look ∷ leave ∷ []; count = 2 }

abbrev one_left : JobPile
one_left = record { pile = empty_job ∷ leave ∷ []; count = 1 }

added_test : pkb_add_job one_job leave ≡ (pos 1, two_jobs)
unfolding pkb_add_job
added_test = refl

Reachable-IsBag_example : IsBag (leave ∷ look ∷ []) (look ∷ []) one_left
unfolding pkb_add_job pkb_get_job empty_pile
Reachable-IsBag_example = Reachable-IsBag (leave ∷ look ∷ []) (look ∷ []) one_left (
    take (leave ∷ look ∷ []) [] two_jobs one_left (pos 1) look
      (add (look ∷ []) [] one_job leave (add [] [] (empty_pile 2) look (start 2) refl refl) refl
        refl)
      refl)
