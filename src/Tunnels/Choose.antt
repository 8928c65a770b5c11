-- ===== src/Tunnels/Choose.antt =====
-- libpagekite/pkblocker.c: pkb_clear_transient_flags() and pkb_choose_tunnels(). A pointer to a tunnel
-- is its index in the table.
pub mod Fast
pub mod Wanted
use libpagekite.Base.{
  ℕ, zero, suc, ◌+◌, ◌*◌, Bool, true, false, not, ◌&&◌, ◌||◌, List, [], ◌∷◌, map, any, Option, none,
  some, ltb, ◌==◌, if◌then◌else◌, ℤ, pos, ltb_ℤ,
}
use libpagekite.Tunnels.{Tunnel, is_set, is_frontend}

unfoldable pub cleared : Tunnel → Tunnel
cleared fe = record fe { rejected = false; lame = false; is_fast = false }

unfoldable pub pkb_clear_transient_flags : List Tunnel → List Tunnel
unfolding cleared
pkb_clear_transient_flags = map cleared

-- "Clear WANTED flag"
unfoldable pub unmarked : Tunnel → Tunnel
unmarked fe = if is_frontend fe then (record fe { wanted = false; is_fast = false }) else fe

unfoldable pub prio : Tunnel → ℕ
prio fe = fe.priority + 25 * fe.error_count

-- All that the search asks of a tunnel but that it is the first or the fastest.
unfoldable pub is_candidate : Tunnel → Bool
is_candidate fe =
    is_frontend fe
    && (not fe.changing && (not (fe.priority == 0) && not (fe.is_fast || (fe.rejected || fe.lame))))

-- The search for the fastest: `i` is the index of the head, `best` is highpri_fe, `highpri` its priority.
unfoldable pub fastest : ℕ → Option ℕ → ℕ → List Tunnel → Option ℕ
fastest i best highpri [] = best
fastest i best highpri (fe ∷ fes) =
    let better = is_candidate fe && (not (is_set best) || ltb (prio fe) highpri) in
    fastest (suc i) (if better then some i else best) (if better then prio fe else highpri) fes

unfoldable pub mark_fast : ℕ → List Tunnel → List Tunnel
mark_fast i [] = []
mark_fast zero (fe ∷ fes) = (record fe { is_fast = true }) ∷ fes
mark_fast (suc i) (fe ∷ fes) = fe ∷ mark_fast i fes

unfoldable pub mark_if : Option ℕ → List Tunnel → List Tunnel
mark_if none fes = fes
mark_if (some i) fes = mark_fast i fes

-- "Choose N fastest"
unfoldable pub choose_fast : ℕ → List Tunnel → List Tunnel
unfolding mark_if fastest
choose_fast zero fes = fes
choose_fast (suc n) fes = choose_fast n (mark_if (fastest 0 none 1024000 fes) fes)

-- "If it's nailed up or fast: we want it." "Rejecting us or going lame overrides other concerns."
unfoldable pub decided : Tunnel → Tunnel
decided fe =
    let by_speed = record fe { wanted = fe.nailed_up || fe.is_fast } in
    let fe' = if fe.rejected || fe.lame then record by_speed { wanted = false } else by_speed in
    if is_frontend fe then fe' else fe

-- "Count how many we're aiming for": if there is one.
unfoldable pub is_aim : Tunnel → Bool
is_aim fe = is_frontend fe && (fe.wanted || fe.in_dns)

-- "accept anything non-broken at this point"
unfoldable pub is_usable : Tunnel → Bool
is_usable fe = is_frontend fe && not (fe.rejected || fe.lame)

unfoldable pub want_first_usable : List Tunnel → List Tunnel
want_first_usable [] = []
want_first_usable (fe ∷ fes) =
    let rest = want_first_usable fes in
    if is_usable fe then (record fe { wanted = true }) ∷ fes else fe ∷ rest

-- "Let's at least not disconnect."
unfoldable pub is_connected : Tunnel → Bool
is_connected fe = is_frontend fe && ltb_ℤ (pos 0) fe.sockfd

unfoldable pub kept : Tunnel → Tunnel
kept fe = if is_connected fe then record fe { wanted = true } else fe

unfoldable pub pkb_choose_tunnels : ℕ → List Tunnel → List Tunnel
unfolding unmarked choose_fast decided
pkb_choose_tunnels want_spare_frontends tunnels =
    let fes = map decided (choose_fast (want_spare_frontends + 1) (map unmarked tunnels)) in
    if any is_aim fes
    then fes
    else if any is_usable fes
    then want_first_usable fes
    else map kept fes
