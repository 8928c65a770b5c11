-- ===== src/Tunnels/Disconnect/Laws.antt =====
-- pkm_disconnect_unused() (libpagekite/pkmanager.c) closes the unused tunnels, but never all live ones.
use libpagekite.Base.{
  ℕ, suc, ◌+◌, ◌*◌, ◌≤◌, ◌≡◌, refl, inl, inr, Bool, true, false, not, ◌&&◌, List, [], ◌∷◌, countp,
  arith, ltb, leb, if◌then◌else◌, ℤ, pos, ◌-ℤ◌, to_int, Bool-cases,
}
use libpagekite.Tunnels.{Tunnel}
use libpagekite.Tunnels.Disconnect.{
  Stream, is_busy, is_live, is_idle, Counts, no_counts, closed, visit, walk, Outcome,
  pkm_disconnect_unused,
}

module _ (streams : List Stream) (window : ℤ) where
  -- Live, idle, and without a live stream.
  abbrev pub is_unused : ℕ → Tunnel → Bool
  is_unused i fe = is_live fe && (is_idle window fe && not (is_busy streams i))

  -- How many of the tunnels are unused, and the table with those closed; `i` is the head's index.
  abbrev pub unused : ℕ → List Tunnel → ℕ
  unused i [] = 0
  unused i (fe ∷ fes) = (if is_unused i fe then 1 else 0) + unused (suc i) fes

  abbrev pub close_unused : ℕ → ℕ → List Tunnel → List Tunnel
  close_unused now i [] = []
  close_unused now i (fe ∷ fes) =
      (if is_unused i fe then closed now fe else fe) ∷ close_unused now (suc i) fes

  -- The first pass counts.
  record Counted (c : Counts) (i : ℕ) (fes : List Tunnel) (r : Counts × List Tunnel) : Type 0 where
    live : r.0.live ≡ c.live + countp is_live fes
    disconnect : r.0.disconnect ≡ c.disconnect + unused i fes
    disconnected : r.0.disconnected ≡ c.disconnected
    same : r.1 ≡ fes

  walk-Counted :
      (now i : ℕ) (c : Counts) (fes : List Tunnel)
      → Counted c i fes (walk false streams window now i c fes)
  unfolding walk
  walk-Counted now i c [] = ground arith
  walk-Counted now i c (fe ∷ fes) =
      let v = visit false (is_busy streams i) window now c fe in
      let rest = walk-Counted now (suc i) v.0 fes in
      unfold visit in
      record {
        live = ground (arith, rest.live);
        disconnect = ground (arith, rest.disconnect);
        disconnected = ground (arith, rest.disconnected);
        same = ground (arith, rest.same);
      }

  -- The second pass closes.
  record Closed (now : ℕ) (c : Counts) (i : ℕ) (fes : List Tunnel) (r : Counts × List Tunnel)
      : Type 0 where
    live : r.0.live ≡ c.live + countp is_live fes
    disconnected : r.0.disconnected ≡ c.disconnected + unused i fes
    tunnels : r.1 ≡ close_unused now i fes

  walk-Closed :
      (now i : ℕ) (c : Counts) (fes : List Tunnel)
      → c.disconnect ≡ 0
      → Closed now c i fes (walk true streams window now i c fes)
  unfolding walk
  walk-Closed now i c [] z = ground arith
  walk-Closed now i c (fe ∷ fes) z =
      let v = visit true (is_busy streams i) window now c fe in
      let rest = walk-Closed now (suc i) v.0 fes (unfold visit in ground arith) in
      unfold visit in
      record {
        live = ground (arith, rest.live);
        disconnected = ground (arith, rest.disconnected);
        tunnels = ground (arith, rest.tunnels);
      }

  closed-is_live : (now : ℕ) (fe : Tunnel) → is_live (closed now fe) ≡ false
  unfolding is_live closed
  closed-is_live now fe = ground arith

  countp-close_unused :
      (now i : ℕ) (fes : List Tunnel)
      → countp is_live (close_unused now i fes) + unused i fes ≡ countp is_live fes
  countp-close_unused now i [] = refl
  countp-close_unused now i (fe ∷ fes) =
      ground (arith, countp-close_unused now (suc i) fes, closed-is_live now fe)

-- What is left and reported, if `window` is the ping window.
pub record Disconnects (now : ℕ) (streams : List Stream) (window : ℤ) (fes : List Tunnel)
    (r : Outcome) : Type 0 where
  pub tunnels : r.tunnels ≡ (
      if ltb (unused streams window 0 fes) (countp is_live fes)
      then close_unused streams window now 0 fes
      else fes)
  pub counted : pos (r.disconnected + countp is_live r.tunnels) ≡ pos (countp is_live fes)
  pub reported : r.live_tunnels ≡ pos (countp is_live r.tunnels)
  pub keeps_one : (if leb 1 (countp is_live fes) then 1 else 0) ≤ countp is_live r.tunnels

-- pkm_disconnect_unused() closes the live tunnels that are idle and carry no live stream, and no other
-- tunnel, or none at all if those are all live ones. It returns how many it closed, reports how many
-- live ones are left, and leaves one if there was one.
pub pkm_disconnect_unused-Disconnects :
    (now interval : ℕ) (streams : List Stream) (fes : List Tunnel)
    → Disconnects now streams
        (to_int (pos now -ℤ pos (4 * interval)))
        fes
        (pkm_disconnect_unused now interval streams fes)
unfolding pkm_disconnect_unused
pkm_disconnect_unused-Disconnects now interval streams fes =
    let window = to_int (pos now -ℤ pos (4 * interval)) in
    let first = walk-Counted streams window now 0 no_counts fes in
    let second = walk-Closed streams window now 0 no_counts fes refl in
    let total = countp-close_unused streams window now 0 fes in
    let same = first.same in
    elim (Bool-cases (ltb (unused streams window 0 fes) (countp is_live fes))) [
      | inl some_left ↦
          let test : leb (walk false streams window now 0 no_counts fes).0.live
                (walk false streams window now 0 no_counts fes).0.disconnect
              ≡ false =
            ground (arith, first.live, first.disconnect) in
          rw (test, same)
            (record {
              tunnels = ground (arith, second.tunnels);
              counted = ground (arith, second.tunnels, second.disconnected, total);
              reported = ground (arith, second.tunnels, second.live, second.disconnected, total);
              keeps_one = ground (arith, second.tunnels, total);
            })
      | inr all ↦
          let test : leb (walk false streams window now 0 no_counts fes).0.live
                (walk false streams window now 0 no_counts fes).0.disconnect
              ≡ true =
            ground (arith, first.live, first.disconnect) in
          rw (test, same)
            (record {
              tunnels = ground arith;
              counted = ground (arith, first.disconnected);
              reported = ground (arith, first.live, first.disconnected);
              keeps_one = ground arith;
            })
    ]
