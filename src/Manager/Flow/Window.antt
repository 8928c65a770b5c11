-- ===== src/Manager/Flow/Window.antt =====
-- The sending window (libpagekite/pkmanager.c) stays within its bounds, and moves the right way.
use libpagekite.Base.{
  if◌then◌else◌, inl, inr, Bool-cases, ◌==◌, ℕ, ◌+◌, ◌-◌, ◌/◌, ◌^◌, ◌≤◌, ◌<◌, ◌≡◌, false, arith,
  ltb, ◌==◌, ℤ, pos, ltb_ℤ, min, max, minus_one,
}
use libpagekite.Conn.{Conn, conn_window_size_kb_initial}
use libpagekite.Manager.Flow.{
  to_size, reduced, throttled, measured, reported, clamped, chunk_window, tunnel_blocked,
  conn_window_size_kb_maximum, conn_window_size_kb_minimum,
}

-- The window is one that the code sets.
abbrev pub InBounds : Conn → Type 0
InBounds c =
    (conn_window_size_kb_minimum ≤ c.send_window_kb)
    × (c.send_window_kb ≤ conn_window_size_kb_maximum)

reduced_lem :
    (part w : ℕ) → 2 ≤ part → 1 + w / part ≤ w → w < 2 ^ 64 → reduced part w + (1 + w / part) ≡ w
unfolding reduced to_size
reduced_lem part w two le small = ground arith

clamped-InBounds : (c : Conn) → InBounds (clamped c)
unfolding clamped
clamped-InBounds c = ground arith

-- What a chunk does to a window within the bounds. It stays within the bounds, whatever the chunk
-- reports. A chunk that reports no progress makes it smaller by a fifth and one, down to the least, if it
-- throttles, and leaves it alone if not. A chunk that does not throttle leaves it alone if it
-- reports no progress; if it does, the initial window becomes the measured one, within the bounds, and
-- another one grows by one, up to the most.
pub chunk_window-InBounds :
    (spd kb : ℤ) (c : Conn)
    → InBounds c
    → InBounds (chunk_window spd kb c)
      × ((chunk_window spd minus_one c).send_window_kb ≡ (
          if ltb_ℤ (pos 0) spd
          then max (c.send_window_kb - (1 + c.send_window_kb / 5)) conn_window_size_kb_minimum
          else c.send_window_kb))
      × ((chunk_window minus_one kb c).send_window_kb ≡ (
          if ltb_ℤ (pos 0) kb
          then (if c.send_window_kb == conn_window_size_kb_initial
              then min
                  (max (measured c.read_kb (to_size kb)) conn_window_size_kb_minimum)
                  conn_window_size_kb_maximum
              else min (c.send_window_kb + 1) conn_window_size_kb_maximum)
          else c.send_window_kb))
unfolding chunk_window
chunk_window-InBounds spd kb c (low, high) =
    (clamped-InBounds (reported kb (throttled spd c)), only_throttled, only_reported)
  where
    within : (c : Conn) → InBounds c → (clamped c).send_window_kb ≡ c.send_window_kb
    within c (low, high) = unfold clamped in ground arith

    only_throttled : (clamped (reported minus_one (throttled spd c))).send_window_kb ≡ (
        if ltb_ℤ (pos 0) spd
        then max (c.send_window_kb - (1 + c.send_window_kb / 5)) conn_window_size_kb_minimum
        else c.send_window_kb)
    only_throttled =
        let w = c.send_window_kb in
        let fifth : reduced 5 w ≡ w - (1 + w / 5) =
          omega (arith, reduced_lem 5 w (omega arith) (omega arith) (omega arith)) in
        let no_more : ltb conn_window_size_kb_maximum (w - (1 + w / 5)) ≡ false = ground arith in
        unfold clamped reported throttled in
        elim (Bool-cases (ltb_ℤ (pos 0) spd)) [
          | inl h ↦ rw (h, fifth, no_more) (ground arith)
          | inr h ↦ rw h (ground arith)
        ]

    only_reported : (clamped (reported kb (throttled minus_one c))).send_window_kb ≡ (
        if ltb_ℤ (pos 0) kb
        then (if c.send_window_kb == conn_window_size_kb_initial
            then min
                (max (measured c.read_kb (to_size kb)) conn_window_size_kb_minimum)
                conn_window_size_kb_maximum
            else min (c.send_window_kb + 1) conn_window_size_kb_maximum)
        else c.send_window_kb)
    only_reported =
        let w = c.send_window_kb in
        let one : to_size (pos (w + 1)) ≡ w + 1 = unfold to_size in omega arith in
        unfold clamped reported throttled in
        elim (Bool-cases (ltb_ℤ (pos 0) kb)) [
          | inr h ↦ rw h (ground arith)
          | inl h ↦ elim (Bool-cases (w == conn_window_size_kb_initial)) [
            | inl first ↦ rw (h, first) (ground arith)
            | inr later ↦ rw (h, later, one) (ground arith)
          ]
        ]

-- A tunnel that blocks makes a window within the bounds smaller by a third and one, down to the least.
pub tunnel_blocked-InBounds :
    (c : Conn)
    → InBounds c
    → InBounds (tunnel_blocked c)
      × ((tunnel_blocked c).send_window_kb
          ≡ max (c.send_window_kb - (1 + c.send_window_kb / 3)) conn_window_size_kb_minimum)
unfolding tunnel_blocked
tunnel_blocked-InBounds c (low, high) =
    ground (arith, reduced_lem 3 c.send_window_kb (omega arith) (omega arith) (omega arith))
