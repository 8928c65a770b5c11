-- ===== src/Streams/Alloc/Laws.antt =====
-- pkm_alloc_be_conn() (libpagekite/pkmanager.c): the slot that it takes is the one that is found.
use libpagekite.Base.{
  ℕ, zero, suc, ◌+◌, ◌%◌, ◌^◌, ◌≤◌, ◌<◌, ◌≡◌, ◌≢◌, refl, sym, ap, subst, ◌∙◌, inl, inr, ◌⊎◌, ◌-◌,
  Bool, true, false, not, ◌&&◌, ◌||◌, List, [], ◌∷◌, Option, none, some, arith, leb, if◌then◌else◌,
  OfSome, Bytes, length, get_elem?, set, take, any, get_elem?-set_self, get_elem?-set_ne,
  Bool-cases, some_inj, dec_lt,
}
use native.Mathlib.Nat.{mod-add-mod}
use Prim.Native.Nat.{bit_and}
use libpagekite.Base.Bits.{bit, bit-bit_or, bit-pow, bit-le_one}
use libpagekite.Conn.{Conn, set_status, pkc_reset_conn, conn_status_bits}
use libpagekite.Streams.{
  BackendConn, has_status, conn_status_allocated, be_max_sid_size, same_front, same_tunnel,
  is_stream, pkm_find_be_conn,
}
use libpagekite.Streams.Find.{
  get_elem?-some, get_elem?-lt, FailsAt, any-FailsAt, FailsAt-any, rotation, Finds,
  pkm_find_be_conn-Finds,
}
use libpagekite.Streams.Io.Status.{has_status-bit, bit-set_status}
use libpagekite.Streams.Alloc.{
  Search, free, oldest, search_slot, taken, taken_over, with_slot, conn_status_changing,
  conn_status_listening,
}

unfoldable pub is_free : BackendConn → Bool
is_free pkb = not (has_status conn_status_allocated pkb.conn)

-- The search, and what it has seen.
module _ (be_conns : List BackendConn) (shift : ℕ) where
  -- A place in the table.
  abbrev pub InTable : ℕ → Type 0
  InTable k = (pkb : BackendConn) × (get_elem? be_conns k ≡ some pkb)

  abbrev pub Sees : ℕ → Search → Type 0
  Sees i (free k) = (pkb : BackendConn) × (get_elem? be_conns k ≡ some pkb) × (is_free pkb ≡ true)
  Sees i (oldest o) =
      ((j : ℕ)
        → i ≤ j
        → j < length be_conns
        → FailsAt is_free be_conns ((j + shift) % 2 ^ 32 % length be_conns))
      × OfSome InTable o

  Sees-step :
      (i : ℕ) (pkb : BackendConn) (r : Search)
      → get_elem? be_conns ((i + shift) % 2 ^ 32 % length be_conns) ≡ some pkb
      → is_free pkb ≡ false
      → Sees (suc i) r
      → Sees i r
  Sees-step i pkb (free k) place full h = h
  Sees-step i pkb (oldest o) place full (all, o_in) = (
    λ j le lt a at. elim (dec_lt i j) [
      | yes later ↦ all j (omega arith) lt a at
      | no same ↦
          let e : j ≡ i = omega arith in
          let found : some a ≡ some pkb =
            sym at
            ∙ ap (λ n. get_elem? be_conns ((n + shift) % 2 ^ 32 % length be_conns)) e
            ∙ place in
          ap is_free (some_inj found) ∙ full
    ],
    o_in,
  )

  -- The step at the slot.
  search_slot-suc :
      (rounds i max_age : ℕ) (found : Option ℕ) (pkb : BackendConn)
      → get_elem? be_conns ((i + shift) % 2 ^ 32 % length be_conns) ≡ some pkb
      → search_slot shift be_conns (suc rounds) i max_age found ≡ (
          let at = (i + shift) % 2 ^ 32 % length be_conns in
          let c = pkb.conn in
          let older =
            leb c.activity max_age
            && not (has_status conn_status_changing c || has_status conn_status_listening c) in
          if has_status conn_status_allocated c
          then search_slot shift be_conns rounds
              (suc i)
              (if older then c.activity else max_age)
              (if older then some at else found)
          else free at)
  unfolding search_slot
  search_slot-suc rounds i max_age found pkb place = rw (search_slot, place) refl

  pub search_slot-Sees :
      (rounds i max_age : ℕ) (found : Option ℕ)
      → i + rounds ≡ length be_conns
      → OfSome InTable found
      → Sees i (search_slot shift be_conns rounds i max_age found)
  unfolding search_slot
  search_slot-Sees zero i max_age found e h = (λ j le lt. absurd (omega arith), h)
  search_slot-Sees (suc rounds) i max_age found e h =
      let at = (i + shift) % 2 ^ 32 % length be_conns in
      let (pkb, place) = get_elem?-some be_conns at (omega arith) in
      let c = pkb.conn in
      let older =
        leb c.activity max_age
        && not (has_status conn_status_changing c || has_status conn_status_listening c) in
      let rest =
        search_slot-Sees rounds (suc i) (if older then c.activity else max_age)
          (if older then some at else found) (omega arith) (kept older at pkb place) in
      subst (Sees i) (sym (search_slot-suc rounds i max_age found pkb place))
        (elim (Bool-cases (has_status conn_status_allocated c)) [
          | inl busy ↦ rw busy (Sees-step i pkb _ place (unfold is_free in rw busy refl) rest)
          | inr not_busy ↦ rw not_busy (pkb, place, unfold is_free in rw not_busy refl)
        ])
    where
      kept :
          (b : Bool) (at : ℕ) (pkb : BackendConn)
          → get_elem? be_conns at ≡ some pkb
          → OfSome InTable (if b then some at else found)
      kept true at pkb place = (pkb, place)
      kept false at pkb place = h

  pub no_free_slot :
      (o : Option ℕ)
      → shift + length be_conns ≤ 2 ^ 32
      → Sees 0 (oldest o)
      → any is_free be_conns ≡ false
  no_free_slot o small (all, _) = any-FailsAt is_free be_conns λ k lt.
      let (j, j_lt, e) = rotation (length be_conns) (shift % length be_conns) k (omega arith) lt in
      let straight : (j + shift) % 2 ^ 32 ≡ j + shift = omega arith in
      let wrapped : (j + shift) % length be_conns
          ≡ (j + shift % length be_conns) % length be_conns =
        ap (λ n. n % length be_conns) (omega arith)
        ∙ sym (mod-add-mod shift (length be_conns) j)
        ∙ ap (λ n. n % length be_conns) (omega arith) in
      subst (FailsAt is_free be_conns) (ap (λ n. n % length be_conns) straight ∙ wrapped ∙ e)
        (all j (omega arith) j_lt)

same_front-take : (n : ℕ) (s : Bytes) → same_front n (take n s) s ≡ true
unfolding same_front
same_front-take zero s = refl
same_front-take (suc n) [] = refl
same_front-take (suc n) (b ∷ s) = ground (arith, same_front-take n s)

same_tunnel_refl : (t : Option ℕ) → same_tunnel t t ≡ true
unfolding same_tunnel
same_tunnel_refl none = refl
same_tunnel_refl (some n) = ground arith

reset-allocated :
    (now : ℕ) (c : Conn) → bit 7 (pkc_reset_conn now conn_status_allocated c).0.status ≡ 1
unfolding pkc_reset_conn
reset-allocated now c = omega (
  arith,
  bit-bit_or 7 (c.status - bit_and c.status conn_status_bits) conn_status_allocated,
  bit-pow 7 7,
  bit-le_one 7 (c.status - bit_and c.status conn_status_bits),
)

module _ (now : ℕ) (fe : Option ℕ) (sid : Bytes) where
  pub taken-is_stream : (pkb : BackendConn) → is_stream fe sid (taken now fe sid pkb) ≡ true
  unfolding is_stream taken
  taken-is_stream pkb =
      let c = (pkc_reset_conn now conn_status_allocated pkb.conn).0 in
      let c' = set_status conn_status_changing c in
      let on : has_status conn_status_allocated c' ≡ true =
        ground (arith, has_status-bit 7 c', bit-set_status 7 11 c, reset-allocated now pkb.conn) in
      rw (on, same_tunnel_refl fe, same_front-take be_max_sid_size sid) refl

  pub taken_over-is_stream :
      (pkb : BackendConn) → is_stream fe sid (taken_over now fe sid pkb) ≡ true
  unfolding is_stream taken_over
  taken_over-is_stream pkb =
      let c = (pkc_reset_conn now conn_status_allocated pkb.conn).0 in
      let on : has_status conn_status_allocated c ≡ true =
        ground (arith, has_status-bit 7 c, reset-allocated now pkb.conn) in
      rw (on, same_tunnel_refl fe, same_front-take be_max_sid_size sid) refl

-- The k-th slot is the stream's, and the others are what they were.
pub record Takes (fe : Option ℕ) (sid : Bytes) (k : ℕ) (before after : List BackendConn)
    : Type 0 where
  pub slot : (pkb : BackendConn) × (get_elem? after k ≡ some pkb) × (is_stream fe sid pkb ≡ true)
  pub others : (j : ℕ) → k ≢ j → get_elem? after j ≡ get_elem? before j

pub with_slot-at :
    (k : ℕ) (f : BackendConn → BackendConn) (pkb : BackendConn) (be_conns : List BackendConn)
    → get_elem? be_conns k ≡ some pkb
    → with_slot k f be_conns ≡ set be_conns k (f pkb)
unfolding with_slot
with_slot-at k f pkb be_conns place = rw (with_slot, place) refl

pub with_slot-Takes :
    (fe : Option ℕ) (sid : Bytes) (k : ℕ) (f : BackendConn → BackendConn) (pkb : BackendConn)
    (be_conns : List BackendConn)
    → ((b : BackendConn) → is_stream fe sid (f b) ≡ true)
    → get_elem? be_conns k ≡ some pkb
    → Takes fe sid k be_conns (with_slot k f be_conns)
with_slot-Takes fe sid k f pkb be_conns is place =
    rw (with_slot-at k f pkb be_conns place) (record {
      slot = (f pkb, get_elem?-set_self be_conns k (f pkb) (get_elem?-lt be_conns k place), is pkb);
      others = λ j ne. get_elem?-set_ne be_conns (f pkb) ne;
    })

nat_eq : (a b : ℕ) → (a ≡ b) ⊎ (a ≢ b)
nat_eq a b = elim (dec_lt a b) [
  | yes lt ↦ inr (λ e. absurd (omega arith))
  | no ge ↦ elim (dec_lt b a) [
    | yes gt ↦ inr (λ e. absurd (omega arith))
    | no le ↦ inl (omega arith)
  ]
]

-- A stream that was in no slot is found in the one that it took.
pub Takes-found :
    (fe : Option ℕ) (sid : Bytes) (k : ℕ) (before after : List BackendConn)
    → Takes fe sid k before after
    → pkm_find_be_conn fe sid before ≡ none
    → pkm_find_be_conn fe sid after ≡ some k
Takes-found fe sid k before after t new =
    found (pkm_find_be_conn fe sid after) (pkm_find_be_conn-Finds fe sid after)
  where
    absent : any (is_stream fe sid) before ≡ false
    absent = subst (Finds fe sid before) new (pkm_find_be_conn-Finds fe sid before)

    found : (r : Option ℕ) → Finds fe sid after r → r ≡ some k
    found none h =
        let (pkb, place, is) = t.slot in
        let not_there = FailsAt-any (is_stream fe sid) after h k pkb place in cc
    found (some j) (pkb, place, is) = elim (nat_eq k j) [
      | inl same ↦ ap some (sym same)
      | inr ne ↦
          let not_there =
            FailsAt-any (is_stream fe sid) before absent j pkb (sym (t.others j ne) ∙ place) in
          cc
    ]
