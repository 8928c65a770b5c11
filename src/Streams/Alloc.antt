-- ===== src/Streams/Alloc.antt =====
-- libpagekite/pkmanager.c: pkm_alloc_be_conn(). The log lines are left out.
pub mod Laws
pub mod Found
use Prim.Native.Nat.{bit_and}
use libpagekite.Base.{
  ℕ, zero, suc, ◌+◌, ◌-◌, ◌%◌, ◌^◌, Bool, true, false, not, ◌&&◌, ◌||◌, List, [], ◌∷◌, ◌++◌, Option,
  none, some, ltb, leb, ◌==◌, if◌then◌else◌, Bytes, length, get_elem?, set, take,
}
use libpagekite.Conn.{Conn, Wrote, set_status, pkc_reset_conn}
use libpagekite.Streams.{
  BackendConn, has_status, conn_status_allocated, be_max_sid_size, pkm_sid_shift,
}
use libpagekite.Streams.Io.{Action, close, Loop, cls_read, cls_write, update_stream}

abbrev pub conn_status_listening : ℕ
conn_status_listening = 2 ^ 10

abbrev pub conn_status_changing : ℕ
conn_status_changing = 2 ^ 11

-- What the search comes to: a free slot, or the oldest stream that may be evicted, if there is one.
pub data Search : Type 0 where
  free : ℕ → Search
  oldest : Option ℕ → Search

-- The loop, with the rounds left; i + shift is an unsigned int. Each index is in the table.
unfoldable pub search_slot : ℕ → List BackendConn → ℕ → ℕ → ℕ → Option ℕ → Search
search_slot shift be_conns zero i max_age found = oldest found
search_slot shift be_conns (suc rounds) i max_age found =
    let at = (i + shift) % 2 ^ 32 % length be_conns in
    elim (get_elem? be_conns at) [
      | none ↦ oldest found
      | some pkb ↦
          let c = pkb.conn in
          let older =
            leb c.activity max_age
            && not (has_status conn_status_changing c || has_status conn_status_listening c) in
          let next =
            search_slot shift be_conns rounds (suc i) (if older then c.activity else max_age)
              (if older then some at else found) in
          if has_status conn_status_allocated c then next else free at
    ]

-- A slot that was free.
unfoldable pub taken : ℕ → Option ℕ → Bytes → BackendConn → BackendConn
taken now fe sid pkb = record {
  sid = take be_max_sid_size sid;
  tunnel = fe;
  conn = set_status conn_status_changing (pkc_reset_conn now conn_status_allocated pkb.conn).0;
}

-- A slot whose stream was evicted.
unfoldable pub taken_over : ℕ → Option ℕ → Bytes → BackendConn → BackendConn
taken_over now fe sid pkb = record {
  sid = take be_max_sid_size sid;
  tunnel = fe;
  conn = (pkc_reset_conn now conn_status_allocated pkb.conn).0;
}

-- Writes a slot of the table.
unfoldable pub with_slot : ℕ → (BackendConn → BackendConn) → List BackendConn → List BackendConn
with_slot k f be_conns = elim (get_elem? be_conns k) [
  | none ↦ be_conns
  | some pkb ↦ set be_conns k (f pkb)
]

-- The descriptor that pkc_reset_conn() closes, if the slot still has one.
unfoldable pub closed_in : ℕ → ℕ → List BackendConn → List Action
closed_in now k be_conns = elim (get_elem? be_conns k) [
  | none ↦ []
  | some pkb ↦ elim (pkc_reset_conn now conn_status_allocated pkb.conn).1 [
    | none ↦ []
    | some fd ↦ close fd ∷ []
  ]
]

-- "evicting": the idlest stream has been idle for longer than the time that is set, if one is.
unfoldable pub may_evict : ℕ → ℕ → BackendConn → Bool
may_evict now conn_eviction_idle_s pkb =
    not (conn_eviction_idle_s == 0) && ltb conn_eviction_idle_s (now - pkb.conn.activity)

module _ {W : Type 0} (write : W → Bytes → W × Wrote) (rounds : ℕ) where
  -- The idlest stream is closed in both directions, and its slot taken over.
  unfoldable pub evict : ℕ → Option ℕ → Bytes → ℕ → Loop W → Option (Loop W × Option ℕ)
  unfolding with_slot taken_over closed_in
  evict now fe sid k s =
      let closing = λ (pkb : BackendConn). record pkb {
        conn = set_status cls_read (set_status cls_write pkb.conn);
      } in
      elim (update_stream write rounds 0 k
        (record s { be_conns = with_slot k closing s.be_conns })) [
          | none ↦ none
          | some (s1, _) ↦ some (
            record s1 {
              be_conns = with_slot k (taken_over now fe sid) s1.be_conns;
              actions = s1.actions ++ closed_in now k s1.be_conns;
            },
            some k,
          )
        ]

  -- pkm_alloc_be_conn() for the tunnel `fe`. If a stream is evicted, then the connection in `s` is that of
  -- the stream's own tunnel.
  unfoldable pub pkm_alloc_be_conn : ℕ → ℕ → Option ℕ → Bytes → Loop W → Option (Loop W × Option ℕ)
  unfolding search_slot evict may_evict with_slot taken closed_in
  pkm_alloc_be_conn now conn_eviction_idle_s fe sid s =
      elim (search_slot (pkm_sid_shift sid) s.be_conns (length s.be_conns) 0 now none) [
        | free k ↦ some (
          record s {
            be_conns = with_slot k (taken now fe sid) s.be_conns;
            actions = s.actions ++ closed_in now k s.be_conns;
          },
          some k,
        )
        | oldest none ↦ some (s, none)
        | oldest (some k) ↦ elim (get_elem? s.be_conns k) [
          | none ↦ some (s, none)
          | some pkb ↦
              let evicted = evict now fe sid k s in
              if may_evict now conn_eviction_idle_s pkb then evicted else some (s, none)
        ]
      ]
