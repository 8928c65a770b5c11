-- ===== src/Streams/Alloc/Found.antt =====
-- pkm_alloc_be_conn() as a whole (libpagekite/pkmanager.c), with an eviction where there is one.
use libpagekite.Base.{
  ◌++◌, ℕ, ◌+◌, ◌^◌, ◌≤◌, ◌≡◌, ◌≢◌, refl, sym, ap, subst, ◌∙◌, inl, inr, false, Option, none, some,
  arith, if◌then◌else◌, Bytes, length, get_elem?, any, get_elem?-set_self, get_elem?-set_ne,
  Bool-cases, some_inj, pos, ltb_ℤ,
}
use libpagekite.Conn.{Wrote, set_status}
use libpagekite.Streams.{BackendConn, pkm_sid_shift, pkm_find_be_conn}
use libpagekite.Streams.Find.{get_elem?-lt}
use libpagekite.Streams.Io.{Loop, cls_read, cls_write, update_stream}
use libpagekite.Streams.Io.Update.{WritesReturn, Does, update_stream-Updated}
use libpagekite.Streams.Alloc.{
  Search, free, oldest, search_slot, taken, taken_over, with_slot, may_evict, closed_in, evict,
  pkm_alloc_be_conn,
}
use libpagekite.Streams.Alloc.Laws.{
  is_free, Sees, search_slot-Sees, no_free_slot, taken-is_stream, taken_over-is_stream, Takes,
  with_slot-at, with_slot-Takes, Takes-found,
}

module _ {W : Type 0} (write : W → Bytes → W × Wrote) (rounds : ℕ)
    (returns : WritesReturn write rounds) where
  -- pkm_update_io() for a stream leaves the other slots alone, whatever its socket is.
  record Keeps (k : ℕ) (s : Loop W) (r : Loop W × ℕ) : Type 0 where
    slot : (pkb : BackendConn) × (get_elem? r.0.be_conns k ≡ some pkb)
    others : (j : ℕ) → k ≢ j → get_elem? r.0.be_conns j ≡ get_elem? s.be_conns j

  update_stream-Keeps :
      (k : ℕ) (pkb : BackendConn) (s : Loop W)
      → get_elem? s.be_conns k ≡ some pkb
      → Does write rounds (Keeps k s) (update_stream write rounds 0 k s)
  update_stream-Keeps k pkb s place = elim (Bool-cases (ltb_ℤ (pos 0) pkb.conn.sockfd)) [
    | inl live ↦
        let (r, e, u) =
          update_stream-Updated write rounds returns 0 k pkb s (omega arith) place live in
        (r, e, record { slot = (u.stream, u.place); others = u.others })
    | inr dead ↦
        unfold update_stream in
        rw (place, dead) ((s, 0), refl, record { slot = (pkb, place); others = λ j ne. refl })
  ]

  evict-Takes :
      (now : ℕ) (fe : Option ℕ) (sid : Bytes) (k : ℕ) (pkb : BackendConn) (s : Loop W)
      → get_elem? s.be_conns k ≡ some pkb
      → Does write rounds {A = Loop W × Option ℕ}
          (λ r. (r.1 ≡ some k) × Takes fe sid k s.be_conns r.0.be_conns)
          (evict write rounds now fe sid k s)
  unfolding evict
  evict-Takes now fe sid k pkb s place =
      let closing = λ (b : BackendConn). record b {
        conn = set_status cls_read (set_status cls_write b.conn);
      } in
      let s1 = record s { be_conns = with_slot k closing s.be_conns } in
      let lt = get_elem?-lt s.be_conns k place in
      let at1 : get_elem? s1.be_conns k ≡ some (closing pkb) =
        ap (λ l. get_elem? l k) (with_slot-at k closing pkb s.be_conns place)
        ∙ get_elem?-set_self s.be_conns k (closing pkb) lt in
      let ((s2, n), e, keeps) = update_stream-Keeps k (closing pkb) s1 at1 in
      let (victim, at2) = keeps.slot in
      let t =
        with_slot-Takes fe sid k (taken_over now fe sid) victim s2.be_conns
          (taken_over-is_stream now fe sid) at2 in
      rw (evict, e)
        (
          _,
          refl,
          (
            refl,
            record {
              slot = t.slot;
              others = λ j ne.
                  t.others j ne
                  ∙ keeps.others j ne
                  ∙ ap (λ l. get_elem? l j) (with_slot-at k closing pkb s.be_conns place)
                  ∙ get_elem?-set_ne s.be_conns (closing pkb) ne;
            },
          ),
        )

  -- What pkm_alloc_be_conn() did: it took a slot for the stream, or nothing.
  abbrev pub Allocates : Option ℕ → Bytes → Loop W → Loop W × Option ℕ → Type 0
  Allocates fe sid s (s', none) = s'.be_conns ≡ s.be_conns
  Allocates fe sid s (s', some k) =
      (pkm_find_be_conn fe sid s'.be_conns ≡ some k)
      × ((j : ℕ) → k ≢ j → get_elem? s'.be_conns j ≡ get_elem? s.be_conns j)

  -- If pkc_write() returns and the stream is not in the table, then pkm_alloc_be_conn() returns; if it
  -- returns a slot, then pkm_find_be_conn() finds the stream in that slot, and the other slots are what
  -- they were; if it returns NULL, then the table is what it was.
  pub pkm_alloc_be_conn-Allocates :
      (now idle : ℕ) (fe : Option ℕ) (sid : Bytes) (s : Loop W)
      → pkm_find_be_conn fe sid s.be_conns ≡ none
      → Does write rounds (Allocates fe sid s) (pkm_alloc_be_conn write rounds now idle fe sid s)
  unfolding pkm_alloc_be_conn
  pkm_alloc_be_conn-Allocates now idle fe sid s new =
      let shift = pkm_sid_shift sid in
      by_search (search_slot shift s.be_conns (length s.be_conns) 0 now none)
        (search_slot-Sees s.be_conns shift (length s.be_conns) 0 now none (omega arith) tt)
    where
      allocated :
          (k : ℕ) (r : Loop W × Option ℕ)
          → r.1 ≡ some k
          → Takes fe sid k s.be_conns r.0.be_conns
          → Allocates fe sid s r
      allocated k (s', none) is t = cc
      allocated k (s', some n) is t = (
        Takes-found fe sid k s.be_conns s'.be_conns t new ∙ sym is,
        λ j ne. t.others j (subst (λ m. m ≢ j) (some_inj is) ne),
      )

      by_search :
          (r : Search)
          → Sees s.be_conns (pkm_sid_shift sid) 0 r
          → Does write rounds (Allocates fe sid s) (elim r as (λ _. Option (Loop W × Option ℕ)) [
            | free k ↦ some (
              record s {
                be_conns = with_slot k (taken now fe sid) s.be_conns;
                actions = s.actions ++ closed_in now k s.be_conns;
              },
              some k,
            )
            | oldest none ↦ some (s, none)
            | oldest (some k) ↦ elim (get_elem? s.be_conns k) as (λ _. Option (Loop W × Option ℕ)) [
              | none ↦ some (s, none)
              | some pkb ↦
                  let evicted = evict write rounds now fe sid k s in
                  if may_evict now idle pkb then evicted else some (s, none)
            ]
          ])
      by_search (free k) (pkb, place, _) =
          let t =
            with_slot-Takes fe sid k (taken now fe sid) pkb s.be_conns (taken-is_stream now fe sid)
              place in
          (_, refl, (Takes-found fe sid k s.be_conns _ t new, t.others))
      by_search (oldest none) _ = (_, refl, refl)
      by_search (oldest (some k)) (_, (pkb, place)) = elim (Bool-cases (may_evict now idle pkb)) [
        | inr not_now ↦ rw (place, not_now) (_, refl, refl)
        | inl now' ↦
            let (r, e, (is, t)) = evict-Takes now fe sid k pkb s place in
            rw (place, now', e) (r, refl, allocated k r is t)
      ]

  -- pkm_alloc_be_conn() returns NULL only if every slot is allocated, as far as the sum of the SID's hash
  -- and the table's size fits an unsigned int.
  pub pkm_alloc_be_conn-full :
      (now idle : ℕ) (fe : Option ℕ) (sid : Bytes) (s s' : Loop W)
      → pkm_sid_shift sid + length s.be_conns ≤ 2 ^ 32
      → pkm_alloc_be_conn write rounds now idle fe sid s ≡ some (s', none)
      → any is_free s.be_conns ≡ false
  unfolding pkm_alloc_be_conn
  pkm_alloc_be_conn-full now idle fe sid s s' small full =
      let shift = pkm_sid_shift sid in
      by_search (search_slot shift s.be_conns (length s.be_conns) 0 now none) refl
        (search_slot-Sees s.be_conns shift (length s.be_conns) 0 now none (omega arith) tt)
    where
      by_search :
          (r : Search)
          → search_slot (pkm_sid_shift sid) s.be_conns (length s.be_conns) 0 now none ≡ r
          → Sees s.be_conns (pkm_sid_shift sid) 0 r
          → any is_free s.be_conns ≡ false
      by_search (free k) e _ =
          let h : some (
            record s {
              be_conns = with_slot k (taken now fe sid) s.be_conns;
              actions = s.actions ++ closed_in now k s.be_conns;
            },
            some k,
          )
              ≡ some (s', none) =
            rw (pkm_alloc_be_conn, e) at full in
          cc
      by_search (oldest o) e h = no_free_slot s.be_conns (pkm_sid_shift sid) o small h
