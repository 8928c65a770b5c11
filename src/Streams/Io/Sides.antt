-- ===== src/Streams/Io/Sides.antt =====
-- What pkm_update_io() (libpagekite/pkmanager.c) makes of the two directions of a stream.
use libpagekite.Base.{
  ℕ, Bool, ◌+◌, ◌≤◌, ◌≡◌, refl, true, false, not, ◌&&◌, ◌||◌, arith, ltb, ◌==◌, if◌then◌else◌,
  length, inl, inr, Bool-cases, ◌∙◌, List,
}
use libpagekite.Base.Bits.{bit, bit-le_one}
use libpagekite.Conn.{Conn, set_status}
use libpagekite.Streams.{has_status}
use libpagekite.Streams.Io.{
  Side, read_side, write_side, end_read, end_write, cls_read, cls_write, dst_blocked, tnl_blocked,
  want_read, want_write, Action, flow_op_none,
}
use libpagekite.Streams.Io.Status.{has_status-bit, bit-set_status}

-- What closes a direction: it was closed or has ended; for writing, everything is written besides.
abbrev pub closes_read : Conn → Bool
closes_read c = has_status cls_read c || has_status end_read c

abbrev pub closes_write : Conn → Bool
closes_write c =
    has_status cls_write c
    || (has_status end_write c && (length c.out_buffer == 0 && not (has_status want_write c)))

-- Another connection with the same bits and as much to write.
abbrev pub SameBits : Conn → Conn → Type 0
SameBits c c' =
    (c'.sockfd ≡ c.sockfd)
    × (c'.out_buffer ≡ c.out_buffer)
    × ((k : ℕ) → (k == 2) ≡ false → bit k c'.status ≡ bit k c.status)

pub closes_write-same :
    (c c' : Conn)
    → c'.out_buffer ≡ c.out_buffer
    → bit 1 c'.status ≡ bit 1 c.status
    → bit 5 c'.status ≡ bit 5 c.status
    → bit 9 c'.status ≡ bit 9 c.status
    → closes_write c' ≡ closes_write c
closes_write-same c c' buffer b1 b5 b9 =
    rw
      (
        has_status-bit 1 c,
        has_status-bit 5 c,
        has_status-bit 9 c,
        has_status-bit 1 c',
        has_status-bit 5 c',
        has_status-bit 9 c',
        buffer,
        b1,
        b5,
        b9,
      )
      refl

pub closes_read-same :
    (c c' : Conn)
    → bit 0 c'.status ≡ bit 0 c.status
    → bit 4 c'.status ≡ bit 4 c.status
    → closes_read c' ≡ closes_read c
closes_read-same c c' b0 b4 =
    rw (has_status-bit 0 c, has_status-bit 4 c, has_status-bit 0 c', has_status-bit 4 c', b0, b4)
      refl

-- The read side: it is closed if it was closed or ended, and an EOF goes out if it had not ended.
pub record ReadDone (c : Conn) (r : Side) : Type 0 where
  pub ended : bit 0 r.conn.status ≡ (if bit 0 c.status + bit 4 c.status == 0 then 0 else 1)
  pub closed : bit 4 r.conn.status ≡ bit 0 r.conn.status
  pub open' : r.flows ≡ (bit 4 r.conn.status == 0)
  pub eof : r.eof ≡ (not (bit 4 c.status == 0) && bit 0 c.status == 0)
  pub kept : (bit 1 r.conn.status ≡ bit 1 c.status) × (bit 5 r.conn.status ≡ bit 5 c.status)
  pub want : bit 9 r.conn.status ≡ bit 9 c.status
  pub shuts : r.flows ≡ not (closes_read c)
  pub same : (r.conn.sockfd ≡ c.sockfd) × (r.conn.out_buffer ≡ c.out_buffer)

pub read_side-ReadDone : (c : Conn) → ReadDone c (read_side false c)
unfolding read_side
read_side-ReadDone c =
    let c1 = set_status end_read c in
    elim (Bool-cases (has_status cls_read c || has_status end_read c)) [
      | inl shut ↦ rw shut (record {
        ended = ground (
          arith,
          has_status-bit 0 c,
          has_status-bit 4 c,
          bit-set_status 0 4 c1,
          bit-set_status 0 0 c,
        );
        closed = ground (arith, bit-set_status 0 4 c1, bit-set_status 0 0 c, bit-set_status 4 4 c1);
        open' = ground (arith, bit-set_status 4 4 c1);
        eof = ground (arith, has_status-bit 0 c, has_status-bit 4 c);
        kept = (
          bit-set_status 1 4 c1 ∙ bit-set_status 1 0 c,
          bit-set_status 5 4 c1 ∙ bit-set_status 5 0 c,
        );
        want = bit-set_status 9 4 c1 ∙ bit-set_status 9 0 c;
        shuts = ground arith;
        same = (refl, refl);
      })
      | inr open_ ↦
          elim (Bool-cases (
            (has_status tnl_blocked c || has_status dst_blocked c)
            && not (has_status want_read c))) [
              | inl blocked ↦ rw (open_, blocked) (untouched open_)
              | inr free ↦ rw (open_, free) (untouched open_)
            ]
    ]
  where
    untouched :
        (has_status cls_read c || has_status end_read c) ≡ false
        → {actions : List Action}
        → ReadDone c
            (record { conn = c; eof = false; flows = true; actions = actions; op = flow_op_none })
    untouched open_ = record {
      ended = ground (arith, has_status-bit 0 c, has_status-bit 4 c);
      closed = ground (arith, has_status-bit 0 c, has_status-bit 4 c);
      open' = ground (arith, has_status-bit 0 c, has_status-bit 4 c);
      eof = ground (arith, has_status-bit 0 c, has_status-bit 4 c);
      kept = (refl, refl);
      want = refl;
      shuts = ground arith;
      same = (refl, refl);
    }

-- The write side: it is closed if it was closed, or if it had ended and everything is written.
pub record WriteDone (c : Conn) (r : Side) : Type 0 where
  pub ended : bit 1 r.conn.status ≡ (if bit 5 c.status == 0 then bit 1 c.status else 1)
  pub closed : bit 5 r.conn.status ≤ bit 1 r.conn.status
  pub drained :
      bit 1 r.conn.status ≤ bit 5 r.conn.status + bit 9 r.conn.status + length r.conn.out_buffer
  pub still : r.flows ≡ (bit 5 r.conn.status == 0)
  pub eof : r.eof ≡ (not (bit 5 c.status == 0) && bit 1 c.status == 0)
  pub kept : (bit 0 r.conn.status ≡ bit 0 c.status) × (bit 4 r.conn.status ≡ bit 4 c.status)
  pub shuts : r.flows ≡ not (closes_write c)
  pub same : r.conn.sockfd ≡ c.sockfd

pub write_side-WriteDone : (c : Conn) → WriteDone c (write_side c)
unfolding write_side
write_side-WriteDone c =
    let c1 = set_status end_write c in
    elim (Bool-cases (has_status cls_write c)) [
      | inl shut ↦ rw shut (record {
        ended = ground (arith, has_status-bit 5 c, bit-set_status 1 5 c1, bit-set_status 1 1 c);
        closed = omega (arith, bit-set_status 1 5 c1, bit-set_status 1 1 c, bit-set_status 5 5 c1);
        drained = omega (arith, bit-set_status 1 5 c1, bit-set_status 1 1 c, bit-set_status 5 5 c1);
        still = ground (arith, bit-set_status 5 5 c1);
        eof = ground (arith, has_status-bit 1 c, has_status-bit 5 c);
        kept = (
          bit-set_status 0 5 c1 ∙ bit-set_status 0 1 c,
          bit-set_status 4 5 c1 ∙ bit-set_status 4 1 c,
        );
        shuts = ground arith;
        same = refl;
      })
      | inr open_ ↦ elim (Bool-cases (ltb 0 (length c.out_buffer) || has_status want_write c)) [
        | inl full ↦
            rw (open_, full)
              (record {
                ended = ground (arith, has_status-bit 5 c);
                closed = ground (arith, has_status-bit 5 c);
                drained = ground (arith, has_status-bit 9 c, bit-le_one 1 c.status);
                still = ground (arith, has_status-bit 5 c);
                eof = ground (arith, has_status-bit 5 c);
                kept = (refl, refl);
                shuts = ground arith;
                same = refl;
              })
        | inr empty ↦ elim (Bool-cases (has_status end_write c)) [
          | inl last ↦
              rw (open_, empty, last)
                (record {
                  ended = ground (arith, has_status-bit 5 c, bit-set_status 1 5 c);
                  closed =
                      ground
                        (arith, has_status-bit 1 c, bit-set_status 1 5 c, bit-set_status 5 5 c);
                  drained =
                      ground
                        (arith, bit-le_one 1 c.status, bit-set_status 1 5 c, bit-set_status 5 5 c);
                  still = ground (arith, bit-set_status 5 5 c);
                  eof = ground (arith, has_status-bit 5 c);
                  kept = (bit-set_status 0 5 c, bit-set_status 4 5 c);
                  shuts = ground arith;
                  same = refl;
                })
          | inr more ↦
              rw (open_, empty, more)
                (record {
                  ended = ground (arith, has_status-bit 5 c);
                  closed = ground (arith, has_status-bit 5 c);
                  drained = ground (arith, has_status-bit 1 c);
                  still = ground (arith, has_status-bit 5 c);
                  eof = ground (arith, has_status-bit 5 c);
                  kept = (refl, refl);
                  shuts = ground arith;
                  same = refl;
                })
        ]
      ]
    ]
