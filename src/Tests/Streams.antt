-- ===== src/Tests/Streams.antt =====
-- Examples for the table of streams (libpagekite/pkmanager.c): a socket that takes all it is given.
use libpagekite.Base.{
  ℕ, ◌+◌, ◌^◌, ◌≤◌, ◌≡◌, refl, false, List, [], ◌∷◌, ◌++◌, any, none, some, arith, Bytes, codes,
  length, pos,
}
use libpagekite.Conn.{Wrote, wrote}
use libpagekite.Send.Returns.{pkc_write-Returns}
use libpagekite.Utils.Hash.{murmur3_32}
use libpagekite.Base.Bits.{bit}
use libpagekite.Streams.{
  BackendConn, pkm_find_be_conn, pkm_sid_shift, find_from, is_stream, same_tunnel, same_front,
}
use libpagekite.Streams.Find.{Finds, pkm_find_be_conn-Finds}
use libpagekite.Streams.Io.{Loop, update_stream, pkm_update_io}
use libpagekite.Streams.Io.Update.{Updated, WritesReturn, Does, update_stream-Updated}
use libpagekite.Streams.Io.Shutdown.{ShutDown, pkm_update_io-ShutDown}
use libpagekite.Streams.Alloc.{pkm_alloc_be_conn}
use libpagekite.Streams.Alloc.Laws.{is_free}
use libpagekite.Streams.Alloc.Found.{Allocates, pkm_alloc_be_conn-Allocates, pkm_alloc_be_conn-full}
use libpagekite.Tests.Send.{conn}

-- "abcdefg" hashed by the code.
hashed : murmur3_32 (codes "abcdefg") ≡ 0x5b067cde
unfolding murmur3_32
hashed = refl

abbrev calm : Bytes → Bytes → Bytes × Wrote
calm w bytes = (w ++ bytes, wrote (length bytes))

calm-returns : WritesReturn calm 1
calm-returns bytes w c =
    pkc_write-Returns calm (λ _. 0) (λ _ _. omega arith) 1 bytes w c (omega arith)

abbrev stream : ℕ → BackendConn
stream status = record {
  sid = codes "1";
  tunnel = some 0;
  conn = record conn { status = status; out_buffer = [] };
}

-- An open stream, one whose remote end was closed for writing, a free slot, and another tunnel's.
abbrev streams : List BackendConn
streams =
    stream 0x80
    ∷ (record (stream 0x82) { sid = codes "2" })
    ∷ (record (stream 0) { sid = codes "3" })
    ∷ (record (stream 0x80) { sid = codes "4"; tunnel = some 1 })
    ∷ []

abbrev loop : Loop Bytes
loop = record {
  world = [];
  fe_conn = record conn { status = 0x90 };
  request_count = 1;
  be_conns = streams;
  live_streams = pos 3;
  live_tunnels = pos 1;
  status = 40;
  next_tick = 30;
  actions = [];
}

pkm_find_be_conn-Finds_example :
    Finds (some 0) (codes "2") streams (pkm_find_be_conn (some 0) (codes "2") streams)
pkm_find_be_conn-Finds_example = pkm_find_be_conn-Finds (some 0) (codes "2") streams

finds : pkm_find_be_conn (some 0) (codes "2") streams ≡ some 1
unfolding pkm_find_be_conn pkm_sid_shift find_from is_stream same_tunnel same_front murmur3_32
finds = refl

update_stream-Updated_example :
    Does calm 1
      (Updated 1 (record (stream 0x82) { sid = codes "2" }) loop)
      (update_stream calm 1 0 1 loop)
update_stream-Updated_example =
    update_stream-Updated calm 1 calm-returns 0 1 (record (stream 0x82) { sid = codes "2" }) loop
      (omega arith) refl refl

pkm_update_io-ShutDown_example :
    Does calm 1 (ShutDown calm 1 calm-returns 0 loop) (pkm_update_io calm 1 100 15 0 0 loop)
unfolding bit
pkm_update_io-ShutDown_example =
    pkm_update_io-ShutDown calm 1 calm-returns 100 15 0 0 loop (omega arith) refl refl refl

not_there : pkm_find_be_conn (some 0) (codes "5") streams ≡ none
unfolding pkm_find_be_conn pkm_sid_shift find_from is_stream same_tunnel same_front murmur3_32
not_there = refl

pkm_alloc_be_conn-Allocates_example :
    Does calm 1
      (Allocates calm 1 calm-returns (some 0) (codes "5") loop)
      (pkm_alloc_be_conn calm 1 100 0 (some 0) (codes "5") loop)
pkm_alloc_be_conn-Allocates_example =
    pkm_alloc_be_conn-Allocates calm 1 calm-returns 100 0 (some 0) (codes "5") loop not_there

-- A table with no free slot.
abbrev busy : Loop Bytes
busy = record loop { be_conns = stream 0x80 ∷ [] }

nothing_free : pkm_alloc_be_conn calm 1 100 0 (some 0) (codes "5") busy ≡ some (busy, none)
unfolding pkm_alloc_be_conn pkm_sid_shift murmur3_32
nothing_free = refl

small : pkm_sid_shift (codes "5") + 1 ≤ 2 ^ 32
unfolding pkm_sid_shift murmur3_32
small = omega arith

pkm_alloc_be_conn-full_example : any is_free (stream 0x80 ∷ []) ≡ false
pkm_alloc_be_conn-full_example =
    pkm_alloc_be_conn-full calm 1 calm-returns 100 0 (some 0) (codes "5") busy busy small
      nothing_free
