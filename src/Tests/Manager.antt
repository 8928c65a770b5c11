-- ===== src/Tests/Manager.antt =====
-- Examples for libpagekite/pkmanager.c.
use libpagekite.Base.{
  arith, ◌≡◌, List, [], ◌∷◌, ◌++◌, OfSome, ℕ, some, Bytes, crlf, codes, ℤ, pos, ◌==◌, if◌then◌else◌,
}
use libpagekite.Base.{◌+◌, ◌-◌, ◌/◌, min, max, minus_one, ltb_ℤ}
use libpagekite.Proto.Format.{pk_format_eof, pk_reply_overhead}
use libpagekite.Proto.Kite.{Kite}
use libpagekite.Manager.{pkm_find_kite, pkm_parse_eof, conn_status_end_write, pkm_write_chunked}
use libpagekite.Manager.Kites.{
  or_else, first_of, last_of, exact, catch_all, pkm_find_kite-first_of, pkm_parse_eof-pk_format_eof,
}
use libpagekite.Libc.{to_hex}
use libpagekite.Conn.{set_status, conn_window_size_kb_initial}
use libpagekite.Manager.Flow.{
  to_size, measured, chunk_window, conn_window_size_kb_maximum, conn_window_size_kb_minimum,
}
use libpagekite.Manager.Flow.Window.{InBounds, chunk_window-InBounds}
use libpagekite.Manager.Chunked.{Framed, InBuffer, pkm_write_chunked-Framed}
use libpagekite.Tests.Send.{slow, sent, slow-IsSocket, wire, conn}

abbrev kite_on : ℤ → Kite
kite_on port = record {
  protocol = codes "http";
  public_domain = codes "foo";
  public_port = port;
  local_domain = codes "localhost";
  local_port = pos 80;
  auth_secret = codes "sec";
}

abbrev kites : List Kite
kites = kite_on (pos 0) ∷ kite_on (pos 8080) ∷ kite_on (pos 80) ∷ []

pkm_find_kite-first_of_example :
    pkm_find_kite kites (codes "HTTP") (codes "Foo") (pos 80)
    ≡ or_else
        (first_of (exact (codes "HTTP") (codes "Foo") (pos 80)) kites)
        (last_of (catch_all (codes "HTTP") (codes "Foo") (pos 80)) kites)
pkm_find_kite-first_of_example = pkm_find_kite-first_of (codes "HTTP") (codes "Foo") (pos 80) kites

pkm_parse_eof-pk_format_eof_example :
    (n : ℕ) × (value : Bytes) × (pk_format_eof (some (codes "SID1")) 1
      ≡ to_hex n
        ++ (crlf
            ++ (codes "SID: "
                ++ (codes "SID1" ++ (codes "\r\nEOF: " ++ (value ++ codes "\r\n\r\n"))))))
    × (pkm_parse_eof value conn ≡ set_status conn_status_end_write conn)
pkm_parse_eof-pk_format_eof_example = pkm_parse_eof-pk_format_eof 1 (codes "SID1") conn

pkm_write_chunked-Framed_example :
    OfSome
      (λ r.
        Framed slow sent slow-IsSocket (codes "SID") (codes "1") (codes "54321") r.0
        × InBuffer slow sent slow-IsSocket (codes "1") (codes "54321") conn r.1)
      (pkm_write_chunked slow 9 (codes "1") (codes "54321") wire conn)
unfolding pk_reply_overhead
pkm_write_chunked-Framed_example =
    pkm_write_chunked-Framed slow sent slow-IsSocket 9 (codes "1") (codes "54321") wire conn
      (omega arith) (omega arith)

chunk_window-InBounds_example :
    InBounds (chunk_window (pos 1) (pos 40) conn)
    × ((chunk_window (pos 1) minus_one conn).send_window_kb ≡ (
        if ltb_ℤ (pos 0) (pos 1)
        then max (128 - (1 + 128 / 5)) conn_window_size_kb_minimum
        else 128))
    × ((chunk_window minus_one (pos 40) conn).send_window_kb ≡ (
        if ltb_ℤ (pos 0) (pos 40)
        then (if 128 == conn_window_size_kb_initial
            then min
                (max (measured 3 (to_size (pos 40))) conn_window_size_kb_minimum)
                conn_window_size_kb_maximum
            else min (128 + 1) conn_window_size_kb_maximum)
        else 128))
chunk_window-InBounds_example =
    chunk_window-InBounds (pos 1) (pos 40) conn (omega arith, omega arith)
