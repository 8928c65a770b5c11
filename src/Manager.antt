-- ===== src/Manager.antt =====
-- libpagekite/pkmanager.c: the parts that have no event loop in them. A kite and a connection are
-- records; the manager's table of kites is a list.
pub mod Flow
pub mod Kites
pub mod Chunked
use Prim.Native.Nat.{bit_and, bit_or}
use libpagekite.Base.{
  ℕ, zero, suc, ◌+◌, ◌-◌, ◌*◌, ◌/◌, ◌%◌, ◌^◌, ◌≡◌, Bool, true, false, not, ◌&&◌, ◌||◌, List, [],
  ◌∷◌, ◌++◌, Option, none, some, ltb, leb, ◌==◌, if◌then◌else◌, Bytes, codes, tolower, length, ℤ,
  pos, negsuc, ◌+ℤ◌, ◌-ℤ◌, ltb_ℤ, to_int,
}
use libpagekite.Proto.Kite.{Kite}
use libpagekite.Proto.Format.{pk_reply_overhead, pk_format_reply}
use libpagekite.Conn.{Conn, Wrote, conn_io_buffer_size, set_status, conn_window_size_kb_initial}
use libpagekite.Send.{pkc_flush, pkc_write}

-- 0 == strcasecmp(a, b); the end of a list is the end of the string.
unfoldable pub same_nocase : Bytes → Bytes → Bool
same_nocase [] [] = true
same_nocase [] (b ∷ t) = false
same_nocase (a ∷ s) [] = false
same_nocase (a ∷ s) (b ∷ t) = tolower a == tolower b && same_nocase s t

unfoldable pub serves : Bytes → Bytes → Kite → Bool
serves protocol domain k =
    not (length k.protocol == 0)
    && (same_nocase domain k.public_domain && same_nocase protocol k.protocol)

abbrev pub any_port : Kite → Bool
any_port k = not (ltb_ℤ (pos 0) k.public_port)

abbrev pub eqb_ℤ : ℤ → ℤ → Bool
eqb_ℤ a b = not (ltb_ℤ a b) && not (ltb_ℤ b a)

-- The loop of pkm_find_kite().
unfoldable pub find_kite : Bytes → Bytes → ℤ → Option Kite → List Kite → Option Kite
find_kite protocol domain port found [] = found
find_kite protocol domain port found (k ∷ kites) =
    let next = find_kite protocol domain port found kites in
    let better = find_kite protocol domain port (some k) kites in
    if serves protocol domain k
    then (if any_port k then better else if eqb_ℤ k.public_port port then some k else next)
    else next

unfoldable pub pkm_find_kite : List Kite → Bytes → Bytes → ℤ → Option Kite
pkm_find_kite kites protocol domain port = find_kite protocol domain port none kites

abbrev pub conn_status_end_read : ℕ
conn_status_end_read = 1

abbrev pub conn_status_end_write : ℕ
conn_status_end_write = 2

-- The loop of pkm_parse_eof(): if there is an R, and if there is a W.
unfoldable pub eof_flags : Bool × Bool → Bytes → Bool × Bool
eof_flags (r, w) [] = (r, w)
eof_flags (r, w) (c ∷ s) =
    let read = eof_flags (true, w) s in
    let write = eof_flags (r, true) s in
    let neither = eof_flags (r, w) s in
    if c == b'R' || c == b'r' then read else if c == b'W' || c == b'w' then write else neither

-- What kind of EOF it is; "Legacy EOF support" is both.
unfoldable pub eof_kind : Bytes → Bool × Bool
eof_kind eof =
    let (r, w) = eof_flags (false, false) eof in if not w && not r then (true, true) else (r, w)

unfoldable pub pkm_parse_eof : Bytes → Conn → Conn
pkm_parse_eof eof c =
    let (r, w) = eof_kind eof in
    let c' = if w then set_status conn_status_end_read c else c in
    if r then set_status conn_status_end_write c' else c'

module _ {W : Type 0} (write : W → Bytes → W × Wrote) where
  -- Behind the flush that makes room for the header. pk_format_reply() writes it with a sprintf(), whose
  -- NUL goes behind it and does not count as written; the second result is where that write ends in
  -- out_buffer.
  unfoldable pub write_header : ℕ → Bytes → Bytes → W × Conn → Option ((W × Conn × Option ℕ) × ℕ)
  write_header rounds sid bytes (w, c) =
      let header = pk_format_reply (some sid) (length bytes) none in
      elim (pkc_write write rounds bytes w (record c { out_buffer = c.out_buffer ++ header })) [
        | none ↦ none
        | some r ↦ some (r, length c.out_buffer + length header + 1)
      ]

  -- pkm_write_chunked(), on the tunnel's connection.
  unfoldable pub pkm_write_chunked :
      ℕ → Bytes → Bytes → W → Conn → Option ((W × Conn × Option ℕ) × ℕ)
  pkm_write_chunked rounds sid bytes w c =
      let overhead = pk_reply_overhead sid (length bytes) in
      let (w', c', r) = pkc_flush write none true w c in
      if ltb (conn_io_buffer_size - length c.out_buffer) overhead
      then elim r [
        | none ↦ some ((w', c', none), 0)
        | some _ ↦ write_header rounds sid bytes (w', c')
      ]
      else write_header rounds sid bytes (w, c)
