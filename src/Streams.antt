-- ===== src/Streams.antt =====
-- The manager's table of streams, struct pk_backend_conn (libpagekite/pkmanager.h), and
-- pkm_find_be_conn() and pkm_free_be_conn() (libpagekite/pkmanager.c). A pointer to a tunnel or to a
-- stream is its index in its table; an SID is a C string without its NUL.
pub mod Find
pub mod Io
pub mod Alloc
use Prim.Native.Nat.{bit_and}
use libpagekite.Base.{
  ℕ, zero, suc, ◌+◌, ◌%◌, ◌^◌, Bool, true, false, not, ◌&&◌, List, [], ◌∷◌, Option, none, some,
  ◌==◌, if◌then◌else◌, Bytes, length, get_elem?, take,
}
use libpagekite.Conn.{Conn}
use libpagekite.Utils.Hash.{murmur3_32}

pub record BackendConn : Type 0 where
  pub sid : Bytes
  pub tunnel : Option ℕ
  pub conn : Conn

abbrev pub be_max_sid_size : ℕ
be_max_sid_size = 8

abbrev pub conn_status_allocated : ℕ
conn_status_allocated = 2 ^ 7

-- One of the bits of the mask is set.
abbrev pub has_status : ℕ → Conn → Bool
has_status mask c = not (bit_and c.status mask == 0)

-- 0 == strncmp(a, b, n)
unfoldable pub same_front : ℕ → Bytes → Bytes → Bool
same_front zero s t = true
same_front (suc n) [] [] = true
same_front (suc n) [] (b ∷ t) = false
same_front (suc n) (a ∷ s) [] = false
same_front (suc n) (a ∷ s) (b ∷ t) = a == b && same_front n s t

-- The same pointer to a tunnel; `none` is NULL.
unfoldable pub same_tunnel : Option ℕ → Option ℕ → Bool
same_tunnel none none = true
same_tunnel none (some b) = false
same_tunnel (some a) none = false
same_tunnel (some a) (some b) = a == b

unfoldable pub pkm_sid_shift : Bytes → ℕ
pkm_sid_shift sid = murmur3_32 sid

-- The test of pkm_find_be_conn().
unfoldable pub is_stream : Option ℕ → Bytes → BackendConn → Bool
is_stream fe sid pkb =
    has_status conn_status_allocated pkb.conn
    && (same_tunnel pkb.tunnel fe && same_front be_max_sid_size pkb.sid sid)

-- The loop, with the rounds left, on the index i. Each index is in the table.
unfoldable pub find_from : Option ℕ → Bytes → ℕ → List BackendConn → ℕ → ℕ → Option ℕ
find_from fe sid shift be_conns zero i = none
find_from fe sid shift be_conns (suc rounds) i =
    let next = find_from fe sid shift be_conns rounds (suc i) in
    let at = (i + shift) % length be_conns in
    elim (get_elem? be_conns at) [
      | none ↦ none
      | some pkb ↦ if is_stream fe sid pkb then some at else next
    ]

unfoldable pub pkm_find_be_conn : Option ℕ → Bytes → List BackendConn → Option ℕ
pkm_find_be_conn fe sid be_conns =
    let shift = pkm_sid_shift sid % length be_conns in
    find_from fe sid shift be_conns (length be_conns) 0

unfoldable pub pkm_free_be_conn : BackendConn → BackendConn
pkm_free_be_conn pkb = record pkb { conn = record pkb.conn { status = 0 } }
