-- ===== src/Streams/Io/Status.antt =====
-- The status word of a connection, bit by bit.
use libpagekite.Base.{ℕ, ◌^◌, ◌≡◌, refl, not, ◌==◌, if◌then◌else◌, arith}
use libpagekite.Base.Bits.{bit, bit_and-test, bit-bit_or, bit-clear, bit-pow, bit-le_one}
use libpagekite.Conn.{Conn, set_status}
use libpagekite.Streams.{has_status}
use libpagekite.Streams.Io.{clear_status}

pub has_status-bit : (k : ℕ) (c : Conn) → has_status (2 ^ k) c ≡ not (bit k c.status == 0)
has_status-bit k c = rw (bit_and-test k c.status) refl

pub bit-set_status :
    (k j : ℕ) (c : Conn)
    → bit k (set_status (2 ^ j) c).status ≡ (if k == j then 1 else bit k c.status)
bit-set_status k j c =
    ground (arith, bit-bit_or k c.status (2 ^ j), bit-pow k j, bit-le_one k c.status)

pub bit-clear_status :
    (k j : ℕ) (c : Conn)
    → bit k (clear_status (2 ^ j) c).status ≡ (if k == j then 0 else bit k c.status)
bit-clear_status k j c =
    ground (arith, bit-clear k c.status (2 ^ j), bit-pow k j, bit-le_one k c.status)
