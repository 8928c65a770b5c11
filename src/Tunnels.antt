-- ===== src/Tunnels.antt =====
-- The manager's table of tunnels (struct pk_tunnel in libpagekite/pkmanager.h), on which
-- libpagekite/pkblocker.c and libpagekite/pkmanager.c work. The flags of conn.status that the code
-- tests one by one are Booleans here; the counters and times do not reach the ends of their types.
pub mod Choose
pub mod Disconnect
pub mod Frontends
pub mod Dns
pub mod Refresh
use libpagekite.Base.{ℕ, Bool, true, false, ◌&&◌, Option, none, some, Bytes, List, ℤ}

-- struct sockaddr: a family, and the address without the port.
pub data Family : Type 0 where
  inet inet6 other_family : Family

pub record SockAddr : Type 0 where
  pub sa_family : Family
  pub address : Bytes

pub record Tunnel : Type 0 where
  pub fe_hostname : Option Bytes
  pub fe_port : ℤ
  pub fe_uuid : Option Bytes
  pub ai_addr : Option SockAddr
  pub last_ddnsup : ℕ
  pub priority : ℕ
  pub error_count : ℕ
  pub last_ping : ℕ
  pub last_configured : ℕ
  pub request_count : ℕ
  -- conn.sockfd, conn.activity and conn.status
  pub sockfd : ℤ
  pub activity : ℕ
  pub changing : Bool
  pub broken : Bool
  pub wanted : Bool
  pub nailed_up : Bool
  pub in_dns : Bool
  pub rejected : Bool
  pub lame : Bool
  pub is_fast : Bool

-- A pointer is not NULL.
abbrev pub is_set {ℓ} : {A : Type ℓ} → Option A → Bool
is_set none = false
is_set (some _) = true

-- "Is tunnel really a front-end?"
unfoldable pub is_frontend : Tunnel → Bool
is_frontend t = is_set t.fe_hostname && is_set t.ai_addr
