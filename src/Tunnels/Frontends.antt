-- ===== src/Tunnels/Frontends.antt =====
-- libpagekite/pkmanager.c: pkm_add_frontend_ai() and pkm_lookup_and_add_frontend(), with addrcmp() of
-- libpagekite/pkutils.c in a build with HAVE_IPV6. A pointer to a tunnel is its index; the clock does not
-- move within a call. `malloced` is whether malloc() gives
-- the memory for a copy of an address, and what getaddrinfo() answers
-- is a list of addresses, or an error.
pub mod Adds
pub mod Distinct
pub mod Known
use Prim.Native.Nat.{bit_and}
use libpagekite.Base.{
  ℕ, zero, suc, ◌+◌, ◌^◌, Bool, true, false, not, ◌&&◌, ◌||◌, List, [], ◌∷◌, set, get_elem?, Option,
  none, some, ◌==◌, if◌then◌else◌, Bytes, ℤ, pos, ltb_ℤ,
}
use libpagekite.Tunnels.{Tunnel, SockAddr, Family, inet, inet6, other_family, is_set}

-- Zero means that the bytes are the same; callers ask for no more.
unfoldable pub memcmp : Bytes → Bytes → ℕ
memcmp [] [] = 0
memcmp [] (b ∷ t) = 1
memcmp (a ∷ s) [] = 1
memcmp (a ∷ s) (b ∷ t) = let rest = memcmp s t in if a == b then rest else 1

unfoldable pub addr_of : SockAddr → SockAddr → ℕ
unfolding memcmp
addr_of a b = elim a.sa_family [
  | inet ↦ elim b.sa_family [ inet ↦ memcmp a.address b.address | inet6 ↦ 1 | other_family ↦ 1 ]
  | inet6 ↦ elim b.sa_family [ inet ↦ 1 | inet6 ↦ memcmp a.address b.address | other_family ↦ 1 ]
  | other_family ↦ elim b.sa_family [ inet ↦ 1 | inet6 ↦ 1 | other_family ↦ 2 ]
]

unfoldable pub addrcmp : Option SockAddr → Option SockAddr → ℕ
unfolding addr_of
addrcmp none b = 3
addrcmp (some a) none = 3
addrcmp (some a) (some b) = addr_of a b

-- What the scan of the table finds: this address at an index, or a slot without a host name, or neither.
pub data Slot : Type 0 where
  known free : ℕ → Slot
  full : Slot

unfoldable pub first_free : Option ℕ → Slot
first_free none = full
first_free (some j) = free j

unfoldable pub scan : Option SockAddr → ℕ → Option ℕ → List Tunnel → Slot
unfolding first_free
scan ai i adding [] = first_free adding
scan ai i adding (fe ∷ fes) =
    if not (is_set fe.fe_hostname)
    then scan ai (suc i) (if is_set adding then adding else some i) fes
    else if is_set ai && (is_set fe.ai_addr && addrcmp fe.ai_addr ai == 0)
    then known i
    else scan ai (suc i) adding fes

unfoldable pub copy_addrinfo_data : (SockAddr → Bool) → Option SockAddr → Option SockAddr
copy_addrinfo_data malloced none = none
copy_addrinfo_data malloced (some a) = if malloced a then some a else none

-- One of the bits is set in a status word.
unfoldable pub flag : ℕ → ℕ → Bool
flag mask flags = not (bit_and flags mask == 0)

unfoldable pub change_at : (Tunnel → Tunnel) → ℕ → List Tunnel → List Tunnel
change_at f i [] = []
change_at f zero (fe ∷ fes) = f fe ∷ fes
change_at f (suc i) (fe ∷ fes) = fe ∷ change_at f i fes

-- "if (!pk_state.use_ipv4 && …) continue": the address is passed over.
unfoldable pub is_skipped : Bool → Bool → SockAddr → Bool
is_skipped use_ipv4 use_ipv6 a = elim a.sa_family [
  | inet ↦ not use_ipv4
  | inet6 ↦ not use_ipv6
  | other_family ↦ false
]

unfoldable pub results_of : Option (List SockAddr) → List SockAddr
results_of none = []
results_of (some found) = found

module _ (now : ℕ) (malloced : SockAddr → Bool) where
  -- The slot behind "adding".
  unfoldable pub configured : Option SockAddr → Bytes → ℤ → ℕ → Tunnel → Tunnel
  unfolding copy_addrinfo_data flag
  configured ai hostname port flags fe = record fe {
    fe_hostname = some hostname;
    fe_port = port;
    ai_addr = copy_addrinfo_data malloced ai;
    last_ddnsup = 0;
    priority = 0;
    error_count = 0;
    last_configured = now;
    request_count = 0;
    changing = flag (2 ^ 11) flags;
    broken = flag 112 flags;
    wanted = flag (2 ^ 24) flags;
    nailed_up = flag (2 ^ 25) flags;
    in_dns = flag (2 ^ 26) flags;
    rejected = flag (2 ^ 27) flags;
    lame = flag (2 ^ 28) flags;
    is_fast = flag (2 ^ 29) flags;
  }

  unfoldable pub pkm_add_frontend_ai :
      List Tunnel → Option SockAddr → Bytes → ℤ → ℕ → Option ℕ × List Tunnel
  unfolding scan configured change_at
  pkm_add_frontend_ai fes ai hostname port flags = elim (scan ai 0 none fes) [
    | known i ↦ (none, change_at (λ fe. record fe { last_configured = now }) i fes)
    | free i ↦ (some i, change_at (configured ai hostname port flags) i fes)
    | full ↦ (none, fes)
  ]

  -- The loop on getaddrinfo()'s result.
  unfoldable pub add_results :
      Bool → Bool → Bytes → ℤ → ℕ → List SockAddr → List Tunnel → ℕ × List Tunnel
  unfolding is_skipped pkm_add_frontend_ai
  add_results use_ipv4 use_ipv6 hostname port flags [] fes = (0, fes)
  add_results use_ipv4 use_ipv6 hostname port flags (a ∷ more) fes =
      let skipped = is_skipped use_ipv4 use_ipv6 a in
      let (added, fes') = pkm_add_frontend_ai fes (some a) hostname port flags in
      let (count, fes'') =
        add_results use_ipv4 use_ipv6 hostname port flags more (if skipped then fes else fes') in
      (if skipped then count else if is_set added then suc count else count, fes'')

  -- getaddrinfo() is asked for the port that is taken here, and its answer has it.
  unfoldable pub pkm_lookup_and_add_frontend :
      (Bytes → ℤ → Option (List SockAddr))
      → Bool
      → Bool
      → List Tunnel
      → Bytes
      → ℤ
      → ℕ
      → Bool
      → ℕ × List Tunnel
  unfolding results_of add_results
  pkm_lookup_and_add_frontend getaddrinfo use_ipv4 use_ipv6 fes hostname port flags
        add_null_record =
      let port' = if ltb_ℤ port (pos 1) then pos 443 else port in
      let results = results_of (getaddrinfo hostname port') in
      let (count, fes') = add_results use_ipv4 use_ipv6 hostname port' flags results fes in
      let (added, fes'') = pkm_add_frontend_ai fes' none hostname port' flags in
      if count == 0 && add_null_record
      then (if is_set added then 1 else 0, fes'')
      else (count, fes')

  unfoldable pub pkm_add_frontend :
      (Bytes → ℤ → Option (List SockAddr))
      → Bool
      → Bool
      → List Tunnel
      → Bytes
      → ℤ
      → ℕ
      → ℕ × List Tunnel
  unfolding pkm_lookup_and_add_frontend
  pkm_add_frontend getaddrinfo use_ipv4 use_ipv6 fes hostname port flags =
      pkm_lookup_and_add_frontend getaddrinfo use_ipv4 use_ipv6 fes hostname port flags false
