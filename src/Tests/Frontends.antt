-- ===== src/Tests/Frontends.antt =====
-- Examples for the table of front-ends and the look-ups in DNS (libpagekite/pkmanager.c, pkblocker.c).
use libpagekite.Base.{
  arith, ◌≡◌, refl, true, false, Bool, List, [], ◌∷◌, map, any, All, Option, none, some, Bytes,
  codes, ℤ, pos, minus_one,
}
use libpagekite.Tunnels.{Tunnel, SockAddr, inet, is_frontend}
use libpagekite.Tunnels.Frontends.{
  memcmp, addr_of, addrcmp, pkm_add_frontend_ai, is_skipped, pkm_lookup_and_add_frontend,
  results_of,
}
use libpagekite.Tunnels.Frontends.Adds.{hits}
use libpagekite.Tunnels.Frontends.Distinct.{Distinct}
use libpagekite.Tunnels.Frontends.Known.{Serves, pkm_lookup_and_add_frontend-Serves}
use libpagekite.Tunnels.Dns.{pkb_check_kites_dns}
use libpagekite.Tunnels.Dns.OnePass.{all_results}
use libpagekite.Tunnels.Dns.LastSeen.{one_pass, pkb_check_kites_dns-one_pass}
use libpagekite.Tunnels.Dns.Keeps.{was_in_dns, is_in_dns, pkb_check_kites_dns-keeps}
use libpagekite.Tunnels.Refresh.{pkb_check_frontend_dns, is_obsolete}
use libpagekite.Tunnels.Refresh.Distinct.{pkb_check_frontend_dns-Distinct}
use libpagekite.Tunnels.Refresh.Stays.{Stays, pkb_check_frontend_dns-Stays}

abbrev addr_a : SockAddr
addr_a = record { sa_family = inet; address = 10 ∷ 0 ∷ 0 ∷ 1 ∷ [] }

abbrev addr_b : SockAddr
addr_b = record { sa_family = inet; address = 10 ∷ 0 ∷ 0 ∷ 2 ∷ [] }

abbrev empty_slot : Tunnel
empty_slot = record {
  fe_hostname = none;
  fe_port = pos 0;
  fe_uuid = none;
  ai_addr = none;
  last_ddnsup = 0;
  priority = 0;
  error_count = 0;
  last_ping = 0;
  last_configured = 0;
  request_count = 0;
  sockfd = minus_one;
  activity = 0;
  changing = false;
  broken = false;
  wanted = false;
  nailed_up = false;
  in_dns = false;
  rejected = false;
  lame = false;
  is_fast = false;
}

-- A relay, a null record, and two empty slots.
abbrev relay : Tunnel
relay = record empty_slot {
  fe_hostname = some (codes "relay");
  fe_port = pos 443;
  ai_addr = some addr_a;
  last_ddnsup = 100;
  last_configured = 9000;
}

abbrev table : List Tunnel
table =
    relay
    ∷ (record empty_slot { fe_hostname = some (codes "relay"); fe_port = pos 443 })
    ∷ empty_slot
    ∷ empty_slot
    ∷ []

abbrev answers : Bytes → ℤ → Option (List SockAddr)
answers _ _ = some (addr_a ∷ addr_b ∷ [])

abbrev kite_answers : Bytes → Option (List SockAddr)
kite_answers kite = elim kite [ [] ↦ none | c ∷ name ↦ some (addr_b ∷ []) ]

abbrev stored : SockAddr → Bool
stored _ = true

table-Distinct : Distinct table
unfolding hits addrcmp
table-Distinct = ground arith

pkm_lookup_and_add_frontend-Serves_example :
    All
      (Serves stored true true
        (pkm_lookup_and_add_frontend 9999 stored answers true true table
          (codes "relay")
          (pos 443)
          0
          false).1)
      (addr_a ∷ addr_b ∷ [])
unfolding results_of
pkm_lookup_and_add_frontend-Serves_example =
    pkm_lookup_and_add_frontend-Serves 9999 stored answers true true table (codes "relay") 443 0
      false (omega arith)

pkb_check_kites_dns-one_pass_example :
    pkb_check_kites_dns 9999 kite_answers (codes "kite" ∷ [] ∷ []) table
    ≡ one_pass 9999 (all_results kite_answers (codes "kite" ∷ [] ∷ [])) table
pkb_check_kites_dns-one_pass_example =
    pkb_check_kites_dns-one_pass 9999 kite_answers (codes "kite" ∷ [] ∷ []) table (ground arith)

pkb_check_kites_dns-keeps_example :
    any is_in_dns (pkb_check_kites_dns 9999 kite_answers (codes "kite" ∷ [] ∷ []) table).1 ≡ true
pkb_check_kites_dns-keeps_example =
    pkb_check_kites_dns-keeps 9999 kite_answers (codes "kite" ∷ [] ∷ []) table
      (unfold all_results results_of in λ e. cc) (unfold was_in_dns is_frontend in refl)

pkb_check_frontend_dns-Distinct_example :
    Distinct (pkb_check_frontend_dns 9999 stored answers true true 60 table).1
pkb_check_frontend_dns-Distinct_example =
    pkb_check_frontend_dns-Distinct 9999 stored answers true true 60 table table-Distinct

pkb_check_frontend_dns-Stays_example :
    Stays 9999 (pkb_check_frontend_dns 9999 stored answers true true 600 table).1 0 relay
pkb_check_frontend_dns-Stays_example =
    pkb_check_frontend_dns-Stays 9999 stored answers true true 600 table 0 relay refl refl
      (unfold is_obsolete in refl)

-- The new address takes the first empty slot, and the relay that was not seen for long is forgotten.
abbrev addresses : List Tunnel → List (Option SockAddr)
addresses = map (λ t. t.ai_addr)

refresh_test :
    addresses (pkb_check_frontend_dns 9999 stored (λ _ _. some (addr_b ∷ [])) true true 60 table).1
    ≡ none ∷ none ∷ some addr_b ∷ none ∷ []
unfolding pkb_check_frontend_dns is_obsolete is_skipped pkm_add_frontend_ai memcmp addr_of addrcmp
refresh_test = refl
