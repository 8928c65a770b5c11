-- ===== src/Tests/Tunnels.antt =====
-- Examples for the tunnels of libpagekite/pkblocker.c and libpagekite/pkmanager.c.
use libpagekite.Base.{
  ◌*◌, ◌≡◌, refl, true, false, Bool, List, [], ◌∷◌, map, any, countp, min, none, some, All, codes,
  pos, minus_one, ◌||◌, ◌-ℤ◌, to_int,
}
use libpagekite.Tunnels.{Tunnel, inet, is_frontend}
use libpagekite.Tunnels.Choose.{
  pkb_clear_transient_flags, pkb_choose_tunnels, choose_fast, unmarked, is_candidate, is_aim,
  is_usable, is_connected, prio, mark_fast,
}
use libpagekite.Tunnels.Choose.Fast.{is_chosen, InOrder, choose_fast-Chosen}
use libpagekite.Tunnels.Choose.Wanted.{
  pkb_choose_tunnels-aims, IsChosenWell, pkb_choose_tunnels-IsChosenWell,
}
use libpagekite.Tunnels.Disconnect.{Stream, pkm_disconnect_unused}
use libpagekite.Tunnels.Disconnect.Laws.{Disconnects, pkm_disconnect_unused-Disconnects}

abbrev tunnel : Tunnel
tunnel = record {
  fe_hostname = some (codes "relay");
  fe_port = pos 443;
  fe_uuid = none;
  ai_addr = some (record { sa_family = inet; address = 10 ∷ 0 ∷ 0 ∷ 1 ∷ [] });
  last_ddnsup = 0;
  priority = 40;
  error_count = 0;
  last_ping = 100;
  last_configured = 0;
  request_count = 1;
  sockfd = pos 7;
  activity = 100;
  changing = false;
  broken = false;
  wanted = true;
  nailed_up = false;
  in_dns = false;
  rejected = false;
  lame = false;
  is_fast = true;
}

-- A slow one, one that failed once, one that rejected us, and an empty slot.
abbrev tunnels : List Tunnel
tunnels =
    (record tunnel { priority = 60 })
    ∷ (record tunnel { error_count = 1; priority = 30 })
    ∷ (record tunnel { rejected = true })
    ∷ (record tunnel { fe_hostname = none })
    ∷ []

abbrev wants : List Tunnel → List Bool
wants = map (λ t. t.wanted)

-- One front-end and one spare are as many as can be used; with no spare the faster one is used.
two_wanted : wants (pkb_choose_tunnels 1 tunnels) ≡ true ∷ true ∷ false ∷ true ∷ []
unfolding pkb_choose_tunnels is_candidate is_frontend prio mark_fast is_aim is_usable
two_wanted = refl

fast_wanted : wants (pkb_choose_tunnels 0 tunnels) ≡ false ∷ true ∷ false ∷ true ∷ []
unfolding pkb_choose_tunnels is_candidate is_frontend prio mark_fast is_aim is_usable
fast_wanted = refl

-- With flags cleared the front-end that rejected us is the fastest.
all_cleared :
    wants (pkb_choose_tunnels 0 (pkb_clear_transient_flags tunnels))
    ≡ false ∷ false ∷ true ∷ true ∷ []
unfolding pkb_choose_tunnels is_candidate is_frontend prio mark_fast is_aim is_usable
    pkb_clear_transient_flags
all_cleared = refl

choose_fast-Chosen_example :
    (countp is_chosen (choose_fast 1 (map unmarked tunnels))
      ≡ min 1 (countp is_candidate (map unmarked tunnels)))
    × InOrder (choose_fast 1 (map unmarked tunnels))
choose_fast-Chosen_example = choose_fast-Chosen 1 tunnels

some_usable : (any is_usable tunnels || any is_connected tunnels) ≡ true
unfolding is_usable is_connected is_frontend
some_usable = refl

pkb_choose_tunnels-aims_example : any is_aim (pkb_choose_tunnels 0 tunnels) ≡ true
pkb_choose_tunnels-aims_example = pkb_choose_tunnels-aims 0 tunnels some_usable

pkb_choose_tunnels-IsChosenWell_example :
    All (IsChosenWell (any is_usable tunnels)) (pkb_choose_tunnels 1 tunnels)
pkb_choose_tunnels-IsChosenWell_example = pkb_choose_tunnels-IsChosenWell 1 tunnels

-- Two tunnels that nobody wants, one of them with a stream, and one that is wanted.
abbrev unwanted : List Tunnel
unwanted =
    (record tunnel { wanted = false })
    ∷ (record tunnel { wanted = false; sockfd = pos 8 })
    ∷ (record tunnel { sockfd = pos 9 })
    ∷ []

abbrev streams : List Stream
streams = (record { sockfd = pos 12; tunnel = 1 }) ∷ []

closes_one :
    map (λ (t : Tunnel). t.sockfd) (pkm_disconnect_unused 130 15 streams unwanted).tunnels
    ≡ minus_one ∷ pos 8 ∷ pos 9 ∷ []
unfolding pkm_disconnect_unused to_int
closes_one = refl

pkm_disconnect_unused-Disconnects_example :
    Disconnects 130 streams
      (to_int (pos 130 -ℤ pos (4 * 15)))
      unwanted
      (pkm_disconnect_unused 130 15 streams unwanted)
pkm_disconnect_unused-Disconnects_example =
    pkm_disconnect_unused-Disconnects 130 15 streams unwanted
