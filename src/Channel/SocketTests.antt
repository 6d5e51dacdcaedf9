-- ===== src/Channel/SocketTests.antt =====
-- A WebSocket of Carol, who has a role in one of two miniverses.
use miniverse_backend.Base.{
  ◌≡◌, refl, true, false, none, some, [], ◌∷◌, Text, str, ◌==◌, exists, first, keep, map, All, ok,
}
use miniverse_backend.Role.{ge, role_value}
use miniverse_backend.Models.{Miniverse, Tables, get_miniverse_role}
use miniverse_backend.Events.{miniverse_updated_event, miniverse_deleted_event}
use miniverse_backend.Channel.{Context}
use miniverse_backend.Channel.Delivery.{is_member}
use miniverse_backend.Channel.Initial.{
  Controllers, websocket, SyncEventItem, miniverse_schema, send_init_data,
}
use miniverse_backend.Channel.Visible.{belongs, schema_of, send_init_data_visible}
use miniverse_backend.Channel.Session.{Messages, is_about, deliver, deliver_private}
use miniverse_backend.Channel.Console.{logs_handler, typed, logs_handler-typed}
use miniverse_backend.Miniverses.World.{World, row}
use miniverse_backend.Miniverses.Samples.{test_host, carol, carols_role, world_m}

abbrev miniverse : Text → Miniverse
miniverse i = record world_m { id = i; name = i; subdomain = i; container_id = some (str "x") }

abbrev two : Tables
two = record {
  users = carol ∷ [];
  users_roles = carols_role ∷ [];
  miniverses = miniverse (str "m") ∷ miniverse (str "n") ∷ [];
  mods = [];
}

abbrev nobody : Controllers (Unit {0})
nobody = record {
  kind_of = λ i s. some websocket;
  get_msmp_player_list = λ i s. (ok [], s);
  get_msmp_seen_player_list = λ i s. (ok [], s);
  get_msmp_operator_list = λ i s. (ok [], s);
  get_msmp_banned_player_list = λ i s. (ok [], s);
}

abbrev item_m : SyncEventItem
item_m = record {
  miniverse = miniverse_schema two (miniverse (str "m"));
  players = [];
  seen_players = [];
  operators = [];
  banned_players = [];
}

sent_first : (send_init_data nobody two (carols_role ∷ []) tt).0 ≡ ok (item_m ∷ [])
unfolding send_init_data ge role_value get_miniverse_role ◌==◌
sent_first = refl

send_init_data_visible_example :
    (map schema_of (item_m ∷ [])
      ≡ map (miniverse_schema two) (keep (λ m. belongs (carols_role ∷ []) m.id) two.miniverses))
    × All
        (λ (item : SyncEventItem). belongs (carols_role ∷ []) item.miniverse.id ≡ true)
        (item_m ∷ [])
send_init_data_visible_example =
    send_init_data_visible nobody two (carols_role ∷ []) tt (item_m ∷ []) sent_first

abbrev opened : Context
opened = record { user_id = str "c"; roles = carols_role ∷ []; sent = [] }

-- Two events about the other miniverse, the second of which names Carol.
abbrev messages : Messages
messages =
    (carols_role ∷ [], miniverse_updated_event (str "n") none)
    ∷ (carols_role ∷ [], miniverse_deleted_event (str "n") (str "c" ∷ []))
    ∷ []

stranger : is_member (carols_role ∷ []) (some (str "n")) ≡ false
unfolding ge role_value get_miniverse_role ◌==◌
stranger = refl

deliver_private_example : exists (is_about (str "n")) (deliver messages opened).sent ≡ false
deliver_private_example =
    deliver_private (str "n") messages opened stranger refl (stranger, (stranger, tt))

-- Carol has no role in `n` and types into its console.
abbrev world : World test_host
world = record { db = two; session = two; events = []; disk = []; outside = [] }

row_n : row (str "n") two ≡ some (miniverse (str "n"))
unfolding ◌==◌
row_n = refl

found_carol : first (λ u. u.id == str "c") two.users ≡ some carol
unfolding ◌==◌
found_carol = refl

logs_handler-typed_example :
    logs_handler test_host (str "n") (str "c") (str "stop" ∷ [] ∷ str "op" ∷ []) world
    ≡ (ok tt, record world { outside = typed (λ t s. t ∷ s) (str "stop" ∷ [] ∷ str "op" ∷ []) [] })
logs_handler-typed_example =
    logs_handler-typed test_host b'x' [] (λ t s. t ∷ s) (λ s. refl) (λ t s. refl) (str "n")
      (str "c") (miniverse (str "n")) carol (str "stop" ∷ [] ∷ str "op" ∷ []) world row_n refl
      found_carol

stopped : typed (λ t s. t ∷ s) (str "stop" ∷ [] ∷ str "op" ∷ []) [] ≡ (str "stop\n") ∷ []
unfolding typed
stopped = refl
