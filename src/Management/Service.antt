-- ===== src/Management/Service.antt =====
-- The lists of a management server: `BaseMiniverseService` of
-- app/services/connexion/BaseMiniverseService.py with the source of WebSocketMiniverseService.py beside
-- it, and the start and stop of its task.
use miniverse_backend.Base.{
  ℕ, Bool, true, false, Option, none, some, List, [], ◌∷◌, Text, str, Result, ok, err, Error,
  Action, ◌>>=◌, ◌>>◌, pure, gets, modify, if◌then◌else◌, ◌==◌,
}
use miniverse_backend.Json
use miniverse_backend.Json.{
  Json, Items, Fields, null, array, object, nil, cons, end, field, list_of, text_at,
}
use miniverse_backend.Events.{EventType}
use miniverse_backend.Players.Store.{Player, Status, get, set}
use miniverse_backend.Players.Router.{seen_method}
use miniverse_backend.Connection.{Connection, Phase, async_call_rpc}
use miniverse_backend.Management.Messages.{
  Operator, PlayerBan, construct, player_from_dict, operator_from_dict, ban_from_dict,
}

-- The status store, the connection of `self.rpc`, and the state of the management server.
pub record Link (S : Type 0) : Type 0 where
  pub status : Status Json
  pub connection : Connection
  pub outside : S

-- The three lists that are kept, with their `method_name` and its `EventType`.
pub data Listing : Type 0 where
  players operators bans : Listing

abbrev pub method_of : Listing → Text
method_of players = str "minecraft:players"
method_of operators = str "minecraft:operators"
method_of bans = str "minecraft:bans"

abbrev pub type_of : Listing → EventType
type_of players = EventType.players
type_of operators = EventType.operators
type_of bans = EventType.player_ban

-- `None` is the value `null`.
abbrev pub is_none : Json → Bool
is_none null = true
is_none _ = false

abbrev pub some_value : Json → Option Json
some_value null = none
some_value v = some v

abbrev pub value_or_none : Option Json → Json
value_or_none none = null
value_or_none (some v) = v

abbrev pub lift : {S A : Type 0} → Result A → Action S A
lift r s = (r, s)

-- `d[k] = v` on an object's fields
unfoldable pub set_field : Text → Json → Fields → Fields
set_field k v end = field k v end
set_field k v (field j w fs) =
    let rest = set_field k v fs in if j == k then field j v fs else field j w rest

-- `seen |= {p["id"]: p for p in raw}`
unfoldable pub merge_seen : Items → Fields → Result Fields
unfolding set_field
merge_seen nil seen = ok seen
merge_seen (cons p ps) seen =
    Json.◌>>=◌ (text_at (str "id") p) λ id. merge_seen ps (set_field id p seen)

abbrev pub items_in : Json → Result Items
items_in (array vs) = ok vs
items_in _ = err Error.type_error

-- `seen or {}`
abbrev pub fields_or_empty : Option Json → Fields
fields_or_empty (some (object fs)) = fs
fields_or_empty _ = end

unfoldable pub read_values : {A : Type 0} → (Json → Result A) → Fields → Result (List A)
read_values read end = ok []
read_values read (field k v fs) =
    let rest = read_values read fs in Json.◌>>=◌ (read v) λ a. Json.◌>>=◌ rest λ xs. ok (a ∷ xs)

-- `start`: a task is made if there is none.
abbrev pub with_task : Phase → Phase
with_task Phase.absent = Phase.waiting
with_task p = p

-- `self.task.cancel()`: the task's `finally` is still to run.
abbrev pub cancelled : Phase → List ℕ → List ℕ
cancelled (Phase.opening n) closing = n ∷ closing
cancelled (Phase.online n) closing = n ∷ closing
cancelled _ closing = closing

abbrev pub cut : Phase → List ℕ → List ℕ
cut (Phase.ending n) cut_short = n ∷ cut_short
cut _ cut_short = cut_short

-- What the server at a socket answers to a method with its arguments is `ask`.
module _ {S : Type 0} (ask : ℕ → Text → List Json → Action S Json) where
  -- `self.rpc.async_call_rpc(method_name, *args)`
  unfoldable pub call_rpc : Text → List Json → Action (Link S) Json
  unfolding async_call_rpc
  call_rpc method_name args l =
      let (r, o) = async_call_rpc (λ n. ask n method_name args) l.connection l.outside in
      (elim r [ ok v ↦ ok (value_or_none v) | err e ↦ err e ], record l { outside = o })

module _ {S : Type 0} (ask : ℕ → Text → List Json → Action S Json) (dumps : Json → Text)
    (miniverse_id : Text) where
  -- `server_status_store.get(self.miniverse_id, …)`
  abbrev pub cached : Listing → Link S → Option Json
  cached k l = get miniverse_id (method_of k) l.status

  abbrev pub store : Listing → Json → Link S → Link S
  store k v l = record l {
    status = set dumps miniverse_id (method_of k) (some (type_of k)) (some_value v) l.status;
  }

  -- The answer of the source goes to the store.
  unfoldable pub refreshed : Listing → Action (Link S) (Json × Bool)
  unfolding call_rpc set
  refreshed k = do
    raw_data ← call_rpc ask (method_of k) []
    modify (store k raw_data)
    pure (raw_data, true)

  unfoldable pub get_data_cached : Listing → Bool → Action (Link S) (Json × Bool)
  unfolding refreshed
  get_data_cached k true l = refreshed k l
  get_data_cached k false l = elim (cached k l) [
    | none ↦ refreshed k l
    | some v ↦ (ok (v, false), l)
  ]

  abbrev pub seen_fields : Link S → Fields
  seen_fields l = fields_or_empty (get miniverse_id seen_method l.status)

  unfoldable pub note_seen : Bool → Json → Action (Link S) (Unit {0})
  unfolding merge_seen set
  note_seen false raw = pure tt
  note_seen true raw = do
    seen ← gets seen_fields
    items ← lift (items_in raw)
    merged ← lift (merge_seen items seen)
    modify (λ l. record l {
      status = set dumps miniverse_id seen_method none (some (object merged)) l.status;
    })

  unfoldable pub get_msmp_player_list : Bool → Action (Link S) (List Player)
  unfolding get_data_cached note_seen
  get_msmp_player_list refresh_cache = do
    (raw, has_refreshed) ← get_data_cached players refresh_cache
    if is_none raw
        then pure []
        else (note_seen has_refreshed raw >> lift (list_of (construct player_from_dict) raw))

  unfoldable pub get_msmp_seen_player_list : Action (Link S) (List Player)
  unfolding read_values
  get_msmp_seen_player_list = do
    seen ← gets seen_fields
    lift (read_values (construct player_from_dict) seen)

  unfoldable pub get_msmp_operator_list : Bool → Action (Link S) (List Operator)
  unfolding get_data_cached
  get_msmp_operator_list refresh_cache = do
    (raw, _) ← get_data_cached operators refresh_cache
    if is_none raw then pure [] else lift (list_of (construct operator_from_dict) raw)

  unfoldable pub get_msmp_banned_player_list : Bool → Action (Link S) (List PlayerBan)
  unfolding get_data_cached
  get_msmp_banned_player_list refresh_cache = do
    (raw, _) ← get_data_cached bans refresh_cache
    if is_none raw then pure [] else lift (list_of (construct ban_from_dict) raw)

  unfoldable pub start : Action (Link S) (Unit {0})
  start =
      modify
        λ l. record l { connection = record l.connection { task = with_task l.connection.task } }

  unfoldable pub stop : Action (Link S) (Unit {0})
  unfolding get_msmp_player_list
  stop = do
    _ ← get_msmp_player_list true
    modify (λ l. record l {
      connection = record l.connection {
        task = Phase.absent;
        closing = cancelled l.connection.task l.connection.closing;
        cut_short = cut l.connection.task l.connection.cut_short;
      };
    })
