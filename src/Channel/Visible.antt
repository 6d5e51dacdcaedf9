-- ===== src/Channel/Visible.antt =====
-- Which miniverses the first event of a WebSocket is about.
use miniverse_backend.Base.{
  ◌≡◌, Bool, Text, true, Bool-cases, Option, none, some, List, [], ◌∷◌, keep, map, All,
  Result-cases, inl, inr, ok, arith,
}
use miniverse_backend.Role.{Role, ge}
use miniverse_backend.Models.{Miniverse, MiniverseUserRole, Tables, get_miniverse_role}
use miniverse_backend.Channel.Initial.{
  SyncEventItem, MiniverseSchema, Kind, websocket, mc_router, other_class, Controllers,
  miniverse_schema, visible, sync_item, sync_items, send_init_data,
}

abbrev pub schema_of : SyncEventItem → MiniverseSchema
schema_of item = item.miniverse

module _ {S : Type 0} (controllers : Controllers S) (t : Tables) where
  open controllers use {kind_of}

  sync_item-schema :
      (k : Option Kind) (m : Miniverse) (s : S) (item : SyncEventItem)
      → (sync_item controllers t k m s).0 ≡ ok item
      → item.miniverse ≡ miniverse_schema t m
  unfolding sync_item
  sync_item-schema none m s item e = ground arith
  sync_item-schema (some websocket) m s item e = ground arith
  sync_item-schema (some mc_router) m s item e = ground arith
  sync_item-schema (some other_class) m s item e = ground arith

  sync_items-schemas :
      (ms : List Miniverse) (s : S) (items : List SyncEventItem)
      → (sync_items controllers t ms s).0 ≡ ok items
      → map schema_of items ≡ map (miniverse_schema t) ms
  unfolding sync_items
  sync_items-schemas [] s items e = ground arith
  sync_items-schemas (m ∷ ms) s items e =
      let k = kind_of m.id s in
      elim (Result-cases (sync_item controllers t k m s).0) [
        | inr (x, r) ↦ ground (arith, e, r)
        | inl (item, r) ↦
            let s1 = (sync_item controllers t k m s).1 in
            elim (Result-cases (sync_items controllers t ms s1).0) [
              | inr (x, q) ↦ ground (arith, e, r, q)
              | inl (rest, q) ↦
                  ground
                    (arith, e, r, q, sync_item-schema k m s item r, sync_items-schemas ms s1 rest q)
            ]
      ]

-- Does the user have a role in the miniverse?
abbrev pub belongs : List MiniverseUserRole → Text → Bool
belongs roles miniverse_id = ge (get_miniverse_role roles miniverse_id) (some Role.user)

visible-members :
    (roles : List MiniverseUserRole) (ms : List Miniverse)
    → All (λ (m : Miniverse). belongs roles m.id ≡ true) (visible roles ms)
unfolding visible
visible-members roles [] = tt
visible-members roles (m ∷ ms) = elim (Bool-cases (belongs roles m.id)) [
  | inl member ↦ rw member (member, visible-members roles ms)
  | inr stranger ↦ rw stranger (visible-members roles ms)
]

items-members :
    (t : Tables) (roles : List MiniverseUserRole) (items : List SyncEventItem) (ms : List Miniverse)
    → map schema_of items ≡ map (miniverse_schema t) ms
    → All (λ (m : Miniverse). belongs roles m.id ≡ true) ms
    → All (λ (item : SyncEventItem). belongs roles item.miniverse.id ≡ true) items
items-members t roles [] ms e h = tt
items-members t roles (item ∷ items) [] e h = cc
items-members t roles (item ∷ items) (m ∷ ms) e h =
    (ground (arith, e, h.0), items-members t roles items ms (ground (arith, e)) h.1)

-- When the first event of a WebSocket is sent, it holds, in the order of the table, exactly the miniverses in
-- which the user has a role, and so none in which the user has none.
pub send_init_data_visible :
    {S : Type 0} (controllers : Controllers S) (t : Tables) (roles : List MiniverseUserRole) (s : S)
    (items : List SyncEventItem)
    → (send_init_data controllers t roles s).0 ≡ ok items
    → (map schema_of items ≡ map (miniverse_schema t) (keep (λ m. belongs roles m.id) t.miniverses))
      × All (λ (item : SyncEventItem). belongs roles item.miniverse.id ≡ true) items
unfolding send_init_data visible
send_init_data_visible controllers t roles s items e =
    let same = sync_items-schemas controllers t (visible roles t.miniverses) s items e in
    (
      same,
      items-members t roles items (visible roles t.miniverses) same
          (visible-members roles t.miniverses),
    )
