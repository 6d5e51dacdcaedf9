-- ===== src/Management/Fresh.antt =====
-- A notification of a management server brings the list that it is about up to date.
use miniverse_backend.Base.{
  ◌≡◌, ◌≢◌, refl, sym, subst, ◌∙◌, ◌⊎◌, ℕ, Bool, Bool-cases, true, false, none, some, List, [], ◌∷◌,
  ◌++◌, Text, str, ◌==◌, eq_refl, ok, Action, arith, Result-cases, inl, inr,
}
use miniverse_backend.Base.Dict.{lookup-insert}
use miniverse_backend.Json.{Json, Fields, null, boolean, number, text, array, object, list_of}
use miniverse_backend.Events.{miniverse_control_event}
use miniverse_backend.Players.Store.{key, set}
use miniverse_backend.Players.Router.{seen_method}
use miniverse_backend.Connection.{async_call_rpc}
use miniverse_backend.Management.Service.{
  Link, Listing, players, operators, bans, method_of, type_of, is_none, some_value, call_rpc,
  cached, store, refreshed, get_data_cached, note_seen, get_msmp_player_list,
  get_msmp_operator_list, get_msmp_banned_player_list, items_in, merge_seen, seen_fields,
}
use miniverse_backend.Management.Messages.{
  construct, player_from_dict, operator_from_dict, ban_from_dict,
}
use miniverse_backend.Management.Handlers.{refresh, notify}

-- Keys of one miniverse differ as their methods do.
pub key-eq : (i a b : Text) → (key i a == key i b) ≡ (a == b)
unfolding ◌==◌
key-eq [] a b = refl
key-eq (c ∷ i) a b = ground (arith, key-eq i a b)

-- The notification of a new entry of the list, or of one that has gone.
abbrev pub announcement : Listing → Bool → Text
announcement players true = str "minecraft:notification/players/joined"
announcement players false = str "minecraft:notification/players/left"
announcement operators true = str "minecraft:notification/operators/added"
announcement operators false = str "minecraft:notification/operators/removed"
announcement bans true = str "minecraft:notification/bans/added"
announcement bans false = str "minecraft:notification/bans/removed"

pub some_value-some : (v : Json) → is_none v ≡ false → some_value v ≡ some v
some_value-some null e = ground arith
some_value-some (boolean b) e = refl
some_value-some (number n) e = refl
some_value-some (text t) e = refl
some_value-some (array vs) e = refl
some_value-some (object fs) e = refl

methods_differ : (j k : Listing) → j ≢ k → (method_of k == method_of j) ≡ false
unfolding ◌==◌
methods_differ players players h = absurd (h refl)
methods_differ players operators h = refl
methods_differ players bans h = refl
methods_differ operators players h = refl
methods_differ operators operators h = absurd (h refl)
methods_differ operators bans h = refl
methods_differ bans players h = refl
methods_differ bans operators h = refl
methods_differ bans bans h = absurd (h refl)

seen_differs : (j : Listing) → (seen_method == method_of j) ≡ false
unfolding ◌==◌
seen_differs players = refl
seen_differs operators = refl
seen_differs bans = refl

module _ {S : Type 0} (ask : ℕ → Text → List Json → Action S Json) (dumps : Json → Text)
    (i : Text) where
  notify-announcement :
      (k : Listing) (gained : Bool) (l : Link S)
      → notify ask dumps i (announcement k gained) l ≡ refresh ask dumps i k l
  unfolding notify ◌==◌
  notify-announcement players true l = refl
  notify-announcement players false l = refl
  notify-announcement operators true l = refl
  notify-announcement operators false l = refl
  notify-announcement bans true l = refl
  notify-announcement bans false l = refl

  -- The list `k` is that of the server, was published, and the other lists are as before.
  abbrev pub Fresh : Listing → Json → Link S → Link S → Type 0
  Fresh k v l after =
      (cached ask dumps i k after ≡ some v)
      × (after.status.events
          ≡ l.status.events ++ miniverse_control_event i (type_of k) (dumps v) ∷ [])
      × ((j : Listing) → j ≢ k → cached ask dumps i j after ≡ cached ask dumps i j l)

  store-Fresh :
      (k : Listing) (v : Json) (o : S) (l : Link S)
      → is_none v ≡ false
      → Fresh k v l (record (store ask dumps i k v l) { outside = o })
  unfolding set
  store-Fresh k v o l e = rw (some_value-some v e) (
    ground (
      arith,
      lookup-insert (key i (method_of k)) (key i (method_of k)) v l.status.redis,
      eq_refl (key i (method_of k)),
    ),
    refl,
    λ j h. ground (
      arith,
      lookup-insert (key i (method_of j)) (key i (method_of k)) v l.status.redis,
      key-eq i (method_of k) (method_of j),
      methods_differ j k h,
    ),
  )

  with_seen : Fields → Link S → Link S
  with_seen fs m = record m { status = set dumps i seen_method none (some (object fs)) m.status }

  note_seen-cases :
      (raw : Json) (m : Link S)
      → ((note_seen ask dumps i true raw m).1 ≡ m)
        ⊎ ((fs : Fields) × ((note_seen ask dumps i true raw m).1 ≡ with_seen fs m))
  unfolding note_seen with_seen
  note_seen-cases raw m = elim (Result-cases (items_in raw)) [
    | inr (x, e) ↦ inl (ground (arith, e))
    | inl (items, e) ↦ elim (Result-cases (merge_seen items (seen_fields ask dumps i m))) [
      | inr (x, f) ↦ inl (ground (arith, e, f))
      | inl (fs, f) ↦ inr (fs, ground (arith, e, f))
    ]
  ]

  cached-with_seen :
      (fs : Fields) (j : Listing) (m : Link S)
      → cached ask dumps i j (with_seen fs m) ≡ cached ask dumps i j m
  unfolding with_seen set
  cached-with_seen fs j m = ground (
    arith,
    lookup-insert (key i (method_of j)) (key i seen_method) (object fs) m.status.redis,
    key-eq i seen_method (method_of j),
    seen_differs j,
  )

  Fresh-with_seen :
      (fs : Fields) (k : Listing) (v : Json) (l m : Link S)
      → Fresh k v l m
      → Fresh k v l (with_seen fs m)
  unfolding with_seen set
  Fresh-with_seen fs k v l m f =
      (cached-with_seen fs k m ∙ f.0, f.1, λ j h. cached-with_seen fs j m ∙ f.2 j h)

  note_seen-Fresh :
      (raw : Json) (k : Listing) (v : Json) (l m : Link S)
      → Fresh k v l m
      → Fresh k v l (note_seen ask dumps i true raw m).1
  note_seen-Fresh raw k v l m f = elim (note_seen-cases raw m) [
    | inl e ↦ subst (λ a. Fresh k v l a) (sym e) f
    | inr (fs, e) ↦ subst (λ a. Fresh k v l a) (sym e) (Fresh-with_seen fs k v l m f)
  ]

  module _ (n : ℕ) (v : Json) (o : S) (l : Link S) (k : Listing)
      (online : l.connection.server ≡ some n)
      (answer : ask n (method_of k) [] l.outside ≡ (ok v, o)) where
    abbrev stored : Link S
    stored = record (store ask dumps i k v l) { outside = o }

    refreshed-stored : refreshed ask dumps i k l ≡ (ok (v, true), stored)
    unfolding refreshed call_rpc async_call_rpc
    refreshed-stored = ground (arith, online, answer)

  operators-after :
      (l : Link S) (v : Json) (m : Link S)
      → refreshed ask dumps i operators l ≡ (ok (v, true), m)
      → (refresh ask dumps i operators l).1 ≡ m
  unfolding refresh get_msmp_operator_list get_data_cached
  operators-after l v m e = elim (Bool-cases (is_none v)) [
    | inl nothing ↦ ground (arith, e, nothing)
    | inr there ↦ elim (Result-cases (list_of (construct operator_from_dict) v)) [
      | inl (xs, r) ↦ ground (arith, e, there, r)
      | inr (x, r) ↦ ground (arith, e, there, r)
    ]
  ]

  bans-after :
      (l : Link S) (v : Json) (m : Link S)
      → refreshed ask dumps i bans l ≡ (ok (v, true), m)
      → (refresh ask dumps i bans l).1 ≡ m
  unfolding refresh get_msmp_banned_player_list get_data_cached
  bans-after l v m e = elim (Bool-cases (is_none v)) [
    | inl nothing ↦ ground (arith, e, nothing)
    | inr there ↦ elim (Result-cases (list_of (construct ban_from_dict) v)) [
      | inl (xs, r) ↦ ground (arith, e, there, r)
      | inr (x, r) ↦ ground (arith, e, there, r)
    ]
  ]

  players-after :
      (l : Link S) (v : Json) (m : Link S)
      → refreshed ask dumps i players l ≡ (ok (v, true), m)
      → is_none v ≡ false
      → (refresh ask dumps i players l).1 ≡ (note_seen ask dumps i true v m).1
  unfolding refresh get_msmp_player_list get_data_cached
  players-after l v m e there = elim (Result-cases (note_seen ask dumps i true v m).0) [
    | inr (x, r) ↦ ground (arith, e, there, r)
    | inl (u, r) ↦ elim (Result-cases (list_of (construct player_from_dict) v)) [
      | inl (xs, q) ↦ ground (arith, e, there, r, q)
      | inr (x, q) ↦ ground (arith, e, there, r, q)
    ]
  ]

  refresh-Fresh :
      (n : ℕ) (v : Json) (o : S) (l : Link S) (k : Listing)
      → l.connection.server ≡ some n
      → ask n (method_of k) [] l.outside ≡ (ok v, o)
      → is_none v ≡ false
      → Fresh k v l (refresh ask dumps i k l).1
  refresh-Fresh n v o l players on a t =
      let m : Link S = record (store ask dumps i players v l) { outside = o } in
      subst (λ s. Fresh players v l s)
        (sym (players-after l v m (refreshed-stored n v o l players on a) t))
        (note_seen-Fresh v players v l m (store-Fresh players v o l t))
  refresh-Fresh n v o l operators on a t =
      subst (λ s. Fresh operators v l s)
        (sym (operators-after l v _ (refreshed-stored n v o l operators on a)))
        (store-Fresh operators v o l t)
  refresh-Fresh n v o l bans on a t =
      subst (λ s. Fresh bans v l s) (sym (bans-after l v _ (refreshed-stored n v o l bans on a)))
        (store-Fresh bans v o l t)

  -- When a connected server tells that a list has gained or lost an entry, and answers the question for
  -- that list: whatever the answer is but null, and also if it cannot be read, the store then holds it for
  -- that list, one event with it was published, and the two other lists are as they were.
  pub notify-Fresh :
      (n : ℕ) (v : Json) (o : S) (l : Link S) (k : Listing) (gained : Bool)
      → l.connection.server ≡ some n
      → ask n (method_of k) [] l.outside ≡ (ok v, o)
      → is_none v ≡ false
      → Fresh k v l (notify ask dumps i (announcement k gained) l).1
  notify-Fresh n v o l k gained on a t =
      subst (λ r. Fresh k v l r.1) (sym (notify-announcement k gained l))
        (refresh-Fresh n v o l k on a t)
