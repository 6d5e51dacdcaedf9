-- ===== src/Players/Coherence.antt =====
-- The player list that is given out, the players that were seen, and the table of those online.
use miniverse_backend.Base.{
  ◌≡◌, refl, ap, Bool, true, false, none, some, List, [], ◌∷◌, ◌++◌, Text, str, ◌==◌, eq_iff,
  eq_refl, exists, arith, Option-cases, inl, inr,
}
use miniverse_backend.Events.{EventType, miniverse_control_event}
use miniverse_backend.Base.Dict.{Dict, insert, lookup, values, lookup-insert}
use miniverse_backend.Players.Store.{Player, Json, player_list, player_dict, Status, key, set}
use miniverse_backend.Players.Router.{
  Payload, players_method, seen_method, merge, seen_players, refresh, get_msmp_player_list,
  on_event, process_webhook, stop,
}

key_differs : (i : Text) → (key i seen_method == key i players_method) ≡ false
unfolding ◌==◌
key_differs [] = refl
key_differs (c ∷ i) = ground (arith, key_differs i)

key_differs_back : (i : Text) → (key i players_method == key i seen_method) ≡ false
key_differs_back i = ground (
  arith,
  key_differs i,
  eq_iff (key i players_method) (key i seen_method),
  eq_iff (key i seen_method) (key i players_method),
)

abbrev pub has : {A : Type 0} → Text → Dict A → Bool
has k d = elim (lookup k d) [ none ↦ false | some v ↦ true ]

merge_keeps :
    (k : Text) (ps : List Player) (d : Dict Player) → has k d ≡ true → has k (merge ps d) ≡ true
unfolding merge
merge_keeps k [] d h = h
merge_keeps k (p ∷ ps) d h =
    merge_keeps k ps (insert p.id p d) (ground (arith, lookup-insert k p.id p d))

merge-has :
    (k : Text) (ps : List Player) (d : Dict Player)
    → exists (λ q. q.id == k) ps ≡ true
    → has k (merge ps d) ≡ true
unfolding merge
merge-has k [] d h = cc
merge-has k (p ∷ ps) d h = ground (
  arith,
  merge-has k ps (insert p.id p d),
  merge_keeps k ps (insert p.id p d),
  lookup-insert k p.id p d,
)

values-insert :
    (p : Player) (d : Dict Player) → exists (λ q. q.id == p.id) (values (insert p.id p d)) ≡ true
unfolding values insert
values-insert p [] = ground (arith, eq_refl p.id)
values-insert p ((j, w) ∷ d) = ground (arith, values-insert p d, eq_refl p.id)

abbrev pub connected : Player → Payload
connected p = record {
  event = some (str "connect");
  status = some (str "success");
  player = some p;
}

module _ (dumps : Json → Text) (i : Text) where
  refresh_stores :
      (online : Dict Player) (s : Status Json)
      → lookup (key i players_method) (refresh dumps i online s).1.redis
        ≡ some (player_list (values online))
  unfolding refresh set
  refresh_stores online s = ground (
    arith,
    key_differs i,
    eq_refl (key i players_method),
    lookup-insert (key i players_method) (key i seen_method)
        (player_dict (
          merge (values online) (
            seen_players dumps i (
              set dumps i players_method (some EventType.players)
                (some (player_list (values online))) s))))
        (insert (key i players_method) (player_list (values online)) s.redis),
    lookup-insert (key i players_method) (key i players_method) (player_list (values online))
        s.redis,
  )

  cached_list :
      (ps : List Player) (o : Dict Player) (s : Status Json)
      → lookup (key i players_method) s.redis ≡ some (player_list ps)
      → get_msmp_player_list dumps i false o s ≡ (ps, s)
  unfolding get_msmp_player_list
  cached_list ps o s e = ground arith

  refresh_list :
      (online o : Dict Player) (s : Status Json)
      → get_msmp_player_list dumps i false o (refresh dumps i online s).1
        ≡ (values online, (refresh dumps i online s).1)
  refresh_list online o s =
      cached_list (values online) o (refresh dumps i online s).1 (refresh_stores online s)

  refresh_events :
      (online : Dict Player) (s : Status Json)
      → (refresh dumps i online s).1.events
        ≡ s.events
          ++ miniverse_control_event i EventType.players (dumps (player_list (values online))) ∷ []
  unfolding refresh set
  refresh_events online s = refl

  refresh_seen :
      (online : Dict Player) (s : Status Json)
      → seen_players dumps i (refresh dumps i online s).1
        ≡ merge (values online) (seen_players dumps i s)
  unfolding refresh set seen_players
  refresh_seen online s = rw (lookup-insert, eq_refl, lookup-insert, key_differs_back i)

  on_event-connected :
      (p : Player) (online : Dict Player)
      → on_event dumps i (connected p) p online ≡ insert p.id p online
  unfolding on_event
  on_event-connected p online = ground (arith, eq_refl (str "connect"), eq_refl (str "success"))

  process_webhook-none :
      (payload : Payload) (online : Dict Player) (s : Status Json)
      → payload.player ≡ none
      → process_webhook dumps i payload online s ≡ (online, s)
  unfolding process_webhook
  process_webhook-none payload online s e = ground arith

  process_webhook-some :
      (payload : Payload) (p : Player) (online : Dict Player) (s : Status Json)
      → payload.player ≡ some p
      → process_webhook dumps i payload online s ≡ (
        on_event dumps i payload p online,
        (refresh dumps i (on_event dumps i payload p online) s).1,
      )
  unfolding process_webhook get_msmp_player_list
  process_webhook-some payload p online s e = ground arith

  -- A webhook that carries a player keeps the player list coherent: the list that is given out
  -- afterwards, from the cache, is that of the players online, and one event with this list was
  -- published.
  pub process_webhook_coherent :
      (payload : Payload) (p : Player) (online : Dict Player) (s : Status Json)
      → payload.player ≡ some p
      → (get_msmp_player_list dumps i false
            (process_webhook dumps i payload online s).0
            (process_webhook dumps i payload online s).1).0
          ≡ values (process_webhook dumps i payload online s).0
        × ((process_webhook dumps i payload online s).1.events
            ≡ s.events
              ++ miniverse_control_event i EventType.players
                  (dumps (player_list (values (process_webhook dumps i payload online s).0)))
                ∷ [])
  process_webhook_coherent payload p online s e =
      let after = on_event dumps i payload p online in
      rw (process_webhook-some payload p online s e)
        (ap (λ r. r.0) (refresh_list after after s), refresh_events after s)

  -- No webhook makes a seen player unseen.
  process_webhook_keeps_seen :
      (payload : Payload) (k : Text) (online : Dict Player) (s : Status Json)
      → has k (seen_players dumps i s) ≡ true
      → has k (seen_players dumps i (process_webhook dumps i payload online s).1) ≡ true
  process_webhook_keeps_seen payload k online s h = elim (Option-cases payload.player) [
    | inl e ↦ rw (process_webhook-none payload online s e) h
    | inr (p, e) ↦
        let after = on_event dumps i payload p online in
        rw (process_webhook-some payload p online s e)
          (rw (refresh_seen after s) (merge_keeps k (values after) (seen_players dumps i s) h))
  ]

  -- A successful connection makes its player seen.
  process_webhook-connected :
      (p : Player) (online : Dict Player) (s : Status Json)
      → has p.id (seen_players dumps i (process_webhook dumps i (connected p) online s).1) ≡ true
  process_webhook-connected p online s =
      let after = on_event dumps i (connected p) p online in
      rw (process_webhook-some (connected p) p online s refl) (
        rw (refresh_seen after s) (
          merge-has p.id (values after) (seen_players dumps i s)
            (rw (on_event-connected p online) (values-insert p online))))

  -- When the server stops after such a webhook, the list that is given out is still that of the players
  -- who were online, though the table of those online is empty.
  stop_keeps_list :
      (payload : Payload) (p : Player) (online : Dict Player) (s : Status Json)
      → payload.player ≡ some p
      → ((stop dumps i
            (process_webhook dumps i payload online s).0
            (process_webhook dumps i payload online s).1).0
          ≡ [])
        × ((get_msmp_player_list dumps i false
              (stop dumps i
                (process_webhook dumps i payload online s).0
                (process_webhook dumps i payload online s).1).0
              (stop dumps i
                (process_webhook dumps i payload online s).0
                (process_webhook dumps i payload online s).1).1).0
            ≡ values (process_webhook dumps i payload online s).0)
  unfolding stop
  stop_keeps_list payload p online s e =
      let after = on_event dumps i payload p online in
      rw (process_webhook-some payload p online s e) (refl, ap (λ r. r.0) (refresh_list after [] s))
