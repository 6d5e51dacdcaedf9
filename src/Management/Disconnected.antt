-- ===== src/Management/Disconnected.antt =====
-- What stopping the service of a management server does when the server cannot be asked any more.
use miniverse_backend.Base.{
  ◌≡◌, refl, ℕ, true, false, none, some, List, [], ◌∷◌, ◌++◌, Text, str, ◌==◌, eq_refl, eq_iff, ok,
  Action, arith, if◌then◌else◌,
}
use miniverse_backend.Base.Dict.{Dict, lookup, discard}
use miniverse_backend.Json.{Json, null}
use miniverse_backend.Events.{EventType, miniverse_control_event}
use miniverse_backend.Players.Store.{key, set}
use miniverse_backend.Connection.{Phase, async_call_rpc}
use miniverse_backend.Management.Service.{
  Link, players, method_of, cancelled, cut, call_rpc, cached, refreshed, get_data_cached,
  get_msmp_player_list, stop,
}

lookup-discard :
    {V : Type 0} (k j : Text) (d : Dict V)
    → lookup k (discard j d) ≡ (if j == k then none else lookup k d)
unfolding lookup discard
lookup-discard k j [] = ground arith
lookup-discard k j ((l, w) ∷ d) =
    ground (arith, lookup-discard k j d, eq_iff l j, eq_iff l k, eq_iff j k)

module _ {S : Type 0} (ask : ℕ → Text → List Json → Action S Json) (dumps : Json → Text)
    (i : Text) where
  -- The store without the list of players, and the event.
  dropped : Link S → Link S
  dropped l = record l {
    status = record l.status {
      redis = discard (key i (method_of players)) l.status.redis;
      events = l.status.events ++ miniverse_control_event i EventType.players (str "null") ∷ [];
    };
  }

  refreshed-off :
      (l : Link S) (v : Json)
      → l.connection.server ≡ none
      → cached ask dumps i players l ≡ some v
      → refreshed ask dumps i players l ≡ (ok (null, true), dropped l)
  unfolding refreshed call_rpc async_call_rpc set dropped
  refreshed-off l v off there = ground (arith, off, there)

  refreshed-nothing :
      (l : Link S)
      → l.connection.server ≡ none
      → cached ask dumps i players l ≡ none
      → refreshed ask dumps i players l ≡ (ok (null, true), l)
  unfolding refreshed call_rpc async_call_rpc set
  refreshed-nothing l off gone = ground (arith, off, gone)

  stopped : Link S → Link S
  unfolding dropped
  stopped l = record (dropped l) {
    connection = record l.connection {
      task = Phase.absent;
      closing = cancelled l.connection.task l.connection.closing;
      cut_short = cut l.connection.task l.connection.cut_short;
    };
  }

  stop-stopped :
      (l : Link S) (v : Json)
      → l.connection.server ≡ none
      → cached ask dumps i players l ≡ some v
      → stop ask dumps i l ≡ (ok tt, stopped l)
  unfolding stop get_msmp_player_list get_data_cached stopped dropped
  stop-stopped l v off there = ground (arith, refreshed-off l v off there)

  list-stopped :
      (l : Link S)
      → l.connection.server ≡ none
      → get_msmp_player_list ask dumps i false (stopped l) ≡ (ok [], stopped l)
  unfolding get_msmp_player_list get_data_cached stopped dropped
  list-stopped l off = ground (
    arith,
    lookup-discard (key i (method_of players)) (key i (method_of players)) l.status.redis,
    eq_refl (key i (method_of players)),
    refreshed-nothing (stopped l) off,
  )

  -- A list of players is in the store and the server is not connected any more. Stopping the service, which
  -- asks the server once more for the case that it crashed, drops the list and publishes `null`: from
  -- then on the list that is given out without a server is empty, and it changes nothing.
  pub stop_disconnected :
      (l : Link S) (v : Json)
      → l.connection.server ≡ none
      → cached ask dumps i players l ≡ some v
      → ((stop ask dumps i l).0 ≡ ok tt)
        × ((stop ask dumps i l).1.connection.task ≡ Phase.absent)
        × ((stop ask dumps i l).1.status.events
            ≡ l.status.events ++ miniverse_control_event i EventType.players (str "null") ∷ [])
        × (get_msmp_player_list ask dumps i false (stop ask dumps i l).1
            ≡ (ok [], (stop ask dumps i l).1))
  unfolding stopped dropped
  stop_disconnected l v off there =
      rw (stop-stopped l v off there) (refl, refl, refl, list-stopped l off)
