-- ===== src/Miniverses/Startup.antt =====
-- The start-up and shutdown functions of app/main.py, in the order of `on_startup`. Each one opens a session of its own.
use miniverse_backend.Base.{
  ℕ, leb, ltb, ◌&&◌, ◌++◌, Bool, true, false, List, [], ◌∷◌, Text, map, Action, ◌>>=◌, ◌>>◌, pure,
  gets,
}
use miniverse_backend.Models.{Miniverse}
use miniverse_backend.Settings.{Settings}
use miniverse_backend.Miniverses.World.{Host, World, call, in_request, the}
use miniverse_backend.Miniverses.Proxy.{
  update_proxy_config, start_proxy_containers, stop_proxy_containers,
}
use miniverse_backend.Miniverses.Lifecycle.{start_miniverse, stop_miniverse_container}
use miniverse_backend.Miniverses.Docker.{catch_not_found}
use miniverse_backend.Management.Handlers.{gather}

module _ (h : Host) (settings : Settings) where
  unfoldable pub proxy_startup : Action (World h) (Unit {0})
  proxy_startup = in_request (update_proxy_config h settings)

  abbrev start_control : Bool → Text → Action (World h) (Unit {0})
  start_control true i = call (h.start_controller i)
  start_control false i = pure tt

  unfoldable pub add_each : List Miniverse → Action (World h) (Unit {0})
  add_each [] = pure tt
  add_each (m ∷ ms) = do call (h.add_controller m); start_control m.started m.id; add_each ms

  unfoldable pub miniverse_controller_manager_startup : Action (World h) (Unit {0})
  unfolding add_each
  miniverse_controller_manager_startup =
      in_request (do miniverses ← gets (λ w. w.session.miniverses); add_each miniverses)

  abbrev start_if : Bool → Text → Action (World h) (Unit {0})
  start_if true i = do _ ← start_miniverse h settings i; pure tt
  start_if false i = pure tt

  -- One turn of the loop of `docker_startup`.
  unfoldable pub start_started : Text → Action (World h) (Unit {0})
  start_started i = do m ← the i; start_if m.started i

  unfoldable pub start_each : List Text → Action (World h) (Unit {0})
  unfolding start_started
  start_each [] = pure tt
  start_each (i ∷ ids) = do start_started i; start_each ids

  unfoldable pub docker_startup : Action (World h) (Unit {0})
  unfolding start_each
  docker_startup = do
    start_proxy_containers h settings
    in_request
        (do ids ← gets (λ w. map (λ (m : Miniverse). m.id) w.session.miniverses); start_each ids)

  -- `docker_shutdown`, without closing the clients. The application does not register it.
  unfoldable pub docker_shutdown : Action (World h) (Unit {0})
  unfolding gather catch_not_found
  docker_shutdown = in_request (do
    ids ← gets (λ w. map (λ (m : Miniverse). m.id) w.session.miniverses)
    catch_not_found
        (gather
          (map (stop_miniverse_container h settings) ids ++ stop_proxy_containers h settings ∷ []))
        (pure tt))

-- `custom_cache_response_filter`
unfoldable pub custom_cache_response_filter : ℕ → Bool
custom_cache_response_filter status_code = leb 200 status_code && ltb status_code 300
