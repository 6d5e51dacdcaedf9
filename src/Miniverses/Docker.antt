-- ===== src/Miniverses/Docker.antt =====
-- `AsyncDockerController` of app/services/docker_service.py, over the calls of the Docker SDK.
use miniverse_backend.Base.{
  Option, none, some, List, [], ◌∷◌, ◌++◌, Text, ok, err, Error, Action, ◌>>=◌, ◌>>◌,
}
use miniverse_backend.Miniverses.World.{Host, ContainerConfig}

-- `try: … except NotFound: …`
unfoldable pub catch_not_found : {S A : Type 0} → Action S A → Action S A → Action S A
catch_not_found m handler s =
    let (r, s') = m s in
    elim r [ ok a ↦ (ok a, s') | err Error.docker_not_found ↦ handler s' | err e ↦ (err e, s') ]

-- `except Exception`
unfoldable pub catch_all : {S A : Type 0} → Action S A → Action S A → Action S A
catch_all m handler s = let (r, s') = m s in elim r [ ok a ↦ (ok a, s') | err e ↦ handler s' ]

abbrev done : {S : Type 0} → Action S (Unit {0})
done s = (ok tt, s)

abbrev pub head_of : List Text → Option Text
head_of [] = none
head_of (c ∷ cs) = some c

module _ (h : Host) where
  -- `images.get` raises `ImageNotFound`, a kind of `NotFound`.
  unfoldable pub create_container : ContainerConfig → Action h.State Text
  unfolding catch_not_found
  create_container config = do
    catch_not_found (h.images_get config.image) (h.images_pull config.image)
    h.containers_create config

  unfoldable pub start_container : Text → Action h.State (Unit {0})
  start_container container_id = do
    container ← h.containers_get container_id
    h.container_start container

  unfoldable pub stop_container : Text → Action h.State (Unit {0})
  stop_container container_id = do
    container ← h.containers_get container_id
    h.container_stop container

  unfoldable pub restart_container : Text → Action h.State (Unit {0})
  restart_container container_id = do
    container ← h.containers_get container_id
    h.container_restart container

  unfoldable pub remove_container : Text → Action h.State (Unit {0})
  unfolding catch_not_found
  remove_container container_id =
      catch_not_found (h.containers_get container_id >>= λ container. h.container_remove container)
        done

  unfoldable pub kill_container : Text → Text → Action h.State (Unit {0})
  unfolding catch_not_found
  kill_container container_id signal =
      catch_not_found
        (h.containers_get container_id >>= λ container. h.container_kill container signal) done

  unfoldable pub get_container : Text → Action h.State (Option Text)
  unfolding catch_not_found
  get_container container_id =
      catch_not_found (h.containers_get container_id >>= λ container. λ s. (ok (some container), s))
        λ s. (ok none, s)

  unfoldable pub get_container_by_name : Text → Action h.State (Option Text)
  unfolding catch_all
  get_container_by_name name =
      catch_all (h.containers_list name >>= λ containers. λ s. (ok (head_of containers), s))
        λ s. (ok none, s)

  -- `write_in` of the attached stream
  unfoldable pub send_command_to_container : Text → Text → Action h.State (Unit {0})
  send_command_to_container container_id command = do
    container ← h.aio_get container_id
    h.attach_and_write container (command ++ (b'\n' ∷ []))
