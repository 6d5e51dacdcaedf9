-- ===== src/Channel/Console.antt =====
-- `websocket_miniverse_logs_handler` of app/api/v1/websockets.py: what is typed into the console of a
-- miniverse. The stream of logs in the other direction only passes on what the daemon sends.
use miniverse_backend.Base.{
  ◌≡◌, refl, ℕ, Option, none, some, List, [], ◌∷◌, ◌++◌, Text, ◌==◌, first, ok, Error, Action,
  ◌>>=◌, ◌>>◌, pure, gets, or_raise, arith,
}
use miniverse_backend.Models.{User, Miniverse}
use miniverse_backend.Miniverses.World.{Host, World, call, row}
use miniverse_backend.Miniverses.Docker.{send_command_to_container}

module _ (h : Host) where
  -- The loop: it ends at an empty text, which is falsy, and when the client disconnects, here the end of
  -- the list. The log line of that end reads the user's name.
  unfoldable pub run_inputs : Text → Option User → List Text → Action (World h) (Unit {0})
  unfolding send_command_to_container
  run_inputs container_id user [] = do _ ← or_raise user Error.attribute_error; pure tt
  run_inputs container_id user ([] ∷ inputs) = pure tt
  run_inputs container_id user ((c ∷ input) ∷ inputs) = do
    call (send_command_to_container h container_id (c ∷ input))
    run_inputs container_id user inputs

  -- `if miniverse.container_id`
  abbrev with_container : Option Text → Option User → List Text → Action (World h) (Unit {0})
  with_container none user inputs = pure tt
  with_container (some []) user inputs = pure tt
  with_container (some (c ∷ id)) user inputs = run_inputs (c ∷ id) user inputs

  unfoldable pub logs_handler : Text → Text → List Text → Action (World h) (Unit {0})
  unfolding run_inputs
  logs_handler miniverse_id user_id inputs = do
    found ← gets (λ w. row miniverse_id w.session)
    user ← gets (λ w. first (λ u. u.id == user_id) w.session.users)
    miniverse ← or_raise found Error.attribute_error
    with_container miniverse.container_id user inputs

-- The lines up to the first empty one, each with its end, as they are written one after the other.
unfoldable pub typed : {S : Type 0} → (Text → S → S) → List Text → S → S
typed write [] s = s
typed write ([] ∷ inputs) s = s
typed write ((c ∷ input) ∷ inputs) s = typed write inputs (write ((c ∷ input) ++ (b'\n' ∷ [])) s)

module _ (h : Host) (c : ℕ) (id : Text) (write : Text → h.State → h.State)
    (get_answers : (s : h.State) → h.aio_get (c ∷ id) s ≡ (ok (c ∷ id), s))
    (attach_writes : (t : Text) (s : h.State)
      → h.attach_and_write (c ∷ id) t s ≡ (ok tt, write t s)) where
  send_writes :
      (t : Text) (s : h.State)
      → send_command_to_container h (c ∷ id) t s ≡ (ok tt, write (t ++ (b'\n' ∷ [])) s)
  unfolding send_command_to_container
  send_writes t s = ground (arith, get_answers s, attach_writes (t ++ (b'\n' ∷ [])) s)

  run_inputs-typed :
      (user : User) (inputs : List Text) (w : World h)
      → run_inputs h (c ∷ id) (some user) inputs w
        ≡ (ok tt, record w { outside = typed write inputs w.outside })
  unfolding run_inputs typed
  run_inputs-typed user [] w = refl
  run_inputs-typed user ([] ∷ inputs) w = refl
  run_inputs-typed user ((d ∷ input) ∷ inputs) w = ground (
    arith,
    send_writes (d ∷ input) w.outside,
    run_inputs-typed user inputs
        (record w { outside = write ((d ∷ input) ++ (b'\n' ∷ [])) w.outside }),
  )

  -- The console of a miniverse with a container, where the daemon takes what is written to it: whatever role
  -- the user has in the miniverse, also with none at all, every line up to the first empty one is written
  -- to the server's input, in order, and nothing else changes.
  pub logs_handler-typed :
      (miniverse_id user_id : Text) (m : Miniverse) (user : User) (inputs : List Text) (w : World h)
      → row miniverse_id w.session ≡ some m
      → m.container_id ≡ some (c ∷ id)
      → first (λ u. u.id == user_id) w.session.users ≡ some user
      → logs_handler h miniverse_id user_id inputs w
        ≡ (ok tt, record w { outside = typed write inputs w.outside })
  unfolding logs_handler
  logs_handler-typed i u m user inputs w r k f =
      ground (arith, r, k, f, run_inputs-typed user inputs w)
