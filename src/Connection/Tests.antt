-- ===== src/Connection/Tests.antt =====
-- Runs of the connection.
use miniverse_backend.Base.{◌≡◌, ◌≢◌, refl, ℕ, ◌+◌, none, some, [], ◌∷◌, Action, ok, arith}
use miniverse_backend.Connection.{
  Phase, Connection, Reachable, begin, step, start, begin_turn, connected, lost, ended, stop_ending,
  stop_online, closed, async_call_rpc, async_call_rpc_idle,
}

-- The connection was lost, and the task waits for its next turn.
abbrev after_loss : Connection
after_loss = record { server = none; task = Phase.waiting; closing = []; cut_short = [] }

after_loss_reached : Reachable after_loss
after_loss_reached =
    step
      (step (step (step (step begin (start refl)) (begin_turn 1 refl)) (connected 1 refl))
        (lost 1 refl))
      (ended 1 refl)

not_online : (n : ℕ) → after_loss.task ≢ Phase.online n
not_online n = ground arith

not_ending : (n : ℕ) → after_loss.task ≢ Phase.ending n
not_ending n = ground arith

-- A server that counts its calls.
abbrev counting : ℕ → Action ℕ ℕ
counting n calls = (ok n, calls + 1)

async_call_rpc_idle_example : async_call_rpc counting after_loss 0 ≡ (ok none, 0)
async_call_rpc_idle_example =
    async_call_rpc_idle counting after_loss 0 after_loss_reached not_online not_ending refl refl

-- Stopped and started again at once: the cancelled task ends after the new one is connected, and the service
-- has no server although its task is online.
restarted :
    Reachable (record { server = none; task = Phase.online 2; closing = []; cut_short = [] })
restarted =
    step
      (step
        (step
          (step
            (step (step (step (step begin (start refl)) (begin_turn 1 refl)) (connected 1 refl))
              (stop_online 1 refl))
            (start refl))
          (begin_turn 2 refl))
        (connected 2 refl))
      (closed 1 refl)

-- Stopped while the lost connection is being closed: the service has no task, and still a server.
server_left :
    Reachable (record { server = some 1; task = Phase.absent; closing = []; cut_short = 1 ∷ [] })
server_left =
    step
      (step (step (step (step begin (start refl)) (begin_turn 1 refl)) (connected 1 refl))
        (lost 1 refl))
      (stop_ending 1 refl)
