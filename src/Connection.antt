-- ===== src/Connection.antt =====
-- The connection to a management server: `RpcService` of app/services/rpc_service.py, and the task that
-- `WebSocketMiniverseService` of app/services/connexion/WebSocketMiniverseService.py starts and cancels. A socket
-- is a number. What is sent over a socket is a parameter.
pub mod Tests
use miniverse_backend.Base.{
  ◌≡◌, ◌≢◌, refl, Option-cases, Bool-cases, ◌⊎◌, inl, inr, ℕ, Bool, true, false, not, Option, some,
  none, List, [], ◌∷◌, keep, exists, eqb, ◌||◌, Text, Action, ◌>>=◌, ok, arith,
}

-- Where the task of the service is in `async_connect_loop`: `ending` is the `await server.close()` of its `finally`,
-- `finished` a task that ended with an exception, and `absent` no task.
pub data Phase : Type 0 where
  absent waiting finished : Phase
  opening online ending : ℕ → Phase

-- `self.server`, the phase of `self.task`, and the sockets of cancelled tasks that wait in their `finally`.
-- `cut_short` records the sockets whose `finally` did not come behind `await server.close()`; the code keeps no
-- such list.
pub record Connection : Type 0 where
  pub server : Option ℕ
  pub task : Phase
  pub closing : List ℕ
  pub cut_short : List ℕ

abbrev pub initial : Connection
initial = record { server = none; task = Phase.absent; closing = []; cut_short = [] }

abbrev pub set_task : Phase → Connection → Connection
set_task p c = record c { task = p }

-- One step, at the points where the task waits.
pub data Step : Connection → Connection → Type 0 where
  -- `start` without a task
  start : {c : Connection} → c.task ≡ Phase.absent → Step c (set_task Phase.waiting c)
  -- a turn of the loop begins
  begin_turn :
      {c : Connection} (n : ℕ) → c.task ≡ Phase.waiting → Step c (set_task (Phase.opening n) c)
  -- `ws_connect` returns
  connected :
      {c : Connection} (n : ℕ)
      → c.task ≡ Phase.opening n
      → Step c (record c { server = some n; task = Phase.online n })
  -- an exception, or the end of the connection: the `finally` begins to close the socket
  failed :
      {c : Connection} (n : ℕ) → c.task ≡ Phase.opening n → Step c (set_task (Phase.ending n) c)
  lost : {c : Connection} (n : ℕ) → c.task ≡ Phase.online n → Step c (set_task (Phase.ending n) c)
  -- the socket is closed
  ended :
      {c : Connection} (n : ℕ)
      → c.task ≡ Phase.ending n
      → Step c (record c { server = none; task = Phase.waiting })
  -- closing raises: the exception leaves the loop, with `self.task` still set
  raised :
      {c : Connection} (n : ℕ)
      → c.task ≡ Phase.ending n
      → Step c (record c { task = Phase.finished; cut_short = n ∷ c.cut_short })
  -- `stop` cancels the task
  stop_waiting : {c : Connection} → c.task ≡ Phase.waiting → Step c (set_task Phase.absent c)
  stop_opening :
      {c : Connection} (n : ℕ)
      → c.task ≡ Phase.opening n
      → Step c (record c { task = Phase.absent; closing = n ∷ c.closing })
  stop_online :
      {c : Connection} (n : ℕ)
      → c.task ≡ Phase.online n
      → Step c (record c { task = Phase.absent; closing = n ∷ c.closing })
  stop_finished : {c : Connection} → c.task ≡ Phase.finished → Step c (set_task Phase.absent c)
  -- a cancellation during `await server.close()`: `self.server = None` is not reached
  stop_ending :
      {c : Connection} (n : ℕ)
      → c.task ≡ Phase.ending n
      → Step c (record c { task = Phase.absent; cut_short = n ∷ c.cut_short })
  -- the `finally` of a cancelled task: the socket is closed, or closing raises
  closed :
      {c : Connection} (n : ℕ)
      → exists (eqb n) c.closing ≡ true
      → Step c (record c { server = none; closing = keep (λ k. not (eqb n k)) c.closing })
  close_raised :
      {c : Connection} (n : ℕ)
      → exists (eqb n) c.closing ≡ true
      → Step c
          (record c { closing = keep (λ k. not (eqb n k)) c.closing; cut_short = n ∷ c.cut_short })

pub data Reachable : Connection → Type 0 where
  begin : Reachable initial
  step : {c d : Connection} → Reachable c → Step c d → Reachable d

-- `async_call_rpc`
unfoldable pub async_call_rpc : {S A : Type 0} → (ℕ → Action S A) → Connection → Action S (Option A)
async_call_rpc send c = elim c.server [
  | none ↦ λ s. (ok none, s)
  | some n ↦ send n >>= λ a. λ s. (ok (some a), s)
]

exists-keep_other :
    (m n : ℕ) (ks : List ℕ)
    → eqb n m ≡ false
    → exists (eqb n) ks ≡ true
    → exists (eqb n) (keep (λ k. not (eqb m k)) ks) ≡ true
exists-keep_other m n [] d e = cc
exists-keep_other m n (k ∷ ks) d e = ground (arith, exists-keep_other m n ks d)

-- The socket in use is that of the running task, or of a cancelled one that is not closed yet, or its
-- `finally` was cut short.
abbrev pub IsKnown : Connection → ℕ → Type 0
IsKnown c n =
    ((c.task ≡ Phase.online n) ⊎ (c.task ≡ Phase.ending n))
    ⊎ (exists (eqb n) c.closing ≡ true)
    ⊎ (exists (eqb n) c.cut_short ≡ true)

step-IsKnown :
    (c d : Connection)
    → Step c d
    → ((n : ℕ) → c.server ≡ some n → IsKnown c n)
    → (n : ℕ) → d.server ≡ some n
    → IsKnown d n
step-IsKnown c d (start e) h n s = ground (arith, h n s)
step-IsKnown c d (begin_turn m e) h n s = ground (arith, h n s)
step-IsKnown c d (connected m e) h n s = ground arith
step-IsKnown c d (failed m e) h n s = ground (arith, h n s)
step-IsKnown c d (lost m e) h n s = ground (arith, h n s)
step-IsKnown c d (ended m e) h n s = ground arith
step-IsKnown c d (raised m e) h n s = ground (arith, h n s)
step-IsKnown c d (stop_waiting e) h n s = ground (arith, h n s)
step-IsKnown c d (stop_opening m e) h n s = ground (arith, h n s)
step-IsKnown c d (stop_online m e) h n s = ground (arith, h n s)
step-IsKnown c d (stop_finished e) h n s = ground (arith, h n s)
step-IsKnown c d (stop_ending m e) h n s = ground (arith, h n s)
step-IsKnown c d (closed m e) h n s = ground arith
step-IsKnown c d (close_raised m e) h n s = elim (Bool-cases (eqb n m)) [
  | inl same ↦ ground (arith, same)
  | inr other ↦ ground (arith, h n s, other, exists-keep_other m n c.closing other)
]

Reachable-IsKnown : (c : Connection) → Reachable c → (n : ℕ) → c.server ≡ some n → IsKnown c n
Reachable-IsKnown c begin n e = ground arith
Reachable-IsKnown d (step {c} r s) n e = step-IsKnown c d s (Reachable-IsKnown c r) n e

-- In a state that can be reached in which the task of the service is neither connected nor closing its socket,
-- every cancelled task has run to its end, and no `finally` was cut short at the `await` in it: a call of the
-- management server is answered with none, and nothing is sent.
pub async_call_rpc_idle :
    {S A : Type 0} (send : ℕ → Action S A) (c : Connection) (s : S)
    → Reachable c
    → ((n : ℕ) → c.task ≢ Phase.online n)
    → ((n : ℕ) → c.task ≢ Phase.ending n)
    → c.closing ≡ []
    → c.cut_short ≡ []
    → async_call_rpc send c s ≡ (ok none, s)
unfolding async_call_rpc
async_call_rpc_idle send c s r idle over e f = elim (Option-cases c.server) [
  | inl none_left ↦ ground arith
  | inr (n, there) ↦ elim (Reachable-IsKnown c r n there) [
    | inl (inl o) ↦ absurd (idle n o)
    | inl (inr o) ↦ absurd (over n o)
    | inr k ↦ ground arith
  ]
]
