-- ===== src/Service/Runner/Worker/Rounds.antt =====
-- `job_worker` on its channel. Each task that it spawns runs to its end before the next message is
-- received; the task's result is dropped.
use pda_proxy.Base.{ℕ, zero, suc, Option, none, some}
use pda_proxy.Service.Job.{Job}
use pda_proxy.Service.Action.{◌>>=◌, ◌>>◌, pure, gets, attempt}
use pda_proxy.Service.Platform.{Platform, World}
use pda_proxy.Service.Runner.State.{Runner, Method, internal}
use pda_proxy.Service.Runner.Proving.{prove}

-- A round of the loop waits for a message, ends the process with a code, or has run a task.
pub data Round : Type 0 where
  waits ran : Round
  exits : ℕ → Round

module _ (P : Platform) where
  -- What the loop does after its end: `let _ = self.queue_db.flush()`, and so for `finished_db`.
  unfoldable pub clean_up : Method P (Unit {0})
  clean_up = do
    queue ← gets (λ r. r.queue_db)
    attempt (internal (P.flush queue))
    finished ← gets (λ r. r.finished_db)
    attempt (internal (P.flush finished))
    pure tt

  unfoldable pub handle_message :
      World P → Runner P → Option (Option Job × P.Channel) → Round × Runner P
  unfolding clean_up
  handle_message w r none = (waits, r)
  handle_message w r (some (none, channel')) =
      (exits 0, (clean_up (record r { job_sender = channel' })).1)
  handle_message w r (some (some job, channel')) =
      (ran, (prove P w job (record r { job_sender = channel' })).1)

  unfoldable pub round : World P → Runner P → Round × Runner P
  round w r = handle_message w r (P.recv r.job_sender)

  -- The test of the `while let`: what follows a round.
  unfoldable pub after : Round × Runner P → (Runner P → Round × Runner P) → Round × Runner P
  after (waits, t) more = (waits, t)
  after (exits code, t) more = (exits code, t)
  after (ran, t) more = more t

  -- The loop, for a number of rounds at most; round `n` from the last has the environment `ws n`.
  unfoldable pub rounds : ℕ → (ℕ → World P) → Runner P → Round × Runner P
  rounds zero ws r = (ran, r)
  rounds (suc n) ws r = after (round (ws n) r) (λ t. rounds n ws t)
