-- ===== src/Service/Runner/Worker.antt =====
-- The receive loop of `job_worker`.
pub mod Rounds
pub mod Channel
pub mod Asked
pub mod Shutdown
pub mod Progress
pub mod Attended
pub mod Weight
pub mod Descent
pub mod Running
pub mod Requested
pub mod Termination
pub mod Answering
pub mod Pool
pub mod Drain
pub mod Drained
use mathlib.Core.List.{map, append_assoc}
use pda_proxy.Base.{◌≡◌, refl, Bool, true, false, Option, none, some, List, [], ◌∷◌, ◌++◌, ok}
use pda_proxy.Service.Job.{Job}
use pda_proxy.Service.Action.{◌>>=◌}
use pda_proxy.Service.Platform.{Platform, IsDocumented}
use pda_proxy.Service.Runner.State.{Runner, send_message}
use pda_proxy.Service.Runner.Startup.{send_or_ignore, shutdown}

-- The jobs that the loop spawns for the messages it receives, and whether it has ended. At the end
-- of the list it waits for more: the runner itself holds a sender, so the channel is never closed.
unfoldable pub job_worker : List (Option Job) → List Job × Bool
job_worker [] = ([], false)
job_worker (none ∷ messages) = ([], true)
job_worker (some job ∷ messages) = let (jobs, ended) = job_worker messages in (job ∷ jobs, ended)

job_worker-append :
    (jobs : List Job) (rest : List (Option Job))
    → job_worker (map some jobs ++ (none ∷ rest)) ≡ (jobs, true)
unfolding job_worker
job_worker-append [] rest = refl
job_worker-append (job ∷ jobs) rest = rw (job_worker-append jobs rest)

-- When `shutdown` can send its message, the worker spawns all jobs that were sent before it, in
-- their order, and no job that is sent later, and then ends.
pub job_worker-shutdown :
    (P : Platform) (D : IsDocumented P) (r : Runner P) (jobs : List Job) (rest : List (Option Job))
    (channel' : P.Channel)
    → D.messages r.job_sender ≡ map some jobs
    → P.send r.job_sender none ≡ ok channel'
    → job_worker (D.messages (shutdown P r).1.job_sender ++ rest) ≡ (jobs, true)
unfolding shutdown send_or_ignore send_message ◌>>=◌
job_worker-shutdown P D r jobs rest channel' waiting sent =
    rw
      (
        sent,
        D.messages-send r.job_sender none channel' sent,
        waiting,
        append_assoc (map some jobs) (none ∷ []) rest,
      )
      (job_worker-append jobs rest)
