-- ===== src/Service/Examples.antt =====
-- Runs of the service on the platform in memory, and the theorems at concrete states.
mod Schedules
mod Phases
mod Loop
mod Retries
use pda_proxy.Service.Fixtures.{
  job, pending, ready, waiting, requesting, empty-IsConsistent, memory-IsBincode,
}
use pda_proxy.Base.{
  ◌<>◌, err, ◌++◌, ◌≡◌, refl, inl, none, some, [], ◌∷◌, Bytes, ok, replicate, ok-injective, true,
}
use pda_proxy.Service.Job.{
  Job, internal_error, zk_client_error, error_debug, remote_zk_proof_requesting, job_debug,
  remote_zk_proof_pending,
}
use pda_proxy.Service.Action.{done, fail, panic, ◌>>=◌}
use pda_proxy.Service.Platform.{network, unknown, simulation_failed}
use pda_proxy.Service.Memory.{memory, memory-IsDocumented, world, empty, boom}
use pda_proxy.Service.Runner.State.{Runner, send_message}
use pda_proxy.Service.Runner.Proving.{prove, classify, critical}
use pda_proxy.Service.Runner.Requests.{
  initial_status, enqueue, start_job, answer_queue, answer, get_verifiable_encryption,
}
use pda_proxy.Service.Runner.Invariant.{IsConsistent}
use pda_proxy.Service.Runner.Steps.{asks, works, here, next, Reach-IsConsistent}
use pda_proxy.Zkvm.Hex.{bytes_to_hex}
use pda_proxy.Service.Runner.Startup.{resume, IsBincode, resume_panics, shutdown}
use pda_proxy.Service.Runner.Worker.{job_worker, job_worker-shutdown}
use pda_proxy.Service.Runner.Network.{prove-requested}
use pda_proxy.Service.Runner.Lifecycle.{prove-then-answered, prove-unknown_error}
use pda_proxy.Service.Runner.Failures.{prove-permanent, get_verifiable_encryption-retries}
use pda_proxy.Service.Runner.Answers.{Answered, get_verifiable_encryption-answered}

-- The first request queues the job and sends it to the worker.
first_request : get_verifiable_encryption memory (world (ok [])) job empty ≡ (done none, pending)
unfolding get_verifiable_encryption answer answer_queue start_job enqueue initial_status
    send_message ◌>>=◌
first_request = refl

abbrev asked : Runner memory
asked = (get_verifiable_encryption memory (world (ok [])) job empty).1

abbrev proved : Runner memory
proved = (prove memory (world (ok (77 ∷ []))) job asked).1

Reach-IsConsistent_example :
    IsConsistent memory memory-IsDocumented proved.queue_db proved.finished_db
Reach-IsConsistent_example =
    Reach-IsConsistent memory memory-IsDocumented empty proved
      (next (next here (asks (world (ok [])) job empty)) (works (world (ok (77 ∷ []))) job asked))
      empty-IsConsistent

get_verifiable_encryption-answered_example :
    (key : Bytes) × (memory.serialize_anchor job.anchor ≡ ok key)
    × Answered memory memory-IsDocumented job key none empty pending
get_verifiable_encryption-answered_example =
    get_verifiable_encryption-answered memory memory-IsDocumented (world (ok [])) job none empty
      pending first_request

job_worker-shutdown_example :
    job_worker ((shutdown memory pending).1.job_sender ++ (some job ∷ [])) ≡ (job ∷ [], true)
job_worker-shutdown_example =
    job_worker-shutdown memory memory-IsDocumented pending (job ∷ []) (some job ∷ [])
      (some job ∷ none ∷ []) refl refl
