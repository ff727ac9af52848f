-- ===== src/Service/Examples/Loop.antt =====
-- The loop of `job_worker` on the platform in memory.
use pda_proxy.Base.{
  ◌*◌, ◌≤◌, length, ◌<◌, ◌≡◌, ◌⊎◌, arith, refl, none, some, [], ◌∷◌, Bytes, ok, replicate, str_eq,
  if◌then◌else◌,
}
use pda_proxy.Service.Job.{
  JobStatus, local_zk_proof_pending, remote_zk_proof_requesting, remote_zk_proof_pending,
  zk_proof_finished, failed,
}
use pda_proxy.Service.Action.{◌>>=◌}
use pda_proxy.Service.Platform.{World}
use pda_proxy.Service.Memory.{memory, memory-IsDocumented, world}
use pda_proxy.Service.Fixtures.{memory-IsReliable, empty-IsConsistent, world-StartsIn, job, idle}
use pda_proxy.Service.Runner.State.{Runner, send_message}
use pda_proxy.Service.Runner.Requests.{
  answer, answer_queue, start_job, enqueue, initial_status, get_verifiable_encryption,
}
use pda_proxy.Service.Runner.Registry.{absent, settled, At}
use pda_proxy.Service.Runner.Registry.Request.{StartsIn}
use pda_proxy.Service.Runner.Worker.Asked.{ask_all}
use pda_proxy.Service.Runner.Worker.Rounds.{waits, rounds}
use pda_proxy.Service.Runner.Worker.Progress.{Equipment, IsServed}
use pda_proxy.Service.Runner.Worker.Running.{IsRunning}
use pda_proxy.Service.Runner.Worker.Requested.{ArePendingWritable, request_IsRunning}
use pda_proxy.Service.Runner.Proving.{prove}
use pda_proxy.Service.Runner.Interleaving.{first}
use pda_proxy.Service.Runner.Worker.Pool.{PoolRun, rests, goes_on, spawns, runs}
use pda_proxy.Service.Runner.Worker.Drained.{CanGoOn, IsDrained, PoolRun-IsDrained}
use pda_proxy.Service.Runner.Worker.Termination.{rounds-settled}
use pda_proxy.Service.Runner.Worker.Answering.{AreAnswered, ask_all-rounds}

abbrev equipment : Equipment memory
equipment = record { local = 1; remote = 2; setup = record { pk = 1; vk = 8 }; timeout = 600 }

world-IsServed : IsServed memory memory-IsDocumented equipment (world (ok (77 ∷ [])))
world-IsServed = record {
  key = replicate 32 1;
  nonce = replicate 12 9;
  strategy = "HOSTED";
  key_text = "HOSTED";
  strategy_text = "HOSTED";
  set = refl;
  is_key = refl;
  chosen = refl;
  is_strategy = refl;
  filled = refl;
  runs = λ job. (3 ∷ 77 ∷ [], refl);
  accepts = λ job. (2 ∷ 77 ∷ [], refl);
  fulfils = λ job id. (3 ∷ 77 ∷ [], refl);
}

memory-ArePendingWritable : ArePendingWritable memory memory-IsDocumented
memory-ArePendingWritable local_zk_proof_pending h = (0 ∷ [], refl)
memory-ArePendingWritable remote_zk_proof_requesting h = (1 ∷ [], refl)
memory-ArePendingWritable (remote_zk_proof_pending id) h = (2 ∷ id, refl)
memory-ArePendingWritable (zk_proof_finished proof) h = absurd h
memory-ArePendingWritable (failed error maybe_status) h = absurd h

idle-IsRunning : IsRunning memory memory-IsDocumented equipment idle
idle-IsRunning = record {
  has = (refl, refl, refl, refl);
  consistent = empty-IsConsistent;
  attended = λ key b found. cc found;
  jobs = tt;
}

abbrev network_world : World memory
network_world = record (world (ok [])) {
  var = λ s. if str_eq s "SP1_PROVER" then some "network" else some "HOSTED";
}

network_world-StartsIn :
    StartsIn memory memory-IsDocumented network_world remote_zk_proof_requesting
unfolding initial_status ◌>>=◌
network_world-StartsIn = ("network", refl, λ r. refl, tt)

-- A job for the network prover has been requested.
abbrev asked : Runner memory
asked = (get_verifiable_encryption memory network_world job idle).1

asked-IsRunning : IsRunning memory memory-IsDocumented equipment asked
asked-IsRunning =
    (request_IsRunning memory memory-IsDocumented equipment network_world job (9 ∷ [])
      remote_zk_proof_requesting idle memory-IsReliable refl network_world-StartsIn
      memory-ArePendingWritable idle-IsRunning).0

one_message : 2 * length asked.job_sender < 3
unfolding get_verifiable_encryption answer answer_queue start_job enqueue initial_status
    send_message ◌>>=◌
one_message = omega arith

rounds-settled_example :
    (t : Runner memory) × (rounds memory 3 (λ i. world (ok (77 ∷ []))) asked ≡ (waits, t))
    × (t.job_sender ≡ [])
    × ((key : Bytes) → memory-IsDocumented.contents t.queue_db key ≡ none)
    × ((key : Bytes)
        → At memory memory-IsDocumented asked key absent
          ⊎ ((status : JobStatus Bytes) × At memory memory-IsDocumented t key (settled status)))
rounds-settled_example =
    rounds-settled memory memory-IsDocumented equipment memory-IsReliable
      (λ i. world (ok (77 ∷ []))) asked 3 (λ i. world-IsServed) asked-IsRunning.has
      asked-IsRunning.consistent asked-IsRunning.attended asked-IsRunning.jobs one_message

ask_all-rounds_example :
    (t : Runner memory) × (rounds memory 5
        (λ i. world (ok (77 ∷ [])))
        (ask_all memory ((network_world, job) ∷ (world (ok []), job) ∷ []) idle)
      ≡ (waits, t))
    × (t.job_sender ≡ [])
    × AreAnswered memory memory-IsDocumented ((network_world, job) ∷ (world (ok []), job) ∷ []) t
ask_all-rounds_example =
    ask_all-rounds memory memory-IsDocumented equipment memory-IsReliable memory-ArePendingWritable
      ((network_world, job) ∷ (world (ok []), job) ∷ []) (λ i. world (ok (77 ∷ []))) idle 5
      (
        (9 ∷ [], refl),
        (remote_zk_proof_requesting, network_world-StartsIn),
        ((9 ∷ [], refl), (local_zk_proof_pending, world-StartsIn), tt),
      )
      (λ i. world-IsServed) idle-IsRunning (omega arith)

-- The job's message has been received, and its first task has run.
abbrev spawned : Runner memory
spawned = record asked { job_sender = [] }

abbrev worked : Runner memory
worked = (prove memory (world (ok (77 ∷ []))) job spawned).1

two_steps : PoolRun memory (IsServed memory memory-IsDocumented equipment) asked [] 2 worked []
unfolding get_verifiable_encryption answer answer_queue start_job enqueue initial_status
    send_message ◌>>=◌
two_steps =
    goes_on (goes_on rests (spawns job [] refl))
      (runs (world (ok (77 ∷ []))) job [] world-IsServed (first []))

PoolRun-IsDrained_example :
    (2 ≤ 4 * length asked.job_sender)
    × (CanGoOn memory memory-IsDocumented equipment worked []
        ⊎ IsDrained memory memory-IsDocumented equipment asked worked [])
PoolRun-IsDrained_example =
    PoolRun-IsDrained memory memory-IsDocumented equipment memory-IsReliable (world (ok (77 ∷ [])))
      asked worked 2 [] world-IsServed asked-IsRunning.has asked-IsRunning.consistent
      asked-IsRunning.attended asked-IsRunning.jobs two_steps
