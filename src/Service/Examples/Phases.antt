-- ===== src/Service/Examples/Phases.antt =====
-- The phases of a job on the platform in memory.
use pda_proxy.Base.{
  ◌≡◌, refl, none, some, [], ◌∷◌, Bytes, ok, err, replicate, str_eq, if◌then◌else◌,
}
use pda_proxy.Service.Job.{
  JobStatus, retry_with, zk_client_error, local_zk_proof_pending, remote_zk_proof_requesting,
  remote_zk_proof_pending, failed, job_debug,
}
use pda_proxy.Service.Action.{done, ◌>>=◌}
use pda_proxy.Service.Platform.{World, network, simulation_failed}
use pda_proxy.Service.Memory.{memory, memory-IsDocumented, world, empty, boom}
use pda_proxy.Service.Fixtures.{
  memory-IsReliable, world-StartsIn, job, ready, idle, waiting, requesting,
}
use pda_proxy.Service.Runner.State.{Runner}
use pda_proxy.Service.Runner.Proving.{prove, classify, critical}
use pda_proxy.Service.Runner.Requests.{initial_status, get_verifiable_encryption}
use pda_proxy.Service.Runner.Registry.{settled, request, replied, with_proof, with_request, Moves}
use pda_proxy.Service.Runner.Registry.Request.{StartsIn, get_verifiable_encryption-request}
use pda_proxy.Service.Runner.Registry.Work.{
  prove_local-replied, prove_waiting-replied, prove_requesting-replied,
}
use pda_proxy.Service.Runner.Registry.Remote.{IsFulfilled, get_verifiable_encryption-prove_remote}
use pda_proxy.Service.Runner.Registry.Completion.{IsProvable, get_verifiable_encryption-prove}
use pda_proxy.Zkvm.Hex.{bytes_to_hex}

-- The job `9` has failed, and is to be retried.
abbrev timed_out : Runner memory
timed_out = record empty { finished_db = (9 ∷ [], 4 ∷ []) ∷ [] }

abbrev failure : JobStatus Bytes
failure = failed (zk_client_error boom) (retry_with remote_zk_proof_requesting)

get_verifiable_encryption-request_example :
    (t : Runner memory) × (get_verifiable_encryption memory (world (ok [])) job timed_out
      ≡ ((request local_zk_proof_pending (settled failure)).0, t))
    × Moves memory memory-IsDocumented job
        (9 ∷ [])
        (request local_zk_proof_pending (settled failure)).1
        timed_out
        t
get_verifiable_encryption-request_example =
    get_verifiable_encryption-request memory memory-IsDocumented (world (ok [])) job (9 ∷ [])
      local_zk_proof_pending (settled failure) timed_out memory-IsReliable refl world-StartsIn
      (4 ∷ [], refl, refl, tt, refl) (1 ∷ [], refl)

prove_local-replied_example :
    (t : Runner memory) × (prove memory (world (ok (77 ∷ []))) job ready ≡ (done tt, t))
    × Moves memory memory-IsDocumented job
        (9 ∷ [])
        (replied memory job local_zk_proof_pending with_proof (ok (77 ∷ [])))
        ready
        t
prove_local-replied_example =
    prove_local-replied memory memory-IsDocumented (world (ok (77 ∷ []))) job (9 ∷ [])
      (replicate 32 1) (replicate 12 9) 1 (record { pk = 1; vk = 8 }) (ok (77 ∷ [])) ready
      memory-IsReliable refl (0 ∷ [], refl, refl, tt, refl) ("HOSTED", refl, refl, refl, refl, refl)
      refl (3 ∷ 77 ∷ [], refl)

prove_waiting-replied_example :
    (t : Runner memory) × (prove memory (world (err (network simulation_failed))) job waiting
      ≡ (done tt, t))
    × Moves memory memory-IsDocumented job
        (9 ∷ [])
        (replied memory job
          (remote_zk_proof_pending (4 ∷ []))
          with_proof
          (err (network simulation_failed)))
        waiting
        t
unfolding classify critical job_debug bytes_to_hex
prove_waiting-replied_example =
    prove_waiting-replied memory memory-IsDocumented (world (err (network simulation_failed))) job
      (9 ∷ []) (4 ∷ []) 2 (err (network simulation_failed)) waiting memory-IsReliable refl
      (2 ∷ 4 ∷ [], refl, refl, tt, refl) refl refl (5 ∷ [], refl)

prove_requesting-replied_example :
    (t : Runner memory) × (prove memory (world (ok (4 ∷ []))) job requesting ≡ (done tt, t))
    × Moves memory memory-IsDocumented job
        (9 ∷ [])
        (replied memory job remote_zk_proof_requesting with_request (ok (4 ∷ [])))
        requesting
        t
prove_requesting-replied_example =
    prove_requesting-replied memory memory-IsDocumented (world (ok (4 ∷ []))) job (9 ∷ [])
      (replicate 32 1) (replicate 12 9) 2 (record { pk = 1; vk = 8 }) "HOSTED" (ok (4 ∷ []))
      requesting memory-IsReliable refl (1 ∷ [], refl, refl, tt, refl)
      ("HOSTED", "HOSTED", refl, refl, refl, refl, refl, refl, refl) refl (2 ∷ 4 ∷ [], refl)

idle-IsProvable :
    IsProvable memory memory-IsDocumented
      (world (ok []))
      (world (ok (77 ∷ [])))
      job
      (9 ∷ [])
      (77 ∷ [])
      idle
idle-IsProvable = record {
  key = replicate 32 1;
  nonce = replicate 12 9;
  client = 1;
  setup = record { pk = 1; vk = 8 };
  reliable = memory-IsReliable;
  anchored = refl;
  starting = world-StartsIn;
  unknown = (refl, refl);
  ready = ("HOSTED", refl, refl, refl, refl, refl);
  ran = refl;
  pending_written = (0 ∷ [], refl);
  proof_written = (3 ∷ 77 ∷ [], refl);
}

get_verifiable_encryption-prove_example :
    (t : Runner memory) × (u : Runner memory) × (get_verifiable_encryption memory
        (world (ok []))
        job
        idle
      ≡ (done none, t))
    × (prove memory (world (ok (77 ∷ []))) job t ≡ (done tt, u))
    × (get_verifiable_encryption memory (world (ok [])) job u ≡ (done (some (77 ∷ [])), u))
get_verifiable_encryption-prove_example =
    get_verifiable_encryption-prove memory memory-IsDocumented (world (ok []))
      (world (ok (77 ∷ []))) job (9 ∷ []) (77 ∷ []) idle idle-IsProvable

abbrev network_world : World memory
network_world = record (world (ok [])) {
  var = λ s. if str_eq s "SP1_PROVER" then some "network" else some "HOSTED";
}

network-StartsIn : StartsIn memory memory-IsDocumented network_world remote_zk_proof_requesting
unfolding initial_status ◌>>=◌
network-StartsIn = ("network", refl, λ r. refl, tt)

idle-IsFulfilled :
    IsFulfilled memory memory-IsDocumented network_world
      (world (ok (4 ∷ [])))
      (world (ok (77 ∷ [])))
      job
      (9 ∷ [])
      (77 ∷ [])
      idle
idle-IsFulfilled = record {
  key = replicate 32 1;
  nonce = replicate 12 9;
  id = 4 ∷ [];
  client = 2;
  setup = record { pk = 1; vk = 8 };
  strategy = "HOSTED";
  reliable = memory-IsReliable;
  anchored = refl;
  starting = network-StartsIn;
  unknown = (refl, refl);
  ready = ("HOSTED", "HOSTED", refl, refl, refl, refl, refl, refl, refl);
  accepted = refl;
  fulfilled = refl;
  requesting_written = (1 ∷ [], refl);
  waiting_written = (2 ∷ 4 ∷ [], refl);
  proof_written = (3 ∷ 77 ∷ [], refl);
}

get_verifiable_encryption-prove_remote_example :
    (t : Runner memory) × (u : Runner memory) × (v : Runner memory) × (get_verifiable_encryption
        memory network_world job idle
      ≡ (done none, t))
    × (prove memory (world (ok (4 ∷ []))) job t ≡ (done tt, u))
    × (memory-IsDocumented.messages u.job_sender ≡ some job ∷ some job ∷ [])
    × (prove memory (world (ok (77 ∷ []))) job u ≡ (done tt, v))
    × (get_verifiable_encryption memory network_world job v ≡ (done (some (77 ∷ [])), v))
get_verifiable_encryption-prove_remote_example =
    get_verifiable_encryption-prove_remote memory memory-IsDocumented network_world
      (world (ok (4 ∷ []))) (world (ok (77 ∷ []))) job (9 ∷ []) (77 ∷ []) idle idle-IsFulfilled
