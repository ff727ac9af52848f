-- ===== src/Service/Examples/Retries.antt =====
-- Two requests for a failed job on the platform in memory: the slower one takes the proof away.
use pda_proxy.Base.{refl, some, [], ◌∷◌, ok}
use pda_proxy.Zkvm.Cli.{random_nonce}
use pda_proxy.Service.Job.{
  zk_client_error, zk_proof_finished, remote_zk_proof_requesting, remote_zk_proof_pending,
}
use pda_proxy.Service.Action.{◌>>=◌}
use pda_proxy.Service.Memory.{memory, memory-IsDocumented, world, boom}
use pda_proxy.Service.Fixtures.{memory-IsReliable, job, idle}
use pda_proxy.Service.Runner.State.{Runner, transact, send_message}
use pda_proxy.Service.Runner.Setup.{
  get_zk_client_remote, or_build_remote, get_proof_setup_remote, get_or_try_init,
}
use pda_proxy.Service.Runner.Jobs.{finalize_job, send_job_with_new_status}
use pda_proxy.Service.Runner.Proving.{
  zk_proof_remote, wait_for_zk_proof, encryption_key, draw_nonce, or_handle, then_or_log, drive,
}
use pda_proxy.Service.Runner.Requests.{answer_finished, answer}
use pda_proxy.Service.Runner.Registry.{queued, settled, At}
use pda_proxy.Service.Runner.Interleaving.{
  Task, answering, first, answers, receives, drives, Turns, stay, then_turn,
}
use pda_proxy.Service.Runner.Interleaving.Retry.{Turns-loses_proof}

abbrev waiting : Task memory
waiting = answering job (9 ∷ []) (some (4 ∷ []))

-- The job has failed, and is to be retried.
abbrev failed_before : Runner memory
failed_before = record idle { finished_db = (9 ∷ [], 4 ∷ []) ∷ [] }

abbrev tried_again : Runner memory
tried_again = (answer memory (world (ok [])) job (9 ∷ []) (some (4 ∷ [])) failed_before).1

abbrev accepted : Runner memory
accepted =
    (drive memory (world (ok (5 ∷ []))) job (9 ∷ []) remote_zk_proof_requesting tried_again).1

abbrev fulfilled : Runner memory
fulfilled =
    (drive memory (world (ok (77 ∷ []))) job (9 ∷ []) (remote_zk_proof_pending (5 ∷ [])) accepted).1

path : Turns memory failed_before (waiting ∷ waiting ∷ []) fulfilled (waiting ∷ [])
unfolding answer answer_finished finalize_job send_job_with_new_status transact send_message drive
    zk_proof_remote wait_for_zk_proof encryption_key draw_nonce or_handle then_or_log
    get_zk_client_remote or_build_remote get_proof_setup_remote get_or_try_init random_nonce ◌>>=◌
path =
    let retried : Turns memory failed_before (waiting ∷ waiting ∷ []) tried_again (waiting ∷ []) =
      then_turn stay
        (answers (world (ok [])) job (9 ∷ []) (some (4 ∷ [])) (waiting ∷ []) (first _)) in
    let requested : Turns memory failed_before (waiting ∷ waiting ∷ []) accepted (waiting ∷ []) =
      then_turn
        (then_turn retried
          (receives job (9 ∷ []) (1 ∷ []) remote_zk_proof_requesting refl refl refl))
        (drives (world (ok (5 ∷ []))) job (9 ∷ []) remote_zk_proof_requesting (waiting ∷ [])
          (first _)) in
    then_turn
      (then_turn requested
        (receives job (9 ∷ []) (2 ∷ 5 ∷ []) (remote_zk_proof_pending (5 ∷ [])) refl refl refl))
      (drives (world (ok (77 ∷ []))) job (9 ∷ []) (remote_zk_proof_pending (5 ∷ [])) (waiting ∷ [])
        (first _))

proved : At memory memory-IsDocumented fulfilled (9 ∷ []) (settled (zk_proof_finished (77 ∷ [])))
unfolding answer answer_finished finalize_job send_job_with_new_status transact send_message drive
    zk_proof_remote wait_for_zk_proof encryption_key draw_nonce or_handle then_or_log
    get_zk_client_remote or_build_remote get_proof_setup_remote get_or_try_init random_nonce ◌>>=◌
proved = (3 ∷ 77 ∷ [], refl, refl, tt, refl)

Turns-loses_proof_example :
    (u : Runner memory) × Turns memory failed_before [] u []
    × At memory memory-IsDocumented u (9 ∷ []) (queued remote_zk_proof_requesting)
Turns-loses_proof_example =
    Turns-loses_proof memory memory-IsDocumented (world (ok [])) job (9 ∷ []) (4 ∷ [])
      (zk_client_error boom) remote_zk_proof_requesting (77 ∷ []) failed_before fulfilled []
      memory-IsReliable refl refl refl tt (1 ∷ [], refl) path proved
