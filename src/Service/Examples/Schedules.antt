-- ===== src/Service/Examples/Schedules.antt =====
-- Schedules of requests and worker tasks on the platform in memory.
use mathlib.Core.Option.{some-injective}
use pda_proxy.Base.{
  Bool-cases, ◌==ᵇ◌, ◌≡◌, refl, ◌⊎◌, inl, inr, none, some, [], ◌∷◌, Bytes, ok, replicate,
}
use pda_proxy.Service.Job.{local_zk_proof_pending, zk_proof_finished}
use pda_proxy.Service.Action.{◌>>=◌}
use pda_proxy.Service.Memory.{memory, memory-IsDocumented, world, empty}
use pda_proxy.Service.Fixtures.{job, ready, idle, empty-IsConsistent}
use pda_proxy.Service.Runner.State.{Runner, send_message}
use pda_proxy.Service.Runner.Proving.{drive}
use pda_proxy.Service.Runner.Requests.{
  get_verifiable_encryption, initial_status, enqueue, start_job, answer_queue, answer,
}
use pda_proxy.Service.Runner.Invariant.{AreValid, IsConsistent, Holds, IsPending, IsFinal}
use pda_proxy.Service.Runner.Steps.{Reach, here, next, Reach-keeps_last}
use pda_proxy.Service.Runner.Steps as Steps
use pda_proxy.Service.Runner.Interleaving.{
  asks, answers, receives, drives, first, Turns, stay, then_turn, dies, recovered, Turns-AreValid,
  Turns-keep_job,
}
use pda_proxy.Service.Runner.Interleaving.Race.{race-breaks_consistency}

-- The job `9` is finished, with the proof `77`.
abbrev finished : Runner memory
finished = record idle { finished_db = (9 ∷ [], 3 ∷ 77 ∷ []) ∷ [] }

one_entry :
    (Q : Bytes → Type 0) (k v b : Bytes)
    → memory-IsDocumented.contents ((9 ∷ [], v) ∷ []) k ≡ some b
    → Q v
    → Q b
one_entry Q k v b h q = elim (Bool-cases (k ==ᵇ (9 ∷ []))) [
  | inl same ↦ rw (← some-injective v b (rw same at h)) q
  | inr differ ↦ cc (rw differ at h)
]

finished-IsConsistent :
    IsConsistent memory memory-IsDocumented finished.queue_db finished.finished_db
finished-IsConsistent = record {
  exclusive = λ k. inl refl;
  valid = record {
    queued_pending = λ k b h. cc;
    finished_final = λ k b h.
        one_entry (Holds memory IsFinal) k (3 ∷ 77 ∷ []) b h
          (zk_proof_finished (77 ∷ []), refl, tt);
  };
}

ready-AreValid : AreValid memory memory-IsDocumented ready.queue_db ready.finished_db
ready-AreValid = record {
  queued_pending =
      λ k b h. one_entry (Holds memory IsPending) k (0 ∷ []) b h (local_zk_proof_pending, refl, tt);
  finished_final = λ k b h. cc;
}

abbrev asked_again : Runner memory
asked_again = (get_verifiable_encryption memory (world (ok [])) job finished).1

Reach-keeps_last_example :
    (memory-IsDocumented.contents asked_again.finished_db (9 ∷ []) ≡ some (3 ∷ 77 ∷ []))
    × (memory-IsDocumented.contents asked_again.queue_db (9 ∷ []) ≡ none)
Reach-keeps_last_example =
    Reach-keeps_last memory memory-IsDocumented finished asked_again (9 ∷ []) (3 ∷ 77 ∷ [])
      (zk_proof_finished (77 ∷ [])) (next here (Steps.asks (world (ok [])) job finished))
      finished-IsConsistent refl refl tt

-- A request has read the finished tree, and then ends.
abbrev answered : Runner memory
answered = (answer memory (world (ok [])) job (9 ∷ []) none empty).1

one_request : Turns memory empty [] answered []
one_request =
    then_turn (then_turn stay (asks job (9 ∷ []) none refl refl))
      (answers (world (ok [])) job (9 ∷ []) none [] (first []))

Turns-AreValid_example : AreValid memory memory-IsDocumented answered.queue_db answered.finished_db
Turns-AreValid_example =
    Turns-AreValid memory memory-IsDocumented empty answered [] one_request empty-IsConsistent.valid

-- A worker task has read the queue, and then proves the job.
abbrev driven : Runner memory
driven = (drive memory (world (ok (77 ∷ []))) job (9 ∷ []) local_zk_proof_pending ready).1

-- After that the process dies, and a new one has the trees as they were before; a task proves the
-- job again.
abbrev survived : Runner memory
survived =
    (drive memory (world (ok (77 ∷ []))) job (9 ∷ []) local_zk_proof_pending
      (recovered ready driven)).1

Turns-keep_job_example :
    ((b : Bytes) × (memory-IsDocumented.contents survived.queue_db (9 ∷ []) ≡ some b))
    ⊎ ((b : Bytes) × (memory-IsDocumented.contents survived.finished_db (9 ∷ []) ≡ some b))
Turns-keep_job_example =
    Turns-keep_job memory memory-IsDocumented ready survived [] (9 ∷ [])
      (then_turn
        (then_turn
          (dies driven
            (then_turn stay (receives job (9 ∷ []) (0 ∷ []) local_zk_proof_pending refl refl refl)))
          (receives job (9 ∷ []) (0 ∷ []) local_zk_proof_pending refl refl refl))
        (drives (world (ok (77 ∷ []))) job (9 ∷ []) local_zk_proof_pending [] (first [])))
      ready-AreValid (inl (0 ∷ [], refl))

-- A job that was queued after the last flush may be lost when the process dies.
unflushed :
    Turns memory empty [] (recovered empty answered) []
    × (memory-IsDocumented.contents answered.queue_db (9 ∷ []) ≡ some (0 ∷ []))
    × (memory-IsDocumented.contents (recovered empty answered).queue_db (9 ∷ []) ≡ none)
unfolding answer answer_queue start_job initial_status enqueue send_message ◌>>=◌
unflushed = (dies answered stay, refl, refl)

race-breaks_consistency_example :
    (t : Runner memory) × Turns memory ready [] t []
    × (memory-IsDocumented.contents t.queue_db (9 ∷ []) ≡ some (0 ∷ []))
    × (memory-IsDocumented.contents t.finished_db (9 ∷ []) ≡ some (3 ∷ 77 ∷ []))
    × (¬ (IsConsistent memory memory-IsDocumented t.queue_db t.finished_db))
race-breaks_consistency_example =
    race-breaks_consistency memory memory-IsDocumented (world (ok (77 ∷ []))) (world (ok [])) job
      (9 ∷ []) (3 ∷ 77 ∷ []) (0 ∷ []) (replicate 32 1) (replicate 12 9) 1
      (record { pk = 1; vk = 8 }) (77 ∷ []) ready [] ((9 ∷ [], 3 ∷ 77 ∷ []) ∷ [])
      ((9 ∷ [], 0 ∷ []) ∷ []) (some job ∷ some job ∷ []) (0 ∷ [], refl, refl, refl)
      ("HOSTED", refl, refl, refl, refl, refl) refl refl refl refl refl refl refl refl refl
