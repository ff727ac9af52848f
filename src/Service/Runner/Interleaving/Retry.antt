-- ===== src/Service/Runner/Interleaving/Retry.antt =====
-- Two requests that read the same failure before either has the job tried again.
use pda_proxy.Base.{◌≡◌, ap, ◌∙◌, some, List, [], ◌∷◌, Bytes, ok}
use pda_proxy.Service.Job.{PdaRunnerError, Job, JobStatus, retry_with, failed, zk_proof_finished}
use pda_proxy.Service.Action.{◌>>=◌}
use pda_proxy.Service.Platform.{Platform, World, IsDocumented}
use pda_proxy.Service.Runner.State.{Runner}
use pda_proxy.Service.Runner.Requests.{answer_finished, answer}
use pda_proxy.Service.Runner.Invariant.{IsPending}
use pda_proxy.Service.Runner.Registry.{queued, settled, At, IsReliable, IsWritable}
use pda_proxy.Service.Runner.Registry.Moves.{moved_back}
use pda_proxy.Service.Runner.Interleaving.{
  Task, answering, first, asks, answers, Turns, stay, then_turn, dies,
}

joined :
    (P : Platform) {r : Runner P} {ts : List (Task P)} {s : Runner P} {us : List (Task P)}
    {t : Runner P} {vs : List (Task P)}
    → Turns P r ts s us
    → Turns P s us t vs
    → Turns P r ts t vs
joined P path stay = path
joined P path (then_turn later turn) = then_turn (joined P path later) turn
joined P path (dies u later) = dies u (joined P path later)

module _ (P : Platform) (D : IsDocumented P) where
  retried :
      (w : World P) (job : Job) (key b : Bytes) (error : PdaRunnerError)
      (status : JobStatus P.Proof) (t : Runner P)
      → IsReliable P D
      → P.deserialize_status b ≡ ok (failed error (retry_with status))
      → IsPending status
      → IsWritable P D (queued status)
      → At P D (answer P w job key (some b) t).1 key (queued status)
  unfolding answer answer_finished ◌>>=◌
  retried w job key b error status t reliable decoded pending writable =
      let (u, sent, moves) = moved_back P D job key status t reliable pending writable in
      rw (decoded, sent) moves.0

  -- Where the database and the channel work, a failure of a job is to be retried with a pending
  -- status that can be written, and two requests for the job read it: once the job has been proved
  -- while one of them has not gone on, that one takes the proof out of the finished tree again and
  -- puts the job back into the queue, whatever turns there were in between.
  pub Turns-loses_proof :
      (w : World P) (job : Job) (key b : Bytes) (error : PdaRunnerError)
      (status : JobStatus P.Proof) (proof : P.Proof) (r t : Runner P) (us : List (Task P))
      → IsReliable P D
      → P.serialize_anchor job.anchor ≡ ok key
      → D.contents r.finished_db key ≡ some b
      → P.deserialize_status b ≡ ok (failed error (retry_with status))
      → IsPending status
      → IsWritable P D (queued status)
      → Turns P r
          (answering job key (some b) ∷ answering job key (some b) ∷ [])
          t
          (answering job key (some b) ∷ us)
      → At P D t key (settled (zk_proof_finished proof))
      → (u : Runner P) × Turns P r [] u us × At P D u key (queued status)
  Turns-loses_proof w job key b error status proof r t us reliable anchored found decoded pending
        writable path proved =
      let read = reliable.reads r.finished_db key ∙ ap ok found in
      let both : Turns P r [] r (answering job key (some b) ∷ answering job key (some b) ∷ []) =
        then_turn (then_turn stay (asks job key (some b) anchored read))
          (asks job key (some b) anchored read) in
      (
        (answer P w job key (some b) t).1,
        then_turn (joined P both path) (answers w job key (some b) us (first us)),
        retried w job key b error status t reliable decoded pending writable,
      )
