-- ===== src/Service/Runner/State.antt =====
-- The fields of `PdaRunner` with the static cell of the proof setup, and the reads and writes that
-- its methods share.
use pda_proxy.Base.{ℕ, Option, String, List, Result}
use pda_proxy.Service.Job.{PdaRunnerError, internal_error, Job}
use pda_proxy.Service.Action.{Action, ◌>>=◌, gets, modify, lift_with}
use pda_proxy.Service.Platform.{Platform, Sp1ProofSetup, Write}

pub record Runner (P : Platform) : Type 0 where
  pub zk_proof_gen_timeout_remote : ℕ  -- seconds
  pub config_db : P.Tree
  pub queue_db : P.Tree
  pub finished_db : P.Tree
  pub job_sender : P.Channel
  pub zk_client_handle_local : Option P.LocalClient
  pub zk_client_handle_remote : Option P.RemoteClient
  pub chacha_setup : Option (Sp1ProofSetup P.Pk P.Vk)

-- `.map_err(|e| PdaRunnerError::InternalError(e.to_string()))?`
abbrev pub internal : {S A : Type 0} → Result String A → Action S PdaRunnerError A
internal r = lift_with internal_error r

module _ (P : Platform) where
  abbrev pub Method : Type 0 → Type 0
  Method A = Action (Runner P) PdaRunnerError A

  -- `self.job_sender.send(message)`
  unfoldable pub send_message : Option Job → Method (Unit {0})
  send_message message = do
    channel ← gets (λ r. r.job_sender)
    channel' ← internal (P.send channel message)
    modify (λ r. record r { job_sender = channel' })

  -- `(&self.queue_db, &self.finished_db).transaction(…)`
  unfoldable pub transact : List Write → Method (Unit {0})
  transact writes = do
    queue ← gets (λ r. r.queue_db)
    finished ← gets (λ r. r.finished_db)
    (queue', finished') ← internal (P.transaction (queue, finished) writes)
    modify (λ r. record r { queue_db = queue'; finished_db = finished' })
