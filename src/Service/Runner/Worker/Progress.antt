-- ===== src/Service/Runner/Worker/Progress.antt =====
-- What one task of the worker does to the phase of its job, where every call of the prover is
-- answered.
use pda_proxy.Base.{
  ℕ, ◌≡◌, refl, ◌⊎◌, inl, inr, none, some, String, true, false, Bytes, Result, ok, err,
  Option-cases,
}
use pda_proxy.Service.Job.{
  Job, JobStatus, local_zk_proof_pending, remote_zk_proof_requesting, remote_zk_proof_pending,
  zk_proof_finished, failed,
}
use pda_proxy.Service.Action.{done, ◌>>=◌}
use pda_proxy.Service.Platform.{Platform, World, IsDocumented, ProverError, network, unknown}
use pda_proxy.Service.Runner.State.{Runner}
use pda_proxy.Service.Runner.Setup.{Setup}
use pda_proxy.Service.Runner.Proving.{classify, drive_queued, prove}
use pda_proxy.Service.Runner.Invariant.{IsConsistent}
use pda_proxy.Service.Runner.Lifecycle.{stdin}
use pda_proxy.Service.Runner.Registry.{
  Effect, queued, settled, replied, with_proof, with_request, At, IsReliable, IsWritable, Moves,
}
use pda_proxy.Service.Runner.Registry.Work.{
  prove_local-replied, prove_waiting-replied, prove_requesting-replied,
}

-- The clients, the setup and the timeout that the runner has.
pub record Equipment (P : Platform) : Type 0 where
  pub local : P.LocalClient
  pub remote : P.RemoteClient
  pub setup : Setup P
  pub timeout : ℕ

abbrev pub Has : {P : Platform} → Runner P → Equipment P → Type 0
Has r e =
    (r.zk_client_handle_local ≡ some e.local)
    × (r.zk_client_handle_remote ≡ some e.remote)
    × (r.chacha_setup ≡ some e.setup)
    × (r.zk_proof_gen_timeout_remote ≡ e.timeout)

module _ (P : Platform) (D : IsDocumented P) where
  -- The prover's reply is a result or a network error, and what follows from it can be written.
  abbrev pub IsAnswer : {A : Type 0} → Job → (A → Effect P.Proof) → Result ProverError A → Type 0
  IsAnswer job next (ok a) = IsWritable P D (next a).0
  IsAnswer job next (err (network e)) = IsWritable P D (settled (classify P e job).1)
  IsAnswer job next (err (unknown text)) = ⊥

  -- The environment has what the prover needs, and every call of the prover is answered.
  pub record IsServed (e : Equipment P) (w : World P) : Type 0 where
    pub key : Bytes
    pub nonce : Bytes
    pub strategy : P.Strategy
    pub key_text : String
    pub strategy_text : String
    pub set : w.var "ENCRYPTION_KEY" ≡ some key_text
    pub is_key : P.from_hex 32 key_text ≡ some key
    pub chosen : w.var "SP1_FULFILLMENT_STRATEGY" ≡ some strategy_text
    pub is_strategy : P.from_str_name strategy_text ≡ some strategy
    pub filled : w.try_fill_bytes 12 ≡ ok nonce
    pub runs :
        (job : Job)
        → IsAnswer job with_proof (w.run_local e.local e.setup.pk (stdin P D key nonce job))
    pub accepts :
        (job : Job)
        → IsAnswer job with_request
            (w.request_async e.remote e.setup.pk (stdin P D key nonce job) strategy e.timeout)
    pub fulfils : (job : Job) (id : Bytes) → IsAnswer job with_proof (w.wait_proof e.remote id)

  -- How a task may end: with the job settled, or with its request to the network sent and the job
  -- in the channel again.
  abbrev pub Advances : JobStatus P.Proof → Effect P.Proof → Type 0
  Advances status (settled final, false) = Unit
  Advances status (queued next, true) =
      (status ≡ remote_zk_proof_requesting) × (id : Bytes) × (next ≡ remote_zk_proof_pending id)
  Advances status other = ⊥

  replied-Advances :
      (job : Job) (status : JobStatus P.Proof) (reply : Result ProverError P.Proof)
      → IsAnswer job with_proof reply
      → IsWritable P D (replied P job status with_proof reply).0
        × Advances status (replied P job status with_proof reply)
  replied-Advances job status (ok proof) h = (h, tt)
  replied-Advances job status (err (network e)) h = (h, tt)
  replied-Advances job status (err (unknown text)) h = absurd h

  requested-Advances :
      (job : Job) (reply : Result ProverError Bytes)
      → IsAnswer job with_request reply
      → IsWritable P D (replied P job remote_zk_proof_requesting with_request reply).0
        × Advances remote_zk_proof_requesting
            (replied P job remote_zk_proof_requesting with_request reply)
  requested-Advances job (ok id) h = (h, (refl, id, refl))
  requested-Advances job (err (network e)) h = (h, tt)
  requested-Advances job (err (unknown text)) h = absurd h

  -- What the task for a job with the given key has done.
  abbrev pub Progress : Job → Bytes → Runner P → Runner P → Type 0
  Progress job key r t =
      ((D.contents r.queue_db key ≡ none) × (t ≡ r))
      ⊎ ((status : JobStatus P.Proof) × (effect : Effect P.Proof) × At P D r key (queued status)
          × Advances status effect
          × Moves P D job key effect r t)

  prove-queued :
      (e : Equipment P) (w : World P) (job : Job) (key : Bytes) (status : JobStatus P.Proof)
      (r : Runner P)
      → IsReliable P D
      → IsServed e w
      → Has r e
      → P.serialize_anchor job.anchor ≡ ok key
      → At P D r key (queued status)
      → (t : Runner P) × (prove P w job r ≡ (done tt, t)) × Progress job key r t
  prove-queued e w job key local_zk_proof_pending r reliable s (local, remote, setup, timeout)
        anchored there =
      let (written, advances) =
        replied-Advances job local_zk_proof_pending
          (w.run_local e.local e.setup.pk (stdin P D s.key s.nonce job)) (s.runs job) in
      let (t, ended, moves) =
        prove_local-replied P D w job key s.key s.nonce e.local e.setup
          (w.run_local e.local e.setup.pk (stdin P D s.key s.nonce job)) r reliable anchored there
          (s.key_text, s.set, s.is_key, s.filled, local, setup) refl written in
      (t, ended, inr (local_zk_proof_pending, _, there, advances, moves))
  prove-queued e w job key (remote_zk_proof_pending id) r reliable s (local, remote, setup, timeout)
        anchored there =
      let (written, advances) =
        replied-Advances job (remote_zk_proof_pending id) (w.wait_proof e.remote id)
          (s.fulfils job id) in
      let (t, ended, moves) =
        prove_waiting-replied P D w job key id e.remote (w.wait_proof e.remote id) r reliable
          anchored there remote refl written in
      (t, ended, inr (remote_zk_proof_pending id, _, there, advances, moves))
  prove-queued e w job key remote_zk_proof_requesting r reliable s (local, remote, setup, timeout)
        anchored there =
      let reply =
        w.request_async e.remote e.setup.pk (stdin P D s.key s.nonce job) s.strategy e.timeout in
      let (written, advances) = requested-Advances job reply (s.accepts job) in
      let (t, ended, moves) =
        prove_requesting-replied P D w job key s.key s.nonce e.remote e.setup s.strategy reply r
          reliable anchored there
          (
            s.key_text, s.strategy_text, s.set, s.is_key, s.chosen, s.is_strategy, s.filled, remote,
            setup,
          )
          (rw timeout refl) written in
      (t, ended, inr (remote_zk_proof_requesting, _, there, advances, moves))
  prove-queued e w job key (zk_proof_finished proof) r reliable s has anchored
        (b, found, decoded, pending, unfinished) =
      absurd pending
  prove-queued e w job key (failed error maybe_status) r reliable s has anchored
        (b, found, decoded, pending, unfinished) =
      absurd pending

  pub At-queued :
      (key b : Bytes) (r : Runner P)
      → IsConsistent P D r.queue_db r.finished_db
      → D.contents r.queue_db key ≡ some b
      → (status : JobStatus P.Proof) × At P D r key (queued status)
  At-queued key b r h found =
      let (status, decoded, pending) = h.valid.queued_pending key b found in
      (
        status,
        (
          b,
          found,
          decoded,
          pending,
          elim (h.exclusive key) [ inl absent ↦ cc (absent, found) | inr absent ↦ absent ],
        ),
      )

  prove-unqueued :
      (w : World P) (job : Job) (key : Bytes) (r : Runner P)
      → IsReliable P D
      → P.serialize_anchor job.anchor ≡ ok key
      → D.contents r.queue_db key ≡ none
      → prove P w job r ≡ (done tt, r)
  unfolding prove drive_queued ◌>>=◌
  prove-unqueued w job key r reliable anchored absent =
      rw (anchored, reliable.reads r.queue_db key, absent)

  -- A task for a job ends without an error, and has made progress with it.
  pub prove-Progress :
      (e : Equipment P) (w : World P) (job : Job) (key : Bytes) (r : Runner P)
      → IsReliable P D
      → IsServed e w
      → Has r e
      → IsConsistent P D r.queue_db r.finished_db
      → P.serialize_anchor job.anchor ≡ ok key
      → (t : Runner P) × (prove P w job r ≡ (done tt, t)) × Progress job key r t
  prove-Progress e w job key r reliable s has h anchored =
      elim (Option-cases (D.contents r.queue_db key)) [
        | inl absent ↦ (r, prove-unqueued w job key r reliable anchored absent, inl (absent, refl))
        | inr (b, found) ↦
            let (status, there) = At-queued key b r h found in
            prove-queued e w job key status r reliable s has anchored there
      ]
