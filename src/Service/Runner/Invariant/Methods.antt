-- ===== src/Service/Runner/Invariant/Methods.antt =====
-- The invariant of the job trees through the methods that write to them, whatever the outcome.
use pda_proxy.Base.{
  ◌≡◌, refl, Option, none, some, String, inl, inr, List, Bytes, Result, ok, Result-cases,
}
use pda_proxy.Service.Job.{Job, JobStatus}
use pda_proxy.Service.Action.{modify, expect, ◌>>=◌}
use pda_proxy.Service.Action.Keeps.{Keeps, Keeps-bind, Keeps-modify, keeps_rules}
use pda_proxy.Service.Platform.{Platform, World, IsDocumented, Sp1ProofSetup, Write}
use pda_proxy.Service.Runner.State.{Runner, Method, send_message, transact}
use pda_proxy.Service.Runner.Setup.{
  or_build_local, or_build_remote, recall_or_generate, get_or_try_init, get_zk_client_local,
  get_zk_client_remote, get_proof_setup_local, get_proof_setup_remote,
}
use pda_proxy.Service.Runner.Jobs.{finalize_job, send_job_with_new_status}
use pda_proxy.Service.Runner.Invariant.{IsPending, IsFinal}
use pda_proxy.Service.Runner.Invariant.Laws.{TreeInvariant, Intact}

module _ (P : Platform) (D : IsDocumented P) (T : TreeInvariant P D) where
  abbrev pub KeepsIntact : {A : Type 0} → Method P A → Type 0
  KeepsIntact m = Keeps (Intact T) m

  -- A method that leaves both trees as they are.
  of_same_trees :
      (f : Runner P → Runner P)
      → ((r : Runner P) → ((f r).queue_db ≡ r.queue_db) × ((f r).finished_db ≡ r.finished_db))
      → KeepsIntact (modify f)
  of_same_trees f same =
      Keeps-modify f λ r h. record { trees = rw ((same r).0, (same r).1) h.trees }

  pub keeps_sender : (c : P.Channel) → KeepsIntact (modify (λ r. record r { job_sender = c }))
  keeps_sender c = of_same_trees _ λ r. (refl, refl)

  pub keeps_local :
      (c : Option P.LocalClient)
      → KeepsIntact (modify (λ r. record r { zk_client_handle_local = c }))
  keeps_local c = of_same_trees _ λ r. (refl, refl)

  pub keeps_remote :
      (c : Option P.RemoteClient)
      → KeepsIntact (modify (λ r. record r { zk_client_handle_remote = c }))
  keeps_remote c = of_same_trees _ λ r. (refl, refl)

  pub keeps_config : (t : P.Tree) → KeepsIntact (modify (λ r. record r { config_db = t }))
  keeps_config t = of_same_trees _ λ r. (refl, refl)

  pub keeps_setup :
      (c : Option (Sp1ProofSetup P.Pk P.Vk))
      → KeepsIntact (modify (λ r. record r { chacha_setup = c }))
  keeps_setup c = of_same_trees _ λ r. (refl, refl)

  pub ruleset frame_rules =
      (keeps_rules, keeps_sender, keeps_local, keeps_remote, keeps_config, keeps_setup)

  pub send_message-Intact : (m : Option Job) → KeepsIntact (send_message P m)
  unfolding send_message
  send_message-Intact m = search frame_rules depth 12

  local_built : (o : Option P.LocalClient) → KeepsIntact (or_build_local P o)
  unfolding or_build_local
  local_built none = search frame_rules depth 12
  local_built (some client) = search frame_rules

  pub get_zk_client_local-Intact : KeepsIntact (get_zk_client_local P)
  unfolding get_zk_client_local
  get_zk_client_local-Intact = search (frame_rules, local_built) depth 12

  remote_built : (o : Option P.RemoteClient) → KeepsIntact (or_build_remote P o)
  unfolding or_build_remote
  remote_built none = search frame_rules depth 12
  remote_built (some client) = search frame_rules

  pub get_zk_client_remote-Intact : KeepsIntact (get_zk_client_remote P)
  unfolding get_zk_client_remote
  get_zk_client_remote-Intact = search (frame_rules, remote_built) depth 12

  recalled :
      (sha2 : Bytes) (reply : Result String (P.Pk × P.Vk)) (o : Option Bytes)
      → KeepsIntact (recall_or_generate P sha2 reply o)
  unfolding recall_or_generate
  recalled sha2 reply (some b) = search frame_rules
  recalled sha2 reply none = search frame_rules depth 20

  initialised :
      (sha2 : Bytes) (reply : Result String (P.Pk × P.Vk)) (o : Option (Sp1ProofSetup P.Pk P.Vk))
      → KeepsIntact (get_or_try_init P sha2 reply o)
  unfolding get_or_try_init
  initialised sha2 reply (some setup) = search frame_rules
  initialised sha2 reply none = search (frame_rules, recalled) depth 20

  pub get_proof_setup_local-Intact :
      (w : World P) (sha2 : Bytes) (client : P.LocalClient)
      → KeepsIntact (get_proof_setup_local P w sha2 client)
  unfolding get_proof_setup_local
  get_proof_setup_local-Intact w sha2 client = search (frame_rules, initialised) depth 12

  pub get_proof_setup_remote-Intact :
      (w : World P) (sha2 : Bytes) (client : P.RemoteClient)
      → KeepsIntact (get_proof_setup_remote P w sha2 client)
  unfolding get_proof_setup_remote
  get_proof_setup_remote-Intact w sha2 client = search (frame_rules, initialised) depth 12

  after_transaction :
      (writes : List Write) (r : Runner P)
      → ((q f : P.Tree) → P.transaction (r.queue_db, r.finished_db) writes ≡ ok (q, f) → T.Good q f)
      → Intact T r
      → Intact T (transact P writes r).1
  unfolding transact ◌>>=◌
  after_transaction writes r k h =
      elim (Result-cases (P.transaction (r.queue_db, r.finished_db) writes)) [
        | inl ((q, f), e) ↦ rw e (record { trees = k q f e })
        | inr (message, e) ↦ rw e h
      ]

  after_serialize :
      (status : JobStatus P.Proof) (next : Bytes → Method P (Unit {0}))
      → ((b : Bytes) → P.serialize_status status ≡ ok b → KeepsIntact (next b))
      → KeepsIntact
          (expect "Always given serializable job status" (P.serialize_status status) >>= next)
  unfolding ◌>>=◌
  after_serialize status next k = elim (Result-cases (P.serialize_status status)) [
    | inl (b, e) ↦ rw e (record { at = (k b e).at })
    | inr (message, e) ↦ rw e (record { at = λ r h. h })
  ]

  pub finalize_job-Intact :
      (key : Bytes) (status : JobStatus P.Proof)
      → T.Allowed key
      → IsFinal status
      → KeepsIntact (finalize_job P key status)
  unfolding finalize_job
  finalize_job-Intact key status a q = after_serialize status _ λ b e. record {
    at = λ r h.
        after_transaction _ r
          (λ q' f' t. T.finalized r.queue_db r.finished_db q' f' key b status h.trees a e q t) h;
  }

  pub send_job_with_new_status-Intact :
      (key : Bytes) (status : JobStatus P.Proof) (job : Job)
      → T.Allowed key
      → IsPending status
      → KeepsIntact (send_job_with_new_status P key status job)
  unfolding send_job_with_new_status
  send_job_with_new_status-Intact key status job a q = after_serialize status _ λ b e.
      Keeps-bind _ _
        (record {
          at = λ r h.
              after_transaction _ r
                (λ q' f' t. T.requeued r.queue_db r.finished_db q' f' key b status h.trees a e q t)
                h;
        })
        (λ _. send_message-Intact (some job))
