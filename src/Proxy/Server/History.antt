-- ===== src/Proxy/Server/History.antt =====
-- What the service has sent to the upstream node in the whole of its run.
use pda_proxy.Base.{
  Result, ◌≡◌, refl, inl, inr, ◌⊎◌, true, none, some, String, List, [], ◌∷◌, ok, err,
}
use pda_proxy.Service.Job.{zk_proof_finished}
use pda_proxy.Service.Action.{Outcome, done, fail, panic}
use pda_proxy.Service.Platform.{Platform, IsDocumented}
use pda_proxy.Service.Runner.State.{Runner}
use pda_proxy.Service.Runner.Invariant.{IsConsistent}
use pda_proxy.Service.Runner.Invariant.Laws.{TreeInvariant, Intact}
use pda_proxy.Service.Runner.Invariant.Prove.{prove-Intact}
use pda_proxy.Service.Runner.Invariant.Instances.{consistent-IsSettled, permanence}
use pda_proxy.Service.Runner.Steps.{resume-Intact, shutdown-Intact}
use pda_proxy.Proxy.Json.{Value, array, Values, cons, set_field}
use pda_proxy.Proxy.Wire.{Wire, Request, Response, get_header}
use pda_proxy.Proxy.Inbound.Privacy.{Encrypts, AllEncrypted}
use pda_proxy.Proxy.Trees.{serve-Intact}
use pda_proxy.Proxy.Serve.{Answer, is_authorized, serve}
use pda_proxy.Service.Runner.Worker.Running.{clean_up-Intact}
use pda_proxy.Proxy.Server.{
  end_process, Call, Process, accept, after_serve, serve_call, started_again, ServerStep, accepts,
  serves, works, shuts_down, exits, restarts, ServerRun, started, and_then,
}

-- The client's request and the one sent upstream are in the record of those that were sent.
abbrev pub IsLogged : Request → Request → List (Request × Request) → Type 0
IsLogged req forwarded [] = ⊥
IsLogged req forwarded ((req', forwarded') ∷ log) =
    ((req ≡ req') × (forwarded ≡ forwarded')) ⊎ IsLogged req forwarded log

module _ {P : Platform} (D : IsDocumented P) (W : Wire P) where
  pub runner-after_serve :
      {E : Type 0} (client : Request) (calls : List (Call P)) (others : List (List (Call P)))
      (sent : List (Request × Request)) (result : Outcome E Answer × Runner P)
      → (after_serve W client calls others sent result).runner ≡ result.1
  unfolding after_serve
  runner-after_serve client calls others sent (done (reply, some forwarded), r) = refl
  runner-after_serve client calls others sent (done (reply, none), r) = refl
  runner-after_serve client calls others sent (fail e, r) = refl
  runner-after_serve client calls others sent (panic message, r) = refl

  module _ (T : TreeInvariant P D) where
    -- A step keeps every property of the trees that the methods keep.
    pub ServerStep-Intact :
        {da_node_socket : String} {s t : Process P}
        → ServerStep W da_node_socket s t
        → Intact T s.runner
        → Intact T t.runner
    unfolding accept end_process serve_call started_again
    ServerStep-Intact (accepts (ok (ok calls)) up) h = h
    ServerStep-Intact (accepts (ok (err e)) up) h = h
    ServerStep-Intact (accepts (err e) up) h = h
    ServerStep-Intact {da_node_socket} {s} (serves call calls others up picks) h =
        rw
          (runner-after_serve call.request calls others s.sent
            (serve W call.world da_node_socket call.upstream call.request s.runner))
          ((serve-Intact D T W call.world da_node_socket call.upstream call.request).at s.runner h)
    ServerStep-Intact {da_node_socket} {s} (works w job up) h =
        (prove-Intact P D T w job).at s.runner h
    ServerStep-Intact {da_node_socket} {s} (shuts_down up) h = (shutdown-Intact P D T).at s.runner h
    ServerStep-Intact {da_node_socket} {s} (exits up) h = (clean_up-Intact P D T).at s.runner h
    ServerStep-Intact {da_node_socket} {s} (restarts channel) h =
        (resume-Intact P D T).at
          (record s.runner {
            job_sender = channel;
            zk_client_handle_local = none;
            zk_client_handle_remote = none;
            chacha_setup = none;
          })
          (record { trees = h.trees })

    pub ServerRun-Intact :
        {da_node_socket : String} {s t : Process P}
        → ServerRun W da_node_socket s t
        → Intact T s.runner
        → Intact T t.runner
    ServerRun-Intact started h = h
    ServerRun-Intact (and_then run step) h = ServerStep-Intact step (ServerRun-Intact run h)

  Encrypts-Intact :
      (r t : Runner P) (blob b : W.Blob)
      → ((T : TreeInvariant P D) → Intact T r → Intact T t)
      → IsConsistent P D r.queue_db r.finished_db
      → Encrypts D W r blob b
      → Encrypts D W t blob b
  Encrypts-Intact r t blob b keeps h
        (key, proof, proof_bytes, anchored, (c, there, decoded), written, made) =
      let settled =
        (keeps (permanence P D key c (zk_proof_finished proof) decoded tt) (record {
          trees = consistent-IsSettled P D key c r.queue_db r.finished_db h there;
        })).trees in
      (key, proof, proof_bytes, anchored, (c, settled.there, decoded), written, made)

  -- The proofs stay in the finished tree.
  AllEncrypted-Intact :
      (r t : Runner P) (blobs bs : List W.Blob)
      → ((T : TreeInvariant P D) → Intact T r → Intact T t)
      → IsConsistent P D r.queue_db r.finished_db
      → AllEncrypted D W r blobs bs
      → AllEncrypted D W t blobs bs
  AllEncrypted-Intact r t [] [] keeps h all = tt
  AllEncrypted-Intact r t [] (b ∷ bs) keeps h all = all
  AllEncrypted-Intact r t (blob ∷ blobs) [] keeps h all = all
  AllEncrypted-Intact r t (blob ∷ blobs) (b ∷ bs) keeps h (first, others) =
      (Encrypts-Intact r t blob b keeps h first, AllEncrypted-Intact r t blobs bs keeps h others)

  -- What was sent for a `blob.Submit` with these parameters: the client had a bearer token, and in
  -- place of its blobs there are blobs with the proofs that the finished tree holds for them.
  abbrev pub IsPrivate : Value → Value → Values → Request → Request → Runner P → Type 0
  IsPrivate v blobs_value rest req forwarded r =
      (is_authorized (get_header "authorization" req.headers) ≡ true)
      × (blobs : List W.Blob) × (bs : List W.Blob) × (value : Value) × (W.blobs_from_value
            blobs_value
          ≡ ok blobs)
      × AllEncrypted D W r blobs bs
      × (W.blobs_to_value bs ≡ ok value)
      × (W.to_vec (set_field "params" (array (cons value rest)) v) ≡ forwarded.body)

  pub IsPrivate-Intact :
      (v blobs_value : Value) (rest : Values) (req forwarded : Request) (r t : Runner P)
      → ((T : TreeInvariant P D) → Intact T r → Intact T t)
      → IsConsistent P D r.queue_db r.finished_db
      → IsPrivate v blobs_value rest req forwarded r
      → IsPrivate v blobs_value rest req forwarded t
  IsPrivate-Intact v blobs_value rest req forwarded r t keeps h
        (bearer, blobs, bs, value, read, all, written, made) =
      (bearer, blobs, bs, value, read, AllEncrypted-Intact r t blobs bs keeps h all, written, made)

  pub after_serve-IsLogged :
      {E : Type 0} (client req forwarded : Request) (calls : List (Call P))
      (others : List (List (Call P))) (sent : List (Request × Request))
      (result : Outcome E Answer × Runner P)
      → IsLogged req forwarded (after_serve W client calls others sent result).sent
      → IsLogged req forwarded sent
        ⊎ ((req ≡ client)
            × (reply : Result String Response) × (result.0 ≡ done (reply, some forwarded)))
  unfolding after_serve
  after_serve-IsLogged client req forwarded calls others sent (done (reply, some wrapped_req), r)
        (inl (same, same')) =
      inr (same, reply, rw same')
  after_serve-IsLogged client req forwarded calls others sent (done (reply, some wrapped_req), r)
        (inr before) =
      inl before
  after_serve-IsLogged client req forwarded calls others sent (done (reply, none), r) h = inl h
  after_serve-IsLogged client req forwarded calls others sent (fail e, r) h = inl h
  after_serve-IsLogged client req forwarded calls others sent (panic message, r) h = inl h
