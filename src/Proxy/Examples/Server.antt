-- ===== src/Proxy/Examples/Server.antt =====
-- A run of the server on the platform in memory: a client connects, and its submission is forwarded.
use pda_proxy.Base.{
  true, ◌≡◌, refl, inl, inr, some, [], ◌∷◌, Bytes, ok, ◌==ᵇ◌, Bool-cases, replicate,
}
use mathlib.Core.Option.{some-injective}
use pda_proxy.Service.Memory.{memory, memory-IsDocumented}
use pda_proxy.Service.Job.{zk_proof_finished}
use pda_proxy.Service.Action.{◌>>=◌}
use pda_proxy.Service.Runner.Invariant.{IsConsistent, IsFinal, Holds}
use pda_proxy.Service.Runner.Interleaving.{first}
use pda_proxy.Service.Runner.Requests.{get_verifiable_encryption, answer, answer_finished}
use pda_proxy.Service.Runner.Proving.{encryption_key}
use pda_proxy.Proxy.Json.{string, nil}
use pda_proxy.Proxy.Wire.{Request}
use pda_proxy.Proxy.Inbound.{
  job_of, encrypt_blobs, submit_params, intercept, forward, inbound_handler,
}
use pda_proxy.Proxy.Outbound.{
  try_mutate_response, new_result, mutated_or_original, outbound_handler,
}
use pda_proxy.Proxy.Serve.{answer_upstream, answer_inbound, handle_authorized, serve}
use pda_proxy.Proxy.Server.{
  Call, Process, accept, after_serve, serve_call, accepts, serves, ServerRun, started, and_then,
}
use pda_proxy.Proxy.Server.History.{IsLogged, IsPrivate}
use pda_proxy.Proxy.Server.Submissions.{ServerRun-IsPrivate}
use pda_proxy.Proxy.Fixtures.{proof, submission, wire, proved, quiet, request, upstream}

abbrev call : Call memory
call = record { request = request (0 ∷ []); world = quiet; upstream = upstream }

abbrev launched : Process memory
launched = record { up = true; runner = proved; connections = []; sent = [] }

abbrev connected : Process memory
connected = accept wire (ok (ok (call ∷ []))) launched

abbrev answered : Process memory
answered = serve_call wire "node" call [] [] connected

abbrev sent : Request
sent = record (request (0 ∷ [])) {
  uri = "http://node/";
  headers = ("authorization", "Bearer token") ∷ [];
  body = ok (123 ∷ 125 ∷ []);
}

only_proof :
    (k b : Bytes)
    → memory-IsDocumented.contents proved.finished_db k ≡ some b
    → Holds memory IsFinal b
only_proof k b there = elim (Bool-cases (k ==ᵇ replicate 32 1)) [
  | inl same ↦
      let found : some (3 ∷ proof) ≡ some b = rw same at there in
      let e : 3 ∷ proof ≡ b = some-injective (3 ∷ proof) b found in
      rw (← e) (zk_proof_finished proof, refl, tt)
  | inr differ ↦ cc (rw differ at there)
]

proved-IsConsistent : IsConsistent memory memory-IsDocumented [] proved.finished_db
proved-IsConsistent = record {
  exclusive = λ k. inl refl;
  valid = record { queued_pending = λ k b h. cc; finished_final = only_proof };
}

run : ServerRun wire "node" launched answered
unfolding accept
run =
    and_then (and_then started (accepts (ok (ok (call ∷ []))) refl))
      (serves call [] [] refl (first []))

logged : IsLogged (request (0 ∷ [])) sent answered.sent
unfolding accept serve_call after_serve serve handle_authorized answer_inbound answer_upstream
    inbound_handler forward intercept submit_params encrypt_blobs job_of get_verifiable_encryption
    answer answer_finished outbound_handler try_mutate_response new_result encryption_key
    mutated_or_original ◌>>=◌
logged = inl (refl, refl)

ServerRun-IsPrivate_example :
    IsPrivate memory-IsDocumented wire submission
      (string "plain")
      nil
      (request (0 ∷ []))
      sent
      answered.runner
ServerRun-IsPrivate_example =
    ServerRun-IsPrivate memory-IsDocumented wire "node" (request (0 ∷ [])) sent (0 ∷ []) submission
      (string "plain") nil refl refl refl refl launched answered run proved-IsConsistent refl logged
