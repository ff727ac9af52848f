-- ===== src/Proxy/Examples/Submission.antt =====
-- A submission on the platform in memory, from the first request to the one that is sent upstream.
use pda_proxy.Base.{◌≡◌, refl, none, some, arith, [], ◌∷◌, ok, replicate}
use pda_proxy.Service.Action.{done}
use pda_proxy.Service.Memory.{toy_primitives, memory, memory-IsDocumented, world}
use pda_proxy.Service.Fixtures.{idle, memory-IsReliable, world-StartsIn}
use pda_proxy.Service.Runner.State.{Runner}
use pda_proxy.Service.Runner.Proving.{prove}
use pda_proxy.Service.Runner.Registry.Completion.{IsProvable}
use pda_proxy.Proxy.Json.{nil, string}
use pda_proxy.Proxy.Wire.{pending_response}
use pda_proxy.Proxy.Inbound.{job_of}
use pda_proxy.Proxy.Serve.{serve}
use pda_proxy.Proxy.Serve.Upstream.{redirected}
use pda_proxy.Proxy.Submission.{Submits, IsWritten, with_json, sent_upstream, serve-prove}
use pda_proxy.Proxy.Retrieval.{Gets, Carries, serve-prove-serve}
use pda_proxy.Proxy.Outbound.Replies.{with_body}
use pda_proxy.Zkvm.Primitives.{chacha}
use pda_proxy.Zkvm.Program.{main}
use pda_proxy.Proxy.Fixtures.{
  toy-IsDocumented, wire, quiet, key, nonce, proof, submission, retrieval, reply, request, response,
  upstream,
}

submitted : Submits wire quiet "node" (request (0 ∷ [])) (3, 7 ∷ []) submission nil
submitted = record {
  parsed_uri = refl;
  bearer = refl;
  body = 0 ∷ [];
  blobs_value = string "plain";
  body_read = refl;
  parsed = refl;
  is_submit = refl;
  params = refl;
  is_blob = refl;
}

provable :
    IsProvable memory memory-IsDocumented quiet
      (world (ok proof))
      (job_of wire (3, 7 ∷ []))
      (replicate 32 1)
      proof
      idle
unfolding job_of
provable = record {
  key = key;
  nonce = nonce;
  client = 1;
  setup = record { pk = 1; vk = 8 };
  reliable = memory-IsReliable;
  anchored = refl;
  starting = world-StartsIn;
  unknown = (refl, refl);
  ready = ("HOSTED", refl, refl, refl, refl, refl);
  ran = refl;
  pending_written = (0 ∷ [], refl);
  proof_written = (3 ∷ proof, refl);
}

written_proof : IsWritten wire (3, 7 ∷ []) proof submission nil (123 ∷ 125 ∷ [])
written_proof = record {
  proof_bytes = proof;
  encrypted = (3, proof);
  value = string "encrypted";
  serialized = refl;
  renewed = refl;
  is_value = refl;
  written = refl;
}

serve-prove_example :
    (t : Runner memory) × (u : Runner memory) × (serve wire quiet "node" upstream
        (request (0 ∷ []))
        idle
      ≡ (done (ok (pending_response wire), none), t))
    × (prove memory (world (ok proof)) (job_of wire (3, 7 ∷ [])) t ≡ (done tt, u))
    × (serve wire quiet "node" upstream (request (0 ∷ [])) u
        ≡ sent_upstream wire quiet upstream
            (with_json (redirected wire quiet "node" (request (0 ∷ []))) (123 ∷ 125 ∷ []))
            u)
serve-prove_example =
    serve-prove memory-IsDocumented wire quiet (world (ok proof)) "node" upstream (request (0 ∷ []))
      (3, 7 ∷ []) submission nil (replicate 32 1) (123 ∷ 125 ∷ []) proof idle submitted provable
      written_proof

got : Gets wire quiet "node" (request (4 ∷ [])) (123 ∷ 125 ∷ [])
got = record {
  parsed_uri = refl;
  bearer = refl;
  body = 4 ∷ [];
  call = retrieval;
  body_read = refl;
  parsed = refl;
  is_get = refl;
  written = refl;
}

carried : Carries wire response (3, proof) (7 ∷ []) (123 ∷ 125 ∷ [])
carried = record {
  authorized = λ h. omega (arith, h);
  body = 2 ∷ [];
  reply = reply;
  value = string "encrypted";
  plain = string "plain";
  body_read = refl;
  parsed = refl;
  result = refl;
  is_blob = refl;
  is_plain = refl;
  written = refl;
}

ran : main toy_primitives key nonce (7 ∷ []) ≡ ok proof
unfolding main chacha
ran = refl

serve-prove-serve_example :
    ((t : Runner memory) × (u : Runner memory) × (serve wire quiet "node" upstream
          (request (0 ∷ []))
          idle
        ≡ (done (ok (pending_response wire), none), t))
      × (prove memory (world (ok proof)) (job_of wire (3, 7 ∷ [])) t ≡ (done tt, u))
      × (serve wire quiet "node" upstream (request (0 ∷ [])) u
          ≡ sent_upstream wire quiet upstream
              (with_json (redirected wire quiet "node" (request (0 ∷ []))) (123 ∷ 125 ∷ []))
              u))
    × (serve wire quiet "node" upstream (request (4 ∷ [])) idle ≡ (
      done (
        ok (with_body response (123 ∷ 125 ∷ [])),
        some (with_json (redirected wire quiet "node" (request (4 ∷ []))) (123 ∷ 125 ∷ [])),
      ),
      idle,
    ))
unfolding provable written_proof
serve-prove-serve_example =
    serve-prove-serve memory-IsDocumented toy-IsDocumented wire quiet (world (ok proof)) quiet
      "node" upstream upstream (request (0 ∷ [])) (request (4 ∷ [])) (3, 7 ∷ []) submission nil
      (replicate 32 1) (123 ∷ 125 ∷ []) (123 ∷ 125 ∷ []) (123 ∷ 125 ∷ []) proof response idle idle
      provable written_proof submitted got refl carried (refl, refl, ran) refl refl refl refl refl
      refl
