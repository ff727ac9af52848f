-- ===== src/Proxy/Examples.antt =====
-- The proxy on the platform in memory, with a codec that knows a few bodies.
mod Startup
mod Submission
mod Server
use pda_proxy.Base.{
  ◌⊎◌, ℕ, ◌≡◌, ◌≢◌, refl, ◌⊎◌, true, none, some, String, List, [], ◌∷◌, ◌++◌, Bytes, length, Result,
  ok, err, replicate, length-replicate, arith, ◌==◌, if◌then◌else◌,
}
use pda_proxy.Zkvm.Primitives.{IsDocumented, chacha}
use pda_proxy.Zkvm.Program.{main}
use pda_proxy.Service.Action.{done, ◌>>=◌}
use pda_proxy.Service.Platform.{World}
use pda_proxy.Service.Memory.{memory, toy_primitives, memory-IsDocumented, world, empty}
use pda_proxy.Service.Runner.State.{Runner}
use pda_proxy.Service.Runner.Requests.{get_verifiable_encryption, answer, answer_finished}
use pda_proxy.Service.Runner.Setup.{
  get_zk_client_local, or_build_local, get_proof_setup_local, get_or_try_init,
}
use pda_proxy.Zkvm.Output.{from_bytes}
use pda_proxy.Service.Runner.Proving.{encryption_key}
use pda_proxy.Proxy.Json.{Value, string, array, object, nil, cons, member, end, set_field}
use pda_proxy.Proxy.Wire.{Wire, Request, Response, get_header, remove_header, bad_auth_response}
use pda_proxy.Proxy.Decrypt.{verify_decrypt_blob, extract_verified_proof_output}
use pda_proxy.Proxy.Decrypt.RoundTrip.{verify_decrypt_blob-main}
use pda_proxy.Proxy.Inbound.{
  job_of, encrypt_blobs, submit_params, intercept, forward, inbound_handler,
}
use pda_proxy.Proxy.Inbound.Privacy.{AllEncrypted, inbound_handler-AllEncrypted}
use pda_proxy.Proxy.Inbound.Ready.{inbound_handler-ready}
use pda_proxy.Proxy.Outbound.GetAll.{outbound_handler-AllDecrypted}
use pda_proxy.Proxy.Inbound.Calls.{inbound_handler-other}
use pda_proxy.Proxy.Outbound.{
  decrypt_value, try_mutate_response, new_result, mutated_or_original, outbound_handler,
}
use pda_proxy.Proxy.Outbound.Verified.{IsOpened, outbound_handler-IsOpened}
use pda_proxy.Proxy.Wire.{bad_auth_response}
use pda_proxy.Proxy.Outbound.Replies.{with_body, outbound_handler-decrypts}
use pda_proxy.Proxy.Trees.{serve-IsConsistent}
use pda_proxy.Rpc.Blob.{Types, get, proxied, blob_method, submits, decrypts}
use pda_proxy.Service.Fixtures.{empty-IsConsistent}
use pda_proxy.Service.Runner.Invariant.{IsConsistent}
use pda_proxy.Proxy.Serve.{is_authorized, answer_upstream, answer_inbound, handle_authorized, serve}
use pda_proxy.Proxy.Serve.Upstream.{redirected, serve-sent, serve-AllEncrypted}
use pda_proxy.Proxy.Fixtures.{
  toy-IsDocumented, key, nonce, proof, submission, batch, reply, reply_all, body_of, wire, proved,
  quiet, request, response, upstream,
}

ran : main toy_primitives key nonce (7 ∷ []) ≡ ok proof
unfolding main chacha
ran = refl

verify_decrypt_blob-main_example :
    verify_decrypt_blob wire quiet (3, proof) key proved ≡ (done (3, 7 ∷ []), proved)
verify_decrypt_blob-main_example =
    verify_decrypt_blob-main toy-IsDocumented wire quiet (3, proof) proof key nonce (7 ∷ []) 1
      (record { pk = 1; vk = 8 }) proved (refl, refl, ran) refl refl refl refl

abbrev forwarded : Request
forwarded = record (request (0 ∷ [])) {
  headers = ("authorization", "Bearer token") ∷ [];
  body = ok (123 ∷ 125 ∷ []);
}

submitted :
    inbound_handler wire quiet (request (0 ∷ [])) proved
    ≡ (done ("blob.Submit", some forwarded), proved)
unfolding inbound_handler forward intercept submit_params encrypt_blobs job_of
    get_verifiable_encryption answer answer_finished ◌>>=◌
submitted = refl

inbound_handler-AllEncrypted_example :
    (blobs : List wire.Blob) × (bs : List wire.Blob) × (value : Value) × (wire.blobs_from_value
        (string "plain")
      ≡ ok blobs)
    × AllEncrypted memory-IsDocumented wire proved blobs bs
    × (wire.blobs_to_value bs ≡ ok value)
    × (wire.to_vec (set_field "params" (array (cons value nil)) submission) ≡ forwarded.body)
    × (forwarded.headers ≡ remove_header "content-length" (request (0 ∷ [])).headers)
    × (proved ≡ proved)
inbound_handler-AllEncrypted_example =
    inbound_handler-AllEncrypted memory-IsDocumented wire quiet (request (0 ∷ [])) forwarded
      "blob.Submit" proved proved (0 ∷ []) submission (string "plain") nil refl refl refl refl
      submitted

inbound_handler-ready_example :
    inbound_handler wire quiet (request (0 ∷ [])) proved
    ≡ (done ("blob.Submit", some forwarded), proved)
unfolding job_of
inbound_handler-ready_example =
    inbound_handler-ready memory-IsDocumented wire quiet (request (0 ∷ [])) proved (0 ∷ [])
      (123 ∷ 125 ∷ []) submission (string "plain") (string "encrypted") nil ((3, 7 ∷ []) ∷ [])
      ((3, proof) ∷ []) (λ k. refl) refl refl refl refl refl
      ((replicate 32 1, proof, proof, refl, (3 ∷ proof, refl, refl), refl, refl), tt) refl refl

-- A batch goes on as it came, with the submission in it.
inbound_handler-other_example : inbound_handler wire quiet (request (1 ∷ [])) proved ≡ (
  done (
    "",
    some (record (request (1 ∷ [])) {
      headers = ("authorization", "Bearer token") ∷ [];
      body = ok (123 ∷ 125 ∷ []);
    }),
  ),
  proved,
)
inbound_handler-other_example =
    inbound_handler-other wire quiet (request (1 ∷ [])) proved (1 ∷ []) (123 ∷ 125 ∷ []) batch refl
      refl (λ h. cc h) refl

abbrev answered : Response
answered = with_body response (123 ∷ 125 ∷ [])

decrypted : outbound_handler wire quiet response "blob.Get" proved ≡ (done answered, proved)
unfolding outbound_handler try_mutate_response new_result encryption_key mutated_or_original
    decrypt_value verify_decrypt_blob extract_verified_proof_output get_zk_client_local
    or_build_local get_proof_setup_local get_or_try_init from_bytes ◌>>=◌
decrypted = refl

outbound_handler-decrypts_example :
    outbound_handler wire quiet response "blob.Get" proved ≡ (done answered, proved)
outbound_handler-decrypts_example =
    outbound_handler-decrypts wire toy-IsDocumented quiet response proved (2 ∷ []) (123 ∷ 125 ∷ [])
      reply (string "encrypted") (string "plain") (3, proof) proof "HOSTED" key nonce (7 ∷ []) 1
      (record { pk = 1; vk = 8 }) (λ h. omega (arith, h)) refl refl refl refl refl (refl, refl, ran)
      refl refl refl refl refl refl refl

outbound_handler-AllDecrypted_example :
    outbound_handler wire quiet (record response { body = ok (3 ∷ []) }) "blob.GetAll" proved
    ≡ (done answered, proved)
outbound_handler-AllDecrypted_example =
    outbound_handler-AllDecrypted wire toy-IsDocumented quiet
      (record response { body = ok (3 ∷ []) }) proved (3 ∷ []) (123 ∷ 125 ∷ []) reply_all
      (cons (string "encrypted") nil) (string "plain" ∷ []) "HOSTED" key 1
      (record { pk = 1; vk = 8 }) (λ h. omega (arith, h)) refl refl refl refl refl refl refl
      (((3, proof), proof, nonce, 7 ∷ [], refl, refl, (refl, refl, ran), refl, refl), tt) refl

outbound_handler-IsOpened_example :
    ((response.status ≡ 401) × (answered ≡ bad_auth_response wire))
    ⊎ (answered ≡ response)
    ⊎ IsOpened wire 1 (record { pk = 1; vk = 8 }) quiet response answered
outbound_handler-IsOpened_example =
    outbound_handler-IsOpened wire 1 (record { pk = 1; vk = 8 }) quiet response answered proved
      proved refl refl decrypted

abbrev sent : Request
sent = record forwarded { uri = "http://node/" }

served :
    serve wire quiet "node" upstream (request (0 ∷ [])) proved
    ≡ (done (ok answered, some sent), proved)
unfolding serve handle_authorized answer_inbound answer_upstream inbound_handler forward intercept
    submit_params encrypt_blobs job_of get_verifiable_encryption answer answer_finished
    outbound_handler try_mutate_response new_result encryption_key mutated_or_original ◌>>=◌
served = refl

serve-AllEncrypted_example :
    (is_authorized (get_header "authorization" (request (0 ∷ [])).headers) ≡ true)
    × (blobs : List wire.Blob) × (bs : List wire.Blob) × (value : Value) × (wire.blobs_from_value
          (string "plain")
        ≡ ok blobs)
    × AllEncrypted memory-IsDocumented wire proved blobs bs
    × (wire.blobs_to_value bs ≡ ok value)
    × (wire.to_vec (set_field "params" (array (cons value nil)) submission) ≡ sent.body)
serve-AllEncrypted_example =
    serve-AllEncrypted wire memory-IsDocumented quiet "node" upstream (request (0 ∷ [])) sent
      (ok answered) proved proved (0 ∷ []) submission (string "plain") nil refl refl refl refl
      served
