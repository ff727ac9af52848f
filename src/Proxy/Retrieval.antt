-- ===== src/Proxy/Retrieval.antt =====
-- A blob on its way through the service to the upstream node and back.
use pda_proxy.Base.{
  ◌≡◌, ◌≢◌, ◌∙◌, sym, ap, false, Option, str_eq, none, some, true, String, Bytes, Result, ok,
}
use pda_proxy.Zkvm.Primitives as Primitives
use pda_proxy.Service.Action.{done, ◌>>=◌}
use pda_proxy.Service.Platform.{Platform, World, IsDocumented}
use pda_proxy.Service.Runner.State.{Runner}
use pda_proxy.Service.Runner.Proving.{prove}
use pda_proxy.Service.Runner.Registry.Completion.{IsProvable}
use pda_proxy.Proxy.Json.{Value, Values, get_field, set_field, method_of}
use pda_proxy.Proxy.Wire.{Wire, Request, Response, get_header, pending_response}
use pda_proxy.Proxy.Inbound.{text_or_empty, job_of}
use pda_proxy.Proxy.Inbound.Calls.{inbound_handler-other}
use pda_proxy.Proxy.Outbound.{outbound_handler}
use pda_proxy.Proxy.Outbound.Replies.{with_body, outbound_handler-decrypts}
use pda_proxy.Proxy.Decrypt.RoundTrip.{Attests}
use pda_proxy.Proxy.Serve.{
  is_authorized, or_internal_error, answer_upstream, answer_inbound, handle_authorized, serve,
}
use pda_proxy.Proxy.Serve.Upstream.{redirected}
use pda_proxy.Proxy.Submission.{Submits, IsWritten, with_json, sent_upstream, serve-prove}

module _ {P : Platform} (W : Wire P) where
  -- The client has a token, the redirected request an URI, and its body is a call of `blob.Get`,
  -- whose JSON text is `json`.
  pub record Gets (w : World P) (da_node_socket : String) (req : Request) (json : Bytes)
      : Type 0 where
    pub parsed_uri : W.parses_as_uri (redirected W w da_node_socket req).uri ≡ true
    pub bearer : is_authorized (get_header "authorization" req.headers) ≡ true
    pub body : Bytes
    pub call : Value
    pub body_read : req.body ≡ ok body
    pub parsed : W.from_slice body ≡ ok call
    pub is_get : method_of call ≡ some "blob.Get"
    pub written : W.to_vec call ≡ ok json

  -- The upstream node's response has `blob` as its result, and with `data` in place of the blob's
  -- data its JSON text is `json`.
  pub record Carries (resp : Response) (blob : W.Blob) (data_bytes json : Bytes) : Type 0 where
    pub authorized : resp.status ≢ 401
    pub body : Bytes
    pub reply : Value
    pub value : Value
    pub plain : Value
    pub body_read : resp.body ≡ ok body
    pub parsed : W.from_slice body ≡ ok reply
    pub result : get_field "result" reply ≡ some value
    pub is_blob : W.blob_from_value value ≡ ok blob
    pub is_plain : W.blob_to_value (W.with_data blob data_bytes) ≡ ok plain
    pub written : W.to_vec (set_field "result" plain reply) ≡ ok json

  not_submit : (v : Value) → method_of v ≡ some "blob.Get" → method_of v ≢ some "blob.Submit"
  not_submit v is_get is_submit =
      let e : true ≡ false =
        ap (λ (o : Option String). elim o [ none ↦ false | some m ↦ str_eq m "blob.Get" ])
          (sym is_get ∙ is_submit) in
      cc e

  -- A call that upstream answers is answered with what `outbound_handler` makes of the response.
  serve-get :
      (w : World P) (da_node_socket : String) (upstream : Request → Result String Response)
      (req : Request) (resp plain_resp : Response) (json : Bytes) (r : Runner P)
      → Gets w da_node_socket req json
      → upstream (with_json (redirected W w da_node_socket req) json) ≡ ok resp
      → outbound_handler W w resp "blob.Get" r ≡ (done plain_resp, r)
      → serve W w da_node_socket upstream req r
        ≡ (done (ok plain_resp, some (with_json (redirected W w da_node_socket req) json)), r)
  unfolding serve handle_authorized answer_inbound answer_upstream or_internal_error ◌>>=◌
  serve-get w da_node_socket upstream req resp plain_resp json r g replied decrypted =
      let method : text_or_empty (method_of g.call) ≡ "blob.Get" = rw g.is_get in
      rw (
        g.parsed_uri,
        g.bearer,
        inbound_handler-other W w (redirected W w da_node_socket req) r g.body json g.call
            g.body_read g.parsed (not_submit g.call g.is_get) g.written,
        method,
        replied,
        decrypted,
      )

module _ {P : Platform} (D : IsDocumented P) (d : Primitives.IsDocumented P.primitives)
    (W : Wire P) where
  -- Let the database and the channel not fail, a blob's job be in neither tree, its anchor
  -- serialize, `SP1_PROVER` name the local prover, a pending status and the proof be storable, and
  -- the worker's environment and runner be ready, with `ENCRYPTION_KEY` set to a key, random bytes,
  -- the local client built and the setup cached; and let the prover prove the job. A submission of
  -- that one blob with a bearer token and a well-formed URI is answered with "pending", and nothing
  -- is sent upstream; the run of the worker for the blob's job ends without an error; and the same
  -- request, sent again, is handled by sending upstream the request with an encrypted blob in place
  -- of the blob, where the proof, the blob with it and the new body can be written. If the proof
  -- attests the guest's run on the blob's data, if serializing keeps it and it verifies, and if
  -- upstream then answers a `blob.Get` with the encrypted blob and a status other than 401, in a
  -- service with the same key, client and setup, then a client with a bearer token gets upstream's
  -- response with the data that was submitted as the data of that blob, where that response can be
  -- written.
  pub serve-prove-serve :
      (w w' w'' : World P) (da_node_socket : String)
      (upstream upstream'' : Request → Result String Response) (req get : Request) (blob : W.Blob)
      (v : Value) (rest : Values) (job_key json get_json plain_json : Bytes) (proof : P.Proof)
      (resp : Response) (r s : Runner P) (p : IsProvable P D w w' (job_of W blob) job_key proof r)
      (i : IsWritten W blob proof v rest json)
      → Submits W w da_node_socket req blob v rest
      → Gets W w'' da_node_socket get get_json
      → upstream'' (with_json (redirected W w'' da_node_socket get) get_json) ≡ ok resp
      → Carries W resp i.encrypted (W.data_of blob) plain_json
      → Attests P proof p.key p.nonce (W.data_of blob)
      → W.data_of i.encrypted ≡ i.proof_bytes
      → W.proof_from_bytes i.proof_bytes ≡ ok proof
      → W.verify p.client proof p.setup.vk ≡ ok tt
      → w''.var "ENCRYPTION_KEY" ≡ w'.var "ENCRYPTION_KEY"
      → s.zk_client_handle_local ≡ some p.client
      → s.chacha_setup ≡ some p.setup
      → ((t : Runner P) × (u : Runner P) × (serve W w da_node_socket upstream req r
            ≡ (done (ok (pending_response W), none), t))
          × (prove P w' (job_of W blob) t ≡ (done tt, u))
          × (serve W w da_node_socket upstream req u
              ≡ sent_upstream W w upstream (with_json (redirected W w da_node_socket req) json) u))
        × (serve W w'' da_node_socket upstream'' get s ≡ (
          done (
            ok (with_body resp plain_json),
            some (with_json (redirected W w'' da_node_socket get) get_json),
          ),
          s,
        ))
  serve-prove-serve w w' w'' da_node_socket upstream upstream'' req get blob v rest job_key json
        get_json plain_json proof resp r s p i submits gets replied carries attested kept restored
        verified same_key client setup =
      let (key_text, set, is_key, filled, built, cached) = p.ready in
      let decrypted =
        outbound_handler-decrypts W d w'' resp s carries.body plain_json carries.reply carries.value
          carries.plain i.encrypted proof key_text p.key p.nonce (W.data_of blob) p.client p.setup
          carries.authorized carries.body_read carries.parsed carries.result carries.is_blob
          (rw kept restored) attested (same_key ∙ set) is_key client setup verified carries.is_plain
          carries.written in
      (
        serve-prove D W w w' da_node_socket upstream req blob v rest job_key json proof r submits p
            i,
        serve-get W w'' da_node_socket upstream'' get resp (with_body resp plain_json) get_json s
            gets replied decrypted,
      )
