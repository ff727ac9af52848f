-- ===== src/Proxy/Submission.antt =====
-- A submission of one blob from the first request to the one that is sent upstream, through the
-- service function of `main`, the runner and its worker.
use pda_proxy.Base.{◌≡◌, none, some, true, String, [], ◌∷◌, Bytes, Result, ok}
use pda_proxy.Service.Action.{done, ◌>>=◌}
use pda_proxy.Service.Platform.{Platform, World, IsDocumented}
use pda_proxy.Service.Runner.State.{Runner}
use pda_proxy.Service.Runner.Proving.{prove}
use pda_proxy.Service.Runner.Requests.{get_verifiable_encryption}
use pda_proxy.Service.Runner.Registry.Completion.{IsProvable, requested-proved}
use pda_proxy.Proxy.Json.{Value, array, Values, cons, get_field, set_field, method_of}
use pda_proxy.Proxy.Wire.{Wire, Request, Response, get_header, remove_header, pending_response}
use pda_proxy.Proxy.Inbound.{
  job_of, encrypt_blobs, replace_blobs, submit_params, submit, intercept, forward, inbound_handler,
}
use pda_proxy.Proxy.Inbound.Ready.{inbound_handler-ready}
use pda_proxy.Proxy.Decrypt.{Handler}
use pda_proxy.Proxy.Serve.{
  Answer, is_authorized, answer_upstream, answer_inbound, handle_authorized, serve,
}
use pda_proxy.Proxy.Serve.Upstream.{redirected}

-- The request with another body.
abbrev pub with_json : Request → Bytes → Request
with_json req json = record req {
  headers = remove_header "content-length" req.headers;
  body = ok json;
}

module _ {P : Platform} (W : Wire P) where
  -- The client has a token, the redirected request an URI, and its body is a `blob.Submit` of
  -- `blob` alone.
  pub record Submits (w : World P) (da_node_socket : String) (req : Request) (blob : W.Blob)
      (v : Value) (rest : Values) : Type 0 where
    pub parsed_uri : W.parses_as_uri (redirected W w da_node_socket req).uri ≡ true
    pub bearer : is_authorized (get_header "authorization" req.headers) ≡ true
    pub body : Bytes
    pub blobs_value : Value
    pub body_read : req.body ≡ ok body
    pub parsed : W.from_slice body ≡ ok v
    pub is_submit : method_of v ≡ some "blob.Submit"
    pub params : get_field "params" v ≡ some (array (cons blobs_value rest))
    pub is_blob : W.blobs_from_value blobs_value ≡ ok (blob ∷ [])

  -- The proof goes into a blob of the same namespace, and that blob into the JSON text.
  pub record IsWritten (blob : W.Blob) (proof : P.Proof) (v : Value) (rest : Values) (json : Bytes)
      : Type 0 where
    pub proof_bytes : Bytes
    pub encrypted : W.Blob
    pub value : Value
    pub serialized : W.proof_to_bytes proof ≡ ok proof_bytes
    pub renewed : W.new_blob (W.namespace blob) proof_bytes ≡ ok encrypted
    pub is_value : W.blobs_to_value (encrypted ∷ []) ≡ ok value
    pub written : W.to_vec (set_field "params" (array (cons value rest)) v) ≡ ok json

  -- The answer to a submission that is sent upstream.
  abbrev pub sent_upstream :
      World P → (Request → Result String Response) → Request → Handler P Answer
  sent_upstream w upstream forwarded =
      answer_upstream W w forwarded "blob.Submit" (upstream forwarded)

  serve-handle_authorized :
      (w : World P) (da_node_socket : String) (upstream : Request → Result String Response)
      (req : Request) (blob : W.Blob) (v : Value) (rest : Values) (r : Runner P)
      → Submits w da_node_socket req blob v rest
      → serve W w da_node_socket upstream req r
        ≡ handle_authorized W w upstream (redirected W w da_node_socket req) r
  unfolding serve
  serve-handle_authorized w da_node_socket upstream req blob v rest r s =
      rw (s.parsed_uri, s.bearer)

  handle_authorized-pending :
      (w : World P) (da_node_socket : String) (upstream : Request → Result String Response)
      (req : Request) (blob : W.Blob) (v : Value) (rest : Values) (r t : Runner P)
      → Submits w da_node_socket req blob v rest
      → get_verifiable_encryption P w (job_of W blob) r ≡ (done none, t)
      → handle_authorized W w upstream (redirected W w da_node_socket req) r
        ≡ (done (ok (pending_response W), none), t)
  unfolding handle_authorized answer_inbound inbound_handler intercept submit submit_params
      encrypt_blobs replace_blobs forward ◌>>=◌
  handle_authorized-pending w da_node_socket upstream req blob v rest r t s asked =
      rw (s.body_read, s.parsed, s.is_submit, s.params, s.is_blob, asked)

module _ {P : Platform} (D : IsDocumented P) (W : Wire P) where
  -- A submission of one blob whose job is not known yet and that the local prover can prove: the
  -- first request is answered with "pending" and nothing is sent upstream; the run of the worker for
  -- the blob's job ends without an error; and the same request, sent again, is handled by sending
  -- upstream the request with the blob's proof in place of the blob.
  pub serve-prove :
      (w w' : World P) (da_node_socket : String) (upstream : Request → Result String Response)
      (req : Request) (blob : W.Blob) (v : Value) (rest : Values) (job_key json : Bytes)
      (proof : P.Proof) (r : Runner P)
      → Submits W w da_node_socket req blob v rest
      → IsProvable P D w w' (job_of W blob) job_key proof r
      → IsWritten W blob proof v rest json
      → (t : Runner P) × (u : Runner P) × (serve W w da_node_socket upstream req r
          ≡ (done (ok (pending_response W), none), t))
        × (prove P w' (job_of W blob) t ≡ (done tt, u))
        × (serve W w da_node_socket upstream req u
            ≡ sent_upstream W w upstream (with_json (redirected W w da_node_socket req) json) u)
  unfolding handle_authorized answer_inbound job_of ◌>>=◌
  serve-prove w w' da_node_socket upstream req blob v rest job_key json proof r s p i =
      let (t, u, asked, worked, (b, there, decoded, final, unqueued)) =
        requested-proved P D w w' (job_of W blob) job_key proof r p in
      let ready =
        inbound_handler-ready D W w (redirected W w da_node_socket req) u s.body json v
          s.blobs_value i.value rest (blob ∷ []) (i.encrypted ∷ [])
          (λ k. p.reliable.reads u.finished_db k) s.body_read s.parsed s.is_submit s.params
          s.is_blob
          (
            (
              job_key,
              proof,
              i.proof_bytes,
              p.anchored,
              (b, there, decoded),
              i.serialized,
              i.renewed,
            ),
            tt,
          )
          i.is_value i.written in
      (
        t,
        u,
        rw (
          serve-handle_authorized W w da_node_socket upstream req blob v rest r s,
          handle_authorized-pending W w da_node_socket upstream req blob v rest r t s asked,
        ),
        worked,
        rw (serve-handle_authorized W w da_node_socket upstream req blob v rest u s, ready),
      )
