-- ===== src/Proxy/Serve/Upstream.antt =====
-- What reaches the upstream node, for a whole request.
use pda_proxy.Base.{
  ◌≡◌, inl, inr, none, some, String, ◌<>◌, List, true, Bytes, Result, ok, err, Bool-cases,
}
use pda_proxy.Service.Action.{done, ◌>>=◌}
use pda_proxy.Service.Action.Outcomes.{run-cases}
use pda_proxy.Service.Platform.{Platform, World, IsDocumented}
use pda_proxy.Service.Runner.State.{Runner}
use pda_proxy.Proxy.Json.{Value, array, Values, cons, get_field, set_field, method_of}
use pda_proxy.Proxy.Wire.{Wire, Request, Response, get_header}
use pda_proxy.Proxy.Inbound.{inbound_handler}
use pda_proxy.Proxy.Inbound.Privacy.{AllEncrypted, inbound_handler-AllEncrypted}
use pda_proxy.Proxy.Outbound.{outbound_handler}
use pda_proxy.Proxy.Serve.{
  is_authorized, or_slash, scheme, answer_upstream, answer_inbound, handle_authorized, serve,
}

module _ {P : Platform} (W : Wire P) where
  -- The request as it is sent on, with the upstream node's URI.
  abbrev pub redirected : World P → String → Request → Request
  redirected w da_node_socket req = record req {
    uri =
        scheme (w.var "UNSAFE_HTTP_UPSTREAM")
        <> "://"
        <> da_node_socket
        <> or_slash req.path_and_query;
  }

  upstream_sent :
      (w : World P) (forwarded sent : Request) (method : String) (replied : Result String Response)
      (reply : Result String Response) (r r' : Runner P)
      → answer_upstream W w forwarded method replied r ≡ (done (reply, some sent), r')
      → sent ≡ forwarded
  unfolding answer_upstream ◌>>=◌
  upstream_sent w forwarded sent method (err e) reply r r' h = cc
  upstream_sent w forwarded sent method (ok resp) reply r r' h =
      elim (run-cases (outbound_handler W w resp method r)) [
        | inl (a, s, e) ↦ cc (rw e at h)
        | inr (inl (a, s, e)) ↦ cc (rw e at h)
        | inr (inr (m, s, e)) ↦ cc (rw e at h)
      ]

  handled_sent :
      (w : World P) (upstream : Request → Result String Response) (req sent : Request)
      (reply : Result String Response) (r r' : Runner P)
      → handle_authorized W w upstream req r ≡ (done (reply, some sent), r')
      → (method : String) × (s : Runner P) × (inbound_handler W w req r
          ≡ (done (method, some sent), s))
  unfolding handle_authorized answer_inbound ◌>>=◌
  handled_sent w upstream req sent reply r r' h = elim (run-cases (inbound_handler W w req r)) [
    | inr (inl (a, s, e)) ↦ cc (rw e at h)
    | inr (inr (m, s, e)) ↦ cc (rw e at h)
    | inl ((method, none), s, e) ↦ cc (rw e at h)
    | inl ((method, some forwarded), s, e) ↦
        let same =
          upstream_sent w forwarded sent method (upstream forwarded) reply s r' (rw e at h) in
        (method, s, rw same e)
  ]

  -- Only a request with a bearer token leads to a request to the upstream node, and then to the one
  -- that `inbound_handler` returned for it.
  pub serve-sent :
      (w : World P) (da_node_socket : String) (upstream : Request → Result String Response)
      (req sent : Request) (reply : Result String Response) (r r' : Runner P)
      → serve W w da_node_socket upstream req r ≡ (done (reply, some sent), r')
      → (is_authorized (get_header "authorization" req.headers) ≡ true)
        × (method : String) × (s : Runner P) × (inbound_handler W w
              (redirected w da_node_socket req)
              r
            ≡ (done (method, some sent), s))
  unfolding serve ◌>>=◌
  serve-sent w da_node_socket upstream req sent reply r r' h =
      elim (Bool-cases (W.parses_as_uri (redirected w da_node_socket req).uri)) [
        | inr unparsed ↦ cc (rw unparsed at h)
        | inl parsed ↦ elim (Bool-cases (is_authorized (get_header "authorization" req.headers))) [
          | inr denied ↦ cc (rw (parsed, denied) at h)
          | inl bearer ↦
              let (method, s, sent_lem) =
                handled_sent w upstream (redirected w da_node_socket req) sent reply r r'
                  (rw (parsed, bearer) at h) in
              (bearer, method, s, sent_lem)
        ]
      ]

  -- For a `blob.Submit` with parameters from a client, whatever request is sent to the upstream
  -- node, also where the request's task panics after that, carries for each submitted blob a blob
  -- with the proof that the finished tree holds under the digest of the blob's data, in the same
  -- namespace, and the client had sent a bearer token.
  pub serve-AllEncrypted :
      (D : IsDocumented P) (w : World P) (da_node_socket : String)
      (upstream : Request → Result String Response) (req sent : Request)
      (reply : Result String Response) (r r' : Runner P) (body : Bytes) (v blobs_value : Value)
      (rest : Values)
      → req.body ≡ ok body
      → W.from_slice body ≡ ok v
      → method_of v ≡ some "blob.Submit"
      → get_field "params" v ≡ some (array (cons blobs_value rest))
      → serve W w da_node_socket upstream req r ≡ (done (reply, some sent), r')
      → (is_authorized (get_header "authorization" req.headers) ≡ true)
        × (blobs : List W.Blob) × (bs : List W.Blob) × (value : Value) × (W.blobs_from_value
              blobs_value
            ≡ ok blobs)
        × AllEncrypted D W r blobs bs
        × (W.blobs_to_value bs ≡ ok value)
        × (W.to_vec (set_field "params" (array (cons value rest)) v) ≡ sent.body)
  serve-AllEncrypted D w da_node_socket upstream req sent reply r r' body v blobs_value rest
        collected parsed is_submit params h =
      let (bearer, method, s, inbound) =
        serve-sent w da_node_socket upstream req sent reply r r' h in
      let (blobs, bs, value, read, all, written, sent_lem, _, _) =
        inbound_handler-AllEncrypted D W w (redirected w da_node_socket req) sent method r s body v
          blobs_value rest collected parsed is_submit params inbound in
      (bearer, blobs, bs, value, read, all, written, sent_lem)
