-- ===== src/Proxy/Trees.antt =====
-- The properties of the job trees through the handlers and the service function.
use pda_proxy.Base.{
  inl, inr, Bool-cases, Option, none, some, String, List, [], ◌∷◌, Bool, true, false, Bytes, Result,
  ok, err, if◌then◌else◌,
}
use pda_proxy.Service.Action.{Action}
use pda_proxy.Service.Action.Keeps.{
  Keeps, Keeps-bind, Keeps-map_fail, Keeps-lift_with, Keeps-pure, keeps_rules,
}
use pda_proxy.Service.Platform.{Platform, World, IsDocumented}
use pda_proxy.Service.Runner.State.{Runner}
use pda_proxy.Service.Runner.Invariant.{IsConsistent}
use pda_proxy.Service.Runner.Invariant.Laws.{TreeInvariant, Intact}
use pda_proxy.Service.Runner.Invariant.Methods.{
  get_zk_client_local-Intact, get_proof_setup_local-Intact,
}
use pda_proxy.Service.Runner.Invariant.Prove.{encryption_key-Intact}
use pda_proxy.Service.Runner.Invariant.Request.{get_verifiable_encryption-Intact}
use pda_proxy.Service.Runner.Invariant.Instances.{consistency}
use pda_proxy.Proxy.Json.{Value, null, boolean, number, string, array, object, Values, nil, cons}
use pda_proxy.Proxy.Wire.{Wire, Request, Response, get_header}
use pda_proxy.Proxy.Decrypt.{Handler, extract_verified_proof_output, verify_decrypt_blob}
use pda_proxy.Proxy.Inbound.{
  encrypt_blobs, replace_blobs, submit_params, submit, intercept, forward, inbound_handler,
}
use pda_proxy.Proxy.Outbound.{
  decrypt_value, decrypt_values, decrypt_array, new_result, try_mutate_response,
  mutated_or_original, outbound_handler,
}
use pda_proxy.Proxy.Serve.Upstream.{redirected}
use pda_proxy.Proxy.Serve.{is_authorized, answer_upstream, answer_inbound, handle_authorized, serve}

module _ {A : Type 0} {S E : Type 0} {I : S → Type 0} where
  Keeps-if : (b : Bool) (m n : Action S E A) → Keeps I m → Keeps I n → Keeps I (if b then m else n)
  Keeps-if true m n k l = k
  Keeps-if false m n k l = l

module _ {A B : Type 0} {S E : Type 0} {I : S → Type 0} where
  Keeps-elim :
      (o : Option B) (m : Action S E A) (f : B → Action S E A)
      → Keeps I m
      → ((b : B) → Keeps I (f b))
      → Keeps I (elim o [ none ↦ m | some b ↦ f b ])
  Keeps-elim none m f k l = k
  Keeps-elim (some b) m f k l = l b

module _ {P : Platform} (D : IsDocumented P) (T : TreeInvariant P D) (W : Wire P) where
  abbrev HandlerIntact : {A : Type 0} → Handler P A → Type 0
  HandlerIntact m = Keeps (Intact T) m

  ruleset handler_rules = (
    keeps_rules, Keeps-if, get_zk_client_local-Intact, get_proof_setup_local-Intact,
    get_verifiable_encryption-Intact, encryption_key-Intact,
  )

  extracted :
      (w : World P) (proof : P.Proof) → HandlerIntact (extract_verified_proof_output W w proof)
  unfolding extract_verified_proof_output
  extracted w proof = search handler_rules depth 20

  decrypted :
      (w : World P) (blob : W.Blob) (key : Bytes) → HandlerIntact (verify_decrypt_blob W w blob key)
  unfolding verify_decrypt_blob
  decrypted w blob key = search (handler_rules, extracted) depth 20

  encrypted : (w : World P) (blobs : List W.Blob) → HandlerIntact (encrypt_blobs W w blobs)
  unfolding encrypt_blobs
  encrypted w [] = search keeps_rules
  encrypted w (blob ∷ blobs) =
      Keeps-bind _ _ (Keeps-map_fail _ _ (get_verifiable_encryption-Intact P D T w _)) λ found.
        Keeps-elim found _ _ (search keeps_rules) (λ proof.
          Keeps-bind _ _ (Keeps-lift_with _ _) (λ encrypted_data.
            Keeps-bind _ _ (Keeps-lift_with _ _)
              (λ encrypted_blob. Keeps-bind _ _ (encrypted w blobs) (λ rest. Keeps-pure _))))

  replaced :
      (body_json : Value) (rest : Values) (o : Option (List W.Blob))
      → HandlerIntact (replace_blobs W body_json rest o)
  unfolding replace_blobs
  replaced body_json rest none = search keeps_rules
  replaced body_json rest (some blobs) = search keeps_rules depth 12

  params_submitted : (w : World P) (v params : Value) → HandlerIntact (submit_params W w v params)
  unfolding submit_params
  params_submitted w v null = search keeps_rules
  params_submitted w v (boolean b) = search keeps_rules
  params_submitted w v (number n) = search keeps_rules
  params_submitted w v (string s) = search keeps_rules
  params_submitted w v (object ms) = search keeps_rules
  params_submitted w v (array nil) = search keeps_rules
  params_submitted w v (array (cons blobs rest)) =
      search (keeps_rules, encrypted, replaced) depth 20

  submitted : (w : World P) (v : Value) (o : Option Value) → HandlerIntact (submit W w v o)
  unfolding submit
  submitted w v none = search keeps_rules
  submitted w v (some params) = params_submitted w v params

  intercepted :
      (w : World P) (v : Value) (method : Option String) → HandlerIntact (intercept W w v method)
  unfolding intercept
  intercepted w v none = search keeps_rules
  intercepted w v (some method) = search (handler_rules, submitted) depth 12

  forwarded : (req : Request) (o : Option Value) → HandlerIntact (forward W req o)
  unfolding forward
  forwarded req none = search keeps_rules
  forwarded req (some v) = search keeps_rules depth 12

  inbound_handler-Intact : (w : World P) (req : Request) → HandlerIntact (inbound_handler W w req)
  unfolding inbound_handler
  inbound_handler-Intact w req = search (keeps_rules, intercepted, forwarded) depth 20

  value_decrypted :
      (w : World P) (key : Bytes) (v : Value) → HandlerIntact (decrypt_value W w key v)
  unfolding decrypt_value
  value_decrypted w key v = search (keeps_rules, decrypted) depth 20

  values_decrypted :
      (w : World P) (key : Bytes) (vs : Values) → HandlerIntact (decrypt_values W w key vs)
  unfolding decrypt_values
  values_decrypted w key nil = search keeps_rules
  values_decrypted w key (cons v vs) =
      Keeps-bind _ _ (value_decrypted w key v)
        (λ plaintext. Keeps-bind _ _ (values_decrypted w key vs) (λ rest. Keeps-pure _))

  array_decrypted :
      (w : World P) (key : Bytes) (v : Value) → HandlerIntact (decrypt_array W w key v)
  unfolding decrypt_array
  array_decrypted w key (array vs) = search (keeps_rules, values_decrypted) depth 12
  array_decrypted w key null = search keeps_rules
  array_decrypted w key (boolean b) = search keeps_rules
  array_decrypted w key (number n) = search keeps_rules
  array_decrypted w key (string s) = search keeps_rules
  array_decrypted w key (object ms) = search keeps_rules

  result_renewed :
      (w : World P) (key : Bytes) (method : String) (v : Value)
      → HandlerIntact (new_result W w key method v)
  unfolding new_result
  result_renewed w key method v = search (handler_rules, value_decrypted, array_decrypted) depth 12

  response_tried :
      (w : World P) (method : String) (v : Value) → HandlerIntact (try_mutate_response W w method v)
  unfolding try_mutate_response
  response_tried w method v = search (handler_rules, result_renewed) depth 20

  returned :
      (resp : Response) (tried : Result String Value)
      → HandlerIntact (mutated_or_original W resp tried)
  unfolding mutated_or_original
  returned resp (ok v) = search keeps_rules depth 12
  returned resp (err e) = search keeps_rules

  outbound_handler-Intact :
      (w : World P) (resp : Response) (method : String)
      → HandlerIntact (outbound_handler W w resp method)
  unfolding outbound_handler
  outbound_handler-Intact w resp method = search (handler_rules, response_tried, returned) depth 24

  upstream_answered :
      (w : World P) (req : Request) (method : String) (reply : Result String Response)
      → HandlerIntact (answer_upstream W w req method reply)
  unfolding answer_upstream
  upstream_answered w req method (err e) = search keeps_rules
  upstream_answered w req method (ok resp) = search (keeps_rules, outbound_handler-Intact) depth 12

  inbound_answered :
      (w : World P) (upstream : Request → Result String Response)
      (result : Result String (String × Option Request))
      → HandlerIntact (answer_inbound W w upstream result)
  unfolding answer_inbound
  inbound_answered w upstream (err e) = search keeps_rules
  inbound_answered w upstream (ok (method, none)) = search keeps_rules
  inbound_answered w upstream (ok (method, some req)) = search (keeps_rules, upstream_answered)

  authorized_handled :
      (w : World P) (upstream : Request → Result String Response) (req : Request)
      → HandlerIntact (handle_authorized W w upstream req)
  unfolding handle_authorized
  authorized_handled w upstream req =
      search (keeps_rules, inbound_handler-Intact, inbound_answered) depth 12

  -- A property of the trees that the methods keep is kept by whatever the service does for a request.
  pub serve-Intact :
      (w : World P) (da_node_socket : String) (upstream : Request → Result String Response)
      (req : Request)
      → HandlerIntact (serve W w da_node_socket upstream req)
  unfolding serve
  serve-Intact w da_node_socket upstream req =
      elim (Bool-cases (W.parses_as_uri (redirected W w da_node_socket req).uri)) [
        | inr unparsed ↦ rw unparsed (record { at = λ r h. h })
        | inl parsed ↦ elim (Bool-cases (is_authorized (get_header "authorization" req.headers))) [
          | inl bearer ↦
              rw (parsed, bearer)
                (authorized_handled w upstream (redirected W w da_node_socket req))
          | inr denied ↦ rw (parsed, denied) (Keeps-pure _)
        ]
      ]

module _ {P : Platform} (D : IsDocumented P) (W : Wire P) where
  -- Whatever a client sends and whatever the upstream node replies, the service function keeps the
  -- trees consistent.
  pub serve-IsConsistent :
      (w : World P) (da_node_socket : String) (upstream : Request → Result String Response)
      (req : Request) (r : Runner P)
      → IsConsistent P D r.queue_db r.finished_db
      → let t = (serve W w da_node_socket upstream req r).1 in
        IsConsistent P D t.queue_db t.finished_db
  serve-IsConsistent w da_node_socket upstream req r h =
      ((serve-Intact D (consistency P D) W w da_node_socket upstream req).at r
        (record { trees = h })).trees
