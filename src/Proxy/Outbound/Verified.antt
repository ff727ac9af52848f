-- ===== src/Proxy/Outbound/Verified.antt =====
-- What `outbound_handler` of service/src/main.rs may put in the place of a blob that was read.
use pda_proxy.Base.{
  ◌≡◌, ◌∙◌, sym, ap, ◌⊎◌, inl, inr, some, String, Bytes, ok, ◌==◌, ==_iff, Bool-cases, Result-cases,
  Option-cases,
}
use pda_proxy.Zkvm.Primitives.{chacha}
use pda_proxy.Zkvm.Output.{ZkvmOutput, from_bytes}
use pda_proxy.Service.Action.{done, attempt, ◌>>=◌}
use pda_proxy.Service.Action.Outcomes.{run-cases}
use pda_proxy.Service.Platform.{Platform, World}
use pda_proxy.Service.Runner.State.{Runner}
use pda_proxy.Service.Runner.Setup.{
  Setup, or_build_local, get_zk_client_local, get_or_try_init, get_proof_setup_local,
}
use pda_proxy.Service.Runner.Proving.{encryption_key}
use pda_proxy.Proxy.Json.{Value, get_field, set_field}
use pda_proxy.Proxy.Wire.{Wire, Response, bad_auth_response}
use pda_proxy.Proxy.Decrypt.{extract_verified_proof_output, verify_decrypt_blob}
use pda_proxy.Proxy.Outbound.{
  decrypt_value, new_result, try_mutate_response, mutated_or_original, outbound_handler,
}
use pda_proxy.Proxy.Outbound.Replies.{with_body}

module _ {P : Platform} (W : Wire P) (client : P.LocalClient) (setup : Setup P) where
  -- `plain` is `blob` with its data decrypted: the data is a proof that verifies, and the cipher text
  -- and the nonce are those of its public values.
  abbrev pub Opens : Bytes → W.Blob → W.Blob → Type 0
  Opens key blob plain =
      (proof : P.Proof) × (output : ZkvmOutput) × (W.proof_from_bytes (W.data_of blob) ≡ ok proof)
      × (W.verify client proof setup.vk ≡ ok tt)
      × (from_bytes (P.public_values proof) ≡ ok output)
      × (plain ≡ W.with_data blob (chacha P.primitives key output.nonce output.ciphertext))

  -- `value` has a blob, and `result` the one that it opens to.
  abbrev pub OpensValue : Bytes → Value → Value → Type 0
  OpensValue key value result =
      (blob : W.Blob) × (plain : W.Blob) × (W.blob_from_value value ≡ ok blob)
      × Opens key blob plain
      × (W.blob_to_value plain ≡ ok result)

  -- `v'` is `v` with its result opened, under the key of the environment.
  abbrev pub OpensReply : World P → Value → Value → Type 0
  OpensReply w v v' =
      (key_text : String) × (key : Bytes) × (value : Value) × (result : Value) × (w.var
          "ENCRYPTION_KEY"
        ≡ some key_text)
      × (P.from_hex 32 key_text ≡ some key)
      × (get_field "result" v ≡ some value)
      × OpensValue key value result
      × (v' ≡ set_field "result" result v)

  -- The response with the opened reply as its body.
  abbrev pub IsOpened : World P → Response → Response → Type 0
  IsOpened w resp resp' =
      (body : Bytes) × (v : Value) × (v' : Value) × (json : Bytes) × (resp.body ≡ ok body)
      × (W.from_slice body ≡ ok v)
      × OpensReply w v v'
      × (W.to_vec v' ≡ ok json)
      × (resp' ≡ with_body resp json)

  module _ (w : World P) (r : Runner P) (ready : r.zk_client_handle_local ≡ some client)
      (cached : r.chacha_setup ≡ some setup) where
    blob_opened :
        (blob plain : W.Blob) (key : Bytes) (r' : Runner P)
        → verify_decrypt_blob W w blob key r ≡ (done plain, r')
        → Opens key blob plain
    unfolding verify_decrypt_blob extract_verified_proof_output get_zk_client_local or_build_local
        get_proof_setup_local get_or_try_init ◌>>=◌
    blob_opened blob plain key r' h = elim (Result-cases (W.proof_from_bytes (W.data_of blob))) [
      | inr (e, f) ↦ cc (rw f at h)
      | inl (proof, f) ↦ elim (Result-cases (W.verify client proof setup.vk)) [
        | inr (e, g) ↦ cc (rw (f, ready, cached, g) at h)
        | inl (u, g) ↦ elim (Result-cases (from_bytes (P.public_values proof))) [
          | inr (e, k) ↦ cc (rw (f, ready, cached, g, k) at h)
          | inl (output, k) ↦ (proof, output, f, g, k, sym (cc (rw (f, ready, cached, g, k) at h)))
        ]
      ]
    ]

    value_opened :
        (value result : Value) (key : Bytes) (r' : Runner P)
        → decrypt_value W w key value r ≡ (done result, r')
        → OpensValue key value result
    unfolding decrypt_value ◌>>=◌
    value_opened value result key r' h = elim (Result-cases (W.blob_from_value value)) [
      | inr (e, f) ↦ cc (rw f at h)
      | inl (blob, f) ↦ elim (run-cases (verify_decrypt_blob W w blob key r)) [
        | inr (inl (e, s, g)) ↦ cc (rw (f, g) at h)
        | inr (inr (m, s, g)) ↦ cc (rw (f, g) at h)
        | inl (plain, s, g) ↦ elim (Result-cases (W.blob_to_value plain)) [
          | inr (e, k) ↦ cc (rw (f, g, k) at h)
          | inl (out, k) ↦
              let same : out ≡ result = cc (rw (f, g, k) at h) in
              (blob, plain, f, blob_opened blob plain key s g, k ∙ ap ok same)
        ]
      ]
    ]

    reply_opened :
        (v v' : Value) (r' : Runner P)
        → try_mutate_response W w "blob.Get" v r ≡ (done v', r')
        → OpensReply w v v'
    unfolding try_mutate_response new_result encryption_key ◌>>=◌
    reply_opened v v' r' h = elim (Option-cases (get_field "result" v)) [
      | inl f ↦ cc (rw f at h)
      | inr (value, f) ↦ elim (Option-cases (w.var "ENCRYPTION_KEY")) [
        | inl g ↦ cc (rw (f, g) at h)
        | inr (key_text, g) ↦ elim (Option-cases (P.from_hex 32 key_text)) [
          | inl k ↦ cc (rw (f, g, k) at h)
          | inr (key, k) ↦ elim (run-cases (decrypt_value W w key value r)) [
            | inr (inl (e, s, l)) ↦ cc (rw (f, g, k, l) at h)
            | inr (inr (m, s, l)) ↦ cc (rw (f, g, k, l) at h)
            | inl (result, s, l) ↦
                let same : v' ≡ set_field "result" result v = cc (rw (f, g, k, l) at h) in
                (key_text, key, value, result, g, k, f, value_opened value result key s l, same)
          ]
        ]
      ]
    ]

    tried-IsOpened :
        (resp resp' : Response) (body : Bytes) (v : Value) (r' : Runner P)
        → resp.body ≡ ok body
        → W.from_slice body ≡ ok v
        → (attempt (try_mutate_response W w "blob.Get" v)
              >>= mutated_or_original W (record resp { body = ok body }))
            r
          ≡ (done resp', r')
        → (resp' ≡ resp) ⊎ IsOpened w resp resp'
    unfolding mutated_or_original ◌>>=◌
    tried-IsOpened resp resp' body v r' collected parsed h =
        elim (run-cases (try_mutate_response W w "blob.Get" v r)) [
          | inr (inr (m, s, e)) ↦ cc (rw e at h)
          | inr (inl (text, s, e)) ↦
              let same : resp' ≡ record resp { body = ok body } = cc (rw e at h) in
              inl (same ∙ cc collected)
          | inl (v', s, e) ↦ elim (Result-cases (W.to_vec v')) [
            | inr (text, f) ↦ cc (rw (e, f) at h)
            | inl (json, f) ↦ inr (
              body,
              v,
              v',
              json,
              collected,
              parsed,
              reply_opened v v' s e,
              f,
              cc (rw (e, f) at h),
            )
          ]
        ]

  -- Whatever upstream answers to a `blob.Get`, where the local client is built and the setup is
  -- cached: a response that is returned is the one for missing authorization, and upstream's was 401,
  -- or it is upstream's unchanged, or upstream's result was a blob whose data is a proof that verifies
  -- with this client and setup, and what is returned has in its place the blob with, as its data, the
  -- cipher text of the proof's public values decrypted under the key of the environment and their
  -- nonce, and the rest of the reply.
  pub outbound_handler-IsOpened :
      (w : World P) (resp resp' : Response) (r r' : Runner P)
      → r.zk_client_handle_local ≡ some client
      → r.chacha_setup ≡ some setup
      → outbound_handler W w resp "blob.Get" r ≡ (done resp', r')
      → ((resp.status ≡ 401) × (resp' ≡ bad_auth_response W))
        ⊎ (resp' ≡ resp)
        ⊎ IsOpened w resp resp'
  unfolding outbound_handler ◌>>=◌
  outbound_handler-IsOpened w resp resp' r r' ready cached h = elim (Result-cases resp.body) [
    | inr (e, f) ↦ cc (rw f at h)
    | inl (body, f) ↦ elim (Bool-cases (resp.status == 401)) [
      | inl same ↦ inl ((==_iff resp.status 401).0 same, cc (rw (f, same) at h))
      | inr differ ↦ elim (Result-cases (W.from_slice body)) [
        | inr (e, g) ↦ cc (rw (f, differ, g) at h)
        | inl (v, g) ↦ inr (
            tried-IsOpened w r ready cached resp resp' body v r' f g
              (unfold ◌>>=◌ in rw (f, differ, g) at h))
      ]
    ]
  ]
