-- ===== src/Proxy/Inbound/Privacy.antt =====
-- The blobs in what `inbound_handler` of service/src/main.rs forwards.
use pda_proxy.Base.{
  ◌≡◌, ap, ◌∙◌, sym, inl, inr, none, some, String, List, [], ◌∷◌, Bytes, ok, Result-cases,
}
use mathlib.Core.Option.{some-injective}
use pda_proxy.Service.Action.{done, ◌>>=◌}
use pda_proxy.Service.Action.Outcomes.{run-cases, state-eq}
use pda_proxy.Service.Platform.{Platform, World, IsDocumented}
use pda_proxy.Service.Runner.State.{Runner}
use pda_proxy.Service.Runner.Requests.{get_verifiable_encryption}
use pda_proxy.Service.Runner.Answers.{Finished, get_verifiable_encryption-answered}
use pda_proxy.Proxy.Json.{Value, array, Values, cons, get_field, set_field, method_of}
use pda_proxy.Proxy.Wire.{Wire, Request, remove_header}
use pda_proxy.Proxy.Inbound.{job_of, encrypt_blobs, submit_params, intercept, inbound_handler}

module _ {P : Platform} (D : IsDocumented P) (W : Wire P) where
  -- The key of the blob's job: its anchor is the digest of all of the blob's data.
  abbrev pub IsKeyOf : W.Blob → Bytes → Type 0
  IsKeyOf blob key =
      P.serialize_anchor (record { data_bytes = P.primitives.sha256 (W.data_of blob) }) ≡ ok key

  anchored-IsKeyOf :
      (blob : W.Blob) (key : Bytes)
      → P.serialize_anchor (job_of W blob).anchor ≡ ok key
      → IsKeyOf blob key
  unfolding job_of
  anchored-IsKeyOf blob key h = h

  -- `b` carries the proof that the finished tree holds under the digest of the data of `blob`, in the
  -- same namespace.
  abbrev pub Encrypts : Runner P → W.Blob → W.Blob → Type 0
  Encrypts r blob b =
      (key : Bytes) × (proof : P.Proof) × (proof_bytes : Bytes) × IsKeyOf blob key
      × Finished P D key r proof
      × (W.proof_to_bytes proof ≡ ok proof_bytes)
      × (W.new_blob (W.namespace blob) proof_bytes ≡ ok b)

  abbrev pub AllEncrypted : Runner P → List W.Blob → List W.Blob → Type 0
  AllEncrypted r [] [] = Unit
  AllEncrypted r [] (b ∷ bs) = ⊥
  AllEncrypted r (blob ∷ blobs) [] = ⊥
  AllEncrypted r (blob ∷ blobs) (b ∷ bs) = Encrypts r blob b × AllEncrypted r blobs bs

  found_proof :
      (w : World P) (blob : W.Blob) (proof : P.Proof) (r s : Runner P)
      → get_verifiable_encryption P w (job_of W blob) r ≡ (done (some proof), s)
      → (key : Bytes) × (P.serialize_anchor (job_of W blob).anchor ≡ ok key)
        × Finished P D key r proof
        × (s ≡ r)
  found_proof w blob proof r s h =
      let (key, e, a) =
        get_verifiable_encryption-answered P D w (job_of W blob) (some proof) r s h in
      elim a [
        | inl (p, back, found, same) ↦ (key, e, rw (some-injective proof p back) found, same)
        | inr (back, _, _) ↦ cc back
      ]

  -- If every blob of a submission has been replaced, each by the proof of its own key, then nothing
  -- in the service has changed.
  encrypt_blobs-AllEncrypted :
      (w : World P) (blobs bs : List W.Blob) (r r' : Runner P)
      → encrypt_blobs W w blobs r ≡ (done (some bs), r')
      → AllEncrypted r blobs bs × (r' ≡ r)
  unfolding encrypt_blobs ◌>>=◌
  encrypt_blobs-AllEncrypted w [] [] r r' h = (tt, cc)
  encrypt_blobs-AllEncrypted w [] (b ∷ bs) r r' h = cc
  encrypt_blobs-AllEncrypted w (blob ∷ blobs) bs r r' h =
      elim (run-cases (get_verifiable_encryption P w (job_of W blob) r)) [
        | inr (inl (e, s, f)) ↦ cc (rw f at h)
        | inr (inr (m, s, f)) ↦ cc (rw f at h)
        | inl (none, s, f) ↦ cc (rw f at h)
        | inl (some proof, s, f) ↦
            let (key, anchored, found, same) = found_proof w blob proof r s f in
            elim (Result-cases (W.proof_to_bytes proof)) [
              | inr (e, g) ↦ cc (rw (f, g) at h)
              | inl (proof_bytes, g) ↦
                  elim (Result-cases (W.new_blob (W.namespace blob) proof_bytes)) [
                    | inr (e, k) ↦ cc (rw (f, g, k) at h)
                    | inl (b, k) ↦ elim (run-cases (encrypt_blobs W w blobs s)) [
                      | inr (inl (e, t, l)) ↦ cc (rw (f, g, k, l) at h)
                      | inr (inr (m, t, l)) ↦ cc (rw (f, g, k, l) at h)
                      | inl (none, t, l) ↦ cc (rw (f, g, k, l) at h)
                      | inl (some bs', t, l) ↦
                          let (all, unchanged) = encrypt_blobs-AllEncrypted w blobs bs' s t l in
                          let same_list : bs ≡ b ∷ bs' = cc (rw (f, g, k, l) at h) in
                          rw same_list (
                            (
                              (
                                key,
                                proof,
                                proof_bytes,
                                anchored-IsKeyOf blob key anchored,
                                found,
                                g,
                                k,
                              ),
                              rw same at all,
                            ),
                            state-eq (rw (f, g, k, l) at h) ∙ unchanged ∙ same,
                          )
                    ]
                  ]
            ]
      ]

  -- A submission that is forwarded carries, in place of its blobs, blobs that each hold the proof
  -- that the finished tree has under the digest of that blob's data, in the blob's own namespace; the request's other parts stay, but for the length header.
  pub inbound_handler-AllEncrypted :
      (w : World P) (req forwarded : Request) (method : String) (r r' : Runner P) (body : Bytes)
      (v blobs_value : Value) (rest : Values)
      → req.body ≡ ok body
      → W.from_slice body ≡ ok v
      → method_of v ≡ some "blob.Submit"
      → get_field "params" v ≡ some (array (cons blobs_value rest))
      → inbound_handler W w req r ≡ (done (method, some forwarded), r')
      → (blobs : List W.Blob) × (bs : List W.Blob) × (value : Value) × (W.blobs_from_value
            blobs_value
          ≡ ok blobs)
        × AllEncrypted r blobs bs
        × (W.blobs_to_value bs ≡ ok value)
        × (W.to_vec (set_field "params" (array (cons value rest)) v) ≡ forwarded.body)
        × (forwarded.headers ≡ remove_header "content-length" req.headers)
        × (r' ≡ r)
  unfolding inbound_handler intercept submit_params ◌>>=◌
  inbound_handler-AllEncrypted w req forwarded method r r' body v blobs_value rest collected parsed
        is_submit params h =
      elim (Result-cases (W.blobs_from_value blobs_value)) [
        | inr (e, f) ↦ cc (rw (collected, parsed, is_submit, params, f) at h)
        | inl (blobs, f) ↦ elim (run-cases (encrypt_blobs W w blobs r)) [
          | inr (inl (e, s, g)) ↦ cc (rw (collected, parsed, is_submit, params, f, g) at h)
          | inr (inr (m, s, g)) ↦ cc (rw (collected, parsed, is_submit, params, f, g) at h)
          | inl (none, s, g) ↦ cc (rw (collected, parsed, is_submit, params, f, g) at h)
          | inl (some bs, s, g) ↦ elim (Result-cases (W.blobs_to_value bs)) [
            | inr (e, k) ↦ cc (rw (collected, parsed, is_submit, params, f, g, k) at h)
            | inl (value, k) ↦
                elim (Result-cases (W.to_vec (set_field "params" (array (cons value rest)) v))) [
                  | inr (e, l) ↦ cc (rw (collected, parsed, is_submit, params, f, g, k, l) at h)
                  | inl (json, l) ↦
                      let (all, unchanged) = encrypt_blobs-AllEncrypted w blobs bs r s g in
                      let sent : forwarded ≡ record req {
                        headers = remove_header "content-length" req.headers;
                        body = ok json;
                      } =
                        cc (rw (collected, parsed, is_submit, params, f, g, k, l) at h) in
                      (
                        blobs,
                        bs,
                        value,
                        f,
                        all,
                        k,
                        l ∙ sym (ap (λ (q : Request). q.body) sent),
                        ap (λ (q : Request). q.headers) sent,
                        state-eq (rw (collected, parsed, is_submit, params, f, g, k, l) at h)
                            ∙ unchanged,
                      )
                ]
          ]
        ]
      ]
