-- ===== src/Proxy/Outbound/GetAll.antt =====
-- The replies to `blob.GetAll` in `outbound_handler` of service/src/main.rs.
use pda_proxy.Base.{
  ◌≡◌, refl, ◌≢◌, inl, inr, some, List, [], ◌∷◌, String, Bytes, ok, ◌==◌, ==_iff, Bool-cases,
}
use pda_proxy.Zkvm.Primitives.{IsDocumented}
use pda_proxy.Service.Action.{done, ◌>>=◌}
use pda_proxy.Service.Platform.{Platform, World}
use pda_proxy.Service.Runner.State.{Runner}
use pda_proxy.Service.Runner.Setup.{Setup}
use pda_proxy.Service.Runner.Proving.{encryption_key}
use pda_proxy.Proxy.Json.{Value, array, Values, nil, cons, list_values, get_field, set_field}
use pda_proxy.Proxy.Wire.{Wire, Response}
use pda_proxy.Proxy.Decrypt.RoundTrip.{Attests, verify_decrypt_blob-main}
use pda_proxy.Proxy.Outbound.{
  decrypt_value, decrypt_values, decrypt_array, new_result, try_mutate_response,
  mutated_or_original, outbound_handler,
}
use pda_proxy.Proxy.Outbound.Replies.{with_body}

module _ {P : Platform} (W : Wire P) where
  -- The value is a blob with a verified proof of the guest's run on a plaintext under the key, and
  -- `plain` is the value of that blob with the plaintext.
  abbrev pub Decrypts : Bytes → P.LocalClient → Setup P → Value → Value → Type 0
  Decrypts key client setup value plain =
      (blob : W.Blob) × (proof : P.Proof) × (nonce : Bytes) × (plaintext : Bytes)
      × (W.blob_from_value value ≡ ok blob)
      × (W.proof_from_bytes (W.data_of blob) ≡ ok proof)
      × Attests P proof key nonce plaintext
      × (W.verify client proof setup.vk ≡ ok tt)
      × (W.blob_to_value (W.with_data blob plaintext) ≡ ok plain)

  abbrev pub AllDecrypted : Bytes → P.LocalClient → Setup P → Values → List Value → Type 0
  AllDecrypted key client setup nil [] = Unit
  AllDecrypted key client setup nil (plain ∷ plains) = ⊥
  AllDecrypted key client setup (cons value values) [] = ⊥
  AllDecrypted key client setup (cons value values) (plain ∷ plains) =
      Decrypts key client setup value plain × AllDecrypted key client setup values plains

  module _ (d : IsDocumented P.primitives) (client : P.LocalClient) (setup : Setup P) where
    decrypt_value-Decrypts :
        (w : World P) (key : Bytes) (value plain : Value) (r : Runner P)
        → r.zk_client_handle_local ≡ some client
        → r.chacha_setup ≡ some setup
        → Decrypts key client setup value plain
        → decrypt_value W w key value r ≡ (done plain, r)
    unfolding decrypt_value ◌>>=◌
    decrypt_value-Decrypts w key value plain r ready cached
          (blob, proof, nonce, plaintext, is_blob, decoded, attested_run, verified, written) =
        rw (
          is_blob,
          verify_decrypt_blob-main d W w blob proof key nonce plaintext client setup r attested_run
              decoded ready cached verified,
          written,
        )

    decrypt_values-AllDecrypted :
        (w : World P) (key : Bytes) (values : Values) (plains : List Value) (r : Runner P)
        → r.zk_client_handle_local ≡ some client
        → r.chacha_setup ≡ some setup
        → AllDecrypted key client setup values plains
        → decrypt_values W w key values r ≡ (done plains, r)
    unfolding decrypt_values ◌>>=◌
    decrypt_values-AllDecrypted w key nil [] r ready cached h = refl
    decrypt_values-AllDecrypted w key nil (plain ∷ plains) r ready cached h = absurd h
    decrypt_values-AllDecrypted w key (cons value values) [] r ready cached h = absurd h
    decrypt_values-AllDecrypted w key (cons value values) (plain ∷ plains) r ready cached
          (one, others) =
        rw (
          decrypt_value-Decrypts w key value plain r ready cached one,
          decrypt_values-AllDecrypted w key values plains r ready cached others,
        )

  -- A reply to `blob.GetAll` whose result is an array of blobs that each carry a verified proof of
  -- the guest's run on a plaintext, under the key of the environment, is returned with the plaintexts
  -- in those blobs, in their order.
  pub outbound_handler-AllDecrypted :
      (d : IsDocumented P.primitives) (w : World P) (resp : Response) (r : Runner P)
      (body json : Bytes) (v : Value) (values : Values) (plains : List Value) (key_text : String)
      (key : Bytes) (client : P.LocalClient) (setup : Setup P)
      → resp.status ≢ 401
      → resp.body ≡ ok body
      → W.from_slice body ≡ ok v
      → get_field "result" v ≡ some (array values)
      → w.var "ENCRYPTION_KEY" ≡ some key_text
      → P.from_hex 32 key_text ≡ some key
      → r.zk_client_handle_local ≡ some client
      → r.chacha_setup ≡ some setup
      → AllDecrypted key client setup values plains
      → W.to_vec (set_field "result" (array (list_values plains)) v) ≡ ok json
      → outbound_handler W w resp "blob.GetAll" r ≡ (done (with_body resp json), r)
  unfolding outbound_handler try_mutate_response new_result decrypt_array mutated_or_original
      encryption_key ◌>>=◌
  outbound_handler-AllDecrypted d w resp r body json v values plains key_text key client setup
        not_401 collected parsed result set is_key ready cached all sent =
      elim (Bool-cases (resp.status == 401)) [
        | inl same ↦ absurd (not_401 ((==_iff resp.status 401).0 same))
        | inr differ ↦
            let decrypted =
              decrypt_values-AllDecrypted d client setup w key values plains r ready cached all in
            rw (collected, differ, parsed, result, set, is_key, decrypted, sent)
      ]
