-- ===== src/Proxy/Outbound/Replies.antt =====
-- What `outbound_handler` gives back to the client.
use pda_proxy.Base.{◌≡◌, ◌≢◌, inl, inr, some, String, Bytes, ok, ◌==◌, ==_iff, Bool-cases}
use pda_proxy.Zkvm.Primitives.{IsDocumented}
use pda_proxy.Service.Action.{done, ◌>>=◌}
use pda_proxy.Service.Platform.{Platform, World}
use pda_proxy.Service.Runner.State.{Runner}
use pda_proxy.Service.Runner.Setup.{Setup}
use pda_proxy.Service.Runner.Proving.{encryption_key}
use pda_proxy.Proxy.Json.{Value, get_field, set_field}
use pda_proxy.Proxy.Wire.{Wire, Response, remove_header}
use pda_proxy.Proxy.Decrypt.RoundTrip.{Attests, verify_decrypt_blob-main}
use pda_proxy.Proxy.Outbound.{
  decrypt_value, new_result, try_mutate_response, mutated_or_original, outbound_handler,
}

-- The response with another body.
abbrev pub with_body : Response → Bytes → Response
with_body resp json = record resp {
  headers = remove_header "content-length" resp.headers;
  body = ok json;
}

module _ {P : Platform} (W : Wire P) where
  -- A reply to `blob.Get` that is not 401 and whose result is a blob that carries a verified proof
  -- of the guest's run on a plaintext, under the key of the environment, is returned with the
  -- plaintext in that blob, where the local client is built, the setup is cached and the reply can
  -- be written.
  pub outbound_handler-decrypts :
      (d : IsDocumented P.primitives) (w : World P) (resp : Response) (r : Runner P)
      (body json : Bytes) (v value plain : Value) (blob : W.Blob) (proof : P.Proof)
      (key_text : String) (key nonce plaintext : Bytes) (client : P.LocalClient) (setup : Setup P)
      → resp.status ≢ 401
      → resp.body ≡ ok body
      → W.from_slice body ≡ ok v
      → get_field "result" v ≡ some value
      → W.blob_from_value value ≡ ok blob
      → W.proof_from_bytes (W.data_of blob) ≡ ok proof
      → Attests P proof key nonce plaintext
      → w.var "ENCRYPTION_KEY" ≡ some key_text
      → P.from_hex 32 key_text ≡ some key
      → r.zk_client_handle_local ≡ some client
      → r.chacha_setup ≡ some setup
      → W.verify client proof setup.vk ≡ ok tt
      → W.blob_to_value (W.with_data blob plaintext) ≡ ok plain
      → W.to_vec (set_field "result" plain v) ≡ ok json
      → outbound_handler W w resp "blob.Get" r ≡ (done (with_body resp json), r)
  unfolding outbound_handler try_mutate_response new_result decrypt_value mutated_or_original
      encryption_key ◌>>=◌
  outbound_handler-decrypts d w resp r body json v value plain blob proof key_text key nonce
        plaintext client setup not_401 collected parsed result is_blob decoded attested_run set
        is_key ready cached verified written sent =
      elim (Bool-cases (resp.status == 401)) [
        | inl same ↦ absurd (not_401 ((==_iff resp.status 401).0 same))
        | inr differ ↦
            let decrypted =
              verify_decrypt_blob-main d W w blob proof key nonce plaintext client setup r
                attested_run decoded ready cached verified in
            rw (collected, differ, parsed, result, set, is_key, is_blob, decrypted, written, sent)
      ]
