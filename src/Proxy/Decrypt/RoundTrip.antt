-- ===== src/Proxy/Decrypt/RoundTrip.antt =====
-- A plaintext through the prover and back through `verify_decrypt_blob`.
use pda_proxy.Base.{◌≡◌, some, Bytes, length, ok}
use pda_proxy.Zkvm.Primitives.{key_len, nonce_len, IsDocumented, chacha-chacha}
use pda_proxy.Zkvm.Program.{main, from_bytes-main}
use pda_proxy.Service.Action.{done, ◌>>=◌}
use pda_proxy.Service.Platform.{Platform, World}
use pda_proxy.Service.Runner.State.{Runner}
use pda_proxy.Service.Runner.Setup.{
  Setup, or_build_local, get_zk_client_local, get_or_try_init, get_proof_setup_local,
}
use pda_proxy.Proxy.Wire.{Wire}
use pda_proxy.Proxy.Decrypt.{extract_verified_proof_output, verify_decrypt_blob}

-- `proof` attests a run of the guest on the given inputs.
abbrev pub Attests : (P : Platform) → P.Proof → Bytes → Bytes → Bytes → Type 0
Attests P proof key nonce plaintext =
    (length key ≡ key_len)
    × (length nonce ≡ nonce_len)
    × (main P.primitives key nonce plaintext ≡ ok (P.public_values proof))

module _ {P : Platform} (D : IsDocumented P.primitives) (W : Wire P) where
  -- A blob that carries a verified proof of the guest's run on a plaintext under a key is decrypted,
  -- with that key, to the blob with the plaintext as its data; the service stays as it is.
  pub verify_decrypt_blob-main :
      (w : World P) (blob : W.Blob) (proof : P.Proof) (key nonce plaintext : Bytes)
      (client : P.LocalClient) (setup : Setup P) (r : Runner P)
      → Attests P proof key nonce plaintext
      → W.proof_from_bytes (W.data_of blob) ≡ ok proof
      → r.zk_client_handle_local ≡ some client
      → r.chacha_setup ≡ some setup
      → W.verify client proof setup.vk ≡ ok tt
      → verify_decrypt_blob W w blob key r ≡ (done (W.with_data blob plaintext), r)
  unfolding verify_decrypt_blob extract_verified_proof_output get_zk_client_local or_build_local
      get_proof_setup_local get_or_try_init ◌>>=◌
  verify_decrypt_blob-main w blob proof key nonce plaintext client setup r (hk, hn, ran) decoded
        ready cached verified =
      rw (
        decoded,
        ready,
        cached,
        verified,
        rw ran at (from_bytes-main P.primitives D key nonce plaintext hk hn),
        chacha-chacha P.primitives D key nonce plaintext,
      )
