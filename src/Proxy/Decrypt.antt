-- ===== src/Proxy/Decrypt.antt =====
-- `verify_decrypt_blob` and `extract_verified_proof_output` of service/src/main.rs.
pub mod RoundTrip
use pda_proxy.Base.{String, Bytes, Result, ok, err}
use pda_proxy.Zkvm.Primitives.{chacha}
use pda_proxy.Zkvm.Output.{ZkvmOutput, from_bytes}
use pda_proxy.Service.Job.{error_display}
use pda_proxy.Service.Action.{Action, ◌>>=◌, ◌>>◌, pure, lift_with, map_fail}
use pda_proxy.Service.Platform.{Platform, World}
use pda_proxy.Service.Runner.State.{Runner}
use pda_proxy.Service.Runner.Setup.{get_program_id, get_zk_client_local, get_proof_setup_local}
use pda_proxy.Proxy.Wire.{Wire}

-- A handler's errors are `anyhow` errors, as text.
abbrev pub Handler : Platform → Type 0 → Type 0
Handler P A = Action (Runner P) String A

-- `?` on the result of a library.
abbrev pub anyhow : {S A : Type 0} → Result String A → Action S String A
anyhow r = lift_with (λ e. e) r

module _ {P : Platform} (W : Wire P) where
  unfoldable pub extract_verified_proof_output : World P → P.Proof → Handler P ZkvmOutput
  extract_verified_proof_output w proof = do
    zk_client_local ← map_fail error_display (get_zk_client_local P)
    setup ← map_fail error_display (get_proof_setup_local P w (get_program_id P) zk_client_local)
    anyhow (W.verify zk_client_local proof setup.vk)
    anyhow (from_bytes (P.public_values proof))

  unfoldable pub verify_decrypt_blob : World P → W.Blob → Bytes → Handler P W.Blob
  verify_decrypt_blob w blob key = do
    proof ← anyhow (W.proof_from_bytes (W.data_of blob))
    output ← extract_verified_proof_output w proof
    let buffer = chacha P.primitives key output.nonce output.ciphertext
    pure (W.with_data blob buffer)
