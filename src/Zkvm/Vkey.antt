-- ===== src/Zkvm/Vkey.antt =====
-- The tool zkVM/sp1/src/bin/vkey.rs, which prints the hash of the guest's verifying key.
use pda_proxy.Base.{String, Bytes}

-- `sp1_sdk`'s prover on the CPU, and the embedded guest program.
pub record Prover : Type 1 where
  pub Client : Type 0
  pub Pk : Type 0
  pub Vk : Type 0
  pub cpu : Client
  pub setup : Client → Bytes → Pk × Vk
  pub bytes32 : Vk → String
  pub chacha_elf : Bytes

-- What it prints.
unfoldable pub vkey_main : Prover → String
vkey_main p = let (_, vk) = p.setup p.cpu p.chacha_elf in p.bytes32 vk
