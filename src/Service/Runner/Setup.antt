-- ===== src/Service/Runner/Setup.antt =====
-- The lazily built parts of the runner: the program's identifier, the two prover clients and the
-- proof setup with its copy in `config_db`. Where the SDK cannot build a client, it panics.
use pda_proxy.Base.{Option, none, some, String, Bytes, Result}
use pda_proxy.Service.Action.{◌>>=◌, ◌>>◌, pure, gets, modify, expect}
use pda_proxy.Service.Platform.{Platform, World, Sp1ProofSetup, setup_from}
use pda_proxy.Service.Runner.State.{Method, internal}

module _ (P : Platform) where
  -- The cell `CHACHA_ID` holds this constant.
  unfoldable pub get_program_id : Bytes
  get_program_id = P.primitives.sha256 P.chacha_elf

  unfoldable pub or_build_local : Option P.LocalClient → Method P P.LocalClient
  or_build_local (some client) = pure client
  or_build_local none = do
    client ← expect "ProverClient::from_env" P.local_client_from_env
    modify (λ r. record r { zk_client_handle_local = some client })
    pure client

  unfoldable pub get_zk_client_local : Method P P.LocalClient
  get_zk_client_local = do or_build_local (← gets (λ r. r.zk_client_handle_local))

  unfoldable pub or_build_remote : Option P.RemoteClient → Method P P.RemoteClient
  or_build_remote (some client) = pure client
  or_build_remote none = do
    client ← expect "ProverClient::builder" P.remote_client_build
    modify (λ r. record r { zk_client_handle_remote = some client })
    pure client

  unfoldable pub get_zk_client_remote : Method P P.RemoteClient
  get_zk_client_remote = do or_build_remote (← gets (λ r. r.zk_client_handle_remote))

  abbrev pub Setup : Type 0
  Setup = Sp1ProofSetup P.Pk P.Vk

  -- The setup from `config_db` where it has one; else a new one, stored there.
  unfoldable pub recall_or_generate :
      Bytes → Result String (P.Pk × P.Vk) → Option Bytes → Method P Setup
  recall_or_generate zk_program_elf_sha2 reply (some precomputed) =
      internal (P.deserialize_setup precomputed)
  recall_or_generate zk_program_elf_sha2 reply none = do
    pair ← internal reply
    let new_proof_setup = setup_from pair
    serialized ← internal (P.serialize_setup new_proof_setup)
    config ← gets (λ r. r.config_db)
    config' ← internal (P.insert_into config zk_program_elf_sha2 serialized)
    modify (λ r. record r { config_db = config' })
    pure new_proof_setup

  -- `CHACHA_SETUP.get_or_try_init(…)`, where `reply` is what generating a setup gives.
  unfoldable pub get_or_try_init :
      Bytes → Result String (P.Pk × P.Vk) → Option Setup → Method P Setup
  get_or_try_init zk_program_elf_sha2 reply (some setup) = pure setup
  get_or_try_init zk_program_elf_sha2 reply none = do
    config ← gets (λ r. r.config_db)
    precomputed ← internal (P.get config zk_program_elf_sha2)
    proof_setup ← recall_or_generate zk_program_elf_sha2 reply precomputed
    modify (λ r. record r { chacha_setup = some proof_setup })
    pure proof_setup

  unfoldable pub get_proof_setup_local : World P → Bytes → P.LocalClient → Method P Setup
  get_proof_setup_local w zk_program_elf_sha2 zk_client_handle = do
    cell ← gets (λ r. r.chacha_setup)
    get_or_try_init zk_program_elf_sha2 (w.setup_local zk_client_handle P.chacha_elf) cell

  unfoldable pub get_proof_setup_remote : World P → Bytes → P.RemoteClient → Method P Setup
  get_proof_setup_remote w zk_program_elf_sha2 zk_client_handle = do
    cell ← gets (λ r. r.chacha_setup)
    get_or_try_init zk_program_elf_sha2 (w.setup_remote zk_client_handle P.chacha_elf) cell
