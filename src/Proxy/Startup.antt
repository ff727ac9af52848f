-- ===== src/Proxy/Startup.antt =====
-- The set-up in `main` of service/src/main.rs, with `load_certs` and `load_private_key` of
-- service/src/internal/util.rs, `PdaRunner::new` and the tasks that are spawned.
pub mod Environment
pub mod Signals
use pda_proxy.Base.{
  ℕ, ◌≡◌, Bool, true, false, Option, none, some, String, ◌<>◌, List, [], ◌∷◌, ◌++◌, Bytes, Result,
  ok, err, map_err,
}
use pda_proxy.Service.Job.{error_display}
use pda_proxy.Service.Action.{
  Outcome, done, fail, panic, Action, pure, throw, lift_with, expect, expect_some, attempt, modify,
  converted, ◌>>=◌, ◌>>◌,
}
use pda_proxy.Service.Platform.{Platform, World}
use pda_proxy.Service.Runner.State.{Runner, Method}
use pda_proxy.Service.Runner.Setup.{
  get_program_id, get_zk_client_local, get_zk_client_remote, get_proof_setup_local,
  get_proof_setup_remote,
}
use pda_proxy.Service.Runner.Startup.{resume}

-- What `main` takes from the operating system and from sled, rustls, rustls_pemfile, hyper_rustls and
-- tokio.
pub record Machine (P : Platform) : Type 1 where
  pub SocketAddr : Type 0
  pub Db : Type 0
  pub File : Type 0
  pub Cert : Type 0
  pub PrivateKey : Type 0
  pub Listener : Type 0
  pub ServerConfig : Type 0
  pub Connector : Type 0
  pub var : String → Option String
  pub parse_socket : String → Result String SocketAddr
  pub parse_seconds : String → Result String ℕ
  pub open_db : String → Result String Db
  pub open_tree : Db → String → Result String P.Tree
  pub open_file : String → Result String File
  pub pem_certs : File → List (Result String Cert)
  pub pem_private_key : File → Result String (Option PrivateKey)
  pub bind : SocketAddr → Result String Listener
  pub with_single_cert : List Cert → PrivateKey → Result String ServerConfig
  pub with_alpn : ServerConfig → List String → ServerConfig
  pub with_native_roots : Result String (Bool → Connector)  -- whether plain HTTP is allowed too
  pub unbounded_channel : P.Channel

-- What the set-up does to the outside, in order.
pub data Effect {P : Platform} (M : Machine P) : Type 0 where
  opened_db opened_tree opened_file : String → Effect M
  bound : M.SocketAddr → Effect M

-- What the rest of `main` goes by.
pub record Configured {P : Platform} (M : Machine P) : Type 0 where
  pub da_node_socket : M.SocketAddr
  pub config_db : P.Tree
  pub queue_db : P.Tree
  pub finished_db : P.Tree
  pub listener : M.Listener
  pub server_config : M.ServerConfig
  pub connector : M.Connector
  pub zk_proof_gen_timeout_remote : ℕ

abbrev pub collect_after : {A : Type 0} → A → Result String (List A) → Result String (List A)
collect_after a (ok others) = ok (a ∷ others)
collect_after a (err e) = err e

-- `collect` on an iterator of results: the first error, or all values.
abbrev pub collected : {A : Type 0} → List (Result String A) → Result String (List A)
collected [] = ok []
collected (err e ∷ rs) = err e
collected (ok a ∷ rs) = collect_after a (collected rs)

abbrev pub returning : {A : Type 0} → A → Outcome String (Unit {0}) → Outcome String A
returning a (done _) = done a
returning a (fail e) = fail e
returning a (panic message) = panic message

abbrev pub is_set : Option String → Bool
is_set none = false
is_set (some s) = true

-- An `io::Error` is known by its text.
abbrev pub map_io_error : String → String
map_io_error text = text

module _ {P : Platform} (M : Machine P) where
  abbrev pub Setting : Type 0 → Type 0
  Setting A = Action (List (Effect M)) String A

  -- `?`, with what it does where it succeeds.
  unfoldable pub effected : {A : Type 0} → Result String A → Effect M → Setting A
  effected r effect = do
    a ← lift_with (λ e. e) r
    modify (λ done_before. done_before ++ (effect ∷ []))
    pure a

  -- `std::env::var(name).expect(message)`
  unfoldable pub required : String → String → Setting String
  required name message = expect_some message (M.var name)

  unfoldable pub open_named : String → Setting M.File
  open_named filename =
      effected
        (map_err (M.open_file filename)
          (λ e. map_io_error ("failed to open " <> filename <> ": " <> e)))
        (opened_file filename)

  unfoldable pub load_certs : String → Setting (List M.Cert)
  unfolding open_named
  load_certs filename = do
    cert_file ← open_named filename
    lift_with (λ e. e) (collected (M.pem_certs cert_file))

  unfoldable pub load_private_key : String → Setting M.PrivateKey
  unfolding open_named
  load_private_key filename = do
    keyfile ← open_named filename
    key ← lift_with (λ e. e) (M.pem_private_key keyfile)
    expect_some "called `Option::unwrap()` on a `None` value" key

  -- The check that runner.rs and `outbound_handler` rely on.
  unfoldable pub check_key : Setting Bytes
  unfolding required
  check_key = do
    key_text ← required "ENCRYPTION_KEY" "Missing ENCRYPTION_KEY env var"
    expect_some "ENCRYPTION_KEY must be 32 bytes, hex encoded (ex: `1234...abcd`)"
        (P.from_hex 32 key_text)

  -- A socket of the environment.
  unfoldable pub socket : String → String → String → Setting M.SocketAddr
  unfolding required
  socket name missing malformed = do
    text ← required name missing
    expect malformed (M.parse_socket text)

  unfoldable pub open_trees : String → Setting (P.Tree × P.Tree × P.Tree)
  open_trees db_path = do
    db ← effected (M.open_db db_path) (opened_db db_path)
    config_db ← effected (M.open_tree db "config") (opened_tree "config")
    queue_db ← effected (M.open_tree db "queue") (opened_tree "queue")
    finished_db ← effected (M.open_tree db "finished") (opened_tree "finished")
    pure (config_db, queue_db, finished_db)

  unfoldable pub configure : Setting (Configured M)
  configure = do
    check_key
    da_node_socket ←
        socket "CELESTIA_NODE_SOCKET" "CELESTIA_NODE_SOCKET env var required"
          "CELESTIA_NODE_SOCKET cannot parse"
    service_socket ← socket "PDA_SOCKET" "PDA_SOCKET env var required" "PDA_SOCKET cannot parse"
    db_path ← required "PDA_DB_PATH" "PDA_DB_PATH env var required"
    (config_db, queue_db, finished_db) ← open_trees db_path
    tls_certs_path ← required "TLS_CERTS_PATH" "TLS_CERTS_PATH env var required"
    tls_certs ← load_certs tls_certs_path
    tls_key_path ← required "TLS_KEY_PATH" "TLS_KEY_PATH env var required"
    tls_key ← load_private_key tls_key_path
    listener ← effected (M.bind service_socket) (bound service_socket)
    server_config ← lift_with (λ e. e) (M.with_single_cert tls_certs tls_key)
    https_builder ← lift_with (λ e. e) M.with_native_roots
    seconds ←
        required "PROOF_GEN_TIMEOUT_SECONDS_REMOTE"
          "PROOF_GEN_TIMEOUT_SECONDS_REMOTE env var required"
    zk_proof_gen_timeout_remote ←
        expect "PROOF_GEN_TIMEOUT_SECONDS_REMOTE must be integer" (M.parse_seconds seconds)
    pure (record {
      da_node_socket = da_node_socket;
      config_db = config_db;
      queue_db = queue_db;
      finished_db = finished_db;
      listener = listener;
      server_config = M.with_alpn server_config ("http/1.1" ∷ "http/1.0" ∷ []);
      connector = https_builder (is_set (M.var "UNSAFE_HTTP_UPSTREAM"));
      zk_proof_gen_timeout_remote = zk_proof_gen_timeout_remote;
    })

  -- `PdaRunner::new`, with empty cells.
  unfoldable pub new : Configured M → Runner P
  new c = record {
    zk_proof_gen_timeout_remote = c.zk_proof_gen_timeout_remote;
    config_db = c.config_db;
    queue_db = c.queue_db;
    finished_db = c.finished_db;
    job_sender = M.unbounded_channel;
    zk_client_handle_local = none;
    zk_client_handle_remote = none;
    chacha_setup = none;
  }

  -- The loop that restarts jobs, on the new runner; a panic in it ends `main`.
  unfoldable pub restart : Runner P → Setting (Runner P)
  restart runner effects =
      let (outcome, runner') = resume P runner in
      (returning runner' (converted error_display outcome), effects)

  -- `main` up to its accept loop.
  unfoldable pub launch : Setting (Configured M × Runner P)
  launch = do configured ← configure; runner ← restart (new configured); pure (configured, runner)

module _ (P : Platform) where
  -- The first spawned task: both clients and the proof setup, whose errors are ignored.
  unfoldable pub prepare : World P → Method P (Unit {0})
  prepare w = do
    zk_client_local ← get_zk_client_local P
    zk_client_remote ← get_zk_client_remote P
    attempt (get_proof_setup_local P w (get_program_id P) zk_client_local)
    attempt (get_proof_setup_remote P w (get_program_id P) zk_client_remote)
    pure tt
