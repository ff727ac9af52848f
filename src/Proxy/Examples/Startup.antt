-- ===== src/Proxy/Examples/Startup.antt =====
-- The set-up on a machine in memory.
use pda_proxy.Proxy.Startup.Signals.{received, terminate, shutdown_task, shutdown_task-busy_rounds}
use pda_proxy.Service.Runner.Worker.Rounds.{exits}
use pda_proxy.Service.Runner.Worker.Shutdown.{busy_rounds}
use pda_proxy.Base.{
  ◌≡◌, arith, refl, none, some, String, List, [], ◌∷◌, Bytes, ok, str_eq, if◌then◌else◌,
}
use pda_proxy.Service.Action.{done, panic, ◌>>=◌}
use pda_proxy.Service.Platform.{setup_from}
use pda_proxy.Service.Memory.{memory, memory-IsDocumented, world, empty}
use pda_proxy.Service.Fixtures.{job, pending, memory-IsBincode}
use pda_proxy.Service.Runner.State.{Runner}
use pda_proxy.Service.Runner.Proving.{encryption_key}
use pda_proxy.Service.Runner.Setup.{get_proof_setup_local, get_or_try_init, recall_or_generate}
use pda_proxy.Proxy.Startup.{
  Machine, Effect, Configured, opened_db, opened_tree, opened_file, bound, effected, required,
  open_named, load_certs, load_private_key, check_key, socket, open_trees, configure, launch,
}
use pda_proxy.Proxy.Startup.Environment.{configure_key, launch_panics}

-- Addresses, files and what is read from them are their texts; the database has one job in its
-- queue.
abbrev machine : Machine memory
machine = record {
  SocketAddr = String;
  Db = String;
  File = String;
  Cert = String;
  PrivateKey = String;
  Listener = String;
  ServerConfig = List String;
  Connector = String;
  var = λ name.
      if str_eq name "UNSAFE_HTTP_UPSTREAM"
      then none
      else if str_eq name "ENCRYPTION_KEY"
      then some "HOSTED"
      else some name;
  parse_socket = λ s. ok s;
  parse_seconds = λ s. ok 600;
  open_db = λ path. ok path;
  open_tree = λ db name. if str_eq name "queue" then ok ((9 ∷ [], 0 ∷ []) ∷ []) else ok [];
  open_file = λ path. ok path;
  pem_certs = λ file. ok file ∷ [];
  pem_private_key = λ file. ok (some file);
  bind = λ address. ok address;
  with_single_cert = λ certs key. ok certs;
  with_alpn = λ config names. names;
  with_native_roots = ok (λ plain. if plain then "http" else "https");
  unbounded_channel = [];
}

abbrev configured : Configured machine
configured = record {
  da_node_socket = "CELESTIA_NODE_SOCKET";
  config_db = [];
  queue_db = (9 ∷ [], 0 ∷ []) ∷ [];
  finished_db = [];
  listener = "PDA_SOCKET";
  server_config = "http/1.1" ∷ "http/1.0" ∷ [];
  connector = "https";
  zk_proof_gen_timeout_remote = 600;
}

-- Everything is opened before the port is bound.
abbrev opened : List (Effect machine)
opened =
    opened_db "PDA_DB_PATH"
    ∷ opened_tree "config"
    ∷ opened_tree "queue"
    ∷ opened_tree "finished"
    ∷ opened_file "TLS_CERTS_PATH"
    ∷ opened_file "TLS_KEY_PATH"
    ∷ bound "PDA_SOCKET"
    ∷ []

is_configured : configure machine [] ≡ (done configured, opened)
unfolding configure check_key socket required open_trees effected load_certs load_private_key
    open_named ◌>>=◌
is_configured = refl

configure_key_example :
    (key : Bytes) × ((r : Runner memory) → encryption_key memory (world (ok [])) r ≡ (done key, r))
configure_key_example =
    configure_key machine configured [] opened (world (ok [])) is_configured refl

launch_panics_example :
    launch machine [] ≡ (panic "called `Result::unwrap()` on an `Err` value", opened)
launch_panics_example =
    launch_panics machine memory-IsBincode configured [] opened job.anchor (9 ∷ []) (0 ∷ []) []
      is_configured refl refl

-- The setup is generated by the local client `1`.
abbrev set_up : Runner memory
set_up = record empty {
  chacha_setup = some (record { pk = 1; vk = 8 });
  config_db = (5 ∷ [], 1 ∷ 8 ∷ []) ∷ [];
}

generated :
    get_proof_setup_local memory (world (ok [])) (5 ∷ []) 1 empty
    ≡ (done (record { pk = 1; vk = 8 }), set_up)
unfolding get_proof_setup_local get_or_try_init recall_or_generate setup_from ◌>>=◌
generated = refl

-- A job waits in the channel when the signal comes, and a client asks for it again before each round.
shutdown_task-busy_rounds_example :
    (t : Runner memory) × (busy_rounds memory 2
        (λ i. (world (ok []), job) ∷ [])
        (λ i. world (ok (77 ∷ [])))
        (shutdown_task memory (λ kind. ok tt) (some (received terminate)) pending).1
      ≡ (exits 0, t))
shutdown_task-busy_rounds_example =
    shutdown_task-busy_rounds memory memory-IsDocumented (λ kind. ok tt) (received terminate)
      (λ i. (world (ok []), job) ∷ []) (λ i. world (ok (77 ∷ []))) pending (some job ∷ none ∷ []) 2
      (λ kind. refl) refl (omega arith)
