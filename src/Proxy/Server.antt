-- ===== src/Proxy/Server.antt =====
-- The accept loop of `main` in service/src/main.rs: connections with their requests, served in any
-- order, each request to its end, beside the worker. A request that panics ends its connection alone.
pub mod History
pub mod Submissions
use pda_proxy.Base.{
  ◌≡◌, Bool, true, false, Option, none, some, String, List, [], ◌∷◌, Result, ok, err,
}
use pda_proxy.Service.Job.{Job}
use pda_proxy.Service.Action.{Outcome, done, fail, panic}
use pda_proxy.Service.Platform.{Platform, World}
use pda_proxy.Service.Runner.State.{Runner}
use pda_proxy.Service.Runner.Proving.{prove}
use pda_proxy.Service.Runner.Startup.{resume, shutdown}
use pda_proxy.Service.Runner.Worker.Rounds.{clean_up}
use pda_proxy.Service.Runner.Interleaving.{Picks}
use pda_proxy.Proxy.Wire.{Wire, Request, Response}
use pda_proxy.Proxy.Serve.{Answer, serve}

-- A request of a client, with what the environment and the upstream node answer while it is served.
pub record Call (P : Platform) : Type 0 where
  pub request : Request
  pub world : World P
  pub upstream : Request → Result String Response

-- Whether the process runs, the service, its connections with the calls to come on each, and each
-- request that was sent to the upstream node, with the client's.
pub record Process (P : Platform) : Type 0 where
  pub up : Bool
  pub runner : Runner P
  pub connections : List (List (Call P))
  pub sent : List (Request × Request)

abbrev pub is_done : {E A : Type 0} → Outcome E A → Bool
is_done (done a) = true
is_done (fail e) = false
is_done (panic message) = false

abbrev pub connections_after :
    {A : Type 0} → Result String Response → List A → List (List A) → List (List A)
connections_after (ok response) calls others = calls ∷ others
connections_after (err message) calls others = others

module _ {P : Platform} (W : Wire P) where
  -- The end of the process, and of its connections.
  unfoldable pub end_process : Process P → Process P
  end_process s = record s { up = false; connections = [] }

  -- `listener.accept().await?`, whose error ends `main`, and the new connection; one whose TLS
  -- handshake failed is only logged.
  unfoldable pub accept : Result String (Result String (List (Call P))) → Process P → Process P
  unfolding end_process
  accept (ok (ok calls)) s = record s { connections = calls ∷ s.connections }
  accept (ok (err e)) s = s
  accept (err e) s = end_process s

  -- A request that panics ends its connection, whether it was forwarded before or not.
  unfoldable pub after_serve :
      {E : Type 0}
      → Request
      → List (Call P)
      → List (List (Call P))
      → List (Request × Request)
      → Outcome E Answer × Runner P
      → Process P
  after_serve request calls others sent (done (reply, some wrapped_req), runner) = record {
    up = true;
    runner = runner;
    connections = connections_after reply calls others;
    sent = (request, wrapped_req) ∷ sent;
  }
  after_serve request calls others sent (done (reply, none), runner) = record {
    up = true;
    runner = runner;
    connections = connections_after reply calls others;
    sent = sent;
  }
  after_serve request calls others sent (fail e, runner) = record {
    up = true;
    runner = runner;
    connections = others;
    sent = sent;
  }
  after_serve request calls others sent (panic message, runner) = record {
    up = true;
    runner = runner;
    connections = others;
    sent = sent;
  }

  -- The next call of a connection.
  unfoldable pub serve_call :
      String → Call P → List (Call P) → List (List (Call P)) → Process P → Process P
  serve_call da_node_socket call calls others s =
      after_serve call.request calls others s.sent
        (serve W call.world da_node_socket call.upstream call.request s.runner)

  -- A new process on the same trees, with the channel it has made. A panic of the loop that restarts
  -- jobs ends it.
  unfoldable pub started_again : P.Channel → Process P → Process P
  started_again channel s =
      let (outcome, runner) = resume P (record s.runner {
        job_sender = channel;
        zk_client_handle_local = none;
        zk_client_handle_remote = none;
        chacha_setup = none;
      }) in
      record s { up = is_done outcome; runner = runner; connections = [] }

  -- One step of the process; `exits` is the end of `job_worker`.
  pub data ServerStep (da_node_socket : String) (s : Process P) : Process P → Type 0 where
    accepts :
        (stream : Result String (Result String (List (Call P))))
        → s.up ≡ true
        → ServerStep da_node_socket s (accept stream s)
    serves :
        (call : Call P) (calls : List (Call P)) (others : List (List (Call P)))
        → s.up ≡ true
        → Picks (call ∷ calls) s.connections others
        → ServerStep da_node_socket s (serve_call da_node_socket call calls others s)
    works :
        (w : World P) (job : Job)
        → s.up ≡ true
        → ServerStep da_node_socket s (record s { runner = (prove P w job s.runner).1 })
    shuts_down :
        s.up ≡ true → ServerStep da_node_socket s (record s { runner = (shutdown P s.runner).1 })
    exits :
        s.up ≡ true
        → ServerStep da_node_socket s (end_process (record s { runner = (clean_up P s.runner).1 }))
    restarts : (channel : P.Channel) → ServerStep da_node_socket s (started_again channel s)

  pub data ServerRun (da_node_socket : String) (s : Process P) : Process P → Type 0 where
    started : ServerRun da_node_socket s s
    and_then :
        {t u : Process P}
        → ServerRun da_node_socket s t
        → ServerStep da_node_socket t u
        → ServerRun da_node_socket s u
