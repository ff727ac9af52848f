-- ===== src/Proxy/Startup/Signals.antt =====
-- `wait_shutdown_signals` of service/src/internal/util.rs, and the task of `main` in
-- service/src/main.rs that waits for a signal and then shuts the runner down.
use pda_proxy.Base.{
  ℕ, ◌<◌, ◌≡◌, Bool, true, false, Option, none, some, String, List, length, Result, ok,
}
use pda_proxy.Service.Job.{Job}
use pda_proxy.Service.Action.{◌>>=◌, ◌>>◌, pure, expect}
use pda_proxy.Service.Platform.{Platform, World, IsDocumented}
use pda_proxy.Service.Runner.State.{Runner, Method}
use pda_proxy.Service.Runner.Startup.{shutdown}
use pda_proxy.Service.Runner.Worker.Rounds.{exits}
use pda_proxy.Service.Runner.Worker.Shutdown.{busy_rounds, shutdown-busy_rounds}

-- `tokio::signal::unix::SignalKind`
pub data SignalKind : Type 0 where
  terminate interrupt hangup : SignalKind

-- Which future of the `select!` is ready first: `ctrl_c`, whose result is not looked at, or a
-- listener.
pub data Signal : Type 0 where
  ctrl_c : Result String (Unit {0}) → Signal
  received : SignalKind → Signal

module _ (P : Platform) where
  -- Whether the wait is over, where `ready` is the first future to be ready, if any is.
  unfoldable pub wait_shutdown_signals :
      (SignalKind → Result String (Unit {0})) → Option Signal → Method P Bool
  wait_shutdown_signals unix_signal ready = do
    expect "Failed to set up SIGTERM listener" (unix_signal terminate)
    expect "Failed to set up SIGINT listener" (unix_signal interrupt)
    expect "Failed to set up SIGHUP listener" (unix_signal hangup)
    pure (elim ready [ none ↦ false | some signal ↦ true ])

  -- The same for other systems than Linux.
  unfoldable pub wait_shutdown_signals_elsewhere : Option (Result String (Unit {0})) → Method P Bool
  wait_shutdown_signals_elsewhere ready = pure (elim ready [ none ↦ false | some result ↦ true ])

  unfoldable pub shutdown_if : Bool → Method P (Unit {0})
  shutdown_if true = shutdown P
  shutdown_if false = pure tt

  -- `wait_shutdown_signals().await; runner.shutdown();`
  unfoldable pub shutdown_task :
      (SignalKind → Result String (Unit {0})) → Option Signal → Method P (Unit {0})
  shutdown_task unix_signal ready = do shutdown_if (← wait_shutdown_signals unix_signal ready)

module _ (P : Platform) (D : IsDocumented P) where
  listening :
      (unix_signal : SignalKind → Result String (Unit {0})) (signal : Signal) (r : Runner P)
      → ((kind : SignalKind) → unix_signal kind ≡ ok tt)
      → shutdown_task P unix_signal (some signal) r ≡ shutdown P r
  unfolding shutdown_task wait_shutdown_signals shutdown_if ◌>>=◌
  listening unix_signal signal r listens = rw (listens terminate, listens interrupt, listens hangup)

  -- Where the listeners are set up and the message can be sent, any of the signals ends the process:
  -- whatever the worker's tasks do and whatever requests arrive between its rounds, it exits with
  -- code 0 within one round more than the messages that were in the channel before.
  pub shutdown_task-busy_rounds :
      (unix_signal : SignalKind → Result String (Unit {0})) (signal : Signal)
      (requests : ℕ → List (World P × Job)) (ws : ℕ → World P) (r : Runner P) (channel' : P.Channel)
      (n : ℕ)
      → ((kind : SignalKind) → unix_signal kind ≡ ok tt)
      → P.send r.job_sender none ≡ ok channel'
      → length (D.messages r.job_sender) < n
      → (t : Runner P) × (busy_rounds P n requests ws
            (shutdown_task P unix_signal (some signal) r).1
          ≡ (exits 0, t))
  shutdown_task-busy_rounds unix_signal signal requests ws r channel' n listens sent enough =
      rw (listening unix_signal signal r listens)
        (shutdown-busy_rounds P D requests ws r channel' n sent enough)
