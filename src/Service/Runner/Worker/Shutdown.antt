-- ===== src/Service/Runner/Worker/Shutdown.antt =====
-- The end of `job_worker` after `PdaRunner::shutdown`, with requests between its rounds.
use mathlib.Core.List.{append-nil}
use pda_proxy.Base.{
  ℕ, zero, suc, ◌<◌, ◌≡◌, refl, sym, ◌∙◌, Option, none, some, List, [], ◌∷◌, ◌++◌, length, arith,
  ok, Option-cases, inl, inr,
}
use pda_proxy.Service.Job.{Job}
use pda_proxy.Service.Action.{◌>>=◌}
use pda_proxy.Service.Platform.{Platform, World, IsDocumented}
use pda_proxy.Service.Runner.State.{Runner, send_message}
use pda_proxy.Service.Runner.Proving.{prove}
use pda_proxy.Service.Runner.Startup.{send_or_ignore, shutdown}
use pda_proxy.Service.Runner.Worker.Rounds.{Round, ran, exits, after, handle_message, round}
use pda_proxy.Service.Runner.Worker.Channel.{Begins, prove-Begins}
use pda_proxy.Service.Runner.Worker.Asked.{ask_all, ask_all-Begins}

-- The loop where before each round requests arrive.
unfoldable pub busy_rounds :
    (P : Platform) → ℕ → (ℕ → List (World P × Job)) → (ℕ → World P) → Runner P → Round × Runner P
busy_rounds P zero requests ws r = (ran, r)
busy_rounds P (suc n) requests ws r =
    after P (round P (ws n) (ask_all P (requests n) r)) (λ t. busy_rounds P n requests ws t)

module _ (P : Platform) (D : IsDocumented P) where
  -- What is ahead of the message to end, that message, and what came later.
  abbrev Ends : List (Option Job) → Runner P → Type 0
  Ends ahead r = Begins P D (ahead ++ (none ∷ [])) r

  unended : (ahead more : List (Option Job)) → ¬ ((ahead ++ (none ∷ [])) ++ more ≡ [])
  unended [] more h = cc h
  unended (m ∷ ahead) more h = cc h

  next_task :
      (w : World P) (job : Job) (c : P.Channel) (ahead more : List (Option Job)) (r : Runner P)
      → D.messages c ≡ (ahead ++ (none ∷ [])) ++ more
      → Ends ahead (prove P w job (record r { job_sender = c })).1
  next_task w job c ahead more r e =
      (prove-Begins P D (ahead ++ (none ∷ [])) w job).at (record r { job_sender = c })
        (record { more = more; begins = e })

  module _ (n : ℕ) (loop : Runner P → Round × Runner P)
      (ends : (ahead : List (Option Job)) (t : Runner P)
        → Ends ahead t
        → length ahead < n
        → (u : Runner P) × (loop t ≡ (exits 0, u))) where
    received :
        (w : World P) (ahead : List (Option Job)) (r : Runner P) (m : Option Job) (c : P.Channel)
        (more : List (Option Job))
        → m ∷ D.messages c ≡ (ahead ++ (none ∷ [])) ++ more
        → length ahead < suc n
        → (t : Runner P) × (after P (handle_message P w r (some (m, c))) loop ≡ (exits 0, t))
    unfolding after handle_message
    received w ahead r none c more e enough = (_, refl)
    received w [] r (some job) c more e enough = cc e
    received w (m ∷ ahead) r (some job) c more e enough =
        ends ahead (prove P w job (record r { job_sender = c })).1
          (next_task w job c ahead more r (cc e)) (omega arith)

  module _ (requests : ℕ → List (World P × Job)) (ws : ℕ → World P) where
    ended :
        (n : ℕ) (ahead : List (Option Job)) (r : Runner P)
        → Ends ahead r
        → length ahead < n
        → (t : Runner P) × (busy_rounds P n requests ws r ≡ (exits 0, t))
    unfolding busy_rounds round
    ended zero ahead r h enough = absurd (omega arith)
    ended (suc n) ahead r h enough =
        let s : Runner P = ask_all P (requests n) r in
        let later = ask_all-Begins P D (ahead ++ (none ∷ [])) (requests n) r h in
        elim (Option-cases (P.recv s.job_sender)) [
          | inl empty ↦
              absurd (unended ahead later.more (sym later.begins ∙ D.recv-none s.job_sender empty))
          | inr ((m, c), arrived) ↦ rw arrived (
              received n (λ t. busy_rounds P n requests ws t) (ended n) (ws n) ahead s m c
                later.more (sym (D.messages-recv s.job_sender m c arrived) ∙ later.begins) enough)
        ]

    shutdown-sent :
        (r : Runner P) (channel' : P.Channel)
        → P.send r.job_sender none ≡ ok channel'
        → (shutdown P r).1 ≡ record r { job_sender = channel' }
    unfolding shutdown send_or_ignore send_message ◌>>=◌
    shutdown-sent r channel' sent = rw sent

    -- Whatever the tasks do, whatever the database and the prover answer, and whatever requests
    -- arrive between the rounds: when `shutdown` can send its message, the worker ends the process
    -- with code 0 within one round more than the messages that were in the channel before it.
    pub shutdown-busy_rounds :
        (r : Runner P) (channel' : P.Channel) (n : ℕ)
        → P.send r.job_sender none ≡ ok channel'
        → length (D.messages r.job_sender) < n
        → (t : Runner P) × (busy_rounds P n requests ws (shutdown P r).1 ≡ (exits 0, t))
    shutdown-busy_rounds r channel' n sent enough = rw (shutdown-sent r channel' sent) (
        ended n (D.messages r.job_sender) (record r { job_sender = channel' })
          (record {
            more = [];
            begins =
                D.messages-send r.job_sender none channel' sent
                ∙ sym (append-nil (D.messages r.job_sender ++ (none ∷ [])));
          })
          enough)
