-- ===== src/Proxy/Startup/Environment.antt =====
-- The environment that the set-up has checked, and the first state of the service.
use pda_proxy.Base.{
  ◌≡◌, ◌⊎◌, inl, inr, none, some, String, List, [], ◌∷◌, Bytes, Result, ok, Option-cases,
}
use pda_proxy.Service.Job.{Anchor}
use pda_proxy.Service.Action.{done, panic, ◌>>=◌}
use pda_proxy.Service.Platform.{Platform, World}
use pda_proxy.Service.Runner.State.{Runner}
use pda_proxy.Service.Runner.Proving.{encryption_key}
use pda_proxy.Service.Runner.Startup.{resume, resume_entries, IsBincode, resume_panics}
use pda_proxy.Proxy.Startup.{
  Machine, Effect, Configured, check_key, configure, new, restart, launch,
}

module _ {P : Platform} (M : Machine P) where
  -- Whether the key of the environment is there and well-formed.
  abbrev pub HasKey : Bytes → Type 0
  HasKey key =
      (text : String) × (M.var "ENCRYPTION_KEY" ≡ some text) × (P.from_hex 32 text ≡ some key)

  abbrev pub LacksKey : Type 0
  LacksKey =
      (M.var "ENCRYPTION_KEY" ≡ none)
      ⊎ ((text : String) × (M.var "ENCRYPTION_KEY" ≡ some text) × (P.from_hex 32 text ≡ none))

  not_both : (key : Bytes) → LacksKey → HasKey key → ⊥
  not_both key (inl unset) (text, set, well_formed) = cc
  not_both key (inr (text', set', malformed)) (text, set, well_formed) = cc

  check_key-cases :
      (effects : List (Effect M))
      → ((key : Bytes) × HasKey key × (check_key M effects ≡ (done key, effects)))
        ⊎ (LacksKey × (message : String) × (check_key M effects ≡ (panic message, effects)))
  unfolding check_key ◌>>=◌
  check_key-cases effects = elim (Option-cases (M.var "ENCRYPTION_KEY")) [
    | inl unset ↦ inr (inl unset, "Missing ENCRYPTION_KEY env var", rw unset)
    | inr (text, set) ↦ elim (Option-cases (P.from_hex 32 text)) [
      | inl malformed ↦ inr (
        inr (text, set, malformed),
        "ENCRYPTION_KEY must be 32 bytes, hex encoded (ex: `1234...abcd`)",
        rw (set, malformed),
      )
      | inr (key, well_formed) ↦ inl (key, (text, set, well_formed), rw (set, well_formed))
    ]
  ]

  -- The set-up panics before it has opened or bound anything, where the key is missing or malformed.
  pub configure_panics :
      (effects : List (Effect M))
      → LacksKey
      → (message : String) × (configure M effects ≡ (panic message, effects))
  unfolding configure ◌>>=◌
  configure_panics effects lacks = elim (check_key-cases effects) [
    | inr (_, message, e) ↦ (message, rw e)
    | inl (key, has, e) ↦ absurd (not_both key lacks has)
  ]

  -- Where the set-up succeeds, reading the key later, as the handlers and the provers do it, in an
  -- environment where the variable is still the same, gives a key, does not panic and changes
  -- nothing, in any state of the runner.
  pub configure_key :
      (c : Configured M) (effects after : List (Effect M)) (w : World P)
      → configure M effects ≡ (done c, after)
      → w.var "ENCRYPTION_KEY" ≡ M.var "ENCRYPTION_KEY"
      → (key : Bytes) × ((r : Runner P) → encryption_key P w r ≡ (done key, r))
  unfolding configure encryption_key ◌>>=◌
  configure_key c effects after w ran same = elim (check_key-cases effects) [
    | inr (_, message, e) ↦ cc (rw e at ran)
    | inl (key, (text, set, well_formed), e) ↦ (key, λ r. rw (same, set, well_formed))
  ]

  -- On a database with an empty queue, the service starts with the trees of that database, an empty
  -- channel, and no client and no setup yet.
  pub launch-fresh :
      (c : Configured M) (effects after : List (Effect M))
      → configure M effects ≡ (done c, after)
      → P.iter c.queue_db ≡ []
      → launch M effects ≡ (done (c, new M c), after)
  unfolding launch restart new resume resume_entries ◌>>=◌
  launch-fresh c effects after configured empty = rw (configured, empty)

  -- On a database with a job in the queue, whose key is that of an anchor, the service does not
  -- start: after the set-up has succeeded, `main` panics.
  pub launch_panics :
      (B : IsBincode P) (c : Configured M) (effects after : List (Effect M)) (a : Anchor)
      (key queue_data : Bytes) (entries : List (Result String (Bytes × Bytes)))
      → configure M effects ≡ (done c, after)
      → P.serialize_anchor a ≡ ok key
      → P.iter c.queue_db ≡ ok (key, queue_data) ∷ entries
      → launch M effects ≡ (panic "called `Result::unwrap()` on an `Err` value", after)
  unfolding launch restart ◌>>=◌
  launch_panics B c effects after a key queue_data entries configured serialized listed = rw (
    configured,
    resume_panics P B (new M c) a key queue_data entries serialized (unfold new in listed),
  )
