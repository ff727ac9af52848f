-- ===== src/Service/Action/Outcomes.antt =====
-- Reading off an equation between two runs, and actions that cannot end well.
use pda_proxy.Base.{◌≡◌, refl, sym, ap, ◌⊎◌, inl, inr, String}
use pda_proxy.Service.Action.{Outcome, done, fail, panic, Action, throw, continue, ◌>>=◌}

module _ {S E A : Type 0} where
  pub state-eq : {x y : Outcome E A} {s t : S} → ◌≡◌ {A = Outcome E A × S} (x, s) (y, t) → t ≡ s
  state-eq h = sym (ap (λ (p : Outcome E A × S). p.1) h)

module _ {S E A B : Type 0} where
  not_done :
      (r : Outcome E A) (g : A → E) (s t : S) (b : B)
      → continue r (λ a. throw (g a)) s ≡ (done b, t)
      → ⊥
  unfolding throw
  not_done (done a) g s t b h = cc
  not_done (fail e) g s t b h = cc
  not_done (panic message) g s t b h = cc

  -- What ends in an error whatever comes before it does not return.
  pub throw-ne-done :
      (m : Action S E A) (g : A → E) (s t : S) (b : B)
      → (m >>= λ a. throw (g a)) s ≡ (done b, t)
      → ⊥
  unfolding ◌>>=◌
  throw-ne-done m g s t b h = not_done (m s).0 g (m s).1 t b h

-- The ways in which a run can end.
pub run-cases :
    {S E A : Type 0} (p : Outcome E A × S)
    → ((a : A) × (s : S) × (p ≡ (done a, s)))
      ⊎ ((e : E) × (s : S) × (p ≡ (fail e, s)))
      ⊎ ((message : String) × (s : S) × (p ≡ (panic message, s)))
run-cases (done a, s) = inl (a, s, refl)
run-cases (fail e, s) = inr (inl (e, s, refl))
run-cases (panic message, s) = inr (inr (message, s, refl))
