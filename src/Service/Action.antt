-- ===== src/Service/Action.antt =====
-- A method of the service: explicit state, `Result` and panics. The state comes back after an error
-- or a panic too, since what was written stays written. Proofs about invariants go by the rules of
-- `Keeps`; a proof that runs a method opens `◌>>=◌`, and with it all the rest.
pub mod Keeps
pub mod Outcomes
use pda_proxy.Base.{Option, none, some, String, Result, ok, err}

pub data Outcome (E A : Type 0) : Type 0 where
  done : A → Outcome E A
  fail : E → Outcome E A
  panic : String → Outcome E A

abbrev pub Action : Type 0 → Type 0 → Type 0 → Type 0
Action S E A = S → Outcome E A × S

module _ {S E A : Type 0} where
  pub pure : A → Action S E A
  pure a s = (done a, s)

  pub throw : E → Action S E A
  throw e s = (fail e, s)

  pub gets : (S → A) → Action S E A
  gets f s = (done (f s), s)

  -- `r.map_err(f)?`
  pub lift_with : {F : Type 0} → (F → E) → Result F A → Action S E A
  lift_with f (ok a) s = (done a, s)
  lift_with f (err e) s = (fail (f e), s)

  -- `r.expect(message)` on a `Result` and on an `Option`
  pub expect : {F : Type 0} → String → Result F A → Action S E A
  expect message (ok a) s = (done a, s)
  expect message (err e) s = (panic message, s)

  pub expect_some : String → Option A → Action S E A
  expect_some message (some a) s = (done a, s)
  expect_some message none s = (panic message, s)

  abbrev pub caught : Outcome E A → S → Outcome E (Result E A) × S
  caught (done a) s = (done (ok a), s)
  caught (fail e) s = (done (err e), s)
  caught (panic message) s = (panic message, s)

  -- `match m { Ok(a) => …, Err(e) => … }`: a panic is not caught
  pub attempt : Action S E A → Action S E (Result E A)
  attempt m s = let (r, s') = m s in caught r s'

  -- How an action ends: what the runtime sees of a task, its panics included
  pub ended : Action S E A → Action S E (Outcome E A)
  ended m s = let (r, s') = m s in (done r, s')

module _ {E F A : Type 0} where
  abbrev pub converted : (E → F) → Outcome E A → Outcome F A
  converted f (done a) = done a
  converted f (fail e) = fail (f e)
  converted f (panic message) = panic message

module _ {S E F A : Type 0} where
  -- `m.await?` where `?` converts the error
  pub map_fail : (E → F) → Action S E A → Action S F A
  map_fail f m s = let (r, s') = m s in (converted f r, s')

module _ {S E : Type 0} where
  pub modify : (S → S) → Action S E (Unit {0})
  modify f s = (done tt, f s)

module _ {S E A B : Type 0} where
  abbrev pub continue : Outcome E A → (A → Action S E B) → Action S E B
  continue (done a) f s = f a s
  continue (fail e) f s = (fail e, s)
  continue (panic message) f s = (panic message, s)

  infixl 5 ◌>>=◌ ◌>>◌
  unfoldable pub ◌>>=◌ : Action S E A → (A → Action S E B) → Action S E B
  unfolding pure throw gets lift_with expect expect_some attempt ended modify map_fail
  ◌>>=◌ m f s = let (r, s') = m s in continue r f s'

  abbrev pub ◌>>◌ : Action S E A → Action S E B → Action S E B
  m >> k = m >>= λ _. k
