-- ===== src/Service/Action/Keeps.antt =====
-- Actions that keep a property of the state, whatever their outcome: a rule for each combinator.
use pda_proxy.Base.{Option, none, some, String, Result, ok, err}
use pda_proxy.Service.Action.{
  Outcome, done, fail, panic, Action, pure, throw, gets, modify, lift_with, expect, expect_some,
  caught, attempt, ended, map_fail, continue, ◌>>=◌,
}

pub record Keeps {S E A : Type 0} (I : S → Type 0) (m : Action S E A) : Type 0 where
  pub at : (s : S) → I s → I (m s).1

module _ {S E A : Type 0} (I : S → Type 0) where
  at_caught : (r : Outcome E A) (s : S) → I s → I (caught r s).1
  at_caught (done a) s h = h
  at_caught (fail e) s h = h
  at_caught (panic message) s h = h

module _ {S E A : Type 0} {I : S → Type 0} where
  pub Keeps-pure : (a : A) → Keeps {E = E} I (pure a)
  unfolding pure
  Keeps-pure a = record { at = λ s h. h }

  pub Keeps-throw : (e : E) → Keeps I (throw {A = A} e)
  unfolding throw
  Keeps-throw e = record { at = λ s h. h }

  pub Keeps-gets : (f : S → A) → Keeps {E = E} I (gets f)
  unfolding gets
  Keeps-gets f = record { at = λ s h. h }

  pub Keeps-lift_with : {F : Type 0} (f : F → E) (r : Result F A) → Keeps I (lift_with f r)
  unfolding lift_with
  Keeps-lift_with f (ok a) = record { at = λ s h. h }
  Keeps-lift_with f (err e) = record { at = λ s h. h }

  pub Keeps-expect :
      {F : Type 0} (message : String) (r : Result F A) → Keeps {E = E} I (expect message r)
  unfolding expect
  Keeps-expect message (ok a) = record { at = λ s h. h }
  Keeps-expect message (err e) = record { at = λ s h. h }

  pub Keeps-expect_some :
      (message : String) (o : Option A) → Keeps {E = E} I (expect_some message o)
  unfolding expect_some
  Keeps-expect_some message (some a) = record { at = λ s h. h }
  Keeps-expect_some message none = record { at = λ s h. h }

  pub Keeps-attempt : (m : Action S E A) → Keeps I m → Keeps I (attempt m)
  unfolding attempt
  Keeps-attempt m k = record { at = λ s h. at_caught I (m s).0 (m s).1 (k.at s h) }

  pub Keeps-ended : (m : Action S E A) → Keeps I m → Keeps I (ended m)
  unfolding ended
  Keeps-ended m k = record { at = k.at }

module _ {S E : Type 0} {I : S → Type 0} where
  pub Keeps-modify : (f : S → S) → ((s : S) → I s → I (f s)) → Keeps {E = E} I (modify f)
  unfolding modify
  Keeps-modify f k = record { at = k }

module _ {S E A B : Type 0} {I : S → Type 0} where
  at_continue :
      (r : Outcome E A) (f : A → Action S E B) (s : S)
      → ((a : A) → Keeps I (f a))
      → I s
      → I (continue r f s).1
  at_continue (done a) f s k h = (k a).at s h
  at_continue (fail e) f s k h = h
  at_continue (panic message) f s k h = h

  pub Keeps-bind :
      (m : Action S E A) (f : A → Action S E B)
      → Keeps I m
      → ((a : A) → Keeps I (f a))
      → Keeps I (m >>= f)
  unfolding ◌>>=◌
  Keeps-bind m f k l = record { at = λ s h. at_continue (m s).0 f (m s).1 l (k.at s h) }

module _ {S E F A : Type 0} {I : S → Type 0} where
  pub Keeps-map_fail : (f : E → F) (m : Action S E A) → Keeps I m → Keeps I (map_fail f m)
  unfolding map_fail
  Keeps-map_fail f m k = record { at = k.at }

pub ruleset keeps_rules = (
  Keeps-pure, Keeps-throw, Keeps-gets, Keeps-lift_with, Keeps-expect, Keeps-expect_some,
  Keeps-attempt, Keeps-ended, Keeps-map_fail, Keeps-bind,
)
