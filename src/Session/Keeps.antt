-- ===== src/Session/Keeps.antt =====
-- Invariants of actions: an action keeps a statement about the session if it does so when it returns
-- and when it raises. There is one rule for each way in which the services build an action.
use relay.Prelude.{◌≡◌, refl, Bool, true, false, Option, none, some, if◌then◌else◌}
use relay.Domain.Errors.{DomainError, Result, ok, err}
use relay.Store.{Database}
use relay.Session.{continue, Session, Exec, pure, raise, lift, gets, or_raise, raise_if, ◌>>=◌}

-- From every session of which `P` holds, running `m` leads to one of which it holds.
pub record Keeps {A : Type 0} (P : Session → Type 0) (m : Exec A) : Type 0 where
  pub at : (s : Session) → P s → P (m s).1

module _ {P : Session → Type 0} {A : Type 0} where
  -- The actions that leave the session as it is.
  pub Keeps-or_raise : (found : Option A) (missing : DomainError) → Keeps P (or_raise found missing)
  unfolding or_raise
  Keeps-or_raise (some row) missing = record { at = λ before holds. holds }
  Keeps-or_raise none missing = record { at = λ before holds. holds }

  pub Keeps-gets : (query : Database → A) → Keeps P (gets query)
  unfolding gets
  Keeps-gets query = record { at = λ before holds. holds }

  pub Keeps-raise : (error : DomainError) → Keeps P (raise {A = A} error)
  unfolding raise
  Keeps-raise error = record { at = λ before holds. holds }

  pub Keeps-lift : (outcome : Result A) → Keeps P (lift outcome)
  unfolding lift
  Keeps-lift outcome = record { at = λ before holds. holds }

  pub Keeps-pure : (value : A) → Keeps P (pure value)
  unfolding pure
  Keeps-pure value = record { at = λ before holds. holds }

module _ {P : Session → Type 0} where
  pub Keeps-raise_if : (bad : Bool) (error : DomainError) → Keeps P (raise_if bad error)
  unfolding raise_if
  Keeps-raise_if false error = record { at = λ before holds. holds }
  Keeps-raise_if true error = record { at = λ before holds. holds }

module _ {A B : Type 0} {P : Session → Type 0} where
  continue-keeps :
      (outcome : Result A) (next : A → Exec B) (between : Session)
      → P between
      → ((value : A) → Keeps P (next value))
      → P (continue outcome next between).1
  continue-keeps (err error) next between holds each = holds
  continue-keeps (ok value) next between holds each = (each value).at between holds

  pub Keeps-bind :
      (start : Exec A) (next : A → Exec B)
      → Keeps P start
      → ((value : A) → Keeps P (next value))
      → Keeps P (start >>= next)
  unfolding ◌>>=◌
  Keeps-bind start next kept each = record {
    at = λ before holds.
        let (outcome, between) = start before in
        continue-keeps outcome next between (kept.at before holds) each;
  }

module _ {A : Type 0} {P : Session → Type 0} where
  pub Keeps-if :
      (test : Bool) (yes' no' : Exec A)
      → Keeps P yes'
      → Keeps P no'
      → Keeps P (if test then yes' else no')
  Keeps-if false yes' no' on off = off
  Keeps-if true yes' no' on off = on

  -- What follows a guard may use that it passed.
  pub Keeps-guard :
      (bad : Bool) (error : DomainError) (after : Exec A)
      → (bad ≡ false → Keeps P after)
      → Keeps P (raise_if bad error >>= λ _. after)
  unfolding ◌>>=◌
  Keeps-guard false error after passed = record {
    at = λ before holds. (passed refl).at before holds;
  }
  Keeps-guard true error after passed = record { at = λ before holds. holds }

pub ruleset keeps_rules = (
  Keeps-bind, Keeps-if, Keeps-raise_if, Keeps-gets, Keeps-or_raise, Keeps-lift, Keeps-raise,
  Keeps-pure,
)
