-- ===== src/Session/Runs.antt =====
-- Taking a successful run of an action apart.
use relay.Prelude.{◌≡◌, refl}
use relay.Domain.Errors.{Result, ok, err}
use relay.Session.{continue, Session, Exec, ◌>>=◌}

-- The two halves of a run of `m >>= f`.
pub record Halves {A B : Type 0} (m : Exec A) (f : A → Exec B) (s : Session) (b : B)
    (after : Session) : Type 0 where
  pub value : A
  pub between : Session
  pub first : m s ≡ (ok value, between)
  pub second : f value between ≡ (ok b, after)

-- Two returning runs that are equal return the same value.
pub same_value :
    {A : Type 0} (a b : A) (s s' : Session)
    → ◌≡◌ {A = Result A × Session} (ok a, s) (ok b, s')
    → a ≡ b
same_value a b s s' e = cc

module _ {A B : Type 0} where
  continue-Halves :
      (m : Exec A) (f : A → Exec B) (s : Session) (r : Result A) (between : Session) {b : B}
      {after : Session}
      → m s ≡ (r, between)
      → continue r f between ≡ (ok b, after)
      → Halves m f s b after
  continue-Halves m f s (ok a) between e h = record {
    value = a;
    between = between;
    first = e;
    second = h;
  }
  continue-Halves m f s (err x) between e h = absurd (cc)

  pub >>=-Halves :
      (m : Exec A) (f : A → Exec B) (s : Session) {b : B} {after : Session}
      → (m >>= f) s ≡ (ok b, after)
      → Halves m f s b after
  unfolding ◌>>=◌
  >>=-Halves m f s h = continue-Halves m f s (m s).0 (m s).1 refl h
