-- ===== src/Session/Leads.antt =====
-- Successful runs from a state of the session: what holds before leads to what holds at the end.
use relay.Prelude.{◌≡◌, ap, subst}
use relay.Domain.Errors.{ok}
use relay.Session.{Session, Exec, ◌>>=◌}
use relay.Session.Keeps.{Keeps}
use relay.Session.Runs.{>>=-Halves}

-- Every successful run of `m` from a session of which `P` holds ends in `Q`.
pub record Leads {A : Type 0} (P : Session → Type 0) (Q : A → Session → Type 0) (m : Exec A)
    : Type 0 where
  pub at : (s s' : Session) (a : A) → P s → m s ≡ (ok a, s') → Q a s'

pub Leads-bind :
    {A B : Type 0} {P : Session → Type 0} {Q : B → Session → Type 0} (m : Exec A) (f : A → Exec B)
    → Keeps P m
    → ((a : A) → Leads P Q (f a))
    → Leads P Q (m >>= f)
Leads-bind {P = P} m f kept each = record {
  at = λ s s' b holds h.
      let halves = >>=-Halves m f s h in
      let between = subst P (ap (λ r. r.1) halves.first) (kept.at s holds) in
      (each halves.value).at halves.between s' b between halves.second;
}
