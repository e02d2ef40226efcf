-- ===== src/Services/Connections/Disconnected.antt =====
-- After a successful `disconnect` (backend/app/services/connections.py) the provider is gone.
use relay.Prelude.{
  ℕ, ◌≡◌, refl, sym, ap, subst, ◌∙◌, Bool, true, false, not, ◌&&◌, List, [], ◌∷◌, any, keep, All,
  All-map, ◌==◌, Bool-cases, inl, inr, arith, if◌then◌else◌,
}
use relay.Domain.Errors.{ok}
use relay.Store.{Provider, ConnectionStatus, is_provider, is_connection, ConnectedAccount}
use relay.Session.{Session, record_own_event, commit, ◌>>=◌}
use relay.Session.Runs.{>>=-Halves}
use relay.Services.Workflows.{is_empty}
use relay.Services.Connections.{
  connections_with, update_connection, set_connection, dropped, disconnect_one, disconnect_all,
  disconnect,
}

-- A connection of the owner to the provider that is not revoked.
abbrev pub is_live : ℕ → Provider → ConnectedAccount → Bool
is_live owner provider c =
    ((c.user_id == owner) && is_provider c.provider provider)
    && not (is_connection c.status ConnectionStatus.revoked)

-- The loop still comes to a row of this id that it revokes.
abbrev Awaits : List ConnectedAccount → ConnectedAccount → Type 0
Awaits rest x =
    any (λ c. (c.id == x.id) && not (is_connection c.status ConnectionStatus.revoked)) rest ≡ true

abbrev Covered : ℕ → Provider → List ConnectedAccount → List ConnectedAccount → Type 0
Covered owner provider rest rows = All (λ x. is_live owner provider x ≡ true → Awaits rest x) rows

module _ (owner : ℕ) (provider : Provider) where
  abbrev matching : List ConnectedAccount → List ConnectedAccount
  matching rows = keep (λ c. is_provider c.provider provider) (keep (λ c. c.user_id == owner) rows)

  here :
      (x : ConnectedAccount) (rows : List ConnectedAccount)
      → is_live owner provider x ≡ true
      → Awaits (matching (x ∷ rows)) x
  here x rows live = ground arith

  later :
      (x : ConnectedAccount) (rows : List ConnectedAccount) (y : ConnectedAccount)
      → Awaits (matching rows) y
      → Awaits (matching (x ∷ rows)) y
  later x rows y held = ground arith

  update_connection-Covered :
      (c : ConnectedAccount) (rest rows : List ConnectedAccount)
      → Covered owner provider (c ∷ rest) rows
      → Covered owner provider rest (update_connection c.id (λ _. dropped c) rows)
  update_connection-Covered c rest [] h = tt
  update_connection-Covered c rest (x ∷ rows) h =
      let more = update_connection-Covered c rest rows h.1 in
      elim (Bool-cases (x.id == c.id)) [
        | inl same ↦ rw same ((λ live. absurd (ground arith)), more)
        | inr other ↦ rw other ((λ live. let held = h.0 live in ground (arith, held)), more)
      ]

  -- The rows after one round.
  disconnect_one-rows :
      (c : ConnectedAccount) (s : Session)
      → (disconnect_one owner provider c s).1.working.connections ≡ (
          if is_connection c.status ConnectionStatus.revoked
          then s.working.connections
          else update_connection c.id (λ _. dropped c) s.working.connections)
  unfolding disconnect_one ◌>>=◌ record_own_event set_connection
  disconnect_one-rows c s = elim (Bool-cases (is_connection c.status ConnectionStatus.revoked)) [
    | inl already ↦ rw already refl
    | inr other ↦ elim (Bool-cases (is_provider provider Provider.notion)) [
      | inl is_notion ↦ rw (other, is_notion) refl
      | inr not_notion ↦ rw (other, not_notion) refl
    ]
  ]

  disconnect_one-Covered :
      (c : ConnectedAccount) (rest : List ConnectedAccount) (s s' : Session)
      → Covered owner provider (c ∷ rest) s.working.connections
      → disconnect_one owner provider c s ≡ (ok tt, s')
      → Covered owner provider rest s'.working.connections
  disconnect_one-Covered c rest s s' h e =
      let rows = disconnect_one-rows c s in
      let after : s'.working.connections ≡ _ = ap (λ r. r.1.working.connections) (sym e) ∙ rows in
      elim (Bool-cases (is_connection c.status ConnectionStatus.revoked)) [
        | inl already ↦
            subst (Covered owner provider rest) (sym (rw already at after))
              (All-map (λ x held live. let there = held live in ground (arith, there)) _ h)
        | inr other ↦
            subst (Covered owner provider rest) (sym (rw other at after))
              (update_connection-Covered c rest s.working.connections h)
      ]

  disconnect_all-Covered :
      (rows : List ConnectedAccount) (s s' : Session)
      → Covered owner provider rows s.working.connections
      → disconnect_all owner provider rows s ≡ (ok tt, s')
      → Covered owner provider [] s'.working.connections
  unfolding disconnect_all ◌>>=◌
  disconnect_all-Covered [] s s' h e =
      subst (Covered owner provider []) (ap (λ r. r.1.working.connections) e) h
  disconnect_all-Covered (c ∷ rest) s s' h e =
      let halves = >>=-Halves (disconnect_one owner provider c) _ s e in
      disconnect_all-Covered rest halves.between s'
        (disconnect_one-Covered c rest s halves.between h halves.first) halves.second

  -- At the start.
  connections_with-Covered :
      (given rows : List ConnectedAccount)
      → ((x : ConnectedAccount) → Awaits (matching rows) x → Awaits (matching given) x)
      → Covered owner provider (matching given) rows
  connections_with-Covered given [] into = tt
  connections_with-Covered given (x ∷ rows) into = (
    (λ live. into x (here x rows live)),
    connections_with-Covered given rows (λ y held. into y (later x rows y held)),
  )

  Covered-nothing :
      (rows : List ConnectedAccount)
      → Covered owner provider [] rows
      → All (λ c. is_live owner provider c ≡ false) rows
  Covered-nothing [] h = tt
  Covered-nothing (x ∷ rows) h = (
    elim (Bool-cases (is_live owner provider x)) [
      | inl live ↦ let never = h.0 live in cc
      | inr dead ↦ dead
    ],
    Covered-nothing rows h.1,
  )

  -- After a `disconnect` that returns, no committed connection of the owner to the provider is left
  -- unrevoked.
  pub disconnect-revokes :
      (s s' : Session)
      → disconnect owner provider s ≡ (ok tt, s')
      → All (λ c. is_live owner provider c ≡ false) s'.committed.connections
  unfolding disconnect ◌>>=◌ commit
  disconnect-revokes s s' h =
      let rows = connections_with owner provider s.working in
      elim (Bool-cases (is_empty rows)) [
        | inl missing ↦ absurd (ground arith)
        | inr present ↦
            let run : (disconnect_all owner provider rows >>= λ _. commit) s ≡ (ok tt, s') =
              rw present at h in
            let halves = >>=-Halves (disconnect_all owner provider rows) (λ _. commit) s run in
            let start =
              connections_with-Covered s.working.connections s.working.connections
                (λ x held. held) in
            let done = disconnect_all-Covered rows s halves.between start halves.first in
            let stored = Covered-nothing halves.between.working.connections done in
            subst (λ x. All (λ c. is_live owner provider c ≡ false) x.1.committed.connections)
              halves.second stored
      ]
