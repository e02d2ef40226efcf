-- ===== src/Services/Connections/Tokens.antt =====
-- No revoked connection keeps a token (backend/app/services/connections.py).
use relay.Prelude.{
  ℕ, ◌≡◌, refl, none, List, [], ◌∷◌, String, any, All, All-append, ◌==◌, Bool-cases, inl, inr,
}
use relay.Store.{Provider, ConnectionStatus, ConnectedAccount, Metadata}
use relay.Session.{Session, commit, uuid4, record_own_event}
use relay.Session.Keeps.{Keeps, keeps_rules}
use relay.Services.Connections.{
  OAuthCredentials, update_connection, set_connection, same_account, add_connection, owned, dropped,
  marked, mark, disconnect_one, disconnect_all, disconnect, replace_credentials, create, replace,
}

-- REVOKED only with no token left.
abbrev pub HoldsNone : ConnectionStatus → ConnectedAccount → Type 0
HoldsNone ConnectionStatus.revoked c =
    (c.access_token_encrypted ≡ none) × (c.refresh_token_encrypted ≡ none)
HoldsNone _ c = Unit

abbrev pub IsSafe : ConnectedAccount → Type 0
IsSafe c = HoldsNone c.status c

-- Of the rows that the transaction sees and of the committed ones.
abbrev pub AllSafe : Session → Type 0
AllSafe s = All IsSafe s.working.connections × All IsSafe s.committed.connections

All-update_connection :
    (id : ℕ) (row : ConnectedAccount) (rows : List ConnectedAccount)
    → IsSafe row
    → All IsSafe rows
    → All IsSafe (update_connection id (λ _. row) rows)
All-update_connection id row [] new h = tt
All-update_connection id row (c ∷ rows) new h = elim (Bool-cases (c.id == id)) [
  | inl same ↦ rw same (new, All-update_connection id row rows new h.1)
  | inr other ↦ rw other (h.0, All-update_connection id row rows new h.1)
]

uuid4-Safe : Keeps AllSafe uuid4
unfolding uuid4
uuid4-Safe = record { at = λ s h. h }

commit-Safe : Keeps AllSafe commit
unfolding commit
commit-Safe = record { at = λ s h. (h.0, h.0) }

record_own_event-Safe :
    (owner : ℕ) (event_type : String) (metadata : List (String × Metadata))
    → Keeps AllSafe (record_own_event owner event_type metadata)
unfolding record_own_event
record_own_event-Safe owner event_type metadata = record { at = λ s h. h }

set_connection-Safe :
    (id : ℕ) (row : ConnectedAccount) → IsSafe row → Keeps AllSafe (set_connection id (λ _. row))
unfolding set_connection
set_connection-Safe id row new = record {
  at = λ s h. (All-update_connection id row s.working.connections new h.0, h.1);
}

add_connection-Safe : (row : ConnectedAccount) → IsSafe row → Keeps AllSafe (add_connection row)
unfolding add_connection
add_connection-Safe row new = record {
  at = λ s h. elim (Bool-cases (any (same_account row) s.working.connections)) [
    | inl taken ↦ rw taken (h.1, h.1)
    | inr fresh ↦ rw fresh (All-append IsSafe s.working.connections (row ∷ []) h.0 (new, tt), h.1)
  ];
}

marked-Safe : (status : ConnectionStatus) (c : ConnectedAccount) → IsSafe (marked status c)
marked-Safe ConnectionStatus.connected c = tt
marked-Safe ConnectionStatus.expired c = tt
marked-Safe ConnectionStatus.revoked c = (refl, refl)
marked-Safe ConnectionStatus.error c = tt

dropped-Safe : (c : ConnectedAccount) → IsSafe (dropped c)
dropped-Safe c = (refl, refl)

ruleset safe_rules = (
  keeps_rules, uuid4-Safe, commit-Safe, record_own_event-Safe, set_connection-Safe,
  add_connection-Safe, marked-Safe, dropped-Safe,
)

mark-Safe :
    (owner connection_id : ℕ) (status : ConnectionStatus)
    → Keeps AllSafe (mark owner connection_id status)
unfolding mark owned
mark-Safe owner connection_id status = search safe_rules depth 30

disconnect_one-Safe :
    (owner : ℕ) (provider : Provider) (c : ConnectedAccount)
    → Keeps AllSafe (disconnect_one owner provider c)
unfolding disconnect_one
disconnect_one-Safe owner provider c = search safe_rules depth 30

disconnect_all-Safe :
    (owner : ℕ) (provider : Provider) (rows : List ConnectedAccount)
    → Keeps AllSafe (disconnect_all owner provider rows)
unfolding disconnect_all
disconnect_all-Safe owner provider [] = search safe_rules
disconnect_all-Safe owner provider (c ∷ rest) =
    search
      (safe_rules, disconnect_one-Safe owner provider c, disconnect_all-Safe owner provider rest)

disconnect-Safe : (owner : ℕ) (provider : Provider) → Keeps AllSafe (disconnect owner provider)
unfolding disconnect
disconnect-Safe owner provider = search (safe_rules, disconnect_all-Safe) depth 30

create-Safe :
    (encrypt : String → String) (owner : ℕ) (provider : Provider) (credentials : OAuthCredentials)
    → Keeps AllSafe (create encrypt owner provider credentials)
unfolding create replace_credentials
create-Safe encrypt owner provider credentials = search safe_rules depth 30

replace-Safe :
    (encrypt : String → String) (owner connection_id : ℕ) (credentials : OAuthCredentials)
    → Keeps AllSafe (replace encrypt owner connection_id credentials)
unfolding replace owned replace_credentials
replace-Safe encrypt owner connection_id credentials = search safe_rules depth 30

-- Marking, disconnecting, connecting and renewing, also where they raise, leave no revoked
-- connection with a token, neither in the session nor in the database.
pub connections-AllSafe :
    (encrypt : String → String) (owner connection_id : ℕ) (provider : Provider)
    (status : ConnectionStatus) (credentials : OAuthCredentials)
    → Keeps AllSafe (mark owner connection_id status)
      × Keeps AllSafe (disconnect owner provider)
      × Keeps AllSafe (create encrypt owner provider credentials)
      × Keeps AllSafe (replace encrypt owner connection_id credentials)
connections-AllSafe encrypt owner connection_id provider status credentials = (
  mark-Safe owner connection_id status,
  disconnect-Safe owner provider,
  create-Safe encrypt owner provider credentials,
  replace-Safe encrypt owner connection_id credentials,
)
