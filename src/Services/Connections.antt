-- ===== src/Services/Connections.antt =====
-- backend/app/services/connections.py, with the queries on connections of
-- backend/app/repositories/relay.py. The encryption of the credential store is a parameter. The
-- unique constraint of the table is the check that `flush` makes.
pub mod Tokens
pub mod Disconnected
use relay.Prelude.{
  ℕ, Bool, true, false, Option, none, some, List, [], ◌∷◌, ◌++◌, String, map, keep, find, any, ◌==◌,
  ◌&&◌, str_eq, not, if◌then◌else◌,
}
use relay.Domain.Errors.{
  DomainError, connected_account_already_exists, connected_account_not_found, oauth_not_configured,
}
use relay.Store.{
  Provider, ConnectionStatus, is_provider, is_connection, ConnectedAccount, Database, uuid, text,
}
use relay.Session.{
  Exec, pure, raise, gets, or_raise, raise_if, modify, commit, rollback, uuid4, record_own_event,
  ◌>>=◌, ◌>>◌,
}
use relay.Services.Workflows.{is_empty}

-- `OAuthCredentials` of backend/app/domain/ports.py
pub record OAuthCredentials : Type 0 where
  pub external_account_id : String
  pub display_name : String
  pub access_token : String
  pub refresh_token : Option String
  pub expires_at : Option ℕ
  pub scopes : List String

abbrev pub provider_value : Provider → String
provider_value Provider.google = "GOOGLE"
provider_value Provider.notion = "NOTION"
provider_value Provider.github = "GITHUB"

abbrev pub connection_value : ConnectionStatus → String
connection_value ConnectionStatus.connected = "CONNECTED"
connection_value ConnectionStatus.expired = "EXPIRED"
connection_value ConnectionStatus.revoked = "REVOKED"
connection_value ConnectionStatus.error = "ERROR"

-- `RelayRepository.connections`
abbrev pub connections_of : ℕ → Database → List ConnectedAccount
connections_of owner db = keep (λ c. c.user_id == owner) db.connections

abbrev pub connections_with : ℕ → Provider → Database → List ConnectedAccount
connections_with owner provider db =
    keep (λ c. is_provider c.provider provider) (connections_of owner db)

abbrev pub update_connection :
    ℕ → (ConnectedAccount → ConnectedAccount) → List ConnectedAccount → List ConnectedAccount
update_connection id f rows = map (λ c. if c.id == id then f c else c) rows

unfoldable pub set_connection : ℕ → (ConnectedAccount → ConnectedAccount) → Exec Unit
unfolding ◌>>=◌
set_connection id f =
    modify (λ db. record db { connections = update_connection id f db.connections })

-- The columns of `UniqueConstraint`.
abbrev pub same_account : ConnectedAccount → ConnectedAccount → Bool
same_account a b =
    (a.user_id == b.user_id)
    && is_provider a.provider b.provider
    && str_eq a.external_account_id b.external_account_id

-- `session.add(connection)` and `flush`, whose `IntegrityError` the service turns into this error.
unfoldable pub add_connection : ConnectedAccount → Exec Unit
unfolding ◌>>=◌
add_connection c = do
  taken ← gets (λ db. any (same_account c) db.connections)
  (if taken then rollback >> raise connected_account_already_exists else pure tt)
  modify (λ db. record db { connections = db.connections ++ c ∷ [] })

-- `owned`
unfoldable pub owned : ℕ → ℕ → Exec ConnectedAccount
owned owner connection_id = do
  found ← gets (λ db. find (λ c. c.id == connection_id) (connections_of owner db))
  or_raise found connected_account_not_found

-- The tokens are gone.
abbrev pub revoked : ConnectedAccount → ConnectedAccount
revoked c = record c {
  status = ConnectionStatus.revoked;
  access_token_encrypted = none;
  refresh_token_encrypted = none;
}

abbrev pub dropped : ConnectedAccount → ConnectedAccount
dropped c = record (revoked c) { token_expires_at = none }

abbrev pub marked : ConnectionStatus → ConnectedAccount → ConnectedAccount
marked status c =
    if is_connection status ConnectionStatus.revoked
    then revoked c
    else record c { status = status }

-- `mark`
unfoldable pub mark : ℕ → ℕ → ConnectionStatus → Exec ConnectedAccount
unfolding owned set_connection
mark owner connection_id status = do
  c ← owned owner connection_id
  set_connection c.id (λ _. marked status c)
  record_own_event owner "CONNECTION_STATUS_CHANGED"
      (("connection_id", uuid c.id) ∷ ("status", text (connection_value status)) ∷ [])
  commit
  pure (marked status c)

-- The body of the loop of `disconnect`.
unfoldable pub disconnect_one : ℕ → Provider → ConnectedAccount → Exec Unit
disconnect_one owner provider c =
    if is_connection c.status ConnectionStatus.revoked then pure tt else (do
      set_connection c.id (λ _. dropped c)
      record_own_event owner "CONNECTION_DISCONNECTED"
          (("connection_id", uuid c.id) ∷ ("provider", text (provider_value provider)) ∷ [])
      (if is_provider provider Provider.notion
          then record_own_event owner "NOTION_DISCONNECTED" (("connection_id", uuid c.id) ∷ [])
          else pure tt))

unfoldable pub disconnect_all : ℕ → Provider → List ConnectedAccount → Exec Unit
unfolding disconnect_one
disconnect_all owner provider [] = pure tt
disconnect_all owner provider (c ∷ rest) = do
  disconnect_one owner provider c
  disconnect_all owner provider rest

-- `disconnect`
unfoldable pub disconnect : ℕ → Provider → Exec Unit
unfolding disconnect_all
disconnect owner provider = do
  rows ← gets (connections_with owner provider)
  raise_if (is_empty rows) connected_account_not_found
  disconnect_all owner provider rows
  commit

module _ (encrypt : String → String) where
  -- `store.encrypt(token) if token else None`
  abbrev pub encrypt_some : Option String → Option String
  encrypt_some none = none
  encrypt_some (some token) = if str_eq token "" then none else some (encrypt token)

  -- `replace_credentials`
  unfoldable pub replace_credentials : OAuthCredentials → ConnectedAccount → ConnectedAccount
  replace_credentials credentials c = record c {
    access_token_encrypted = some (encrypt credentials.access_token);
    refresh_token_encrypted = encrypt_some credentials.refresh_token;
    token_expires_at = credentials.expires_at;
    scopes = credentials.scopes;
  }

  -- `create`
  unfoldable pub create : ℕ → Provider → OAuthCredentials → Exec ConnectedAccount
  unfolding add_connection replace_credentials
  create owner provider credentials = do
    existing ← gets (connections_with owner provider)
    raise_if (any (λ c. str_eq c.external_account_id credentials.external_account_id) existing)
        connected_account_already_exists
    id ← uuid4
    let c : ConnectedAccount = replace_credentials credentials (record {
      id = id;
      user_id = owner;
      provider = provider;
      external_account_id = credentials.external_account_id;
      display_name = credentials.display_name;
      access_token_encrypted = none;
      refresh_token_encrypted = none;
      token_expires_at = none;
      scopes = [];
      status = ConnectionStatus.connected;
    }) in
        do
          add_connection c
          record_own_event owner "CONNECTION_CREATED"
              (("connection_id", uuid c.id) ∷ ("provider", text (provider_value provider)) ∷ [])
          commit
          pure c

  abbrev pub renewed : OAuthCredentials → ConnectedAccount → ConnectedAccount
  renewed credentials c = record (replace_credentials credentials c) {
    status = ConnectionStatus.connected;
  }

  -- `replace`
  unfoldable pub replace : ℕ → ℕ → OAuthCredentials → Exec ConnectedAccount
  unfolding owned set_connection replace_credentials
  replace owner connection_id credentials = do
    c ← owned owner connection_id
    raise_if (not (str_eq c.external_account_id credentials.external_account_id))
        connected_account_not_found
    set_connection c.id (λ _. renewed credentials c)
    record_own_event owner "CONNECTION_CREDENTIALS_REPLACED" (("connection_id", uuid c.id) ∷ [])
    commit
    pure (renewed credentials c)

-- `authorize` and `callback`
abbrev pub authorize : Provider → Exec Unit
authorize provider = raise oauth_not_configured

abbrev pub callback : Provider → Exec Unit
callback provider = raise oauth_not_configured
