-- ===== src/Access/Guard.antt =====
-- backend/src/auth/guards/acp-access.guard.ts and backend/src/auth/capabilities/
-- explorer-access.guard.ts. `AcpAccessGuard` resolves the user from the request's token where no
-- guard before it has, and decides the level of access to the ACP.
use content_pool_next.Base.{
  ℕ, String, string_eq, Bool, true, false, not, ◌&&◌, ◌||◌, Option, none, some, [], ◌∷◌, find, same,
  is_empty, if◌then◌else◌, ◌==◌,
}
use content_pool_next.Base.Text.{Text, trim}
use content_pool_next.Base.Http.{Result, ok, err, bad_request, not_found, forbidden, ◌>>=◌}
use content_pool_next.Access.{
  AccessConfig, UserRole, User, Principal, PrincipalKind, Database, Request, AccessLevel, AcpRole,
  acp_manager, read_only, admin, manager, reader, credential_level, public_level,
  is_credentials_list, is_credential, is_oidc, not_yet_valid, no_longer_valid, is_text,
  find_credential, config_of, find_role, find_public_config,
}
use content_pool_next.Access.Capabilities.{assert, explorer_view, explorer_edit}

-- What the guard reads of the incoming request. `user` is what an earlier guard attached.
pub record Incoming : Type 0 where
  pub param_acp_id : Option String
  pub param_id : Option String
  pub authorization : Option Text
  pub query_token : Option Text
  pub query_auth_token : Option Text
  pub user : Option Principal

-- The verified payload of a token.
pub record Payload : Type 0 where
  pub sub : String
  pub kind : PrincipalKind
  pub auth_type : PrincipalKind
  pub acp_id : Option String

-- `a || b` over texts that may be missing
abbrev pub or_text : Option String → Option String → Option String
or_text none b = b
or_text (some a) b = if same a "" then b else some a

abbrev pub or_token : Option Text → Option Text → Option Text
or_token none b = b
or_token (some a) b = if is_empty a then b else some a

-- the code units of "Bearer "
abbrev pub bearer : Text
bearer = b'B' ∷ b'e' ∷ b'a' ∷ b'r' ∷ b'e' ∷ b'r' ∷ 32 ∷ []

-- `text.startsWith(prefix)` with `text.slice(prefix.length)`
abbrev pub strip_prefix : Text → Text → Option Text
strip_prefix [] text = some text
strip_prefix (c ∷ rest) [] = none
strip_prefix (c ∷ rest) (d ∷ text) = if c == d then strip_prefix rest text else none

abbrev pub bearer_token : Option Text → Option Text
bearer_token none = none
bearer_token (some header) = elim (strip_prefix bearer header) [
  | none ↦ none
  | some token ↦ some (trim token)
]

-- `bearerToken || queryToken`, or none where that is missing or empty
unfoldable pub token_of : Incoming → Option Text
token_of incoming =
    or_token (bearer_token incoming.authorization)
      (or_token (or_token incoming.query_token incoming.query_auth_token) none)

abbrev pub role_of : Option UserRole → Option AcpRole
role_of none = none
role_of (some r) = some r.role

-- The principal of a verified payload; `users LEFT JOIN acp_user_roles` is one row or none.
unfoldable pub principal_of : Database → String → Payload → Option Principal
unfolding find_role
principal_of db acp_id payload =
    if is_credential payload.kind
    then some (record {
      sub = payload.sub;
      kind = payload.kind;
      is_app_admin = false;
      acp_id = payload.acp_id;
      resolved_role = none;
    })
    else if not (is_oidc payload.kind) || not (is_oidc payload.auth_type)
    then none
    else elim (find (λ (u : User). same u.id payload.sub) db.users) [
      | none ↦ none
      | some u ↦ some (record {
        sub = payload.sub;
        kind = payload.kind;
        is_app_admin = u.is_app_admin;
        acp_id = payload.acp_id;
        resolved_role = some (role_of (find_role db payload.sub acp_id));
      })
    ]

abbrev pub level_of : AcpRole → AccessLevel
level_of acp_manager = manager
level_of read_only = reader

-- The test that refuses a credential in the guard.
abbrev pub config_refused : String → ℕ → AccessConfig → Bool
config_refused acp_id now config =
    not (same config.acp_id acp_id)
    || not (is_credentials_list config.access_model)
    || not_yet_valid config.valid_from now
    || no_longer_valid config.valid_until now

-- the configuration of a credential, `credential?.accessConfig`
abbrev pub credential_config : Database → String → Option AccessConfig
credential_config db id = elim (find_credential db id) [ none ↦ none | some row ↦ config_of db row ]

unfoldable pub credential_access : Database → ℕ → String → Principal → Result AccessLevel
unfolding find_credential config_of
credential_access db now acp_id user = elim (credential_config db user.sub) [
  | none ↦ err forbidden
  | some config ↦ if config_refused acp_id now config then err forbidden else ok credential_level
]

-- The role that counts: the one resolved with the token, or else the stored one.
unfoldable pub effective_role : Database → String → Principal → Option AcpRole
unfolding find_role
effective_role db acp_id user = elim user.resolved_role [
  | none ↦ role_of (find_role db user.sub acp_id)
  | some role ↦ role
]

-- the public fallback at the end of `canActivate`
unfoldable pub public_access : Database → String → Result AccessLevel
unfolding find_public_config
public_access db acp_id = elim (find_public_config db acp_id) [
  | none ↦ err forbidden
  | some config ↦ ok public_level
]

-- The decision of `canActivate` for the user at hand.
unfoldable pub access_level : Database → ℕ → String → Option Principal → Result AccessLevel
unfolding credential_access effective_role public_access
access_level db now acp_id none = public_access db acp_id
access_level db now acp_id (some user) =
    if user.is_app_admin
    then ok admin
    else if is_credential user.kind && is_text user.acp_id acp_id
    then credential_access db now acp_id user
    else if is_oidc user.kind
    then elim (effective_role db acp_id user) [
      | none ↦ public_access db acp_id
      | some role ↦ ok (level_of role)
    ]
    else public_access db acp_id

-- The token library (`verifyAsync`, none where it throws) and the UUID test are not the program's.
module _ (verify : Text → Option Payload) (is_uuid : String → Bool) where
  unfoldable pub resolve_user : Database → String → Incoming → Option Principal
  unfolding token_of principal_of
  resolve_user db acp_id incoming = elim (token_of incoming) [
    | none ↦ none
    | some token ↦ elim (verify token) [
      | none ↦ none
      | some payload ↦ principal_of db acp_id payload
    ]
  ]

  -- `request.user`, resolved from the token if no guard before has set it
  unfoldable pub user_of : Database → String → Incoming → Option Principal
  unfolding resolve_user
  user_of db acp_id incoming = elim incoming.user [
    | none ↦ resolve_user db acp_id incoming
    | some user ↦ some user
  ]

  -- `canActivate` past the checks of the parameter
  unfoldable pub activate : Database → ℕ → Incoming → String → Result Request
  unfolding user_of access_level
  activate db now incoming acp_id = do
    level ← access_level db now acp_id (user_of db acp_id incoming)
    ok (record {
      acp_id = acp_id;
      user = user_of db acp_id incoming;
      access_level = some level;
      capabilities = none;
    })

  unfoldable pub can_activate : Database → ℕ → Incoming → Result Request
  unfolding activate
  can_activate db now incoming = elim (or_text incoming.param_acp_id incoming.param_id) [
    | none ↦ err not_found
    | some acp_id ↦
        if same acp_id ""
        then err not_found
        else if is_uuid acp_id
        then activate db now incoming acp_id
        else err bad_request
  ]

  -- `ExplorerReadGuard.canActivate`
  unfoldable pub explorer_read : Database → ℕ → Incoming → Result Request
  unfolding can_activate assert
  explorer_read db now incoming = do
    req ← can_activate db now incoming
    assert db now req explorer_view true

  -- `ExplorerEditGuard.canActivate`
  unfoldable pub explorer_edit_guard : Database → ℕ → Incoming → Result Request
  unfolding can_activate assert
  explorer_edit_guard db now incoming = do
    req ← can_activate db now incoming
    assert db now req explorer_edit false
