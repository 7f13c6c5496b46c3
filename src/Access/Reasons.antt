-- ===== src/Access/Reasons.antt =====
-- Why a user has access to an ACP, read off the rows of the database and not off the lookups of
-- backend/src/auth/guards/acp-access.guard.ts, and how those lookups find these rows.
use content_pool_next.Base.{
  ℕ, String, string_eq, true, ◌&&◌, ◌≤◌, Option, none, some, ◌≡◌, inl, inr, arith, find_sound, Memᴰ,
  find-Memᴰ, Memᴰ-find, same, same_refl, str_eq_iff, Option-cases,
}
use content_pool_next.Access.{
  AccessConfig, Credential, AcpRole, acp_manager, read_only, UserRole, Principal, Database,
  AccessLevel, admin, manager, reader, credential_level, public_level, credential, oidc,
  public_access as public_model, credentials_list, is_public, find_role, find_public_config,
}
use content_pool_next.Access.Guard.{effective_role}

-- The dates of a configuration include the present.
pub record IsCurrent (now : ℕ) (config : AccessConfig) : Type 0 where
  pub started : (from : ℕ) → config.valid_from ≡ some from → from ≤ now
  pub running : (until : ℕ) → config.valid_until ≡ some until → now ≤ until

-- The role of a user in an ACP: the one that came with the token, or else the one of a stored row.
pub data HoldsRole (db : Database) (acp_id : String) (user : Principal) (role : AcpRole)
    : Type 0 where
  by_token : user.resolved_role ≡ some (some role) → HoldsRole db acp_id user role
  by_row :
      (row : UserRole)
      → user.resolved_role ≡ none
      → Memᴰ row db.roles
      → row.user_id ≡ user.sub
      → row.acp_id ≡ acp_id
      → row.role ≡ role
      → HoldsRole db acp_id user role

-- A row of the credentials with its configuration, which lists credentials for this very ACP.
pub record Admits (db : Database) (now : ℕ) (acp_id : String) (user : Principal) (row : Credential)
    (config : AccessConfig) : Type 0 where
  pub stored : Memᴰ row db.credentials
  pub named : row.id ≡ user.sub
  pub config_stored : Memᴰ config db.configs
  pub config_named : config.id ≡ row.access_config_id
  pub acp : config.acp_id ≡ acp_id
  pub model : config.access_model ≡ credentials_list
  pub current : IsCurrent now config

-- Why a user has access to an ACP, and at which level.
pub data Grants (db : Database) (now : ℕ) (acp_id : String)
    : Option Principal → AccessLevel → Type 0 where
  by_admin : {user : Principal} → user.is_app_admin ≡ true → Grants db now acp_id (some user) admin
  by_credential :
      {user : Principal} (row : Credential) (config : AccessConfig)
      → user.kind ≡ credential
      → user.acp_id ≡ some acp_id
      → Admits db now acp_id user row config
      → Grants db now acp_id (some user) credential_level
  by_manager :
      {user : Principal}
      → user.kind ≡ oidc
      → HoldsRole db acp_id user acp_manager
      → Grants db now acp_id (some user) manager
  by_reader :
      {user : Principal}
      → user.kind ≡ oidc
      → HoldsRole db acp_id user read_only
      → Grants db now acp_id (some user) reader
  by_public :
      {user : Option Principal} (config : AccessConfig)
      → Memᴰ config db.configs
      → config.acp_id ≡ acp_id
      → config.access_model ≡ public_model
      → Grants db now acp_id user public_level

module _ (db : Database) (acp_id : String) where
  -- The public configuration that the guard finds is a stored one.
  pub public_row :
      (config : AccessConfig)
      → find_public_config db acp_id ≡ some config
      → Memᴰ config db.configs × (config.acp_id ≡ acp_id) × (config.access_model ≡ public_model)
  unfolding find_public_config
  public_row config found =
      let test = find_sound _ db.configs config found in
      (
        find-Memᴰ _ db.configs config found,
        ground (arith, test, str_eq_iff config.acp_id acp_id),
        ground (arith, test),
      )

  pub public_found :
      (config : AccessConfig)
      → Memᴰ config db.configs
      → config.acp_id ≡ acp_id
      → config.access_model ≡ public_model
      → ¬ (find_public_config db acp_id ≡ none)
  unfolding find_public_config
  public_found config stored here model missing =
      Memᴰ-find (λ (g : AccessConfig). same g.acp_id acp_id && is_public g.access_model) db.configs
        config stored (rw (here, model, same_refl acp_id)) missing

  -- The role that counts is one that the user holds.
  pub effective_role-HoldsRole :
      (user : Principal) (role : AcpRole)
      → effective_role db acp_id user ≡ some role
      → HoldsRole db acp_id user role
  unfolding effective_role find_role
  effective_role-HoldsRole user role e = elim (Option-cases user.resolved_role) [
    | inr (resolved, given) ↦ by_token (ground (arith, given, e))
    | inl absent ↦ elim (Option-cases (find_role db user.sub acp_id)) [
      | inl missing ↦ absurd (ground (arith, absent, missing, e))
      | inr (row, found) ↦
          let test = find_sound _ db.roles row found in
          by_row row absent (find-Memᴰ _ db.roles row found)
            (ground (arith, test, str_eq_iff row.user_id user.sub))
            (ground (arith, test, str_eq_iff row.acp_id acp_id)) (ground (arith, absent, found, e))
    ]
  ]

  -- Whoever holds a role has one that counts.
  pub HoldsRole-effective_role :
      (user : Principal) (role : AcpRole)
      → HoldsRole db acp_id user role
      → ¬ (effective_role db acp_id user ≡ none)
  unfolding effective_role find_role
  HoldsRole-effective_role user role (by_token given) missing = ground (arith, given, missing)
  HoldsRole-effective_role user role (by_row row absent stored named here held) missing =
      Memᴰ-find (λ (r : UserRole). same r.user_id user.sub && same r.acp_id acp_id) db.roles row
        stored (rw (named, here, same_refl user.sub, same_refl acp_id)) (no_row missing)
    where
      no_row : effective_role db acp_id user ≡ none → find_role db user.sub acp_id ≡ none
      no_row missing = ground (arith, absent, missing)
