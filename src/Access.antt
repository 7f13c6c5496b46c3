-- ===== src/Access.antt =====
-- The data that access decisions read: backend/src/database/entities (access configuration,
-- credentials, roles, users), the signed-in principal and the request that the guards fill in.
-- A repository is the list of its rows, and `findOne` the first row that fits.
pub mod Settings
pub mod Capabilities
pub mod Guard
pub mod Reasons
pub mod GuardLaws
pub mod Completeness
pub mod GrantLaws
pub mod ExplorerLaws
mod Tests
use content_pool_next.Base.{
  ℕ, String, string_eq, Bool, true, false, ◌&&◌, Option, none, some, List, find, same, ltb,
  if◌then◌else◌,
}
use content_pool_next.Access.Settings.{FeatureConfig}

pub data AccessModel : Type 0 where
  private_access public_access registered credentials_list : AccessModel

pub data AcpRole : Type 0 where
  acp_manager read_only : AcpRole

-- The `type` and `authType` of a token; `other` is any further text, or none.
pub data PrincipalKind : Type 0 where
  credential oidc other : PrincipalKind

pub data AccessLevel : Type 0 where
  admin manager reader credential_level public_level : AccessLevel

-- Dates are milliseconds.
pub record AccessConfig : Type 0 where
  pub id : String
  pub acp_id : String
  pub access_model : AccessModel
  pub feature_config : FeatureConfig
  pub valid_from : Option ℕ
  pub valid_until : Option ℕ

pub record Credential : Type 0 where
  pub id : String
  pub access_config_id : String
  pub username : String
  pub capabilities : List String

pub record UserRole : Type 0 where
  pub user_id : String
  pub acp_id : String
  pub role : AcpRole
  pub capabilities : List String

pub record User : Type 0 where
  pub id : String
  pub is_app_admin : Bool

-- `request.user`. `resolved_role` is `none` where the object has no such property.
pub record Principal : Type 0 where
  pub sub : String
  pub kind : PrincipalKind
  pub is_app_admin : Bool
  pub acp_id : Option String
  pub resolved_role : Option (Option AcpRole)

pub record Database : Type 0 where
  pub configs : List AccessConfig
  pub credentials : List Credential
  pub roles : List UserRole
  pub users : List User

-- What `acpAccessLevel` and `acpCapabilities` hold once the guards have run.
pub record Request : Type 0 where
  pub acp_id : String
  pub user : Option Principal
  pub access_level : Option AccessLevel
  pub capabilities : Option (List String)

abbrev pub is_public : AccessModel → Bool
is_public public_access = true
is_public _ = false

abbrev pub is_credentials_list : AccessModel → Bool
is_credentials_list credentials_list = true
is_credentials_list _ = false

abbrev pub is_credential : PrincipalKind → Bool
is_credential credential = true
is_credential _ = false

abbrev pub is_oidc : PrincipalKind → Bool
is_oidc oidc = true
is_oidc _ = false

-- `validFrom && validFrom > new Date()`
abbrev pub not_yet_valid : Option ℕ → ℕ → Bool
not_yet_valid none now = false
not_yet_valid (some from) now = ltb now from

-- `validUntil && validUntil < new Date()`
abbrev pub no_longer_valid : Option ℕ → ℕ → Bool
no_longer_valid none now = false
no_longer_valid (some until) now = ltb until now

-- `text === value` for a text that may be missing
abbrev pub is_text : Option String → String → Bool
is_text none value = false
is_text (some text) value = same text value

-- `credentials.findOne({ where: { id }, relations: ["accessConfig"] })`
unfoldable pub find_credential : Database → String → Option Credential
find_credential db id = find (λ c. same c.id id) db.credentials

-- the joined `credential.accessConfig`
unfoldable pub config_of : Database → Credential → Option AccessConfig
config_of db c = find (λ g. same g.id c.access_config_id) db.configs

-- `roles.findOne({ where: { userId, acpId } })`
unfoldable pub find_role : Database → String → String → Option UserRole
find_role db user_id acp_id = find (λ r. same r.user_id user_id && same r.acp_id acp_id) db.roles

-- `configs.findOne({ where: { acpId } })`
unfoldable pub find_config : Database → String → Option AccessConfig
find_config db acp_id = find (λ g. same g.acp_id acp_id) db.configs

-- `configs.findOne({ where: { acpId, accessModel: PUBLIC } })`
unfoldable pub find_public_config : Database → String → Option AccessConfig
find_public_config db acp_id =
    find (λ g. same g.acp_id acp_id && is_public g.access_model) db.configs
