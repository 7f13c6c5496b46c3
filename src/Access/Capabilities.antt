-- ===== src/Access/Capabilities.antt =====
-- backend/src/auth/capabilities: the four capabilities, the profiles that grant them, and
-- `AcpCapabilitiesService`, which resolves and asserts them on a request.
use content_pool_next.Base.{
  ℕ, String, string_eq, Bool, true, false, not, ◌&&◌, ◌||◌, Option, none, some, List, [], ◌∷◌, ◌++◌,
  any, contains, dedupe, same, if◌then◌else◌,
}
use content_pool_next.Base.Http.{Result, ok, err, bad_request, forbidden, ◌>>=◌, or_throw}
use content_pool_next.Access.Settings.{FeatureConfig, no_settings, is_false}
use content_pool_next.Access.{
  AccessConfig, UserRole, Principal, Database, Request, AccessLevel, admin, manager, is_public,
  is_credentials_list, is_credential, not_yet_valid, no_longer_valid, is_text, find_credential,
  config_of, find_role, find_config, public_level,
}

abbrev pub participate : String
participate = "review:participate"

abbrev pub manage : String
manage = "review:manage"

abbrev pub explorer_view : String
explorer_view = "item-explorer:view"

abbrev pub explorer_edit : String
explorer_edit = "item-explorer:edit"

abbrev pub acp_capabilities : List String
acp_capabilities = participate ∷ manage ∷ explorer_view ∷ explorer_edit ∷ []

-- The argument is a list of texts, or none where the value is no array.
unfoldable pub normalize_grants : Option (List String) → Result (List String)
normalize_grants none = err bad_request
normalize_grants (some grants) =
    if any (λ v. not (contains v acp_capabilities)) grants
    then err bad_request
    else ok (dedupe grants)

unfoldable pub has_capability : List String → String → Bool
has_capability grants capability =
    contains capability grants || (same capability explorer_view && contains explorer_edit grants)

-- `function f(x = fallback)`
abbrev pub or_default {ℓ} : {A : Type ℓ} → Option A → A → A
or_default none fallback = fallback
or_default (some a) fallback = a

unfoldable pub grants_of_profile : String → Option (List String) → Result (List String)
unfolding normalize_grants
grants_of_profile profile custom =
    if same profile "REVIEW_ONLY"
    then ok (participate ∷ [])
    else if same profile "ITEM_EXPLORER_ONLY"
    then ok (explorer_view ∷ [])
    else if same profile "BOTH"
    then ok (participate ∷ explorer_view ∷ [])
    else if same profile "CUSTOM"
    then normalize_grants custom
    else err bad_request

-- `custom` is missing, no array, or an array of texts.
unfoldable pub profile_grants : Option String → Option (Option (List String)) → Result (List String)
unfolding grants_of_profile
profile_grants profile custom =
    grants_of_profile (or_default profile "CUSTOM") (or_default custom (some []))

abbrev pub is_app_admin : Option Principal → Bool
is_app_admin none = false
is_app_admin (some u) = u.is_app_admin

abbrev pub is_management : Option AccessLevel → Bool
is_management (some admin) = true
is_management (some manager) = true
is_management _ = false

abbrev pub is_public_level : Option AccessLevel → Bool
is_public_level (some public_level) = true
is_public_level _ = false

unfoldable pub is_explorer_available : Request → FeatureConfig → Bool
is_explorer_available req features =
    is_app_admin req.user
    || is_management req.access_level
    || not (is_false features.enable_item_list)

-- The test under which a credential is refused, in `resolve`; the configuration is the joined one.
abbrev pub credential_refused : Request → Principal → AccessConfig → ℕ → Bool
credential_refused req user config now =
    not (is_text user.acp_id req.acp_id)
    || not (same config.acp_id req.acp_id)
    || not (is_credentials_list config.access_model)
    || not_yet_valid config.valid_from now
    || no_longer_valid config.valid_until now

-- The grants of a credential that is looked up and still good.
unfoldable pub credential_grants : Database → ℕ → Request → Principal → Result (List String)
unfolding find_credential config_of
credential_grants db now req user = do
  row ← or_throw (find_credential db user.sub) forbidden
  config ← or_throw (config_of db row) forbidden
  (if credential_refused req user config now then err forbidden else ok row.capabilities)

abbrev pub role_capabilities : Option UserRole → List String
role_capabilities none = []
role_capabilities (some role) = role.capabilities

-- The grants that are stored for the request's user, before administration adds its own.
unfoldable pub stored_grants : Database → ℕ → Request → Result (List String)
unfolding credential_grants find_role
stored_grants db now req = elim req.user [
  | none ↦ ok []
  | some user ↦
      if is_credential user.kind
      then credential_grants db now req user
      else if same user.sub ""
      then ok []
      else ok (role_capabilities (find_role db user.sub req.acp_id))
]

-- A credential of another ACP on a public ACP: `resolve` returns early with no grants.
abbrev pub is_foreign_credential : Request → Bool
is_foreign_credential req = elim req.user [
  | none ↦ false
  | some user ↦
      is_credential user.kind
      && not (is_text user.acp_id req.acp_id)
      && is_public_level req.access_level
]

abbrev pub with_administration : Option Principal → List String → List String
with_administration user grants =
    if is_app_admin user then grants ++ manage ∷ explorer_edit ∷ [] else grants

-- The result is the request with `acpCapabilities` set, which `resolve` also returns.
unfoldable pub resolve : Database → ℕ → Request → Result (List String)
unfolding stored_grants
resolve db now req =
    if is_foreign_credential req
    then ok []
    else (do grants ← stored_grants db now req; ok (dedupe (with_administration req.user grants)))

abbrev pub features_of : Option AccessConfig → FeatureConfig
features_of none = no_settings
features_of (some config) = config.feature_config

abbrev pub public_view_allowed : Option AccessConfig → Bool
public_view_allowed none = false
public_view_allowed (some config) =
    is_public config.access_model && not (is_false config.feature_config.enable_item_list)

abbrev pub is_explorer_capability : String → Bool
is_explorer_capability capability = same capability explorer_view || same capability explorer_edit

-- `config`, which is read for the two explorer capabilities only
abbrev pub config_for : Database → Request → String → Option AccessConfig
config_for db req capability =
    if is_explorer_capability capability then find_config db req.acp_id else none

-- `assert` once the grants are resolved. The request comes back with its `acpCapabilities`.
unfoldable pub assert_grants : Database → Request → String → Bool → List String → Result Request
unfolding is_explorer_available has_capability find_config
assert_grants db req capability allow_public grants =
    let config = config_for db req capability in
    if is_explorer_capability capability && not (is_explorer_available req (features_of config))
    then err forbidden
    else if has_capability grants capability
    then ok (record req { capabilities = some grants })
    else if allow_public && same capability explorer_view && public_view_allowed config
    then ok (record req { capabilities = some grants })
    else err forbidden

unfoldable pub assert : Database → ℕ → Request → String → Bool → Result Request
unfolding resolve assert_grants
assert db now req capability allow_public = do
  grants ← resolve db now req
  assert_grants db req capability allow_public grants
