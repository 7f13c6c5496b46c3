-- ===== src/Access/Tests.antt =====
-- A small database, runs of the guards on it, and each theorem at an input that meets its
-- hypotheses.
use content_pool_next.Base.{
  String, string_eq, Bool, true, false, ◌&&◌, ◌||◌, Option, none, some, List, [], ◌∷◌, ◌≡◌, ◌⊎◌,
  refl, contains, IsDistinct, inl,
}
use content_pool_next.Base.Text.{Text}
use content_pool_next.Base.Http.{ok, err, forbidden}
use content_pool_next.Access.Settings.{no_settings, flag, is_false}
use content_pool_next.Access.{
  AccessConfig, Credential, UserRole, Principal, Database, Request, credentials_list,
  public_access as public_model, acp_manager, read_only, manager, credential, oidc, reader,
  credential_level, public_level, find_credential, find_config, find_public_config, is_public,
}
use content_pool_next.Access.Capabilities.{
  participate, manage, explorer_view, explorer_edit, profile_grants, stored_grants, resolve, assert,
  is_app_admin,
}
use content_pool_next.Access.GrantLaws.{
  AreKnown, profile_grants-AreKnown, resolve-grants, assert-participate, assert-edit_view,
}
use content_pool_next.Access.Guard.{
  Incoming, Payload, access_level, can_activate, explorer_read, explorer_edit_guard, token_of,
}
use content_pool_next.Access.Reasons.{HoldsRole}
use content_pool_next.Access.ExplorerLaws.{
  explorer_edit_guard-user, explorer_read-anonymous, explorer-switched_off,
}

abbrev open_config : AccessConfig
open_config = record {
  id = "g1";
  acp_id = "open";
  access_model = public_model;
  feature_config = no_settings;
  valid_from = none;
  valid_until = none;
}

abbrev listed_config : AccessConfig
listed_config = record {
  id = "g2";
  acp_id = "listed";
  access_model = credentials_list;
  feature_config = record no_settings { enable_item_list = flag false };
  valid_from = some 10;
  valid_until = some 90;
}

abbrev reviewer_row : Credential
reviewer_row = record {
  id = "c1";
  access_config_id = "g2";
  username = "rev";
  capabilities = participate ∷ [];
}

abbrev editor_role : UserRole
editor_role = record {
  user_id = "u1";
  acp_id = "open";
  role = read_only;
  capabilities = explorer_edit ∷ [];
}

abbrev manager_role : UserRole
manager_role = record {
  user_id = "u2";
  acp_id = "listed";
  role = acp_manager;
  capabilities = explorer_view ∷ [];
}

abbrev db : Database
db = record {
  configs = open_config ∷ listed_config ∷ [];
  credentials = reviewer_row ∷ [];
  roles = editor_role ∷ manager_role ∷ [];
  users = [];
}

abbrev reviewer : Principal
reviewer = record {
  sub = "c1";
  kind = credential;
  is_app_admin = false;
  acp_id = some "listed";
  resolved_role = none;
}

abbrev editor : Principal
editor = record {
  sub = "u1";
  kind = oidc;
  is_app_admin = false;
  acp_id = none;
  resolved_role = none;
}

abbrev leader : Principal
leader = record {
  sub = "u2";
  kind = oidc;
  is_app_admin = false;
  acp_id = none;
  resolved_role = none;
}

abbrev review_request : Request
review_request = record {
  acp_id = "listed";
  user = some reviewer;
  access_level = some credential_level;
  capabilities = none;
}

abbrev edit_request : Request
edit_request = record {
  acp_id = "open";
  user = some editor;
  access_level = some reader;
  capabilities = none;
}

abbrev visit : Option Principal → Incoming
visit user = record {
  param_acp_id = some "open";
  param_id = none;
  authorization = none;
  query_token = none;
  query_auth_token = none;
  user = user;
}

abbrev no_token : Text → Option Payload
no_token _ = none

abbrev any_id : String → Bool
any_id _ = true

run : Unit {0}
unfolding profile_grants stored_grants resolve assert access_level can_activate explorer_read
    explorer_edit_guard token_of find_credential find_config find_public_config
run = tt

grants_test : (resolve db 50 review_request ≡ ok (participate ∷ []))
unfolding run
grants_test = refl

expired_test : access_level db 91 "listed" (some reviewer) ≡ err forbidden
unfolding run
expired_test = refl

profile_grants-AreKnown_example :
    IsDistinct (participate ∷ explorer_view ∷ []) × AreKnown (participate ∷ explorer_view ∷ [])
unfolding run
profile_grants-AreKnown_example =
    profile_grants-AreKnown (some "BOTH") none (participate ∷ explorer_view ∷ []) refl

resolve-grants_example :
    IsDistinct (participate ∷ [])
    × ((stored : List String) × (stored_grants db 50 review_request ≡ ok stored)
        × ((c : String)
            → contains c (participate ∷ []) ≡ (
                contains c stored
                || (is_app_admin (some reviewer) && contains c (manage ∷ explorer_edit ∷ [])))))
unfolding run
resolve-grants_example = resolve-grants db 50 review_request (participate ∷ []) refl refl

assert-participate_example :
    (stored : List String) × (stored_grants db 50 review_request ≡ ok stored)
    × (contains participate stored ≡ true)
unfolding run
assert-participate_example =
    assert-participate db 50 review_request false
      (record review_request { capabilities = some (participate ∷ []) }) refl

assert-edit_view_example :
    assert db 50 edit_request explorer_view false
    ≡ ok (record edit_request { capabilities = some (explorer_edit ∷ []) })
unfolding run
assert-edit_view_example =
    assert-edit_view db 50 edit_request false
      (record edit_request { capabilities = some (explorer_edit ∷ []) }) refl

explorer-switched_off_example :
    (u : Principal) × (some leader ≡ some u)
    × ((u.is_app_admin ≡ true) ⊎ HoldsRole db "listed" u acp_manager)
unfolding run
explorer-switched_off_example =
    explorer-switched_off no_token any_id db 50
      (record (visit (some leader)) { param_acp_id = some "listed" })
      (record {
        acp_id = "listed";
        user = some leader;
        access_level = some manager;
        capabilities = some (explorer_view ∷ []);
      })
      (inl refl) refl

explorer_edit_guard-user_example :
    (u : Principal) × (stored : List String) × (some editor ≡ some u)
    × (stored_grants db 50 (record edit_request { capabilities = some (explorer_edit ∷ []) })
        ≡ ok stored)
    × ((u.is_app_admin ≡ true) ⊎ (contains explorer_edit stored ≡ true))
unfolding run
explorer_edit_guard-user_example =
    explorer_edit_guard-user no_token any_id db 50 (visit (some editor))
      (record edit_request { capabilities = some (explorer_edit ∷ []) }) refl

explorer_read-anonymous_example :
    (c : AccessConfig) × (find_config db "open" ≡ some c)
    × (is_public c.access_model ≡ true)
    × (is_false c.feature_config.enable_item_list ≡ false)
unfolding run
explorer_read-anonymous_example =
    explorer_read-anonymous no_token any_id db 50 (visit none)
      (record {
        acp_id = "open";
        user = none;
        access_level = some public_level;
        capabilities = some [];
      })
      refl refl
