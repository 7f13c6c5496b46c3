-- ===== src/Access/ExplorerLaws.antt =====
-- The explorer guards as a whole: `AcpAccessGuard` and then the assertion of a capability.
use content_pool_next.Base.{
  ℕ, String, string_eq, Bool, true, false, ◌||◌, Option, none, some, List, [], ◌≡◌, ◌⊎◌, inl, inr,
  refl, ◌∙◌, arith, contains, Bool-cases, Option-cases, ap, sym,
}
use content_pool_next.Base.Text.{Text}
use content_pool_next.Base.Http.{ok, ok_injective, >>=-eq-ok}
use content_pool_next.Access.Settings.{is_false}
use content_pool_next.Access.{
  AccessConfig, Principal, Database, Request, AccessLevel, acp_manager, find_config, is_public,
}
use content_pool_next.Access.Capabilities.{
  explorer_view, explorer_edit, stored_grants, resolve, assert, assert_grants,
  is_foreign_credential, is_app_admin, has_capability, public_view_allowed, is_management,
  is_explorer_capability, features_of,
}
use content_pool_next.Access.GrantLaws.{resolve-grants, resolve-foreign, assert-available}
use content_pool_next.Access.GuardLaws.{access_level-Grants}
use content_pool_next.Access.Reasons.{
  HoldsRole, Grants, by_admin, by_credential, by_manager, by_reader, by_public,
}
use content_pool_next.Access.Guard.{
  Incoming, Payload, or_text, user_of, access_level, activate, can_activate, explorer_read,
  explorer_edit_guard,
}

module _ (db : Database) (now : ℕ) where
  -- The grant behind a successful edit assertion.
  edit_reason :
      (req r : Request)
      → assert db now req explorer_edit false ≡ ok r
      → (grants stored : List String) × (stored_grants db now req ≡ ok stored)
        × (r ≡ record req { capabilities = some grants })
        × ((is_app_admin req.user || contains explorer_edit stored) ≡ true)
  unfolding assert assert_grants has_capability
  edit_reason req r e =
      let (grants, resolved, passed) = >>=-eq-ok (resolve db now req) _ e in
      elim (Bool-cases (is_foreign_credential req)) [
        | inl foreign ↦ absurd (ground (arith, resolve-foreign db now req foreign))
        | inr home ↦
            let (_, (stored, found, iff)) = resolve-grants db now req grants home resolved in
            (grants, stored, found, ground arith, ground (arith, iff explorer_edit))
      ]

  stored_grants-none : (req : Request) → req.user ≡ none → stored_grants db now req ≡ ok []
  unfolding stored_grants
  stored_grants-none req h = rw h

  -- The grants do not depend on what an earlier resolution has left on the request.
  stored_grants-record :
      (req : Request) (grants : Option (List String))
      → stored_grants db now (record req { capabilities = grants }) ≡ stored_grants db now req
  unfolding stored_grants
  stored_grants-record req grants = refl

  edit_user :
      (user : Option Principal) (req : Request) (stored : List String)
      → req.user ≡ user
      → stored_grants db now req ≡ ok stored
      → (is_app_admin req.user || contains explorer_edit stored) ≡ true
      → (u : Principal) × (req.user ≡ some u)
        × ((u.is_app_admin ≡ true) ⊎ (contains explorer_edit stored ≡ true))
  edit_user none req stored h found reason = absurd (ground (arith, stored_grants-none req h))
  edit_user (some u) req stored h found reason = (u, h, ground arith)

  -- An assertion that passes changes nothing of the request but its capabilities.
  assert_keeps :
      (req r : Request) (capability : String) (allow_public : Bool)
      → assert db now req capability allow_public ≡ ok r
      → (grants : List String) × (r ≡ record req { capabilities = some grants })
  unfolding assert assert_grants
  assert_keeps req r capability allow_public e =
      let (grants, resolved, passed) = >>=-eq-ok (resolve db now req) _ e in (grants, ground arith)

  view_anonymous :
      (req r : Request)
      → req.user ≡ none
      → assert db now req explorer_view true ≡ ok r
      → public_view_allowed (find_config db req.acp_id) ≡ true
  unfolding assert assert_grants has_capability resolve
  view_anonymous req r h e = ground (arith, stored_grants-none req h)

  public_config :
      (config : Option AccessConfig)
      → public_view_allowed config ≡ true
      → (c : AccessConfig) × (config ≡ some c)
        × (is_public c.access_model ≡ true)
        × (is_false c.feature_config.enable_item_list ≡ false)
  public_config none h = absurd (ground arith)
  public_config (some c) h = (c, refl, ground arith, ground arith)

module _ (verify : Text → Option Payload) (is_uuid : String → Bool) where
  -- Nobody passes the edit guard without being signed in, and then only an app administrator or a
  -- user whose stored grants for this ACP hold `item-explorer:edit`.
  pub explorer_edit_guard-user :
      (db : Database) (now : ℕ) (incoming : Incoming) (r : Request)
      → explorer_edit_guard verify is_uuid db now incoming ≡ ok r
      → (u : Principal) × (stored : List String) × (r.user ≡ some u)
        × (stored_grants db now r ≡ ok stored)
        × ((u.is_app_admin ≡ true) ⊎ (contains explorer_edit stored ≡ true))
  unfolding explorer_edit_guard
  explorer_edit_guard-user db now incoming r e =
      let (req, _, asserted) = >>=-eq-ok (can_activate verify is_uuid db now incoming) _ e in
      let (grants, stored, found, request, reason) = edit_reason db now req r asserted in
      let (u, who, because) = edit_user db now req.user req stored refl found reason in
      (
        u,
        stored,
        rw request who,
        rw request (stored_grants-record db now req (some grants) ∙ found),
        because,
      )

  -- Without a user only a public ACP can be read in the explorer, and only while its item list is
  -- not switched off.
  pub explorer_read-anonymous :
      (db : Database) (now : ℕ) (incoming : Incoming) (r : Request)
      → explorer_read verify is_uuid db now incoming ≡ ok r
      → r.user ≡ none
      → (c : AccessConfig) × (find_config db r.acp_id ≡ some c)
        × (is_public c.access_model ≡ true)
        × (is_false c.feature_config.enable_item_list ≡ false)
  unfolding explorer_read
  explorer_read-anonymous db now incoming r e nobody =
      let (req, _, asserted) = >>=-eq-ok (can_activate verify is_uuid db now incoming) _ e in
      let (grants, request) = assert_keeps db now req r explorer_view true asserted in
      rw request (
        public_config db now (find_config db req.acp_id)
          (view_anonymous db now req r (rw request at nobody) asserted))

  -- Who administers or manages, told from the level that the guard gives.
  management :
      (db : Database) (now : ℕ) (acp_id : String) (user : Option Principal) (level : AccessLevel)
      → Grants db now acp_id user level
      → (is_app_admin user || is_management (some level)) ≡ true
      → (u : Principal) × (user ≡ some u)
        × ((u.is_app_admin ≡ true) ⊎ HoldsRole db acp_id u acp_manager)
  management db now acp_id none level (by_public config stored here model) h = absurd (ground arith)
  management db now acp_id (some u) level (by_admin administers) h = (u, refl, inl administers)
  management db now acp_id (some u) level (by_credential row config kind home admitted) h =
      (u, refl, inl (ground arith))
  management db now acp_id (some u) level (by_manager kind held) h = (u, refl, inr held)
  management db now acp_id (some u) level (by_reader kind held) h = (u, refl, inl (ground arith))
  management db now acp_id (some u) level (by_public config stored here model) h =
      (u, refl, inl (ground arith))

  -- What the access guard leaves on a request that it lets pass.
  can_activate-level :
      (db : Database) (now : ℕ) (incoming : Incoming) (req : Request)
      → can_activate verify is_uuid db now incoming ≡ ok req
      → (level : AccessLevel) × (req.access_level ≡ some level)
        × (access_level db now req.acp_id req.user ≡ ok level)
  unfolding can_activate activate
  can_activate-level db now incoming req e =
      elim (Option-cases (or_text incoming.param_acp_id incoming.param_id)) [
        | inl missing ↦ absurd (ground (arith, missing, e))
        | inr (acp_id, given) ↦
            let active : activate verify is_uuid db now incoming acp_id ≡ ok req =
              ground (arith, given, e) in
            let (level, decided, last) =
              >>=-eq-ok (access_level db now acp_id (user_of verify is_uuid db acp_id incoming)) _
                active in
            let request = ok_injective last in
            (level, ap (λ (r : Request). r.access_level) (sym request), rw (← request) decided)
      ]

  asserted :
      (db : Database) (now : ℕ) (incoming : Incoming) (req r : Request) (capability : String)
      (allow_public : Bool)
      → is_explorer_capability capability ≡ true
      → can_activate verify is_uuid db now incoming ≡ ok req
      → assert db now req capability allow_public ≡ ok r
      → is_false (features_of (find_config db r.acp_id)).enable_item_list ≡ true
      → (u : Principal) × (r.user ≡ some u)
        × ((u.is_app_admin ≡ true) ⊎ HoldsRole db r.acp_id u acp_manager)
  asserted db now incoming req r capability allow_public explorer active passed off =
      let (grants, request) = assert_keeps db now req r capability allow_public passed in
      let (level, given, decided) = can_activate-level db now incoming req active in
      let high =
        assert-available db now req capability allow_public r explorer (rw request at off) passed in
      rw request (
        management db now req.acp_id req.user level
          (access_level-Grants db now req.acp_id req.user level decided) (rw given at high))

  -- While the item list of an ACP is switched off, whoever passes the read or the edit guard of the
  -- explorer is an app administrator or holds the role of a manager in this ACP, by the token or by
  -- a stored row.
  pub explorer-switched_off :
      (db : Database) (now : ℕ) (incoming : Incoming) (r : Request)
      → (explorer_read verify is_uuid db now incoming ≡ ok r)
        ⊎ (explorer_edit_guard verify is_uuid db now incoming ≡ ok r)
      → is_false (features_of (find_config db r.acp_id)).enable_item_list ≡ true
      → (u : Principal) × (r.user ≡ some u)
        × ((u.is_app_admin ≡ true) ⊎ HoldsRole db r.acp_id u acp_manager)
  unfolding explorer_read explorer_edit_guard
  explorer-switched_off db now incoming r (inl e) off =
      let (req, active, passed) = >>=-eq-ok (can_activate verify is_uuid db now incoming) _ e in
      asserted db now incoming req r explorer_view true refl active passed off
  explorer-switched_off db now incoming r (inr e) off =
      let (req, active, passed) = >>=-eq-ok (can_activate verify is_uuid db now incoming) _ e in
      asserted db now incoming req r explorer_edit false refl active passed off
