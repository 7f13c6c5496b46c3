-- ===== src/Access/GuardLaws.antt =====
-- What the decisions of `canActivate` (backend/src/auth/guards/acp-access.guard.ts) rest on, and how
-- they agree with the capabilities that are resolved later.
use content_pool_next.Base.{
  ℕ, String, string_eq, true, false, ◌&&◌, Option, none, some, ◌≡◌, inl, inr, arith, str_eq_iff,
  Bool-cases, Option-cases, find-Memᴰ, find_sound,
}
use content_pool_next.Base.Http.{ok}
use content_pool_next.Access.{
  AccessConfig, AcpRole, acp_manager, read_only, Principal, Database, AccessLevel, admin,
  credential_level, public_level, is_credential, is_oidc, is_text, credentials_list,
  find_credential, config_of, find_public_config,
}
use content_pool_next.Access.Reasons.{
  IsCurrent, HoldsRole, Grants, by_admin, by_credential, by_manager, by_reader, by_public,
  public_row, effective_role-HoldsRole,
}
use content_pool_next.Access.Guard.{
  effective_role, level_of, credential_access, public_access, config_refused, access_level,
}

is_text_sound :
    (text : Option String) (value : String) → is_text text value ≡ true → text ≡ some value
is_text_sound none value h = absurd (ground arith)
is_text_sound (some text) value h = ground (arith, str_eq_iff text value)

module _ (db : Database) (now : ℕ) (acp_id : String) where
  public_access-Grants :
      (user : Option Principal) (level : AccessLevel)
      → public_access db acp_id ≡ ok level
      → Grants db now acp_id user level
  unfolding public_access
  public_access-Grants user level e = elim (Option-cases (find_public_config db acp_id)) [
    | inl missing ↦ absurd (ground arith)
    | inr (config, found) ↦
        let at_public : public_level ≡ level = ground arith in
        let (stored, here, model) = public_row db acp_id config found in
        rw (← at_public) (by_public config stored here model)
  ]

  config_ok :
      (config : AccessConfig)
      → config_refused acp_id now config ≡ false
      → (config.acp_id ≡ acp_id) × (config.access_model ≡ credentials_list) × IsCurrent now config
  config_ok config h = (
    ground (arith, str_eq_iff config.acp_id acp_id),
    ground arith,
    record { started = λ from e. ground arith; running = λ until e. ground arith },
  )

  credential_access-Grants :
      (user : Principal) (level : AccessLevel)
      → is_credential user.kind ≡ true
      → is_text user.acp_id acp_id ≡ true
      → credential_access db now acp_id user ≡ ok level
      → Grants db now acp_id (some user) level
  unfolding credential_access find_credential config_of
  credential_access-Grants user level kind home e =
      elim (Option-cases (find_credential db user.sub)) [
        | inl missing ↦ absurd (ground arith)
        | inr (row, found) ↦ elim (Option-cases (config_of db row)) [
          | inl missing ↦ absurd (ground arith)
          | inr (config, joined) ↦ elim (Bool-cases (config_refused acp_id now config)) [
            | inl refused ↦ absurd (ground arith)
            | inr good ↦
                let at_level : credential_level ≡ level = ground arith in
                let (here, model, current) = config_ok config good in
                rw (← at_level) (
                  by_credential row config (ground (arith, kind))
                    (is_text_sound user.acp_id acp_id home)
                    (record {
                      stored = find-Memᴰ _ db.credentials row found;
                      named =
                          (str_eq_iff row.id user.sub).0 (find_sound _ db.credentials row found);
                      config_stored = find-Memᴰ _ db.configs config joined;
                      config_named =
                          (str_eq_iff config.id row.access_config_id).0
                            (find_sound _ db.configs config joined);
                      acp = here;
                      model = model;
                      current = current;
                    }))
          ]
        ]
      ]

  role-Grants :
      (user : Principal) (level : AccessLevel)
      → is_oidc user.kind ≡ true
      → (elim (effective_role db acp_id user) [
        | none ↦ public_access db acp_id
        | some role ↦ ok (level_of role)
      ])
        ≡ ok level
      → Grants db now acp_id (some user) level
  role-Grants user level kind e = elim (Option-cases (effective_role db acp_id user)) [
    | inl missing ↦ public_access-Grants (some user) level (ground arith)
    | inr (role, found) ↦
        at_role role (effective_role-HoldsRole db acp_id user role found) (ground arith)
  ]
    where
      at_role :
          (role : AcpRole)
          → HoldsRole db acp_id user role
          → level_of role ≡ level
          → Grants db now acp_id (some user) level
      at_role acp_manager held at = rw (← at) (by_manager (ground (arith, kind)) held)
      at_role read_only held at = rw (← at) (by_reader (ground (arith, kind)) held)

  pub access_level-Grants :
      (user : Option Principal) (level : AccessLevel)
      → access_level db now acp_id user ≡ ok level
      → Grants db now acp_id user level
  unfolding access_level
  access_level-Grants none level e = public_access-Grants none level e
  access_level-Grants (some user) level e = elim (Bool-cases user.is_app_admin) [
    | inl yes_admin ↦
        let at_level : admin ≡ level = ground arith in rw (← at_level) (by_admin yes_admin)
    | inr no_admin ↦ elim (Bool-cases (is_credential user.kind && is_text user.acp_id acp_id)) [
      | inl own ↦ credential_access-Grants user level (ground arith) (ground arith) (ground arith)
      | inr foreign ↦ elim (Bool-cases (is_oidc user.kind)) [
        | inl kind ↦ role-Grants user level kind (ground arith)
        | inr other_kind ↦ public_access-Grants (some user) level (ground arith)
      ]
    ]
  ]
