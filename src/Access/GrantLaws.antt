-- ===== src/Access/GrantLaws.antt =====
-- What grants a request ends up with, and what `assert` lets through.
use content_pool_next.Base.{
  ℕ, String, string_eq, Bool, true, false, not, ◌&&◌, ◌||◌, Option, none, some, List, [], ◌∷◌, ◌≡◌,
  inl, inr, sym, ◌∙◌, arith, contains, dedupe, IsDistinct, dedupe_from-IsDistinct, contains-dedupe,
  contains-append, any, str_eq_iff, Bool-cases,
}
use content_pool_next.Base.Http.{ok, >>=-eq-ok}
use content_pool_next.Access.Settings.{is_false}
use content_pool_next.Access.{Principal, Database, Request, find_config}
use content_pool_next.Access.Capabilities.{
  participate, manage, explorer_view, explorer_edit, acp_capabilities, normalize_grants,
  grants_of_profile, profile_grants, has_capability, stored_grants, is_foreign_credential,
  with_administration, resolve, assert_grants, assert, is_app_admin, is_management, features_of,
  is_explorer_available, or_default, is_explorer_capability,
}

-- Every entry is one of the four capabilities.
abbrev pub AreKnown : List String → Type 0
AreKnown grants = (c : String) → contains c grants ≡ true → contains c acp_capabilities ≡ true

unknown_free :
    (c : String) (known grants : List String)
    → any (λ v. not (contains v known)) grants ≡ false
    → contains c grants ≡ true
    → contains c known ≡ true
unknown_free c known [] h m = absurd (ground arith)
unknown_free c known (g ∷ grants) h m = ground (arith, unknown_free c known grants, str_eq_iff g c)

normalize_grants-AreKnown :
    (custom : Option (List String)) (grants : List String)
    → normalize_grants custom ≡ ok grants
    → IsDistinct grants × AreKnown grants
unfolding normalize_grants
normalize_grants-AreKnown none grants e = absurd (ground arith)
normalize_grants-AreKnown (some raw) grants e =
    elim (Bool-cases (any (λ v. not (contains v acp_capabilities)) raw)) [
      | inl bad ↦ absurd (ground arith)
      | inr good ↦
          let kept : dedupe raw ≡ grants = ground arith in
          rw (← kept) (
            dedupe_from-IsDistinct [] raw,
            λ c m. unknown_free c acp_capabilities raw good (sym (contains-dedupe c raw) ∙ m),
          )
    ]

grants_of_profile-AreKnown :
    (profile : String) (custom : Option (List String)) (grants : List String)
    → grants_of_profile profile custom ≡ ok grants
    → IsDistinct grants × AreKnown grants
unfolding grants_of_profile
grants_of_profile-AreKnown profile custom grants e =
    grind (arith, normalize_grants-AreKnown custom grants)

-- Whatever profile is asked for, a list of grants that is accepted names each capability at most
-- once and only the four known ones.
pub profile_grants-AreKnown :
    (profile : Option String) (custom : Option (Option (List String))) (grants : List String)
    → profile_grants profile custom ≡ ok grants
    → IsDistinct grants × AreKnown grants
unfolding profile_grants
profile_grants-AreKnown profile custom grants e =
    grants_of_profile-AreKnown (or_default profile "CUSTOM") (or_default custom (some [])) grants e

module _ (db : Database) (now : ℕ) (req : Request) where
  contains-with_administration :
      (c : String) (user : Option Principal) (grants : List String)
      → contains c (with_administration user grants)
        ≡ (contains c grants || (is_app_admin user && contains c (manage ∷ explorer_edit ∷ [])))
  contains-with_administration c user grants =
      ground (arith, contains-append c grants (manage ∷ explorer_edit ∷ []))

  -- But for a request with a credential of another ACP on a public ACP, the resolved grants are the
  -- stored ones and, for an app administrator, exactly `review:manage` and `item-explorer:edit`
  -- besides. They are listed once each.
  pub resolve-grants :
      (grants : List String)
      → is_foreign_credential req ≡ false
      → resolve db now req ≡ ok grants
      → IsDistinct grants
        × ((stored : List String) × (stored_grants db now req ≡ ok stored)
            × ((c : String)
                → contains c grants ≡ (
                    contains c stored
                    || (is_app_admin req.user && contains c (manage ∷ explorer_edit ∷ [])))))
  unfolding resolve
  resolve-grants grants home e =
      let (stored, found, same_grants) = >>=-eq-ok (stored_grants db now req) _ (rw home at e) in
      let kept : dedupe (with_administration req.user stored) ≡ grants = ground arith in
      (
        rw (← kept) (dedupe_from-IsDistinct [] _),
        (
          stored,
          found,
          λ c. rw (← kept) (contains-dedupe c _ ∙ contains-with_administration c req.user stored),
        ),
      )

  -- What is stored and comes out.
  pub resolve-stored :
      (stored : List String)
      → is_foreign_credential req ≡ false
      → stored_grants db now req ≡ ok stored
      → resolve db now req ≡ ok (dedupe (with_administration req.user stored))
  unfolding resolve
  resolve-stored stored home found = rw (home, found)

  pub resolve-foreign : is_foreign_credential req ≡ true → resolve db now req ≡ ok []
  unfolding resolve
  resolve-foreign foreign = rw foreign

  -- Participation in a review is never implied: whoever passes the assertion, an app administrator
  -- too, has it among the grants stored for the request's user.
  pub assert-participate :
      (allow_public : Bool) (r : Request)
      → assert db now req participate allow_public ≡ ok r
      → (stored : List String) × (stored_grants db now req ≡ ok stored)
        × (contains participate stored ≡ true)
  unfolding assert assert_grants has_capability
  assert-participate allow_public r e =
      let (grants, resolved, passed) = >>=-eq-ok (resolve db now req) _ e in
      elim (Bool-cases (is_foreign_credential req)) [
        | inl foreign ↦ absurd (ground (arith, resolve-foreign foreign))
        | inr home ↦
            let (_, (stored, found, iff)) = resolve-grants grants home resolved in
            (stored, found, ground (arith, iff participate))
      ]

  -- Whoever may edit the explorer may view it: the view assertion passes on the same request.
  pub assert-edit_view :
      (allow_public : Bool) (r : Request)
      → assert db now req explorer_edit false ≡ ok r
      → assert db now req explorer_view allow_public ≡ ok r
  unfolding assert assert_grants has_capability
  assert-edit_view allow_public r e = ground arith

  -- With the item list switched off only administration and management pass an explorer assertion.
  pub assert-available :
      (capability : String) (allow_public : Bool) (r : Request)
      → is_explorer_capability capability ≡ true
      → is_false (features_of (find_config db req.acp_id)).enable_item_list ≡ true
      → assert db now req capability allow_public ≡ ok r
      → (is_app_admin req.user || is_management req.access_level) ≡ true
  unfolding assert assert_grants is_explorer_available
  assert-available capability allow_public r explorer off e = ground arith
