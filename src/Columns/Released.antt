-- ===== src/Columns/Released.antt =====
-- An item shows a reviewer the released fields and no others.
use content_pool_next.Base.{
  String, string_eq, Bool, true, false, not, ◌&&◌, ◌||◌, same, same_refl, ◌≡◌, refl, ap, ◌∙◌, arith,
  if◌then◌else◌, Bool-cases, inl, inr, str_eq_iff,
}
use content_pool_next.Base.Json.{
  Value, undefined, object, Fields, no_members, field, record_of, member, filter_fields,
  member-filter_fields,
}
use content_pool_next.Columns.{Policy, allows, allows_field, allows_metadata}
use content_pool_next.Columns.Projection.{
  field_if, project_metadata, project_occurrences, project_field, project_item_fields, project_item,
}

-- A key that an item holds as it is, if it holds it at all.
abbrev pub is_plain : String → Bool
is_plain key = not (same key "metadata") && not (same key "bookletOccurrences")

abbrev pub is_undefined : Value → Bool
is_undefined undefined = true
is_undefined _ = false

module _ (policy : Policy) where
  -- The field that a key finds in front of others.
  member-field_if :
      (there : Bool) (k key : String) (v : Value) (rest : Fields)
      → member key (field_if there k v rest) ≡ (if there && same k key then v else member key rest)
  member-field_if true k key v rest = refl
  member-field_if false k key v rest = refl

  other_field :
      (there : Bool) (k key : String) (v : Value) (rest : Fields)
      → same k key ≡ false
      → member key (field_if there k v rest) ≡ member key rest
  other_field true k key v rest h = rw h refl
  other_field false k key v rest h = refl

  plain_field :
      (k key : String) (v : Value) (rest : Fields)
      → is_plain key ≡ true
      → member key (project_field policy k v rest)
        ≡ (if same k key && allows_field policy key then v else member key rest)
  unfolding project_field
  plain_field k key v rest plain = elim (Bool-cases (same k key)) [
    | inl own ↦
        let one : k ≡ key = (str_eq_iff k key).0 own in
        let not_metadata : same key "metadata" ≡ false = ground (arith, plain) in
        let not_occurrences : same key "bookletOccurrences" ≡ false = ground (arith, plain) in
        rw (one, not_metadata, not_occurrences)
          (member-field_if (allows_field policy key) key key v rest
            ∙ (rw (same_refl key) (ground arith)))
    | inr other ↦ rw other (elim (Bool-cases (same k "metadata")) [
      | inl metadata ↦ rw (metadata, other) refl
      | inr no_metadata ↦ rw no_metadata (elim (Bool-cases (same k "bookletOccurrences")) [
        | inl occurrences ↦ rw occurrences (
            other_field
              (allows policy "metadata:booklet" || allows policy "metadata:bookletPosition") k key
              (project_occurrences policy v) rest other)
        | inr no_occurrences ↦
            rw no_occurrences (other_field (allows_field policy k) k key v rest other)
      ])
    ])
  ]

  plain_member :
      (key : String) (fields : Fields)
      → is_plain key ≡ true
      → member key (project_item_fields policy fields)
        ≡ (if allows_field policy key then member key fields else undefined)
  unfolding project_item_fields
  plain_member key no_members plain = ground arith
  plain_member key (field k v fields) plain =
      rw
        (
          plain_field k key v (project_item_fields policy fields) plain,
          plain_member key fields plain,
        )
        (elim (Bool-cases (same k key)) [
          | inl own ↦ rw own (ground arith)
          | inr other ↦ rw other refl
        ])

  metadata_fields :
      (fields : Fields)
      → record_of (member "metadata" (project_item_fields policy fields))
        ≡ filter_fields (allows_metadata policy) (record_of (member "metadata" fields))
  unfolding project_item_fields project_field project_metadata
  metadata_fields no_members = refl
  metadata_fields (field k v fields) = elim (Bool-cases (same k "metadata")) [
    | inl metadata ↦ rw (metadata, metadata) refl
    | inr other ↦
        let rest = project_item_fields policy fields in
        rw other (elim (Bool-cases (same k "bookletOccurrences")) [
          | inl occurrences ↦ rw occurrences (
              ap record_of (
                other_field
                  (allows policy "metadata:booklet" || allows policy "metadata:bookletPosition") k
                  "metadata" (project_occurrences policy v) rest other)
              ∙ metadata_fields fields)
          | inr plain ↦ rw plain (
              ap record_of (other_field (allows_field policy k) k "metadata" v rest other)
              ∙ metadata_fields fields)
        ])
  ]

  no_occurrences :
      (fields : Fields)
      → allows policy "metadata:booklet" ≡ false
      → allows policy "metadata:bookletPosition" ≡ false
      → member "bookletOccurrences" (project_item_fields policy fields) ≡ undefined
  unfolding project_item_fields project_field
  no_occurrences no_members h p = refl
  no_occurrences (field k v fields) h p =
      let rest = project_item_fields policy fields in
      elim (Bool-cases (same k "metadata")) [
        | inl metadata ↦
            let other : same k "bookletOccurrences" ≡ false =
              rw ((str_eq_iff k "metadata").0 metadata) refl in
            rw (metadata, other) (no_occurrences fields h p)
        | inr no_metadata ↦ rw no_metadata (elim (Bool-cases (same k "bookletOccurrences")) [
          | inl occurrences ↦ rw (occurrences, h, p) (no_occurrences fields h p)
          | inr other ↦ rw other (
              other_field (allows_field policy k) k "bookletOccurrences" v rest other
              ∙ no_occurrences fields h p)
        ])
      ]

  restricted_item :
      (value : Value)
      → policy.restricted ≡ true
      → project_item policy value ≡ object (project_item_fields policy (record_of value))
  unfolding project_item
  restricted_item value restricted =
      ap
        (λ b.
          if not b
          then object (record_of value)
          else object (project_item_fields policy (record_of value)))
        restricted

  -- Where columns are restricted, an item shows a plain field as it is if the field is allowed and
  -- not at all otherwise, a metadata entry as it is if the entry is allowed and not at all otherwise,
  -- and its places in booklets only if one of their two columns is allowed.
  pub project_item-released :
      (value : Value) (key id : String)
      → policy.restricted ≡ true
      → is_plain key ≡ true
      → (member key (record_of (project_item policy value))
          ≡ (if allows_field policy key then member key (record_of value) else undefined))
        × (member id (record_of (member "metadata" (record_of (project_item policy value)))) ≡ (
            if allows_metadata policy id
            then member id (record_of (member "metadata" (record_of value)))
            else undefined))
        × ((allows policy "metadata:booklet"
              || allows policy "metadata:bookletPosition"
              || is_undefined (member "bookletOccurrences" (record_of (project_item policy value))))
            ≡ true)
  project_item-released value key id restricted plain = rw (restricted_item value restricted) (
    plain_member key (record_of value) plain,
    rw (metadata_fields (record_of value)) (
        member-filter_fields (allows_metadata policy) id
          (record_of (member "metadata" (record_of value)))),
    elim (Bool-cases (allows policy "metadata:booklet")) [
      | inl shown ↦ rw shown refl
      | inr h ↦ elim (Bool-cases (allows policy "metadata:bookletPosition")) [
        | inl shown ↦ rw (h, shown) refl
        | inr p ↦ rw (h, p, no_occurrences (record_of value) h p) refl
      ]
    ],
  )
