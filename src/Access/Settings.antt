-- ===== src/Access/Settings.antt =====
-- The JSON column `feature_config` of an access configuration
-- (backend/src/database/entities/acp-access-config.entity.ts), at the keys that the access and
-- review services read. A value is any JSON value; arrays are taken at their texts.
use content_pool_next.Base.{ℕ, String, string_eq, Bool, true, false, not, List, [], same, ◌==◌}

pub data Setting : Type 0 where
  unset null : Setting
  flag : Bool → Setting
  number : ℕ → Setting
  word : String → Setting
  words : List String → Setting
  object : Setting

pub record FeatureConfig : Type 0 where
  pub enable_item_list : Setting
  pub enable_commenting : Setting
  pub enable_review : Setting
  pub comment_visibility_mode : Setting
  pub ungrouped_visibility_mode : Setting
  pub comment_targets : Setting

-- `{}`
abbrev pub no_settings : FeatureConfig
no_settings = record {
  enable_item_list = unset;
  enable_commenting = unset;
  enable_review = unset;
  comment_visibility_mode = unset;
  ungrouped_visibility_mode = unset;
  comment_targets = unset;
}

-- `value === true`
abbrev pub is_true : Setting → Bool
is_true (flag b) = b
is_true _ = false

-- `value === false`
abbrev pub is_false : Setting → Bool
is_false (flag b) = not b
is_false _ = false

-- `value === text`
abbrev pub is_word : Setting → String → Bool
is_word (word w) text = same w text
is_word _ text = false

-- `Boolean(value)`
abbrev pub truthy : Setting → Bool
truthy unset = false
truthy null = false
truthy (flag b) = b
truthy (number n) = not (n == 0)
truthy (word w) = not (same w "")
truthy (words ws) = true
truthy object = true

-- `Array.isArray(value) ? value : []`
abbrev pub as_words : Setting → List String
as_words (words ws) = ws
as_words _ = []
