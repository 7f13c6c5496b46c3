-- ===== src/Review.antt =====
-- The data of the review of an ACP: comments (backend/src/database/entities/comment.entity.ts),
-- the review part of an access configuration (acp-access-config.entity.ts), and the actor of
-- backend/src/comments/review-policy.service.ts.
pub mod Policy
pub mod Visibility
pub mod Writing
mod Tests
use content_pool_next.Base.{
  ℕ, String, string_eq, Bool, true, false, not, ◌&&◌, ◌||◌, Option, none, some, List, same,
}
use content_pool_next.Base.Text.{Text}
use content_pool_next.Access.Settings.{FeatureConfig}

pub data CommentTarget : Type 0 where
  booklet unit item coding task_sequence : CommentTarget

-- The text that the enumeration gives each target.
abbrev pub target_name : CommentTarget → String
target_name booklet = "BOOKLET"
target_name unit = "UNIT"
target_name item = "ITEM"
target_name coding = "CODING"
target_name task_sequence = "TASK_SEQUENCE"

-- A comment, at the fields that decide who may do what with it.
pub record Comment : Type 0 where
  pub id : String
  pub user_id : Option String
  pub credential_id : Option String
  pub target_type : CommentTarget
  pub group_id : Option String
  pub deleted : Bool
  pub legacy_read_only : Bool

pub data MemberKind : Type 0 where
  user_member credential_member : MemberKind

pub record Member : Type 0 where
  pub kind : MemberKind
  pub id : String

pub record ReviewGroup : Type 0 where
  pub id : String
  pub archived : Bool
  pub members : List Member

pub record CommentCategory : Type 0 where
  pub id : String
  pub archived : Bool

-- The row of an access configuration, as the review reads it.
pub record ReviewConfig : Type 0 where
  pub acp_id : String
  pub feature_config : FeatureConfig
  pub review_groups : List ReviewGroup
  pub comment_categories : List CommentCategory

pub data Mode : Type 0 where
  private_mode shared_mode group_mode : Mode

-- Lists that are not yet set are empty.
pub record Actor : Type 0 where
  pub user_id : Option String
  pub credential_id : Option String
  pub author_label : Text
  pub is_manager : Bool
  pub can_participate : Bool
  pub voting_enabled : Bool
  pub voting_targets : List String
  pub groups : List ReviewGroup
  pub categories : List CommentCategory
  pub ungrouped_shared : Bool

-- `Boolean(text)` for a text that may be missing
abbrev pub given : Option String → Bool
given none = false
given (some text) = not (same text "")

-- `text === other` where either may be missing
abbrev pub same_text : Option String → Option String → Bool
same_text none none = true
same_text none (some b) = false
same_text (some a) none = false
same_text (some a) (some b) = same a b
