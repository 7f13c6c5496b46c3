-- ===== src/Threads.antt =====
-- Comment threads: the rows that backend/src/comments/comments.service.ts reads and writes, and
-- what a request names.
pub mod Targets
pub mod Operations
pub mod Votes
pub mod Store
pub mod Changes
pub mod Versions
pub mod Shape
pub mod Requests
pub mod VoteLaws
pub mod Ballots
mod Tests
use content_pool_next.Base.{
  ℕ, String, string_eq, Bool, not, ◌&&◌, Option, none, some, List, same, find, if◌then◌else◌,
}
use content_pool_next.Base.Text.{Text}
use content_pool_next.Review.{CommentTarget, Comment, ReviewConfig, given}
use content_pool_next.Review.Policy.{Choice}

-- A row of `comments`; `review` holds the columns that the review policy reads.
pub record StoredComment : Type 0 where
  pub review : Comment
  pub acp_id : String
  pub target_id : String
  pub booklet_id : Option String
  pub unit_id : Option String
  pub item_id : Option String
  pub parent_comment_id : Option String
  pub category_id : Option String
  pub author_label : Text
  pub comment_text : Text
  pub version : ℕ

pub data VoteValue : Type 0 where
  up down : VoteValue

-- A row of `comment_votes`.
pub record Vote : Type 0 where
  pub comment_id : String
  pub user_id : Option String
  pub credential_id : Option String
  pub value : VoteValue

pub record Database : Type 0 where
  pub configs : List ReviewConfig
  pub comments : List StoredComment
  pub votes : List Vote

pub record ReviewCommentTarget : Type 0 where
  pub target_type : CommentTarget
  pub booklet_id : Option String
  pub unit_id : Option String
  pub item_id : Option String

pub record ResolvedTarget : Type 0 where
  pub target_type : CommentTarget
  pub target_id : String
  pub booklet_id : Option String
  pub unit_id : Option String
  pub item_id : Option String
  pub legacy_target_ids : List String

-- An entry of the catalog of items, at its ids.
pub record CatalogEntry : Type 0 where
  pub unit_id : String
  pub item_id : String

pub record Booklet : Type 0 where
  pub id : String
  pub legacy : Bool

-- What the files of an ACP hold: the manifest's booklets and units, the catalog of items, and the
-- units that have a coding scheme.
pub record Files : Type 0 where
  pub booklets : List Booklet
  pub units : List String
  pub items : List CatalogEntry
  pub coded_units : List String

-- `findOne({ where: { id, acpId } })`
abbrev pub find_comment : String → String → List StoredComment → Option StoredComment
find_comment acp_id id = find (λ c. same c.review.id id && same c.acp_id acp_id)

-- `text || other`
abbrev pub text_or : Option String → Option String → Option String
text_or text other = if given text then text else other
