-- ===== src/ReadModel.antt =====
-- The tables of the read model that packages/server/src/jazz-projector.ts writes: their rows.
use akko.Prelude.{ℕ, String, Option}
use akko.Domain.{SessionKind}

pub data RowRole : Type 0 where
  user_row assistant_row tool_row : RowRole

pub record MessageRow : Type 0 where
  pub session_id : String
  pub workspace_id : String
  pub role : RowRole
  pub text : String
  pub created_at : ℕ
  pub author_id : String

pub record SessionTableRow : Type 0 where
  pub session_id : String
  pub workspace_id : String
  pub owner_id : String
  pub kind : SessionKind
  pub title : String
  pub model : String
  pub created_at : ℕ
  pub updated_at : ℕ

pub data ActivityKind : Type 0 where
  thinking streaming tool idle : ActivityKind

-- What a tool's label says: a description, or `label — done/total done`.
pub data ToolLabel : Type 0 where
  described : String → ToolLabel
  progressing : String → ℕ → ℕ → ToolLabel

pub record ActivityRow : Type 0 where
  pub session_id : String
  pub workspace_id : String
  pub kind : ActivityKind
  pub user_text : String
  pub text : String
  pub tool_label : Option ToolLabel
  pub queued_count : ℕ
  pub queued_text : String
