-- ===== src/Domain.antt =====
-- packages/core/src/domain.ts: identities, workspaces, sessions and commands.
use akko.Prelude.{ℕ, String, Option}

pub data PrincipalKind : Type 0 where
  user service : PrincipalKind

pub record Principal : Type 0 where
  pub id : String
  pub kind : PrincipalKind
  pub display_name : String

pub data Isolation : Type 0 where
  host container : Isolation

pub record Workspace : Type 0 where
  pub id : String
  pub name : String
  pub storage_root : String
  pub isolation : Isolation
  pub node_id : Option String

pub data Role : Type 0 where
  owner editor viewer : Role

pub record Membership : Type 0 where
  pub workspace_id : String
  pub principal_id : String
  pub role : Role

pub data SessionKind : Type 0 where
  conversation subagent : SessionKind

pub record SessionRef : Type 0 where
  pub id : String
  pub workspace_id : String
  pub owner_id : String
  pub kind : SessionKind
  pub parent_session_id : Option String
  pub agent_type : Option String
  pub title : Option String
  pub model : Option String
  pub host_node : Option String
  pub created_at : ℕ
  pub updated_at : ℕ

pub data CommandVerb : Type 0 where
  prompt steer follow_up abort set_model set_thinking_level compact fork clone : CommandVerb
  navigate_tree spawn_subagent stop_subagent set_skill_enabled rename : CommandVerb

pub data StreamingBehavior : Type 0 where
  as_steer as_follow_up : StreamingBehavior

-- The payload `args`, by the fields that a handler of a verb reads.
pub record Args : Type 0 where
  pub text : Option String
  pub streaming_behavior : Option StreamingBehavior
  pub model : Option String
  pub title : Option String
  pub session_id : Option String

pub record Command : Type 0 where
  pub id : String
  pub session_id : String
  pub actor_id : String
  pub verb : CommandVerb
  pub args : Args
  pub ts : ℕ
  pub streaming_behavior : Option StreamingBehavior
