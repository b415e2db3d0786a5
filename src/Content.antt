-- ===== src/Content.antt =====
-- The content of a message, as packages/schema/src/index.ts reads it: a text, or a list of blocks.
pub mod ToolLine
mod Tests
use Prim.Native.String.{◌++◌}
use akko.Prelude.{ℕ, String, Bool, List, [], ◌∷◌}

-- A JSON value, for the arguments of a tool call.
mutual
  pub data Value : Type 0 where
    null : Value
    boolean : Bool → Value
    number : ℕ → Value
    text : String → Value
    array : Values → Value
    object : Fields → Value

  pub data Values : Type 0 where
    nil : Values
    cons : Value → Values → Values

  pub data Fields : Type 0 where
    end : Fields
    field : String → Value → Fields → Fields

pub record ToolCall : Type 0 where
  pub name : String
  pub arguments : Fields

pub data Block : Type 0 where
  text_block : String → Block
  tool_call_block : ToolCall → Block
  other_block : Block

pub data Content : Type 0 where
  plain : String → Content
  blocks : List Block → Content
  other_content : Content

-- The message roles that the code tells apart.
pub data MessageRole : Type 0 where
  from_user from_assistant from_other : MessageRole

pub record Message : Type 0 where
  pub role : MessageRole
  pub content : Content

-- `textOfContent`: the text blocks, joined with nothing between them.
join_texts : List Block → String
join_texts [] = ""
join_texts (text_block t ∷ bs) = t ++ join_texts bs
join_texts (b ∷ bs) = join_texts bs

unfoldable pub text_of_content : Content → String
unfolding join_texts
text_of_content (plain t) = t
text_of_content (blocks bs) = join_texts bs
text_of_content other_content = ""

tool_calls : List Block → List ToolCall
tool_calls [] = []
tool_calls (tool_call_block c ∷ bs) = c ∷ tool_calls bs
tool_calls (b ∷ bs) = tool_calls bs

-- `lines.join("\n")`
join_lines : List String → String
join_lines [] = ""
join_lines (l ∷ []) = l
join_lines (l ∷ ls) = l ++ "\n" ++ join_lines ls

-- `toolCallsOfContent`, over the line that describes one call.
module _ (describe_tool_call : ToolCall → String) where
  describe_all : List ToolCall → List String
  describe_all [] = []
  describe_all (c ∷ cs) = describe_tool_call c ∷ describe_all cs

  unfoldable pub tool_calls_of_content : Content → String
  unfolding tool_calls join_lines describe_all
  tool_calls_of_content (blocks bs) = join_lines (describe_all (tool_calls bs))
  tool_calls_of_content content = ""
