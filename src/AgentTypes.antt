-- ===== src/AgentTypes.antt =====
-- packages/runtime/src/agent-types.ts: presets of subagents, read from the files of a directory. pi's
-- `parseFrontmatter` is an argument; a file that cannot be read, or that it refuses, gives none.
pub mod Loaded
mod Tests
use Prim.Native.Char.{code}
use Prim.Native.String
use akko.Prelude.{
  String, Bool, true, false, ◌&&◌, ◌||◌, not, Option, none, some, List, [], ◌∷◌, map, filter,
  nat_eq, ◌==◌, if◌then◌else◌, or_default, truthy, is_some,
}
use akko.Prelude.JsMap
use akko.Prelude.JsMap.{JsMap}
use akko.Prelude.Text.{trim, split, join}
use akko.Registry.{AgentType}

-- A value of the frontmatter, which may be of any kind: a text, a list, whose items are turned into
-- texts, or another.
pub data Value : Type 0 where
  text : String → Value
  items : List String → Value
  other : Value

pub record Frontmatter : Type 0 where
  pub description : Value
  pub model : Value
  pub thinking_level : Value
  pub tools : Value

pub record Parsed : Type 0 where
  pub frontmatter : Frontmatter
  pub body : String

unfoldable pub as_string : Value → Option String
unfolding truthy trim
as_string (text s) = truthy (some (trim s))
as_string (items xs) = none
as_string other = none

-- `items.map((x) => String(x).trim()).filter(Boolean)`
abbrev pub trim_items : List String → List String
trim_items xs = filter (λ s. not (s == "")) (map trim xs)

abbrev unless_empty : List String → Option (List String)
unless_empty [] = none
unless_empty (x ∷ xs) = some (x ∷ xs)

-- `[read, grep]` or `read, grep`
unfoldable pub as_string_array : Value → Option (List String)
unfolding trim split
as_string_array (text s) = unless_empty (trim_items (split b',' s))
as_string_array (items xs) = unless_empty (trim_items xs)
as_string_array other = none

abbrev pub type_of : String → Parsed → AgentType
type_of name parsed = record {
  name = name;
  description = as_string parsed.frontmatter.description;
  model = as_string parsed.frontmatter.model;
  thinking_level = as_string parsed.frontmatter.thinking_level;
  tools = as_string_array parsed.frontmatter.tools;
  instructions = trim parsed.body;
}

-- `!instructions && !type.model && !type.tools && !type.thinkingLevel`
abbrev pub is_idle : AgentType → Bool
is_idle t =
    (t.instructions == "")
    && not (is_some t.model)
    && not (is_some t.tools)
    && not (is_some t.thinking_level)

-- The content has gone through `parseFrontmatter`.
unfoldable pub parse_agent_type : String → Parsed → Option AgentType
unfolding as_string as_string_array
parse_agent_type name parsed =
    let type = type_of name parsed in if is_idle type then none else some type

-- The end `.md`, in letters of either case.
abbrev is_md : String → Bool
is_md s = (s == ".md") || (s == ".MD") || (s == ".Md") || (s == ".mD")

-- What stands before the last three characters, if they are the end of a Markdown file.
unfoldable pub before_md : String → Option String
before_md String.[] = none
before_md (String.◌∷◌ c s) =
    let rest = before_md s in
    if is_md (String.◌∷◌ c s)
    then some ""
    else elim rest [ none ↦ none | some stem ↦ some (String.◌∷◌ c stem) ]

-- The name of the preset in a file: a file that is called `.md` has no extension.
unfoldable pub name_of_file : String → Option String
unfolding before_md truthy
name_of_file file = truthy (before_md file)

abbrev pub read_file : String → Option Parsed → Option AgentType
read_file name none = none
read_file name (some parsed) = parse_agent_type name parsed

abbrev pub put_type : JsMap AgentType → String → Option AgentType → JsMap AgentType
put_type types name none = types
put_type types name (some type) = JsMap.put types name type

-- The body of the loop over the files.
unfoldable pub load_file : (String → Option Parsed) → JsMap AgentType → String → JsMap AgentType
unfolding name_of_file parse_agent_type JsMap.put
load_file parsed_file types file = elim (name_of_file file) [
  | none ↦ types
  | some name ↦ put_type types name (read_file name (parsed_file file))
]

unfoldable pub load_files :
    (String → Option Parsed) → JsMap AgentType → List String → JsMap AgentType
unfolding load_file
load_files parsed_file types [] = types
load_files parsed_file types (file ∷ files) =
    load_files parsed_file (load_file parsed_file types file) files

-- The entries are none where the directory is missing, or is no directory.
unfoldable pub load_agent_types : Option (List String) → (String → Option Parsed) → JsMap AgentType
unfolding load_files
load_agent_types entries parsed_file = load_files parsed_file [] (or_default entries [])

abbrev instructions_of : Option AgentType → String
instructions_of none = ""
instructions_of (some type) = type.instructions

unfoldable pub apply_agent_type : Option AgentType → String → String
apply_agent_type type task =
    let instructions = instructions_of type in
    if instructions == ""
    then task
    else String.◌++◌ instructions (String.◌++◌ "\n\n---\n\nTask:\n" task)

-- `t.description ? … : t.name`
unfoldable pub describe_one : AgentType → String
unfolding truthy
describe_one t = elim (truthy t.description) [
  | none ↦ t.name
  | some d ↦ String.◌++◌ t.name (String.◌++◌ " (" (String.◌++◌ d ")"))
]

unfoldable pub describe_agent_types : JsMap AgentType → String
unfolding describe_one join
describe_agent_types types = join "; " (map (λ t. describe_one t) (JsMap.values types))
