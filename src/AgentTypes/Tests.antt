-- ===== src/AgentTypes/Tests.antt =====
-- Runs of packages/runtime/src/agent-types.ts.
use akko.Prelude.{◌≡◌, refl, String, Option, none, some, List, [], ◌∷◌, ◌==◌, if◌then◌else◌}
use akko.Prelude.JsMap
use akko.AgentTypes.{
  text, items, other, Parsed, as_string_array, name_of_file, load_agent_types, apply_agent_type,
  describe_agent_types,
}

abbrev scout : Parsed
scout = record {
  frontmatter = record {
    description = text " Reads ";
    model = other;
    thinking_level = items [];
    tools = text "read, grep,";
  };
  body = "\nLook.\n";
}

abbrev idle : Parsed
idle = record scout { frontmatter = record scout.frontmatter { tools = other }; body = " " }

abbrev files : String → Option Parsed
files name =
    if name == "scout.md" then some scout else if name == "idle.MD" then some idle else none

abbrev names : List String
names = "scout.md" ∷ "idle.MD" ∷ "broken.md" ∷ "notes.txt" ∷ []

both_spellings : as_string_array (items ("read" ∷ " " ∷ [])) ≡ some ("read" ∷ [])
unfolding as_string_array
both_spellings = refl

no_extension : name_of_file ".md" ≡ none
unfolding name_of_file
no_extension = refl

described : describe_agent_types (load_agent_types (some names) files) ≡ "scout (Reads)"
unfolding describe_agent_types load_agent_types
described = refl

prepended :
    apply_agent_type (JsMap.get (load_agent_types (some names) files) "scout") "Go"
    ≡ "Look.\n\n---\n\nTask:\nGo"
unfolding apply_agent_type load_agent_types JsMap.get
prepended = refl
