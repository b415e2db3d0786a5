-- ===== src/AgentTypes/Loaded.antt =====
-- What packages/runtime/src/agent-types.ts loads from a directory.
use akko.Prelude.{
  ◌≡◌, refl, ap, ◌∙◌, String, Option, none, some, or_else, or_default, List, [], ◌∷◌, arith, ◌==◌,
  if◌then◌else◌,
}
use akko.Prelude.JsMap
use akko.Prelude.JsMap.{JsMap}
use akko.Registry.{AgentType}
use akko.AgentTypes.{
  Parsed, name_of_file, read_file, put_type, load_file, load_files, load_agent_types,
}

-- The preset of a name in one file.
abbrev preset_in : (String → Option Parsed) → String → String → Option AgentType
preset_in parsed_file name file = elim (name_of_file file) [
  | none ↦ none
  | some n ↦ if n == name then read_file n (parsed_file file) else none
]

-- The preset of the last file of that name that has one.
unfoldable pub last_preset : (String → Option Parsed) → String → List String → Option AgentType
last_preset parsed_file name [] = none
last_preset parsed_file name (file ∷ files) =
    or_else (last_preset parsed_file name files) (preset_in parsed_file name file)

put_type-get :
    (types : JsMap AgentType) (n : String) (o : Option AgentType) (name : String)
    → JsMap.get (put_type types n o) name
      ≡ or_else (if n == name then o else none) (JsMap.get types name)
put_type-get types n none name = ground arith
put_type-get types n (some type) name = ground (arith, JsMap.get-put types n name type)

load_file-get :
    (parsed_file : String → Option Parsed) (types : JsMap AgentType) (file name : String)
    → JsMap.get (load_file parsed_file types file) name
      ≡ or_else (preset_in parsed_file name file) (JsMap.get types name)
unfolding load_file
load_file-get parsed_file types file name = go (name_of_file file)
  where
    go :
        (o : Option String)
        → JsMap.get
            (elim o [ none ↦ types | some n ↦ put_type types n (read_file n (parsed_file file)) ])
            name
          ≡ or_else
              (elim o [
                | none ↦ none
                | some n ↦ if n == name then read_file n (parsed_file file) else none
              ])
              (JsMap.get types name)
    go none = refl
    go (some n) = put_type-get types n (read_file n (parsed_file file)) name

or_else_assoc {ℓ} :
    {A : Type ℓ} (o p q : Option A) → or_else o (or_else p q) ≡ or_else (or_else o p) q
or_else_assoc none p q = refl
or_else_assoc (some a) p q = refl

load_files-get :
    (parsed_file : String → Option Parsed) (types : JsMap AgentType) (files : List String)
    (name : String)
    → JsMap.get (load_files parsed_file types files) name
      ≡ or_else (last_preset parsed_file name files) (JsMap.get types name)
unfolding load_files last_preset
load_files-get parsed_file types [] name = refl
load_files-get parsed_file types (file ∷ files) name =
    load_files-get parsed_file (load_file parsed_file types file) files name
    ∙ ap (or_else (last_preset parsed_file name files)) (load_file-get parsed_file types file name)
    ∙ or_else_assoc (last_preset parsed_file name files) (preset_in parsed_file name file)
        (JsMap.get types name)

or_else-none {ℓ} : {A : Type ℓ} (o : Option A) → or_else o none ≡ o
or_else-none none = refl
or_else-none (some a) = refl

-- The preset that is loaded under a name is that of the last Markdown file of the name that can be
-- read and is not idle, whatever the other files hold; a directory that is missing has none.
pub load_agent_types-get :
    (entries : Option (List String)) (parsed_file : String → Option Parsed) (name : String)
    → JsMap.get (load_agent_types entries parsed_file) name
      ≡ last_preset parsed_file name (or_default entries [])
unfolding load_agent_types JsMap.get
load_agent_types-get entries parsed_file name =
    load_files-get parsed_file [] (or_default entries []) name
    ∙ or_else-none (last_preset parsed_file name (or_default entries []))
