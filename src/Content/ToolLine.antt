-- ===== src/Content/ToolLine.antt =====
-- `describeToolCall` of packages/schema/src/index.ts: the line that stands for a call of a tool.
use Prim.Native.Char.{code}
use Prim.Native.String
use package.text.Mathlib.TextLemmas.{nil-append, cons-append}
use akko.Prelude.{
  ℕ, zero, suc, ◌+◌, ◌-◌, ◌≤◌, ◌≡◌, refl, ap, ◌∙◌, String, Bool, true, false, Option, none, some,
  or_else, or_default, List, [], ◌∷◌, length, take, leb, ltb, arith, ◌==◌, if◌then◌else◌, truthy,
}
use akko.Prelude.Text.{is_space, trim, join}
use akko.Prelude.Decimal.{show}
use akko.Content.{Value, text, array, object, Values, nil, cons, Fields, end, field, ToolCall}

-- A property of an object, the last of its name.
abbrev get_field : Fields → String → Option Value
get_field end name = none
get_field (field n v rest) name = or_else (get_field rest name) (if n == name then some v else none)

-- `typeof v === "string" && v`, with the empty text as none
abbrev text_of : Option Value → Option String
text_of (some (text s)) = truthy (some s)
text_of v = none

abbrev label_if : Option Value → List String → List String
label_if (some (text s)) labels = if trim s == "" then labels else s ∷ labels
label_if v labels = labels

-- The titles of the tasks that have one.
abbrev labels_of : Values → List String
labels_of nil = []
labels_of (cons (object fields) rest) = label_if (get_field fields "title") (labels_of rest)
labels_of (cons v rest) = labels_of rest

abbrev count_of : Values → ℕ
count_of nil = 0
count_of (cons v rest) = suc (count_of rest)

abbrev with_name : String → String → String
with_name name line = String.◌++◌ name (String.◌++◌ ": " line)

abbrev more_of : ℕ → String
more_of rest = if ltb 0 rest then String.◌++◌ " +" (String.◌++◌ (show rest) " more") else ""

-- A list of at least two tasks: how many, and the titles of the first two that have one.
abbrev many_tasks : ℕ → List String → String
many_tasks n labels =
    let shown = join ", " (take 2 labels) in
    let tasks = String.◌++◌ (show n) " tasks" in
    let rest = n - (if leb (length labels) 2 then length labels else 2) in
    if shown == ""
    then tasks
    else String.◌++◌ tasks (String.◌++◌ " — " (String.◌++◌ shown (more_of rest)))

-- An empty title is as good as none.
abbrev one_task : List String → String
one_task [] = "1 task"
one_task (label ∷ labels) = label

-- None for a list that is empty, or that is no list.
abbrev tasks_line : Option Value → Option String
tasks_line (some (array nil)) = none
tasks_line (some (array (cons v nil))) = some (one_task (labels_of (cons v nil)))
tasks_line (some (array (cons v rest))) =
    some (many_tasks (count_of (cons v rest)) (labels_of (cons v rest)))
tasks_line v = none

-- The first of the fields that is a text, and not empty.
abbrev hint_of : Fields → String
hint_of args =
    or_default
      (or_else (text_of (get_field args "title")) (
        or_else (text_of (get_field args "path")) (
          or_else (text_of (get_field args "command"))
            (or_else (text_of (get_field args "pattern")) (text_of (get_field args "task"))))))
      ""

-- `replace(/\s+/g, " ")`, after a blank or not
unfoldable pub collapse : Bool → String → String
unfolding is_space
collapse after String.[] = ""
collapse after (String.◌∷◌ c s) =
    let blank = collapse true s in
    let rest = collapse false s in
    if is_space (code c) then (if after then blank else String.◌∷◌ " " blank) else String.◌∷◌ c rest

abbrev is_wide : ℕ → Bool
is_wide c = leb 65536 c

-- `s.length`, in UTF-16 units
abbrev pub units : String → ℕ
units String.[] = 0
units (String.◌∷◌ c s) = (if is_wide (code c) then 2 else 1) + units s

-- `s.slice(0, n)`. Half of a pair is the character U+FFFD, which it becomes in UTF-8.
abbrev pub take_units : ℕ → String → String
take_units zero s = ""
take_units (suc n) String.[] = ""
take_units (suc zero) (String.◌∷◌ c s) = if is_wide (code c) then "�" else String.◌∷◌ c ""
take_units (suc (suc n)) (String.◌∷◌ c s) =
    let after_two = take_units n s in
    let after_one = take_units (suc n) s in
    String.◌∷◌ c (if is_wide (code c) then after_two else after_one)

abbrev shorten : String → String
shorten s = if ltb 80 (units s) then String.◌++◌ (take_units 79 s) "…" else s

unfoldable pub short_hint : Fields → String
unfolding trim collapse truthy
short_hint args = shorten (trim (collapse false (hint_of args)))

unfoldable pub describe_tool_call : ToolCall → String
unfolding short_hint show join trim
describe_tool_call call = elim (tasks_line (get_field call.arguments "tasks")) [
  | some line ↦ with_name call.name line
  | none ↦
      if short_hint call.arguments == ""
      then call.name
      else with_name call.name (short_hint call.arguments)
]

units-take_units : (n : ℕ) (s : String) → units (take_units n s) ≤ n
units-take_units zero s = omega arith
units-take_units (suc n) String.[] = omega arith
units-take_units (suc zero) (String.◌∷◌ c s) = half (is_wide (code c)) refl
  where
    half : (b : Bool) → is_wide (code c) ≡ b → units (if b then "�" else String.◌∷◌ c "") ≤ 1
    half true e = omega arith
    half false e = ground (arith, e)
units-take_units (suc (suc n)) (String.◌∷◌ c s) =
    ground (arith, units-take_units n s, units-take_units (suc n) s)

units-append_dots : (s : String) → units (String.◌++◌ s "…") ≡ units s + 1
units-append_dots String.[] = ap units (nil-append "…")
units-append_dots (String.◌∷◌ c s) =
    ap units (cons-append c s "…") ∙ omega (arith, units-append_dots s)

-- However long the arguments of a call are, what its line shows of them takes at most eighty units.
pub units-short_hint : (args : Fields) → units (short_hint args) ≤ 80
unfolding short_hint
units-short_hint args = go (trim (collapse false (hint_of args)))
  where
    go : (s : String) → units (shorten s) ≤ 80
    go s = ground (arith, units-take_units 79 s, units-append_dots (take_units 79 s))
