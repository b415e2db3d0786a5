-- ===== src/Content/Tests.antt =====
-- Lines that packages/schema/src/index.ts writes for calls of tools.
use akko.Prelude.{◌≡◌, refl, String}
use akko.Content.{Value, number, text, array, object, Values, nil, cons, end, field, ToolCall}
use akko.Content.ToolLine.{describe_tool_call, take_units}

abbrev titled : String → Value
titled title = object (field "title" (text title) end)

abbrev spawn : Values → ToolCall
spawn tasks = record { name = "spawn_subagent"; arguments = field "tasks" (array tasks) end }

abbrev untitled : Value
untitled = object end

one_title :
    describe_tool_call (spawn (cons (titled "Docs audit") nil)) ≡ "spawn_subagent: Docs audit"
unfolding describe_tool_call
one_title = refl

counted :
    describe_tool_call
      (spawn (cons (titled "a") (cons untitled (cons (titled "b") (cons (titled "c") nil)))))
    ≡ "spawn_subagent: 4 tasks — a, b +2 more"
unfolding describe_tool_call
counted = refl

untitled_counted :
    describe_tool_call (spawn (cons untitled (cons (number 3) nil))) ≡ "spawn_subagent: 2 tasks"
unfolding describe_tool_call
untitled_counted = refl

-- An empty list falls back to the fields, the first that is a text.
by_field :
    describe_tool_call (record {
      name = "bash";
      arguments =
          field "tasks"
            (array nil)
            (field "path" (text "") (field "command" (text " ls\n  -l") end));
    })
    ≡ "bash: ls -l"
unfolding describe_tool_call
by_field = refl

cut_pair : take_units 3 "ab😀c" ≡ "ab�"
cut_pair = refl
