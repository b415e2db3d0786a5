-- ===== src/Lib.antt =====
-- Akko: a verification library of the server side. Akko runs coding-agent sessions for several people: a
-- browser posts commands to a gateway, a mailbox per session decides and applies them one by one, the
-- session's runtime stores each new message, and a projector keeps a read model that browsers follow.
--
-- Parts, files and sources:
--
-- - Prelude: the shared names. Prelude/Tests has the tests on numbers and texts and JavaScript's `??`,
--   Prelude/Lists the lists over native numbers, Prelude/JsMap and Prelude/JsSet the source's Map and
--   Set, in the order of insertion, Prelude/Throwing the result of a call that may throw,
--   Prelude/Sorting texts in order and a stable sort, Prelude/Text what is done with texts by characters,
--   Prelude/Decimal numerals.
-- - Domain: packages/core/src/domain.ts. Authz: packages/core/src/authz.ts.
-- - Limits: packages/runtime/src/subagent-limits.ts. `admit` and the closure `release` are functions on
--   the limiter; Limits/Fleet is the relation of any admissions and releases, repeated releases too.
-- - Mailbox: packages/runtime/src/mailbox.ts. The drain is a state that stands at one of its two waits,
--   `resume` gives it the answer, and posts may come at any time. Mailbox/Serving compares it with the
--   list of tickets served in order.
-- - Content: the texts of messages in packages/schema/src/index.ts; Content/ToolLine has the line of a
--   tool call. ReadModel: the rows of its tables.
-- - Store: packages/runtime/src/sqlite-conversation-store.ts, a table as the list of its rows.
-- - Session: the capture of messages in packages/runtime/src/session-runtime.ts, as steps: the driver
--   adds messages, commands name an actor, a turn ends, and one round of a capture stores a message.
--   Session/Commands has applyCommand, with the driver's calls listed.
-- - Bus: packages/runtime/src/event-bus.ts. Index: packages/runtime/src/session-index.ts. Members:
--   packages/runtime/src/membership-store.ts. Each has its two implementations where there are two.
-- - Turn, Projector and Projector/Calls: packages/server/src/jazz-projector.ts. The state is the private
--   fields, the tables and the pending timers; `step` takes a call, an event, an entry or a timer that fires.
-- - Registry: packages/runtime/src/session-registry.ts. Registry/Opening has `get`, in the two halves
--   that its waits make, creation and subagents; Registry/Closing the rest; Registry/Steps the orders
--   of operations, with the halves of several `get`s interleaved; Registry/Indexed has what the index
--   says of the live sessions.
-- - Building: `#buildSession` of that file, and what it reads of Config. Permission: its `#authorize`, as
--   the mailbox of a session asks it.
-- - Spawn: packages/runtime/src/subagent-tool.ts, whose loop takes the polls that there are as a list.
-- - Spawn/Child has the run of a child session: the events of its bus, its timer, the abort signal and the
--   answer of its mailbox, in any order.
-- - Gateway: packages/server/src/gateway.ts, over an interface that Gateway/OverRegistry fills with
--   Registry, the mailboxes of its runtimes and Store.
-- - Limits/Env: the part of packages/runtime/src/subagent-limits.ts that reads the environment.
-- - Config: packages/runtime/src/workspace-config-store.ts. Config/Table has the SQL statements.
-- - SkillFiles: packages/runtime/src/merged-resource-loader.ts. The directory is a map from its entries to
--   texts; one round of the loop is `sync_skill`.
-- - Skills: packages/runtime/src/skills-service.ts. AgentTypes: packages/runtime/src/agent-types.ts.
--   Router: packages/runtime/src/model-router.ts.
-- - Auth: the hooks of packages/server/src/auth.ts, and the grant in packages/server/src/main.ts.
-- - Client: packages/web/src/lib/client.svelte.ts, a method in two halves where it waits for an answer.
-- - WebApp: packages/web/src/App.svelte, as steps; WebApp/Sidebar has the logic of the components.
-- - TokenRefresh: packages/web/src/lib/jazz-token.ts, whose `step` takes an event and the time.
--
-- How they meet: Session writes to Store, whose entries Projector projects; Registry keeps Index and
-- records the calls of the projector; Gateway takes the roles of a membership store and answers with the
-- results of a mailbox, which Client shows; Spawn asks Limits for its slots, which come from the
-- environment; Skills writes to Config, whose rows SkillFiles writes out; Auth grants what Members keeps;
-- AgentTypes loads the presets of Registry.
--
-- Bounds and fuel: no definition takes fuel; every loop is a recursion on a list. Numbers are natural
-- numbers: counters, times in milliseconds and lengths stay far below 2^53, where the source's numbers
-- are exact, and nothing is subtracted below zero but where the model says what comes of it.
--
-- Parameters: `stable_id`, the hash behind the row ids, and `describe_tool_call`, which Content/ToolLine
-- has, in Projector; the
-- session of pi, the resolution of a model and the presets on disk, in Registry; who is signed in,
-- what `auth.handler` does and the skills service, in Gateway; what a runtime does with a command that is
-- applied, and the texts of errors, in Gateway/OverRegistry; the test for a blank task, in Spawn; pi's resolution of
-- models, in Router, its parser of frontmatter, in AgentTypes, its formatter and estimate, in Skills; the
-- hash and the order of the locale, in SkillFiles and Skills; Better Auth's tables and `toLowerCase`, in
-- Auth; base64 and JSON, in TokenRefresh.
--
-- Not modelled: the HTTP server and the sign-in, which are libraries' or configuration; SQL beyond the
-- statements named in the files; JSON, which is taken to come back as it went in; failing writes of the
-- read model and failing calls of the file system, which the source logs and passes over or lets through;
-- the building of a workspace's runtime, which is glue around pi; and the markup of the web interface.
pub mod Prelude
pub mod Domain
pub mod Authz
pub mod Limits
pub mod Mailbox
pub mod Content
pub mod Store
pub mod Session
pub mod Bus
pub mod Index
pub mod Members
pub mod ReadModel
pub mod Turn
pub mod Projector
pub mod Spawn
pub mod Registry
pub mod Gateway
pub mod Config
pub mod Router
pub mod SkillFiles
pub mod Skills
pub mod AgentTypes
pub mod TokenRefresh
pub mod Client
pub mod Auth
pub mod Permission
pub mod Building
pub mod WebApp
