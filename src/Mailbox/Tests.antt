-- ===== src/Mailbox/Tests.antt =====
-- A schedule for packages/runtime/src/mailbox.ts, and instances of its theorems at it.
use akko.Prelude.{
  ◌≡◌, refl, false, none, List, [], ◌∷◌, ◌++◌, arith, if◌then◌else◌, nat_eq, replicate,
}
use akko.Domain.{Command, prompt}
use akko.Authz.{Decision, allowed, deny}
use akko.Mailbox.{
  Outcome, returned, threw, reject, accept, QueueItem, new_mailbox, Event, posts, resumes, run,
  drain_next, post, settle,
}
use akko.Mailbox.Serving.{
  served, tickets, ticketed, all_calls, in_hand, open_calls, run_serves_in_order,
}
use akko.Mailbox.Progress.{run_settles_all}

abbrev a_prompt : Command
a_prompt = record {
  id = "cmd_1";
  session_id = "ses_1";
  actor_id = "prn_1";
  verb = prompt;
  args = record {
    text = none;
    streaming_behavior = none;
    model = none;
    title = none;
    session_id = none;
  };
  ts = 5;
  streaming_behavior = none;
}

-- The second command is refused, and the third one fails when it is applied.
abbrev asks : QueueItem → Outcome Decision
asks item =
    if nat_eq item.ticket 1
    then returned (deny "viewers cannot modify a session")
    else returned allowed

abbrev performs : QueueItem → Outcome (Unit {0})
performs item = if nat_eq item.ticket 2 then threw "rename: missing title" else returned tt

abbrev schedule : List Event
schedule = posts a_prompt ∷ posts a_prompt ∷ resumes ∷ posts a_prompt ∷ resumes ∷ []

answers :
    (run asks performs new_mailbox (schedule ++ replicate 3 resumes)).settled
    ≡ (ticketed 0 a_prompt, accept)
      ∷ (ticketed 1 a_prompt, reject "viewers cannot modify a session")
      ∷ (ticketed 2 a_prompt, reject "rename: missing title")
      ∷ []
unfolding run post settle drain_next
answers = refl

run_serves_in_order_example :
    let m = run asks performs new_mailbox schedule in
    (done : List QueueItem) × (tickets 0 schedule
      ≡ done ++ (in_hand asks performs m.waits ++ m.queue))
    × (m.settled ≡ served asks performs done)
    × (m.calls ≡ all_calls asks performs done ++ open_calls asks performs m.waits)
run_serves_in_order_example = run_serves_in_order asks performs schedule

run_settles_all_example :
    let m = run asks performs new_mailbox (schedule ++ replicate 6 resumes) in
    (m.settled ≡ served asks performs (tickets 0 schedule)) × (m.draining ≡ false) × (m.queue ≡ [])
run_settles_all_example = run_settles_all asks performs schedule 6 (omega arith)
