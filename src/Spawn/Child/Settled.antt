-- ===== src/Spawn/Child/Settled.antt =====
-- The promise of `runSubagentToCompletion` in packages/runtime/src/subagent-tool.ts settles once.
use Prim.Native.String
use text.Mathlib.TextLemmas.{nil-append, append-nil, append_assoc}
use akko.Prelude.{
  ℕ, ◌≡◌, refl, ◌∙◌, ap, subst, sym, String, Bool, true, false, not, some, or_default, is_some,
  List, [], ◌∷◌, ◌++◌, arith, if◌then◌else◌, All, ok,
}
use akko.Prelude.Text.{trim}
use akko.Spawn.Child.{
  Event, text_delta, agent_end, other_event, timer_fires, signal_aborts, decided, post_throws, Run,
  begin_run, finish, on_event, run_child,
}

-- Settled, with nothing attached and a result, or not settled, with all that was attached.
abbrev pub IsSound : Run → Type 0
IsSound r =
    (is_some r.result ≡ r.settled)
    × (r.has_timer ≡ not r.settled)
    × (r.subscribed ≡ not r.settled)
    × ((r.settled ≡ true) → r.listening ≡ false)

on_event-IsSound :
    (timeout_ms : ℕ) (r : Run) (e : Event) → IsSound r → IsSound (on_event timeout_ms r e)
unfolding on_event finish
on_event-IsSound timeout_ms r (text_delta delta) h = ground (arith, h)
on_event-IsSound timeout_ms r agent_end h = ground (arith, h)
on_event-IsSound timeout_ms r other_event h = h
on_event-IsSound timeout_ms r timer_fires h = ground (arith, h)
on_event-IsSound timeout_ms r signal_aborts h = ground (arith, h)
on_event-IsSound timeout_ms r (decided accepted reason) h = ground (arith, h)
on_event-IsSound timeout_ms r (post_throws error) h = ground (arith, h)

run_child-IsSound :
    (timeout_ms : ℕ) (r : Run) (es : List Event) → IsSound r → IsSound (run_child timeout_ms r es)
unfolding run_child
run_child-IsSound timeout_ms r [] h = h
run_child-IsSound timeout_ms r (e ∷ es) h =
    run_child-IsSound timeout_ms (on_event timeout_ms r e) es (on_event-IsSound timeout_ms r e h)

-- Once settled, no event changes anything.
on_event_settled :
    (timeout_ms : ℕ) (r : Run) (e : Event)
    → IsSound r
    → r.settled ≡ true
    → on_event timeout_ms r e ≡ r
unfolding on_event finish
on_event_settled timeout_ms r (text_delta delta) h s = ground (arith, h)
on_event_settled timeout_ms r agent_end h s = ground (arith, h)
on_event_settled timeout_ms r other_event h s = refl
on_event_settled timeout_ms r timer_fires h s = ground (arith, h)
on_event_settled timeout_ms r signal_aborts h s = ground (arith, h)
on_event_settled timeout_ms r (decided accepted reason) h s = ground arith
on_event_settled timeout_ms r (post_throws error) h s = ground arith

run_child_settled :
    (timeout_ms : ℕ) (r : Run) (es : List Event)
    → IsSound r
    → r.settled ≡ true
    → run_child timeout_ms r es ≡ r
unfolding run_child
run_child_settled timeout_ms r [] h s = refl
run_child_settled timeout_ms r (e ∷ es) h s =
    ap (λ q. run_child timeout_ms q es) (on_event_settled timeout_ms r e h s)
    ∙ run_child_settled timeout_ms r es h s

run_child-append :
    (timeout_ms : ℕ) (r : Run) (es fs : List Event)
    → run_child timeout_ms r (es ++ fs) ≡ run_child timeout_ms (run_child timeout_ms r es) fs
unfolding run_child
run_child-append timeout_ms r [] fs = refl
run_child-append timeout_ms r (e ∷ es) fs =
    run_child-append timeout_ms (on_event timeout_ms r e) es fs

timer-settles :
    (timeout_ms : ℕ) (r : Run) → IsSound r → (on_event timeout_ms r timer_fires).settled ≡ true
unfolding on_event finish
timer-settles timeout_ms r h = ground (arith, h)

begin_run-IsSound : (has_signal : Bool) → IsSound (begin_run has_signal)
unfolding begin_run
begin_run-IsSound has_signal = (refl, refl, refl, λ h. absurd (cc h))

-- The promise has a result, and the timer, the subscription and the listener are gone.
abbrev pub HasEnded : Run → Type 0
HasEnded r =
    (is_some r.result ≡ true)
    × (r.has_timer ≡ false)
    × (r.subscribed ≡ false)
    × (r.listening ≡ false)

ended_of : (r : Run) → IsSound r → r.settled ≡ true → HasEnded r
ended_of r h s = ground (arith, h, s)

-- From a sound state, the timer and all that comes later leave what the timer makes.
timer_then :
    (timeout_ms : ℕ) (r : Run) (fs : List Event)
    → IsSound r
    → run_child timeout_ms r (timer_fires ∷ fs) ≡ on_event timeout_ms r timer_fires
unfolding run_child
timer_then timeout_ms r fs h =
    run_child_settled timeout_ms (on_event timeout_ms r timer_fires) fs
      (on_event-IsSound timeout_ms r timer_fires h) (timer-settles timeout_ms r h)

-- However the events of a child's run come, once its timer has fired the promise has a result, the
-- timer, the subscription and the listener are gone, and no later event changes any of it.
pub child_settles_once :
    (timeout_ms : ℕ) (has_signal : Bool) (es fs : List Event)
    → let r = run_child timeout_ms (begin_run has_signal) (es ++ timer_fires ∷ []) in
      (run_child timeout_ms (begin_run has_signal) (es ++ timer_fires ∷ fs) ≡ r) × HasEnded r
child_settles_once timeout_ms has_signal es fs =
    let start = begin_run has_signal in
    let before = run_child timeout_ms start es in
    let sound = run_child-IsSound timeout_ms start es (begin_run-IsSound has_signal) in
    let last =
      run_child-append timeout_ms start es (timer_fires ∷ [])
      ∙ timer_then timeout_ms before [] sound in
    (
      run_child-append timeout_ms start es (timer_fires ∷ fs)
          ∙ timer_then timeout_ms before fs sound
          ∙ sym last,
      subst HasEnded (sym last) (
          ended_of (on_event timeout_ms before timer_fires)
            (on_event-IsSound timeout_ms before timer_fires sound)
            (timer-settles timeout_ms before sound)),
    )

-- An event that does not end the run: words, other events, and a command that is accepted.
abbrev pub IsQuiet : Event → Type 0
IsQuiet (text_delta delta) = Unit
IsQuiet other_event = Unit
IsQuiet (decided accepted reason) = accepted ≡ true
IsQuiet agent_end = ⊥
IsQuiet timer_fires = ⊥
IsQuiet signal_aborts = ⊥
IsQuiet (post_throws error) = ⊥

-- The words of the events, one after the other.
unfoldable pub said : List Event → String
said [] = ""
said (text_delta delta ∷ es) = String.◌++◌ (or_default delta "") (said es)
said (agent_end ∷ es) = said es
said (other_event ∷ es) = said es
said (timer_fires ∷ es) = said es
said (signal_aborts ∷ es) = said es
said (decided accepted reason ∷ es) = said es
said (post_throws error ∷ es) = said es

run_child-quiet :
    (timeout_ms : ℕ) (r : Run) (es : List Event)
    → r.subscribed ≡ true
    → All IsQuiet es
    → run_child timeout_ms r es ≡ record r { text = String.◌++◌ r.text (said es) }
unfolding run_child on_event said
run_child-quiet timeout_ms r [] s q = ap (λ t. record r { text = t }) (sym (append-nil r.text))
run_child-quiet timeout_ms r (text_delta delta ∷ es) s q =
    let next : Run = record r { text = String.◌++◌ r.text (or_default delta "") } in
    ap (λ b. run_child timeout_ms (if b then next else r) es) s
    ∙ run_child-quiet timeout_ms next es s q.1
    ∙ ap (λ t. record r { text = t }) (append_assoc r.text (or_default delta "") (said es))
run_child-quiet timeout_ms r (other_event ∷ es) s q = run_child-quiet timeout_ms r es s q.1
run_child-quiet timeout_ms r (decided true reason ∷ es) s q = run_child-quiet timeout_ms r es s q.1
run_child-quiet timeout_ms r (decided false reason ∷ es) s q = absurd (cc q.0)
run_child-quiet timeout_ms r (agent_end ∷ es) s q = absurd q.0
run_child-quiet timeout_ms r (timer_fires ∷ es) s q = absurd q.0
run_child-quiet timeout_ms r (signal_aborts ∷ es) s q = absurd q.0
run_child-quiet timeout_ms r (post_throws error ∷ es) s q = absurd q.0

-- When the child's turn ends after quiet events, the promise has, then and ever after, the words of
-- the events, in order and trimmed.
pub child_answers :
    (timeout_ms : ℕ) (has_signal : Bool) (es fs : List Event)
    → All IsQuiet es
    → (run_child timeout_ms (begin_run has_signal) (es ++ agent_end ∷ fs)).result
      ≡ some (ok (trim (said es)))
unfolding run_child on_event finish begin_run
child_answers timeout_ms has_signal es fs q =
    let start = begin_run has_signal in
    let spoken : Run = record start { text = String.◌++◌ "" (said es) } in
    let ended = on_event timeout_ms spoken agent_end in
    ap (λ r. r.result)
      (run_child-append timeout_ms start es (agent_end ∷ fs)
        ∙ ap (λ r. run_child timeout_ms r (agent_end ∷ fs))
            (run_child-quiet timeout_ms start es refl q)
        ∙ run_child_settled timeout_ms ended fs (refl, refl, refl, λ h. refl) refl)
    ∙ ap (λ t. some (ok (trim t))) (nil-append (said es))
