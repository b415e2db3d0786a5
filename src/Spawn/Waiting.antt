-- ===== src/Spawn/Waiting.antt =====
-- The wait for a slot in packages/runtime/src/subagent-tool.ts is over in time.
use akko.Prelude.{
  ℕ, zero, suc, ◌+◌, ◌*◌, ◌≤◌, ◌<◌, ◌≡◌, refl, String, true, Option, List, [], ◌∷◌, arith, length,
  is_some,
}
use akko.Limits.{Limiter, Admission, admitted, refused, admit}
use akko.Spawn.{Poll, Slotted, poll_again, acquire_slot}

-- The first poll is at a time or later, and each next one 250 milliseconds after the one before, or
-- later.
abbrev pub Spaced : ℕ → List Poll → Type 0
Spaced time [] = Unit
Spaced time (p ∷ ps) = (time ≤ p.now) × Spaced (p.now + 250) ps

poll_again-due :
    (p : Poll) (deadline : ℕ) (a : Limiter × Admission) (rest : Option Slotted)
    → deadline ≤ p.now
    → is_some (poll_again p deadline a rest) ≡ true
poll_again-due p deadline (l, admitted s) rest h = refl
poll_again-due p deadline (l, refused r) rest h = ground arith

poll_again-rest :
    (p : Poll) (deadline : ℕ) (a : Limiter × Admission) (rest : Option Slotted)
    → is_some rest ≡ true
    → is_some (poll_again p deadline a rest) ≡ true
poll_again-rest p deadline (l, admitted s) rest h = refl
poll_again-rest p deadline (l, refused r) rest h = ground arith

-- However full the limiter is at each poll, the wait for a slot is over, with a slot or with a reason,
-- by the poll after as many pauses of 250 milliseconds as it takes to reach the deadline.
pub acquire_slot_ends :
    (parent : String) (provider : Option String) (start deadline pauses : ℕ) (polls : List Poll)
    → Spaced start polls
    → deadline ≤ start + 250 * pauses
    → pauses < length polls
    → is_some (acquire_slot parent provider deadline polls) ≡ true
unfolding acquire_slot
acquire_slot_ends parent provider start deadline pauses [] s d n = (let h = n in ground arith)
acquire_slot_ends parent provider start deadline zero (p ∷ ps) s d n =
    poll_again-due p deadline (admit p.limiter parent 1 provider)
      (acquire_slot parent provider deadline ps) (let h = d in let g = s.0 in omega arith)
acquire_slot_ends parent provider start deadline (suc k) (p ∷ ps) s d n =
    poll_again-rest p deadline (admit p.limiter parent 1 provider)
      (acquire_slot parent provider deadline ps)
      (acquire_slot_ends parent provider (p.now + 250) deadline k ps s.1
        (let h = d in let g = s.0 in omega arith) (let h = n in omega arith))
