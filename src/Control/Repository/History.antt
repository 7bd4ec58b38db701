-- ===== src/Control/Repository/History.antt =====
-- What a history of calls leaves as it was.
use astrum_weaver.Prelude.{◌≤◌, String, ◌≡◌, refl, ap, ◌∙◌, true, some, List, [], ◌∷◌, arith}
use astrum_weaver.Dict.{get}
use astrum_weaver.Control.Models.{JobRecord, is_terminal}
use astrum_weaver.Control.Repository.State.{Repository}
use astrum_weaver.Control.Repository.Accounting.{IsBooked}
use astrum_weaver.Control.Repository.Books.{step-IsBooked}
use astrum_weaver.Control.Repository.Calls.{Call, step, run, IsValidHistory}
use astrum_weaver.Control.Repository.Evolution.{
  request_of, Move, stays, extends, starts, requeues, ends, step-Evolved,
}

-- A terminal job makes no move.
terminal-stays : (j j' : JobRecord) → is_terminal j.status ≡ true → Move j j' → j' ≡ j
terminal-stays j j' t (stays e) = e
terminal-stays j j' t (extends r r' n k) = absurd (cc (ap is_terminal r))
terminal-stays j j' t (starts q r' n) = absurd (cc (ap is_terminal q))
terminal-stays j j' t (requeues r q n m) = absurd (cc (ap is_terminal r))
terminal-stays j j' t (ends o t' n) = absurd (cc)

Move-attempts : (j j' : JobRecord) → Move j j' → j.attempts ≤ j'.attempts
Move-attempts j j' (stays e) = omega (arith, ap (λ (x : JobRecord). x.attempts) e)
Move-attempts j j' (extends r r' n k) = omega arith
Move-attempts j j' (starts q r' n) = omega arith
Move-attempts j j' (requeues r q n m) = omega arith
Move-attempts j j' (ends o t' n) = omega arith

-- A job that has succeeded, failed or been cancelled is never changed again: whatever calls follow,
-- also late completions and recoveries, the stored record is the same.
pub run-terminal :
    (s : Repository) (cs : List Call) (key : String) (j : JobRecord)
    → IsBooked s
    → IsValidHistory s cs
    → get key s.jobs ≡ some j
    → is_terminal j.status ≡ true
    → get key (run s cs).jobs ≡ some j
unfolding run
run-terminal s [] key j b v found t = found
run-terminal s (c ∷ cs) key j b v found t =
    let (j', found', ev) = step-Evolved s b key j found c v.0 in
    run-terminal (step s c) cs key j (step-IsBooked s c v.0 b) v.1
      (found' ∙ ap some (terminal-stays j j' t ev.move)) t

-- The job at a key after a history, its request unchanged and no attempt forgotten.
pub record Survives (key : String) (j : JobRecord) (s : Repository) : Type 0 where
  pub now_as : JobRecord
  pub found : get key s.jobs ≡ some now_as
  pub request : request_of now_as ≡ request_of j
  pub attempts : j.attempts ≤ now_as.attempts

-- No history loses a stored job, changes what it was asked to be, or takes back an attempt.
pub run-Survives :
    (s : Repository) (cs : List Call) (key : String) (j : JobRecord)
    → IsBooked s
    → IsValidHistory s cs
    → get key s.jobs ≡ some j
    → Survives key j (run s cs)
unfolding run
run-Survives s [] key j b v found = record {
  now_as = j;
  found = found;
  request = refl;
  attempts = omega arith;
}
run-Survives s (c ∷ cs) key j b v found =
    let (j', found', ev) = step-Evolved s b key j found c v.0 in
    let later = run-Survives (step s c) cs key j' (step-IsBooked s c v.0 b) v.1 found' in
    record {
      now_as = later.now_as;
      found = later.found;
      request = later.request ∙ ev.request;
      attempts = omega (arith, later.attempts, Move-attempts j j' ev.move);
    }
