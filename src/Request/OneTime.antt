-- ===== src/Request/OneTime.antt =====
-- SharedMemoryState::shouldExecuteOneTimeTaskAmongWorkers of
-- prod/native/libcommon/code/SharedMemoryState.h, as the steps of the workers that call it: the test
-- under the sharable lock, and the test and set under the exclusive lock. Between the two any other
-- worker can step.
use opentelemetry_php_distro.Prelude.{
  ℕ, ◌≡◌, refl, ap, Bool, true, false, List, [], ◌∷◌, some, lookup, assign, nat_eq,
}

-- Where a worker stands in the function: it waits for the exclusive lock, or has returned.
pub data Position : Type 0 where
  between_locks : Position
  returned : Bool → Position

pub record Shared : Type 0 where
  pub executed : Bool
  pub positions : List (ℕ × Position)

-- The two critical sections, by the value of the flag.
abbrev pub first_section : Bool → Position
first_section true = returned false
first_section false = between_locks

abbrev pub second_section : Bool → Position
second_section true = returned false
second_section false = returned true

-- A worker calls the function, or goes on; a worker that has returned may call again.
unfoldable pub enter : ℕ → Shared → Shared
enter worker s = record s { positions = assign worker (first_section s.executed) s.positions }

unfoldable pub lock_exclusive : ℕ → Shared → Shared
lock_exclusive worker s = record {
  executed = true;
  positions = assign worker (second_section s.executed) s.positions;
}

-- The workers to which the function has returned true, once more has returned.
abbrev pub winners : ℕ → Position → List ℕ → List ℕ
winners worker (returned true) won = worker ∷ won
winners worker (returned false) won = won
winners worker between_locks won = won

pub data Step : Shared → List ℕ → Shared → List ℕ → Type 0 where
  enters : (worker : ℕ) (s : Shared) (won : List ℕ) → Step s won (enter worker s) won
  locks :
      (worker : ℕ) (s : Shared) (won : List ℕ)
      → lookup worker s.positions ≡ some between_locks
      → Step s won (lock_exclusive worker s) (winners worker (second_section s.executed) won)

-- Runs from a fresh shared memory, with the workers to which the function has returned true.
abbrev pub fresh : Shared
fresh = record { executed = false; positions = [] }

pub data Runs : Shared → List ℕ → Type 0 where
  start : Runs fresh []
  step : {s s' : Shared} {won won' : List ℕ} → Runs s won → Step s won s' won' → Runs s' won'

-- A fresh flag has no winner, and a set flag has one.
abbrev pub HasWinner : Bool → List ℕ → Type 0
HasWinner false won = won ≡ []
HasWinner true won = (worker : ℕ) × (won ≡ worker ∷ [])

Step-HasWinner :
    {s s' : Shared} {won won' : List ℕ}
    → Step s won s' won'
    → HasWinner s.executed won
    → HasWinner s'.executed won'
unfolding enter lock_exclusive
Step-HasWinner (enters worker s won) h = h
Step-HasWinner (locks worker s won e) h = set worker s.executed won h
  where
    set :
        (worker : ℕ) (b : Bool) (won : List ℕ)
        → HasWinner b won
        → (w : ℕ) × (winners worker (second_section b) won ≡ w ∷ [])
    set worker true won h = h
    set worker false won h = (worker, ap (◌∷◌ worker) h)

-- In every interleaving of the workers' steps the function has returned true to nobody while the
-- flag is clear, and to exactly one worker, once, when it is set.
pub Runs-HasWinner : {s : Shared} {won : List ℕ} → Runs s won → HasWinner s.executed won
Runs-HasWinner start = refl
Runs-HasWinner (step r st) = Step-HasWinner st (Runs-HasWinner r)
