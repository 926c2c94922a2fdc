-- ===== src/Limit/Tests.antt =====
-- A run with limit 2 and window 10, and an instance of the theorem.
use opsup.Prelude.{ℕ, ◌*◌, ◌≤◌, ◌≡◌, refl, arith, String, List, [], ◌∷◌}
use opsup.Limit.Buckets.{expire, lookup, put, admit, attempt, after, passes}
use opsup.Limit.Passes.{passes-bound}

all_steps : Unit {0}
unfolding expire lookup put admit attempt after passes
all_steps = tt

-- The first bucket ends at 10, and another one begins.
abbrev before : List (ℕ × String)
before = (0, "a") ∷ []

abbrev requests : List (ℕ × String)
requests = (9, "a") ∷ (9, "a") ∷ (9, "b") ∷ (10, "a") ∷ (11, "a") ∷ (12, "a") ∷ []

three : passes 2 10 "a" requests (after 2 10 before []) ≡ 3
unfolding all_steps
three = refl

passes-bound_example : passes 2 10 "a" requests (after 2 10 before []) ≤ 2 * 2
passes-bound_example = passes-bound 2 10 before requests 9 "a" (
  (omega arith, omega arith),
  (
    (omega arith, omega arith),
    (
      (omega arith, omega arith),
      ((omega arith, omega arith), ((omega arith, omega arith), ((omega arith, omega arith), tt))),
    ),
  ),
)
