-- ===== src/Tests/Joins.antt =====
-- `when_any` and `when_all` on concrete outcomes.
use kelcoro.Base.{ℕ, ◌≡◌, refl, Option, none, some, List, [], ◌∷◌, arith, ◌==◌, if◌then◌else◌}
use kelcoro.Expected.{Expected, value, unexpected}
use kelcoro.WhenAny.{Outcome, returned, threw, race}
use kelcoro.WhenAny.Race.{Decided, race-Decided}
use kelcoro.WhenAll.{WhenAllState, join}
use kelcoro.WhenAll.Join.{join_resumes}
use kelcoro.WhenAll.Jobs.{Joining, Move, starts, goes_on, begin, run}
use kelcoro.WhenAll.Ordered.{outstanding}
use kelcoro.WhenAll.Finishing.{Finishes, run-Returned}

-- The second of three children throws, then the third returns 7, then the first returns 8.
abbrev endings : List (ℕ × Outcome ℕ ℕ)
endings = (1, threw 5) ∷ (2, returned 7) ∷ (0, returned 8) ∷ []

race-Decided_example :
    Decided 3 9 none endings (race endings (record { result = none; count_waiters = 3; owner = 9 }))
race-Decided_example =
    race-Decided endings 3 9 none (ground arith) (ground arith) (ground arith) (ground arith)

abbrev finished : List (ℕ × Expected ℕ ℕ)
finished = (1, unexpected 5) ∷ (0, value 7) ∷ []

abbrev two_tasks : WhenAllState ℕ ℕ
two_tasks = record { results = value 0 ∷ value 0 ∷ []; count = 2 }

join_resumes_example : (join 9 finished two_tasks).0 ≡ (if 2 == 2 then 9 ∷ [] else [])
join_resumes_example =
    join_resumes 9 finished two_tasks (ground arith) (ground arith) (ground arith)

-- Of three tasks the second has stored and counted down before the third is started, and the first
-- counts down last.
abbrev crossing : List Move
crossing =
    starts
    ∷ starts
    ∷ goes_on 1
    ∷ goes_on 1
    ∷ goes_on 1
    ∷ goes_on 0
    ∷ starts
    ∷ goes_on 2
    ∷ goes_on 0
    ∷ goes_on 2
    ∷ goes_on 2
    ∷ goes_on 0
    ∷ []

abbrev outcomes : List (Expected ℕ ℕ)
outcomes = value 7 ∷ unexpected 5 ∷ value 8 ∷ []

run-Returned_example :
    (st : Joining ℕ ℕ) × (run crossing (begin (value 0) outcomes) ≡ some st)
    × (st.returned ≡ (if outstanding st == 0 then outcomes ∷ [] else []))
    × Finishes outcomes st
run-Returned_example = run-Returned crossing (value 0) outcomes (ground arith)

returned_at_end : Option (Joining ℕ ℕ) → List (List (Expected ℕ ℕ))
returned_at_end none = []
returned_at_end (some st) = st.returned

outcomes_in_order : returned_at_end (run crossing (begin (value 0) outcomes)) ≡ outcomes ∷ []
unfolding returned_at_end run begin
outcomes_in_order = refl
