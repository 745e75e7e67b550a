-- ===== src/Examples/AppRuns.antt =====
-- Runs of the benchmark programs.
use flexpret.Common.{ℕ, ◌≡◌, refl, some}
use flexpret.State.{Ctx}
use flexpret.Examples.{hart, thread_with}
use flexpret.App.InsertSort.{sort_loop, unsorted, Sorted, sort_loop-Sorted}

-- The other harts finish while main waits.
abbrev main_hart : Ctx
main_hart = record (hart 0) { others = λ n s. record s { startup_state = λ i. thread_with 0 } }

-- The array of insertsort_main
sort_loop-Sorted_example :
    (a' : ℕ → ℕ) × (sort_loop 10 2 (unsorted (λ j. 0)) ≡ some a') × Sorted 10 (unsorted (λ j. 0)) a'
sort_loop-Sorted_example = sort_loop-Sorted (unsorted (λ j. 0)) refl
