-- ===== src/Counters/Tests.antt =====
-- Runs of the counters of src/sb_counter.h and src/sb_counter.c.
use sysbench.Prelude.{◌+◌, ◌≡◌, refl, List, [], arith, ◌∷◌, u64, get_or}
use sysbench.Counters.{init, event, counter_inc, counter_val, index}
use sysbench.Counters.Sums.{
  Call, add, report_intermediate, report_cumulative, cumulative, report, perform_all, reported,
  counted,
}
use sysbench.Counters.Reports.{reports-total}

abbrev calls : List Call
calls =
    add 0 event 3
    ∷ report_intermediate
    ∷ add 1 event 4
    ∷ add 2 event 100
    ∷ report_cumulative
    ∷ add 0 event 5
    ∷ report_intermediate
    ∷ []

inc_twice : counter_val (counter_inc (counter_inc (init 2) 1 event) 1 event) 1 (index event) ≡ 2
unfolding init counter_inc
inc_twice = refl

reports-total_example :
    u64 (
      reported cumulative (index event) (init 2) calls
      + get_or (report cumulative (perform_all (init 2) calls)).1 (index event) 0)
    ≡ u64 (counted 2 (index event) calls)
reports-total_example =
    reports-total 2 calls cumulative event
      (omega arith, (omega arith, (omega arith, (omega arith, tt))))

twelve_counted : u64 (counted 2 (index event) calls) ≡ 12
unfolding counted
twelve_counted = refl

last_report :
    (report cumulative (perform_all (init 2) calls)).1 ≡ 0 ∷ 0 ∷ 0 ∷ 5 ∷ 0 ∷ 0 ∷ 0 ∷ 0 ∷ []
unfolding report perform_all init
last_report = refl
