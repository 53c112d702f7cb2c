-- ===== src/Histogram/Tests.antt =====
-- A histogram of four indices at concrete inputs. Values are natural numbers here, and an index is
-- the value itself.
use mathlib.Core.Option
use sysbench.Prelude.{
  ℕ, ◌+◌, ◌≡◌, ◌↔◌, refl, true, false, some, List, [], ◌∷◌, arith, u64, replicate, length-replicate,
  sum, ◌==◌, if◌then◌else◌,
}
use sysbench.Prelude.Samples.{counting}
use sysbench.Histogram.{
  Histogram, nslots, pct_cumulative, pct_index, drain_slots, drain_slot, clear_slots, update,
  index_of, nmax_of, print, merge_intermediate_into_cumulative, get_pct_intermediate,
  get_pct_cumulative,
}
use sysbench.Histogram.Merge.{AllLength-replicate, column}
use sysbench.Histogram.Conserve.{IsValid, recorded, recorded-update, get_pct_intermediate-conserves}
use sysbench.Histogram.Locking.{print-locked}

abbrev some_counts : List ℕ
some_counts = 3 ∷ 0 ∷ 4 ∷ 1 ∷ []

abbrev sample : Histogram ℕ
sample = record {
  cumulative_array = some_counts;
  cumulative_nevents = 8;
  temp_array = replicate 4 0;
  interm_slots = replicate nslots (replicate 4 0);
  array_size = 4;
  range_min = 0;
  range_max = 3;
  range_deduct = 0;
  range_mult = 1;
  locked = false;
}

sample-IsValid : IsValid sample
sample-IsValid = record {
  size_pos = omega arith;
  cumulative_len = refl;
  slots_len = length-replicate nslots (replicate {A = ℕ} 4 0);
  slots_shape = AllLength-replicate nslots 4;
  word = omega arith;
  consistent = refl;
}

recorded-update_example :
    (recorded (update counting sample 2 700) 2 ≡ (
      if 2 == index_of counting sample 2 then u64 (recorded sample 2 + 1) else recorded sample 2))
    × IsValid (update counting sample 2 700)
recorded-update_example = recorded-update counting sample 2 700 2 sample-IsValid

update_adds_one : recorded (update counting sample 2 700) 2 ≡ 5
unfolding update
update_adds_one = refl

clamped_above : index_of counting sample 900 ≡ 3
unfolding index_of
clamped_above = refl

get_pct_intermediate-conserves_example :
    (out : Histogram ℕ × ℕ) × (get_pct_intermediate counting 50 sample ≡ some out)
    × IsValid out.0
    × (out.0.locked ≡ false)
    × ((j : ℕ) → recorded out.0 j ≡ recorded sample j)
    × ((j : ℕ) → column out.0.interm_slots j ≡ 0)
get_pct_intermediate-conserves_example =
    get_pct_intermediate-conserves counting sample 50 sample-IsValid refl

median : Option.map (λ out. out.1) (get_pct_cumulative counting 50 sample) ≡ some 2
unfolding get_pct_cumulative pct_cumulative pct_index nmax_of drain_slots drain_slot clear_slots
median = refl

print-locked_example :
    (out : Histogram ℕ) × (Option.map (λ r. r.0) (print counting sample) ≡ some out)
    × ((out.locked ≡ true) ↔ (sum (merge_intermediate_into_cumulative sample).cumulative_array ≡ 0))
print-locked_example = print-locked counting sample refl
