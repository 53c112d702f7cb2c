-- ===== src/Random/Tests.antt =====
-- Random numbers of concrete states.
use sysbench.Prelude.{◌-◌, ◌^◌, ◌≡◌, refl, arith, length}
use sysbench.Prelude.Round.{round}
use sysbench.Prelude.Text.{codes}
use sysbench.Random.{Rng, uniform, rand_str, rand_varstr, unique_permute}
use sysbench.Random.Uniform.{IsIn, uniform-IsIn}

-- A state whose next number is the greatest word.
abbrev top : Rng
top = record { s0 = 2 ^ 64 - 1; s1 = 0 }

-- Out of the range: the sum of 100 and of what is a little below 1 is rounded to 101.
above_range : (uniform top 100 100).0 ≡ 101
unfolding uniform round
above_range = refl

above_digits : (rand_str top (codes "#")).0 ≡ codes ":"
unfolding rand_str round
above_digits = refl

above_letters : (rand_str top (codes "@")).0 ≡ codes "{"
unfolding rand_str round
above_letters = refl

too_long : length (rand_varstr top 10 10).0 ≡ 11
unfolding rand_varstr round
too_long = refl

permuted : unique_permute 65536 ≡ 5
unfolding unique_permute
permuted = refl

uniform-IsIn_example : IsIn 3 9 (uniform top 3 8).0
uniform-IsIn_example = uniform-IsIn top 3 8 (omega arith) (omega arith)
