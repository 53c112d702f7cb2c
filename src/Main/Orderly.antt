-- ===== src/Main/Orderly.antt =====
-- main (src/sysbench.c) makes its calls in their order.
use sysbench.Prelude.{ℕ}
use sysbench.Main.Order.{Orderly}
use sysbench.Main.Dispatch.{World, Exit}

-- The same of what main returns.
record IsOrderly (w : World) (k : ℕ) (r : Exit) : Type 0 where
  order : Orderly w k r.calls
