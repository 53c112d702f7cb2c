-- ===== src/Compare/Placeholders.antt =====
-- src/drivers/compare/drv_compare.c: replace_placeholders, which writes the values of a statement's
-- parameters where its text has a '?'. It is called to print a statement whose results differ.
pub mod Room
pub mod ReadBack
mod Tests
use sysbench.Prelude.{
  ℕ, zero, suc, ◌+◌, ◌*◌, ◌/◌, ◌%◌, Bool, true, false, not, Option, none, some, List, [], ◌∷◌, ◌++◌,
  ltb, ◌==◌, ◌||◌, if◌then◌else◌, length, take, tally,
}
use sysbench.Prelude.Int.{ℤ, pos, negsuc}
use sysbench.Prelude.Text.{Str}

-- The cases that the code tells apart in a MYSQL_BIND. The value of a number stands in its buffer.
-- Of a string (MYSQL_TYPE_STRING or MYSQL_TYPE_VAR_STRING) these are the bytes in its buffer, as
-- many as its length says; there are none when the buffer or the length is a null pointer.
pub data Param : Type 0 where
  param_long : ℤ → Param
  param_longlong : ℤ → Param
  param_string : Option Str → Param
  param_other : Param

-- The digits of a number with at most as many of them as the first argument says.
unfoldable pub decimal : ℕ → ℕ → Str
decimal zero n = []
decimal (suc digits) n =
    let last = b'0' + n % 10 in
    let rest = decimal digits (n / 10) in if ltb n 10 then last ∷ [] else rest ++ (last ∷ [])

-- sprintf with "%d" and "%lld"
unfoldable pub print_int : ℤ → Str
unfolding decimal
print_int (pos n) = decimal 19 n
print_int (negsuc n) = b'-' ∷ decimal 19 (suc n)

-- The loop that copies a string with a backslash before each quote and each backslash.
unfoldable pub escape : Str → Str
escape [] = []
escape (c ∷ s) = let rest = c ∷ escape s in if c == b'\'' || c == b'\\' then b'\\' ∷ rest else rest

-- The bytes that are reserved for a parameter.
unfoldable pub reserved : Param → ℕ
reserved (param_long n) = 11
reserved (param_longlong n) = 20
reserved (param_string (some s)) = length s * 2 + 2
reserved (param_string none) = 0
reserved param_other = 32

-- What is written in place of a '?'.
unfoldable pub written : Param → Str
unfolding print_int escape
written (param_long n) = print_int n
written (param_longlong n) = print_int n
written (param_string (some s)) = b'\'' ∷ (escape s ++ (b'\'' ∷ []))
written (param_string none) = b'\'' ∷ b'\'' ∷ []
written param_other = b'?' ∷ []

-- The loop over the text of the statement.
unfoldable pub fill : Str → List Param → Str
unfolding written
fill [] params = []
fill (c ∷ s) [] = c ∷ fill s []
fill (c ∷ s) (p ∷ params) = elim (c == b'?') [
  | true ↦ written p ++ fill s params
  | false ↦ c ∷ fill s (p ∷ params)
]

-- The size of the allocated buffer, and the bytes written to it before the NUL.
pub record Filled : Type 0 where
  pub size : ℕ
  pub text : Str

unfoldable pub final_len : Str → List Param → ℕ
unfolding reserved
final_len q params = length q + 1 + tally reserved params

-- replace_placeholders; `allocated` says whether malloc returns a buffer.
unfoldable pub replace_placeholders : Bool → Option Str → Option (List Param) → ℤ → Option Filled
unfolding fill final_len
replace_placeholders allocated (some q) (some params) (pos count) =
    let used = take count params in
    if allocated then some (record { size = final_len q used; text = fill q used }) else none
replace_placeholders allocated _ _ _ = none
