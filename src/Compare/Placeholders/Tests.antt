-- ===== src/Compare/Placeholders/Tests.antt =====
-- Statements with parameters, as replace_placeholders (src/drivers/compare/drv_compare.c) prints
-- them.
use sysbench.Prelude.{◌+◌, ◌-◌, ◌^◌, ◌≤◌, ◌≡◌, refl, true, none, some, List, [], ◌∷◌, arith, length}
use sysbench.Prelude.Int.{pos, negsuc}
use sysbench.Prelude.Text.{Str, codes}
use sysbench.Compare.Placeholders.{
  Param, param_long, param_longlong, param_string, param_other, Filled, fill, final_len,
  replace_placeholders,
}
use sysbench.Compare.Placeholders.Room.{replace_placeholders-fits}
use sysbench.Compare.Placeholders.ReadBack.{read_back, strings, replace_placeholders-read_back}

abbrev statement : Str
statement = codes "UPDATE t SET c=? WHERE id=?"

abbrev name_and_id : List Param
name_and_id = param_string (some (codes "O'Hara")) ∷ param_long (negsuc 41) ∷ []

filled : fill statement name_and_id ≡ codes "UPDATE t SET c='O\\'Hara' WHERE id=-42"
unfolding fill
filled = refl

reserved_bytes : final_len statement name_and_id ≡ 53
unfolding final_len
reserved_bytes = refl

extremes :
    fill (codes "?,?,?") (param_longlong (negsuc (2 ^ 63 - 1)) ∷ param_other ∷ [])
    ≡ codes "-9223372036854775808,?,?"
unfolding fill
extremes = refl

replace_placeholders-fits_example :
    (f : Filled) × (replace_placeholders true (some statement) (some name_and_id) (pos 2) ≡ some f)
    × (length f.text + 1 ≤ f.size)
replace_placeholders-fits_example =
    replace_placeholders-fits statement name_and_id 2 (tt, (omega arith, tt)) (tt, (tt, tt))

abbrev no_buffer : List Param
no_buffer = param_string none ∷ []

abbrev texts : List Str
texts = codes "a'b" ∷ codes "\\" ∷ []

replace_placeholders-read_back_example :
    (f : Filled) × (replace_placeholders true (some (codes "?;?")) (some (strings texts)) (pos 2)
      ≡ some f)
    × (read_back (codes "?;?") 2 f.text ≡ some texts)
replace_placeholders-read_back_example = replace_placeholders-read_back (codes "?;?") texts
