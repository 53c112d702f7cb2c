-- ===== src/Pgsql.antt =====
-- src/drivers/pgsql/drv_pgsql.c: pgsql_drv_prepare, which numbers the placeholders of a statement
-- for the server. What the client library answers is an argument.
pub mod Buffer
pub mod Round
pub mod Numbered
pub mod Query
pub mod Rows
pub mod Answers
mod Tests
use sysbench.Prelude.{
  ℕ, zero, suc, ◌+◌, ◌-◌, ◌*◌, Bool, true, false, not, Option, none, some, List, [], ◌∷◌, ◌++◌, ltb,
  leb, ◌==◌, ◌||◌, if◌then◌else◌, ◌>>=◌, length, u32,
}
use sysbench.Prelude.Text.{Str}
use sysbench.Compare.Placeholders.{decimal}

-- The buffer of the conversion: the bytes before position j, which is their number; its size, 0
-- while there is none; the flag need_realloc; the number of the next placeholder; and whether a
-- byte was written outside the buffer. The memory for it is there.
pub record Conversion : Type 0 where
  pub buf : Str
  pub buflen : ℕ
  pub need_realloc : Bool
  pub vcnt : ℕ
  pub overrun : Bool

-- The test behind the label `again`.
unfoldable pub make_room : Conversion → Conversion
make_room c =
    if leb c.buflen (length c.buf + 1) || c.need_realloc
    then record c {
      buflen = if ltb 0 c.buflen then u32 (c.buflen * 2) else 256;
      need_realloc = false;
    }
    else c

-- "$%d"
unfoldable pub placeholder : ℕ → Str
unfolding decimal
placeholder n = b'$' ∷ decimal 10 n

-- The body of the loop for a byte of the query, with at most as many rounds behind the label
-- `again` as the first argument says; none when there are more.
unfoldable pub convert_byte : ℕ → ℕ → Conversion → Option Conversion
unfolding make_room placeholder
convert_byte zero byte c = none
convert_byte (suc rounds) byte c =
    let r = make_room c in
    let n = placeholder r.vcnt in
    let again = convert_byte rounds byte (record r { need_realloc = true }) in
    if not (byte == b'?')
    then some (record r {
      buf = r.buf ++ (byte ∷ []);
      overrun = r.overrun || leb r.buflen (length r.buf);
    })
    else if leb (r.buflen - length r.buf) (length n)
    then again
    else some (record r { buf = r.buf ++ n; vcnt = u32 (r.vcnt + 1) })

unfoldable pub convert_bytes : ℕ → Str → Conversion → Option Conversion
unfolding convert_byte
convert_bytes rounds [] c = some c
convert_bytes rounds (byte ∷ query) c =
    convert_byte rounds byte c >>= (λ c'. convert_bytes rounds query c')

abbrev pub start : Conversion
start = record { buf = []; buflen = 0; need_realloc = true; vcnt = 1; overrun = false }

-- The loop, and buf[j] = '\0'.
unfoldable pub convert : ℕ → Str → Option Conversion
unfolding convert_bytes
convert rounds query =
    convert_bytes rounds query start
    >>= (λ c. some (record c { overrun = c.overrun || leb c.buflen (length c.buf) }))

-- What pgsql_drv_prepare returns and stores: the flag `emulated`, the query, the number of
-- parameters, whether the server has prepared the statement, and whether a byte was written outside
-- the buffer.
pub record Prepared : Type 0 where
  pub status : ℕ
  pub emulated : Bool
  pub query : Option Str
  pub nparams : ℕ
  pub prepared : Bool
  pub overrun : Bool

unfoldable pub store : Bool → Conversion → Prepared
store accepted c =
    let nparams = c.vcnt - 1 in
    if nparams == 0
    then (if accepted
        then record {
          status = 0;
          emulated = false;
          query = some c.buf;
          nparams = 0;
          prepared = true;
          overrun = c.overrun;
        }
        else record {
          status = 1;
          emulated = false;
          query = none;
          nparams = 0;
          prepared = false;
          overrun = c.overrun;
        })
    else record {
      status = 0;
      emulated = false;
      query = some c.buf;
      nparams = nparams;
      prepared = false;
      overrun = c.overrun;
    }

-- pgsql_drv_prepare; `accepted` is what PQprepare says of a statement without parameters. It is
-- none when the conversion takes more rounds for a byte.
unfoldable pub drv_prepare : ℕ → Bool → Bool → Bool → Str → Option Prepared
unfolding convert store
drv_prepare rounds connected use_ps accepted query =
    let converted = convert rounds query >>= (λ c. some (store accepted c)) in
    if not connected
    then some (record {
      status = 1;
      emulated = false;
      query = none;
      nparams = 0;
      prepared = false;
      overrun = false;
    })
    else if not use_ps
    then some (record {
      status = 0;
      emulated = true;
      query = some query;
      nparams = 0;
      prepared = false;
      overrun = false;
    })
    else converted
