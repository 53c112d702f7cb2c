-- ===== src/Compare/Statement.antt =====
-- src/drivers/compare/drv_compare.c: preparing a statement on every server, and binding to it. What
-- the client library answers is an argument; a statement's handle is the number of its connection.
pub mod Balance
pub mod Binding
mod Tests
use sysbench.Prelude.{
  ℕ, zero, suc, ◌+◌, Bool, true, false, not, Option, none, some, List, [], ◌∷◌, ◌++◌, ◌==◌, ◌||◌,
  if◌then◌else◌,
}

-- What happens for a connection: its `mysql` is a null pointer, mysql_stmt_init gives nothing,
-- mysql_stmt_prepare succeeds, it fails with ER_UNSUPPORTED_PS, or with another error.
pub data Preparing : Type 0 where
  no_connection no_statement prepares unsupported refuses : Preparing

-- What mysql_drv_prepare has done: the array of statements, the flag `emulated`, the statements
-- that were made by mysql_stmt_init and those given to mysql_stmt_close, and whether it goes on.
pub record Work : Type 0 where
  pub statements : List (Option ℕ)
  pub emulated : Bool
  pub opened : List ℕ
  pub closed : List ℕ
  pub goes_on : Bool

abbrev pub no_work : Bool → Work
no_work goes_on = record {
  statements = [];
  emulated = false;
  opened = [];
  closed = [];
  goes_on = goes_on;
}

-- A connection's part before that of the connections after it.
unfoldable pub prepare_one : Bool → ℕ → Preparing → Work → Work
prepare_one use_ps i no_connection rest = no_work false
prepare_one false i _ rest = record rest { statements = none ∷ rest.statements; emulated = true }
prepare_one true i no_statement rest = no_work false
prepare_one true i prepares rest = record rest {
  statements = some i ∷ rest.statements;
  opened = i ∷ rest.opened;
}
prepare_one true i unsupported rest = record rest {
  statements = none ∷ rest.statements;
  emulated = true;
  opened = i ∷ rest.opened;
  closed = i ∷ rest.closed;
}
prepare_one true i refuses rest = record (no_work false) { opened = i ∷ []; closed = i ∷ [] }

-- The loop over the connections, from a number on.
unfoldable pub prepare_each : Bool → ℕ → List Preparing → Work
unfolding prepare_one
prepare_each use_ps i [] = no_work true
prepare_each use_ps i (p ∷ conns) = prepare_one use_ps i p (prepare_each use_ps (suc i) conns)

abbrev pub present : List (Option ℕ) → List ℕ
present [] = []
present (none ∷ statements) = present statements
present (some i ∷ statements) = i ∷ present statements

-- mysql_multi_stmt_free: the statements that it closes.
unfoldable pub multi_stmt_free : List (Option ℕ) → List ℕ
multi_stmt_free statements = present statements

-- What is returned; the statements, when stmt->ptr is set to them.
pub record Prepared : Type 0 where
  pub status : ℕ
  pub statements : Option (List (Option ℕ))
  pub emulated : Bool
  pub opened : List ℕ
  pub closed : List ℕ

-- mysql_drv_prepare, for a statement that is new, with memory; the connections are none when
-- stmt->connection->ptr is a null pointer.
unfoldable pub drv_prepare : Bool → Bool → Option (List Preparing) → Prepared
unfolding prepare_each multi_stmt_free
drv_prepare dry_run use_ps conns =
    let nothing : ℕ → Prepared = λ status. record {
      status = status;
      statements = none;
      emulated = false;
      opened = [];
      closed = [];
    } in
    let made : List Preparing → Prepared = λ conns.
      (let w = prepare_each use_ps 0 conns in
        if w.goes_on
        then record {
          status = 0;
          statements = some w.statements;
          emulated = w.emulated;
          opened = w.opened;
          closed = w.closed;
        }
        else record {
          status = 1;
          statements = none;
          emulated = w.emulated;
          opened = w.opened;
          closed = w.closed ++ multi_stmt_free w.statements;
        }) in
    if dry_run then nothing 0 else elim conns [
      | none ↦ nothing 1
      | some conns ↦ elim conns [ [] ↦ nothing 1 | c ∷ others ↦ made (c ∷ others) ]
    ]

-- mysql_stmt_param_count, and whether mysql_stmt_bind_param or mysql_stmt_bind_result succeeds.
pub record Binder : Type 0 where
  pub param_count : ℕ
  pub binds : Bool

-- The loop of mysql_drv_bind_param over the statements.
unfoldable pub bind_params : ℕ → (ℕ → Binder) → List (Option ℕ) → ℕ
bind_params len binder [] = 0
bind_params len binder (none ∷ statements) = bind_params len binder statements
bind_params len binder (some i ∷ statements) =
    let rest = bind_params len binder statements in
    if not ((binder i).param_count == len) || not (binder i).binds then 1 else rest

-- mysql_drv_bind_param, for a statement that mysql_drv_prepare has prepared.
unfoldable pub drv_bind_param : Bool → Prepared → ℕ → (ℕ → Binder) → ℕ
unfolding bind_params
drv_bind_param dry_run s len binder = if dry_run then 0 else elim s.statements [
  | none ↦ 1
  | some statements ↦ if s.emulated then 1 else bind_params len binder statements
]

-- The loop of mysql_drv_bind_result over the statements.
unfoldable pub bind_results : (ℕ → Binder) → List (Option ℕ) → ℕ
bind_results binder [] = 0
bind_results binder (none ∷ statements) = bind_results binder statements
bind_results binder (some i ∷ statements) =
    let rest = bind_results binder statements in if (binder i).binds then rest else 1

-- mysql_drv_bind_result
unfoldable pub drv_bind_result : Bool → Prepared → (ℕ → Binder) → ℕ
unfolding bind_results
drv_bind_result dry_run s binder =
    if dry_run
    then 0
    else elim s.statements [ none ↦ 1 | some statements ↦ bind_results binder statements ]
