-- ===== src/Db/Tests.antt =====
-- Runs of a connection and of an insert of many rows (src/db_driver.c).
use sysbench.Prelude.{◌≡◌, refl, true, false, none, some, List, [], ◌∷◌, arith, replicate}
use sysbench.Prelude.Text.{Str, codes}
use sysbench.Counters.{read, write, other}
use sysbench.Db.{
  Session, Reply, conn_ready, error_none, queries, frees, fetches, disconnects, guard,
}
use sysbench.Db.Protocol.{unused, Op, op_query, op_fetch_row, op_connection_close, perform_all}
use sysbench.Db.Obeys.{Obeys, perform_all-Obeys}
use sysbench.Db.Bulk.{Bulk, Answers, bulk_packet_size, bulk_insert_next}
use sysbench.Db.Bulk.Buffer.{Holds}
use sysbench.Db.Bulk.Rows.{Added, bulk_insert_next-Holds, bulk_insert_next-overrun}

abbrev fresh : Session
fresh = record {
  error = error_none;
  state = conn_ready;
  rs = record { counter = other; nrows = 0; nfields = 0; statement = none; has_row = false };
  thread_id = 0;
  counters = record {
    threads = 1;
    rows = replicate 2 (replicate 8 0);
    last_intermediate = replicate 8 0;
    last_cumulative = replicate 8 0;
  };
  calls = [];
}

abbrev a_row : Reply
a_row = record { status = error_none; counter = read; nrows = 1; nfields = 1 }

abbrev a_write : Reply
a_write = record { status = error_none; counter = write; nrows = 1; nfields = 0 }

abbrev session_ops : List Op
session_ops =
    op_query true a_row (codes "SELECT 1")
    ∷ op_fetch_row true true
    ∷ op_query true a_write (codes "COMMIT")
    ∷ op_connection_close
    ∷ op_query true a_row (codes "SELECT 2")
    ∷ []

the_calls :
    (perform_all session_ops fresh).calls
    ≡ disconnects ∷ queries (codes "COMMIT") ∷ frees ∷ fetches ∷ queries (codes "SELECT 1") ∷ []
unfolding perform_all
the_calls = refl

perform_all-Obeys_example : Obeys conn_ready (perform_all session_ops fresh)
perform_all-Obeys_example = perform_all-Obeys session_ops fresh unused

abbrev insert_text : Str
insert_text = codes "INSERT INTO t VALUES"

abbrev first_row : Str
first_row = codes "(1)"

abbrev answers : Answers
answers = record { insert_freed = true; insert = a_write; commit_freed = true; commit = a_write }

-- After db_bulk_insert_init and one row
abbrev one_row : Bulk
one_row = record {
  session = fresh;
  buffer = some (codes "INSERT INTO t VALUES(1)");
  buflen = bulk_packet_size;
  cnt = 1;
  ptr = 23;
  values = 20;
  commit_cnt = 0;
  commit_max = 0;
  overrun = false;
}

one_row-Holds : Holds bulk_packet_size insert_text (first_row ∷ []) one_row
one_row-Holds = record {
  buffer = refl;
  ptr = refl;
  values = refl;
  cnt = refl;
  buflen = refl;
  room = omega arith;
  small = omega arith;
  inside = refl;
}

usable : (guard true fresh).1 ≡ true
unfolding guard
usable = refl

added : (bulk_insert_next true answers (codes "(2)") one_row).1 ≡ 0
unfolding bulk_insert_next
added = refl

bulk_insert_next-Holds_example :
    Added bulk_packet_size answers insert_text
      (first_row ∷ [])
      (codes "(2)")
      (guard true one_row.session).0
      (bulk_insert_next true answers (codes "(2)") one_row).0
bulk_insert_next-Holds_example =
    bulk_insert_next-Holds bulk_packet_size true answers insert_text (codes "(2)") (first_row ∷ [])
      one_row one_row-Holds usable (omega arith) added

abbrev long_row : Str
long_row = codes "(1234567890)"

-- A buffer of 30 bytes
abbrev small_buffer : Bulk
small_buffer = record one_row { buflen = 30 }

small_buffer-Holds : Holds 30 insert_text (first_row ∷ []) small_buffer
small_buffer-Holds = record {
  buffer = refl;
  ptr = refl;
  values = refl;
  cnt = refl;
  buflen = refl;
  room = omega arith;
  small = omega arith;
  inside = refl;
}

added_too : (bulk_insert_next true answers long_row small_buffer).1 ≡ 0
unfolding bulk_insert_next
added_too = refl

bulk_insert_next-overrun_example :
    (bulk_insert_next true answers long_row small_buffer).0.overrun ≡ true
bulk_insert_next-overrun_example =
    bulk_insert_next-overrun 30 true answers insert_text long_row first_row [] small_buffer
      small_buffer-Holds usable (omega arith) added_too
