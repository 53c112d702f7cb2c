-- ===== src/Lib.antt =====
-- Verification of sysbench, a multi-threaded benchmark program written in C.
--
-- The program reads its options (src/sb_options.c), starts worker threads that meet at a
-- barrier (src/sb_barrier.c) and then run events until a limit is reached (src/sysbench.c).
-- Each event is timed (src/sb_timer.c), counted (src/sb_counter.c) and entered into a
-- histogram of latencies (src/sb_histogram.c), which the reports read while the workers go on.
-- Tests that talk to a database go through src/db_driver.c, which calls a driver's operations
-- through pointers.
--
-- The files, by the part of the program:
-- - Prelude: lists, Boolean tests, C strings (lists of bytes before the NUL), words of 32 and
--   64 bits with their wrap-around written out, signed integers, and the C type double as a
--   parameter.
-- - Histogram (src/sb_histogram.c): a Histogram is sb_histogram_t; update,
--   get_pct_intermediate, get_pct_cumulative, get_pct_checkpoint and print are the functions of
--   these names. The rwlock is a flag, so that a function that would wait for ever returns none.
--   Merge, Conserve, Percentile and Locking have the theorems.
-- - Options (src/sb_options.c): Table has the list of options and its operations, Name the
--   comparison of names, Size the reading of numbers, Config the configuration files, Set
--   set_option, sb_register_arg_set and the readings of values.
-- - Barrier (src/sb_barrier.c): arrive and resume are the two atomic parts of sb_barrier_wait,
--   broadcast is what pthread_cond_broadcast does to the sleeping threads; System has every
--   interleaving of threads, with spurious wake-ups (Reach) and without (Steps), Round its
--   invariants, Results the theorems.
-- - Counters (src/sb_counter.h, src/sb_counter.c): counter_add, merge_from, checkpoint and the
--   two reports; Sums has what they compute, Reports what they say over time.
-- - Timer (src/sb_timer.h, src/sb_timer.c): the operations on sb_timer_t, with the clock's
--   readings as arguments; Samples reads a timer as a list of measured times, Clock as an
--   interval.
-- - Run (src/sysbench.c): more_events, take_event and woken are the parts of sb_more_events,
--   event_start and event_stop its companions. Workers has thread_run as a step relation, in
--   which each part is one step and any thread may move; a sleeping thread may wake at any time.
--   Admission, Accounts and Moves have the invariants, Limit and Queue the theorems. It uses
--   Histogram, Timer and Counters.
-- - Db (src/db_driver.c, src/db_driver.h): the operations on a connection, with the driver's
--   answers as arguments and the calls that reach the driver recorded. Protocol has the order of
--   calls that a driver may rely on, Obeys compares the two; Bulk has the inserts of many rows,
--   Bulk/Buffer and Bulk/Rows what their buffer holds, Bulk/Sending what a flush sends.
-- - Bench (src/tests): Cpu (sb_cpu.c) has the loops of an event and Cpu/Primes what they
--   count; Memory (sb_memory.c) the options, the shares of the threads and the words that an
--   event touches; Mutex (sb_mutex.c) the rounds of an event; Threads (sb_threads.c) the numbers
--   of its locks.
-- - Command (src/sysbench.c): parse_option, parse_general_arguments and parse_test_arguments
--   are the functions of these names, on Options; Laws says which arguments they take, Left
--   which they leave, Value what an option sets. Init has the limits and the checkpoints that
--   init reads, with qsort as a parameter.
-- - Report (src/sysbench.c): next_report is the inner loop of report_thread_proc,
--   report_cumulative the function of this name on the timers of Timer, fairness the first part
--   of sb_report_cumulative. Interval and Cumulative have the theorems.
-- - Random (src/sb_rand.c, src/sb_rand.h, src/xoroshiro128plus.h): the generator, the uniform
--   distribution with the rounding of double written out (Prelude/Round), the strings and the
--   unique sequence. Uniform and Strings have the theorems.
-- - Fileio (src/tests/fileio/sb_fileio.c): get_seq_request and get_rnd_request are the
--   functions of these names, check_request the tests of file_execute_event. What the second
--   one, which takes no lock, reads of the shared variables is an argument (Seen), what it writes
--   a list (Store). Sequential, Fsync and RandomAccess have the theorems.
-- - Log (src/sb_logger.c): log_text, text_handler_process and text_handler_init are the
--   functions of these names, the printed lines being values; a call ends before the next one
--   begins. Replay has what the lines tell.
-- - Compare (src/drivers/compare/drv_compare.c): the driver that sends every statement to
--   several MySQL servers and compares their answers, which are arguments. Connect has
--   mysql_drv_init and mysql_drv_connect, with a place in a circular list as the list of what
--   follows it; Statement the preparing and binding; Query mysql_drv_query, which uses Table for
--   the text of a result in a buffer of limited size and Errors for check_error and
--   mysql_drv_reconnect; Execute has mysql_drv_execute, and Placeholders replace_placeholders.
--   Table/Rendering is the text without a buffer, Table/Agree says when two texts are the same.
-- - Mysql (src/drivers/mysql/drv_mysql.c): reconnecting, check_error, mysql_drv_query and the
--   execution of a prepared statement, on the answers of Compare; OneServer compares the two
--   drivers.
-- - Pgsql (src/drivers/pgsql/drv_pgsql.c): drv_prepare is pgsql_drv_prepare and convert its
--   loop that numbers the placeholders in a growing buffer; Buffer and Round follow a byte,
--   Numbered compares the result with the text that it is to make. Query has pgsql_check_status,
--   pgsql_drv_query, pgsql_drv_fetch_row and pgsql_drv_free_results, on a connection that counts
--   the results which are not yet cleared; Rows is about reading a result, Answers about every
--   answer.
-- - Main (src/sysbench.c, src/sb_thread.c): Phases has run_test by its stages, with the calls
--   kept in order, worker_thread and the callback of the worker barrier. Status is about what
--   run_test returns, Barriers about who comes to its barriers, Meetings about these on the
--   barriers of Barrier. Dispatch has main and find_test, Order and Orderly the order of its calls,
--   RunCommand the exit status of the command run.
--
-- Most loops are structural recursion on lists or on the loop's bound. Where a loop has no
-- such bound it runs on fuel: the search for a divisor in Bench/Cpu on the limit of the
-- primes, the rounds of Bench/Mutex on 2^32, the requests of Bench/Memory on the number of
-- calls, the digits of a number in Compare/Placeholders on 19, enough for 64 bits, the next
-- report of Report on the timer's reading plus one, since every round moves the loop's counter
-- by at least one. The rounds behind the label of pgsql_drv_prepare run on a bound, for which
-- two are enough. The random requests of Fileio are drawn again, with validation, until the
-- block is free: they take any fuel, and without validation the first draw is taken. Memory
-- allocation is taken to succeed where a comment does not say otherwise. Outside Log the
-- messages to the user are left out.
--
-- Not modelled: the reading and writing of the file I/O test, which is system calls, the
-- distributions of src/sb_rand.c that call libm, the alarms and the thread of checkpoint
-- reports in src/sysbench.c, the rest of the drivers for MySQL and PostgreSQL, which mostly
-- calls client libraries, in the comparing driver the options of a connection, the stubs and
-- the comparison of checksums that is never called, the Lua interface, and the copies of other
-- projects under third_party, whose ring is a parameter of Run.
pub mod Prelude
pub mod Fileio
pub mod Histogram
pub mod Log
pub mod Options
pub mod Barrier
pub mod Bench
pub mod Command
pub mod Compare
pub mod Db
pub mod Random
pub mod Report
pub mod Main
pub mod Mysql
pub mod Pgsql
pub mod Run
pub mod Timer
pub mod Counters
