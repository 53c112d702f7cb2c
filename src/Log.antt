-- ===== src/Log.antt =====
-- src/sb_logger.c: the text messages. A message is what vsnprintf would write in full; printed
-- lines are values. The handler of text messages is the only one that processes them. It compares
-- and counts under its mutex and prints the message after the mutex is released: a message is one
-- step here, that is, a call ends before the next one begins.
pub mod Replay
mod Tests
use sysbench.Prelude.{
  ℕ, zero, suc, ◌+◌, ◌-◌, Bool, true, false, not, List, [], ◌∷◌, ◌++◌, if◌then◌else◌, ltb, leb, u32,
  length, take,
}
use sysbench.Prelude.Int.{ℤ, to_word}
use sysbench.Prelude.Text.{Str, codes, str_eq}

-- log_msg_priority_t
pub data Priority : Type 0 where
  fatal alert warning notice info debug : Priority

-- The value of the enumeration.
abbrev pub priority_value : Priority → ℕ
priority_value fatal = 0
priority_value alert = 1
priority_value warning = 2
priority_value notice = 3
priority_value info = 4
priority_value debug = 5

-- log_msg_text_t; `allow_duplicates` is its flag.
pub record TextMsg : Type 0 where
  pub priority : Priority
  pub text : Str
  pub allow_duplicates : Bool

-- What printf is called with: a text with its prefix, or the number of repetitions.
pub data Line : Type 0 where
  message : Str → Str → Line
  repeated : ℕ → Line

-- get_msg_prefix
unfoldable pub get_msg_prefix : Priority → Str
get_msg_prefix fatal = codes "FATAL: "
get_msg_prefix alert = codes "ALERT: "
get_msg_prefix warning = codes "WARNING: "
get_msg_prefix debug = codes "DEBUG: "
get_msg_prefix _ = []

-- TEXT_BUFFER_SIZE
abbrev pub text_buffer_size : ℕ
text_buffer_size = 4096

-- The buffer that log_text fills from a formatted text: vsnprintf keeps one byte less than the
-- buffer has, and the newline is written into what is left.
unfoldable pub fill_buffer : Str → Str
fill_buffer formatted =
    let written = take (text_buffer_size - 1) formatted in
    if leb text_buffer_size (length formatted)
    then written
    else written ++ take (text_buffer_size - length formatted - 1) (10 ∷ [])

-- The variables of the logger.
pub record LogState : Type 0 where
  pub initialized : Bool
  pub verbosity : ℕ
  pub text_cnt : ℕ
  pub text_buf : Str

-- text_handler_init, with the value of --verbosity, which is kept in an unsigned char: the
-- variables and the status.
unfoldable pub text_handler_init : LogState → ℤ → LogState × ℕ
text_handler_init s value =
    let verbosity = to_word 256 value in
    if ltb (priority_value debug) verbosity
    then (record s { verbosity = verbosity }, 1)
    else (record s { verbosity = verbosity; text_cnt = 0; text_buf = [] }, 0)

abbrev pub repeated_lines : ℕ → List Line
repeated_lines zero = []
repeated_lines (suc n) = repeated (suc n) ∷ []

-- The part of text_handler_process under the mutex, and the printing of the message after it, with
-- no other call in between. strncpy copies the whole text, which is shorter than the buffer.
unfoldable pub print_text : LogState → TextMsg → LogState × List Line
unfolding get_msg_prefix
print_text s msg =
    let line = message (get_msg_prefix msg.priority) msg.text in
    if msg.allow_duplicates
    then (s, line ∷ [])
    else if str_eq s.text_buf msg.text
    then (record s { text_cnt = u32 (s.text_cnt + 1) }, [])
    else (record s { text_cnt = 0; text_buf = msg.text }, repeated_lines s.text_cnt ++ (line ∷ []))

-- text_handler_process
unfoldable pub text_handler_process : LogState → TextMsg → LogState × List Line
unfolding print_text
text_handler_process s msg =
    if ltb s.verbosity (priority_value msg.priority) then (s, []) else print_text s msg

-- log_text, on a formatted text
unfoldable pub log_text : LogState → Priority → Str → LogState × List Line
unfolding text_handler_process fill_buffer get_msg_prefix
log_text s priority formatted =
    let buf = fill_buffer formatted in
    if s.initialized
    then text_handler_process s
        (record { priority = priority; text = buf; allow_duplicates = false })
    else (s, message (get_msg_prefix priority) buf ∷ [])
