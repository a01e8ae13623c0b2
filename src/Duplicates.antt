-- ===== src/Duplicates.antt =====
-- src/hx_clog_core.c: the suppression of duplicates, with `g_dup.lock` held over each function. A time
-- is in milliseconds and not negative, and a message has no NUL among its bytes.
pub mod Keys
pub mod Events
pub mod Runs
mod Tests
use hx_clog.Common.{
  ℕ, ◌+◌, ◌-◌, ◌%◌, ◌^◌, Bool, true, false, not, ◌&&◌, List, [], ◌∷◌, ◌++◌, Option, none, some, ltb,
  leb, ◌==◌, if◌then◌else◌, Bytes, codes, take, eqs, length,
}
use hx_clog.Level.{info}
use hx_clog.Format.Record.{Record}
use hx_clog.Format.View.{decimal}

-- `dup_state_t` without its lock
pub record Dup : Type 0 where
  pub enabled : Bool
  pub window_ms : ℕ
  pub have_last : Bool
  pub last_level : ℕ
  pub last_line : ℕ
  pub last_logger : Bytes
  pub last_file : Bytes
  pub last_msg : Bytes
  pub last_msg_len : ℕ
  pub repeats : ℕ
  pub last_ms : ℕ

-- the arguments of `dup_check_and_update`, and the time; `none` is a null pointer
pub record Call : Type 0 where
  pub level : ℕ
  pub file : Option Bytes
  pub line : ℕ
  pub logger_name : Option Bytes
  pub msg : Bytes
  pub msg_len : ℕ
  pub now_ms : ℕ

-- what `dup_emit_summary` is called with
pub record Summary : Type 0 where
  pub level : ℕ
  pub logger : Bytes
  pub repeats : ℕ

abbrev pub logger_max : ℕ
logger_max = 128

abbrev pub file_max : ℕ
file_max = 256

abbrev pub msg_max : ℕ
msg_max = 256

abbrev pub text_or_empty : Option Bytes → Bytes
text_or_empty none = []
text_or_empty (some s) = s

-- `klen`
abbrev pub key_length : ℕ → ℕ
key_length msg_len = if ltb msg_len (msg_max - 1) then msg_len else msg_max - 1

-- `strncmp(a, b, n) == 0`
abbrev pub same_upto : ℕ → Bytes → Bytes → Bool
same_upto n a b = eqs (take n a) (take n b)

-- the call repeats the last message
unfoldable pub is_same : Dup → Call → Bool
is_same d c =
    d.last_level == c.level
    && d.last_line == c.line
    && d.last_msg_len == c.msg_len
    && same_upto (logger_max - 1) d.last_logger (text_or_empty c.logger_name)
    && same_upto (file_max - 1) d.last_file (text_or_empty c.file)
    && same_upto (key_length c.msg_len) d.last_msg c.msg

unfoldable pub is_duplicate : Dup → Call → Bool
is_duplicate d c = d.have_last && is_same d c && leb c.now_ms (d.last_ms + d.window_ms)

-- the summary of the duplicates so far, if there are any
unfoldable pub pending : Dup → Option Summary
pending d =
    if ltb 0 d.repeats
    then some (record {
      level = d.last_level;
      logger = take (logger_max - 1) d.last_logger;
      repeats = d.repeats;
    })
    else none

-- the call becomes the last message
unfoldable pub remember : Dup → Call → Dup
remember d c = record d {
  repeats = 0;
  have_last = true;
  last_level = c.level;
  last_line = c.line;
  last_logger = take (logger_max - 1) (text_or_empty c.logger_name);
  last_file = take (file_max - 1) (text_or_empty c.file);
  last_msg = take (key_length c.msg_len) c.msg;
  last_msg_len = c.msg_len;
  last_ms = c.now_ms;
}

-- `dup_check_and_update`: whether the message is suppressed, a summary to emit, and the new state
unfoldable pub check_and_update : Dup → Call → Bool × Option Summary × Dup
check_and_update d c =
    if not d.enabled
    then (false, none, d)
    else if is_duplicate d c
    then (true, none, record d { repeats = (d.repeats + 1) % 2 ^ 64; last_ms = c.now_ms })
    else (false, pending d, remember d c)

-- `dup_flush_pending`
unfoldable pub flush_pending : Dup → Option Summary × Dup
flush_pending d =
    (pending d, if ltb 0 d.repeats then record d { repeats = 0; have_last = false } else d)

unfoldable pub configured : Bool → ℕ → Dup → Dup
configured enable window_ms d =
    let d' : Dup = record d {
      enabled = enable;
      window_ms = if window_ms == 0 then 1000 else window_ms;
    } in
    if not enable then record d' { have_last = false; repeats = 0 } else d'

-- `hx_clog_set_duplicate_suppression`, with no call of another thread between its two halves
unfoldable pub set_duplicate_suppression : Bool → ℕ → Dup → Option Summary × Dup
set_duplicate_suppression enable window_ms d =
    if enable
    then (none, configured enable window_ms d)
    else (let (s, d') = flush_pending d in (s, configured enable window_ms d'))

-- the message of a summary
unfoldable pub summary_text : ℕ → Bytes
summary_text repeats = codes "last message repeated " ++ decimal 24 repeats ++ codes " times"

-- the name of a logger, or that of the default one for an empty name
unfoldable pub name_or : Bytes → Bytes → Bytes
name_or default [] = default
name_or default (c ∷ s) = c ∷ s

-- The record of `dup_emit_summary`, with the identity of the caller and the time; `default` is the
-- name of the default logger.
unfoldable pub summary_record : ℕ → ℕ → ℕ → ℕ → Bytes → Summary → Record
summary_record pid tid sec msec default s = record {
  level = s.level;
  logger_name = some (name_or default s.logger);
  file = some (codes "hx_clog");
  line = 0;
  func = some (codes "dup");
  pid = pid;
  tid = tid;
  timestamp_sec = sec;
  timestamp_msec = msec;
  message = some (summary_text s.repeats);
  message_len = length (summary_text s.repeats);
  context = some [];
}
