-- ===== src/Format/Tests.antt =====
-- src/hx_clog_format.c and src/hx_clog_core.c: the theorems at concrete records and buffers.
use hx_clog.Common.{
  ℕ, ◌<◌, min, ◌≡◌, refl, [], ◌∷◌, ◌++◌, Option, none, some, arith, Bytes, codes, length,
}
use hx_clog.Format.Appender.{uint_max}
use hx_clog.Format.Record.{Tm, Record}
use hx_clog.Format.View.{View}
use hx_clog.Format.Buffer.{Holds, start, View-start}
use hx_clog.Format.Pattern.{format_record}
use hx_clog.Format.Pattern.Text.{pattern_text, format_record_lem}
use hx_clog.Format.Json.{format_json_record, ap_json_escaped}
use hx_clog.Format.Json.Text.{date_text, members_text, format_json_record_lem}
use hx_clog.Format.Json.Escape.{json_read, plain, ap_json_escaped_lem}
use hx_clog.Format.Retry.{FormatMode, format_with_retry}
use hx_clog.Format.Retry.Exact.{Gives, room, line_text, built_in, format_with_retry_lem}

abbrev day : Tm
day = record {
  tm_year = 126;
  tm_mon = 0;
  tm_mday = 2;
  tm_hour = 3;
  tm_min = 4;
  tm_sec = 5;
  tm_yday = 1;
}

abbrev same_day : ℕ → Tm
same_day sec = day

abbrev hello : Record
hello = record {
  level = 2;
  logger_name = none;
  file = some (codes "src/a.c");
  line = 7;
  func = some (codes "main");
  pid = 1;
  tid = 2;
  timestamp_sec = 100;
  timestamp_msec = 9;
  message = some (codes "hello");
  message_len = 5;
  context = none;
}

abbrev eight : Bytes
eight = 1 ∷ 1 ∷ 1 ∷ 1 ∷ 1 ∷ 1 ∷ 1 ∷ 1 ∷ []

abbrev message_only : Option Bytes
message_only = some (codes "%v%n")

format_record_lem_example :
    let text = pattern_text day hello (codes "%v%n") in
    (mem : Bytes) × (format_record same_day message_only hello (some eight) 4
      ≡ (min (length text) uint_max, some mem))
    × Holds eight 4 text mem
format_record_lem_example =
    format_record_lem same_day message_only hello eight 4 (omega arith) (omega arith) (omega arith)

format_json_record_lem_example :
    let text = members_text hello (date_text day hello []) in
    (mem : Bytes) × (format_json_record same_day hello (some eight) 4
      ≡ (min (length text) uint_max, some mem))
    × Holds eight 4 text mem
format_json_record_lem_example =
    format_json_record_lem same_day hello eight 4 (omega arith) (omega arith) (omega arith)

abbrev quoted : Bytes
quoted = codes "a\"b"

ap_json_escaped_lem_example :
    (e : Bytes) × View 8 8 [] (ap_json_escaped (start eight 8) (some quoted) 3) ([] ++ e)
    × (json_read plain (e ++ b'"' ∷ codes "!") ≡ some (quoted, codes "!"))
ap_json_escaped_lem_example =
    ap_json_escaped_lem quoted 3 (codes "!") (omega arith, (omega arith, (omega arith, tt)))
      (View-start eight 8 (omega arith) (omega arith) (omega arith))

abbrev no_memory : ℕ → Option Bytes
no_memory n = none

hello_short : length (line_text same_day hello FormatMode.pattern message_only) < uint_max
hello_short =
    let n : length (line_text same_day hello FormatMode.pattern message_only) ≡ 6 =
      unfold pattern_text in refl in
    omega arith

format_with_retry_lem_example :
    let text = line_text same_day hello FormatMode.pattern message_only in
    Gives text (room no_memory 4 text) (
      format_with_retry same_day no_memory hello (built_in FormatMode.pattern message_only) eight 4)
format_with_retry_lem_example =
    format_with_retry_lem same_day no_memory hello FormatMode.pattern message_only eight 4
      (omega arith) (omega arith) (omega arith) hello_short (λ n m e. cc)
