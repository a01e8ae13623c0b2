-- ===== src/Format/Json/Text.antt =====
-- The JSON line of a record, with no buffer, and that `hx_format_json_record` writes it.
use mathlib.Core.Option
use hx_clog.Common.{
  ℕ, ◌+◌, ◌^◌, ◌≤◌, ◌<◌, min, ◌≡◌, [], ◌∷◌, ◌++◌, some, arith, ne→==, Bytes, codes, length, take,
}
use hx_clog.Level.{level_name}
use hx_clog.Format.Appender.{uint_max, Appender}
use hx_clog.Format.Record.{Tm, Record}
use hx_clog.Format.Buffer.{Holds, View-start, View-finish}
use hx_clog.Format.View.{
  View, decimal, padded, View-ap_char, View-ap_str, View-ap_uint, View-ap_ull, View-ap_uint_pad,
}
use hx_clog.Format.Json.{ap_json_head, ap_json_tail, epoch_ms, format_json_record}
use hx_clog.Format.Json.Escape.{json_text, View-ap_json_escaped, View-ap_json_cstr}

abbrev pub date_text : Tm → Record → Bytes → Bytes
date_text tmv rec before =
    before
    ++ b'{' ∷ []
    ++ codes "\"ts\":\""
    ++ padded 4 (tmv.tm_year + 1900)
    ++ b'-' ∷ []
    ++ padded 2 (tmv.tm_mon + 1)
    ++ b'-' ∷ []
    ++ padded 2 tmv.tm_mday
    ++ b'T' ∷ []
    ++ padded 2 tmv.tm_hour
    ++ b':' ∷ []
    ++ padded 2 tmv.tm_min
    ++ b':' ∷ []
    ++ padded 2 tmv.tm_sec
    ++ b'.' ∷ []
    ++ padded 3 rec.timestamp_msec
    ++ codes "\",\"epoch_ms\":"
    ++ decimal 32 (epoch_ms rec)
    ++ codes ",\"level\":\""
    ++ json_text (level_name rec.level)

abbrev pub members_text : Record → Bytes → Bytes
members_text rec before =
    before
    ++ codes "\",\"logger\":\""
    ++ json_text (Option.get_or rec.logger_name [])
    ++ codes "\",\"pid\":"
    ++ decimal 24 rec.pid
    ++ codes ",\"tid\":"
    ++ decimal 24 rec.tid
    ++ codes ",\"file\":\""
    ++ json_text (Option.get_or rec.file [])
    ++ codes "\",\"line\":"
    ++ decimal 24 rec.line
    ++ codes ",\"func\":\""
    ++ json_text (Option.get_or rec.func [])
    ++ codes "\",\"message\":\""
    ++ json_text (take rec.message_len (Option.get_or rec.message []))
    ++ codes "\",\"context\":\""
    ++ json_text (Option.get_or rec.context [])
    ++ codes "\"}\n"

module _ {size cap : ℕ} {rest : Bytes} (rec : Record) where
  View-ap_json_head :
      (tmv : Tm) {a : Appender} {text : Bytes}
      → View size cap rest a text
      → View size cap rest (ap_json_head tmv rec a) (date_text tmv rec text)
  unfolding ap_json_head
  View-ap_json_head tmv v =
      let v = View-ap_char b'{' v in
      let v = View-ap_str (some (codes "\"ts\":\"")) v in
      let v = View-ap_uint_pad (tmv.tm_year + 1900) 4 v in
      let v = View-ap_char b'-' v in
      let v = View-ap_uint_pad (tmv.tm_mon + 1) 2 v in
      let v = View-ap_char b'-' v in
      let v = View-ap_uint_pad tmv.tm_mday 2 v in
      let v = View-ap_char b'T' v in
      let v = View-ap_uint_pad tmv.tm_hour 2 v in
      let v = View-ap_char b':' v in
      let v = View-ap_uint_pad tmv.tm_min 2 v in
      let v = View-ap_char b':' v in
      let v = View-ap_uint_pad tmv.tm_sec 2 v in
      let v = View-ap_char b'.' v in
      let v = View-ap_uint_pad rec.timestamp_msec 3 v in
      let v = View-ap_str (some (codes "\",\"epoch_ms\":")) v in
      let v = View-ap_ull (epoch_ms rec) v in
      let v = View-ap_str (some (codes ",\"level\":\"")) v in
      View-ap_json_cstr (level_name rec.level) v

  View-ap_json_tail :
      {a : Appender} {text : Bytes}
      → View size cap rest a text
      → View size cap rest (ap_json_tail rec a) (members_text rec text)
  unfolding ap_json_tail
  View-ap_json_tail v =
      let v = View-ap_str (some (codes "\",\"logger\":\"")) v in
      let v = View-ap_json_cstr (Option.get_or rec.logger_name []) v in
      let v = View-ap_str (some (codes "\",\"pid\":")) v in
      let v = View-ap_uint rec.pid v in
      let v = View-ap_str (some (codes ",\"tid\":")) v in
      let v = View-ap_uint rec.tid v in
      let v = View-ap_str (some (codes ",\"file\":\"")) v in
      let v = View-ap_json_cstr (Option.get_or rec.file []) v in
      let v = View-ap_str (some (codes "\",\"line\":")) v in
      let v = View-ap_uint rec.line v in
      let v = View-ap_str (some (codes ",\"func\":\"")) v in
      let v = View-ap_json_cstr (Option.get_or rec.func []) v in
      let v = View-ap_str (some (codes "\",\"message\":\"")) v in
      let v = View-ap_json_escaped rec.message rec.message_len v in
      let v = View-ap_str (some (codes "\",\"context\":\"")) v in
      let v = View-ap_json_cstr (Option.get_or rec.context []) v in
      View-ap_str (some (codes "\"}\n")) v

module _ (localtime : ℕ → Tm) where
  -- For every record and buffer of a positive size, `hx_format_json_record` returns the length of
  -- the whole JSON line (at most UINT_MAX), and leaves in the buffer as much of the line as fits
  -- with a NUL behind it, with no byte behind the buffer written.
  pub format_json_record_lem :
      (rec : Record) (out : Bytes) (out_size : ℕ)
      → 0 < out_size
      → out_size < 2 ^ 32
      → out_size ≤ length out
      → let text = members_text rec (date_text (localtime rec.timestamp_sec) rec []) in
        (mem : Bytes) × (format_json_record localtime rec (some out) out_size
          ≡ (min (length text) uint_max, some mem))
        × Holds out out_size text mem
  unfolding format_json_record
  format_json_record_lem rec out out_size h k l =
      let tmv = localtime rec.timestamp_sec in
      let text = members_text rec (date_text tmv rec []) in
      rw (ne→== out_size 0 (omega arith)) (
        View-finish text
          (View-ap_json_tail rec (View-ap_json_head rec tmv (View-start out out_size h k l))))
