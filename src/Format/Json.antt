-- ===== src/Format/Json.antt =====
-- `hx_format_json_record` of src/hx_clog_format.c, and its escaping of texts.
pub mod Text
pub mod Escape
use mathlib.Core.Option
use hx_clog.Common.{
  ℕ, zero, suc, ◌+◌, ◌*◌, ◌/◌, ◌%◌, ◌^◌, [], ◌∷◌, Option, none, some, ◌==◌, ltb, if◌then◌else◌,
  Bytes, codes, length, get_or,
}
use hx_clog.Level.{level_name}
use hx_clog.Format.Appender.{Appender, ap_char, ap_str, ap_uint, ap_ull, ap_uint_pad}
use hx_clog.Format.Record.{Tm, Record}
use hx_clog.Format.Buffer.{start, finish}

-- `hex[d]`
abbrev pub hex : ℕ → ℕ
hex d = get_or (codes "0123456789abcdef") d 0

-- the `switch` of `ap_json_escaped` on one byte
unfoldable pub ap_json_byte : Appender → ℕ → Appender
ap_json_byte a c =
    if c == b'"'
    then ap_str a (some (b'\\' ∷ b'"' ∷ []))
    else if c == b'\\'
    then ap_str a (some (b'\\' ∷ b'\\' ∷ []))
    else if c == 8
    then ap_str a (some (b'\\' ∷ b'b' ∷ []))
    else if c == 12
    then ap_str a (some (b'\\' ∷ b'f' ∷ []))
    else if c == b'\n'
    then ap_str a (some (b'\\' ∷ b'n' ∷ []))
    else if c == b'\r'
    then ap_str a (some (b'\\' ∷ b'r' ∷ []))
    else if c == b'\t'
    then ap_str a (some (b'\\' ∷ b't' ∷ []))
    else if ltb c 0x20
    then ap_char (ap_char (ap_str a (some (b'\\' ∷ b'u' ∷ b'0' ∷ b'0' ∷ []))) (hex (c / 16 % 16)))
        (hex (c % 16))
    else ap_char a c

-- the first `n` bytes of `s`
unfoldable pub ap_json_first : Appender → Bytes → ℕ → Appender
ap_json_first a s zero = a
ap_json_first a [] (suc n) = a
ap_json_first a (c ∷ s) (suc n) = ap_json_first (ap_json_byte a c) s n

unfoldable pub ap_json_escaped : Appender → Option Bytes → ℕ → Appender
ap_json_escaped a none n = a
ap_json_escaped a (some s) n = ap_json_first a s n

unfoldable pub ap_json_cstr : Appender → Option Bytes → Appender
ap_json_cstr a none = ap_json_escaped a (some []) 0
ap_json_cstr a (some s) = ap_json_escaped a (some s) (length s)

abbrev pub quoted : Bytes → Bytes
quoted s = b'"' ∷ s

-- `(unsigned long long)sec * 1000ULL + msec`
abbrev pub epoch_ms : Record → ℕ
epoch_ms rec = (rec.timestamp_sec * 1000 + rec.timestamp_msec) % 2 ^ 64

-- the members up to the level
unfoldable pub ap_json_head : Tm → Record → Appender → Appender
ap_json_head tmv rec a =
    let a = ap_char a b'{' in
    let a = ap_str a (some (codes "\"ts\":\"")) in
    let a = ap_uint_pad a (tmv.tm_year + 1900) 4 in
    let a = ap_char a b'-' in
    let a = ap_uint_pad a (tmv.tm_mon + 1) 2 in
    let a = ap_char a b'-' in
    let a = ap_uint_pad a tmv.tm_mday 2 in
    let a = ap_char a b'T' in
    let a = ap_uint_pad a tmv.tm_hour 2 in
    let a = ap_char a b':' in
    let a = ap_uint_pad a tmv.tm_min 2 in
    let a = ap_char a b':' in
    let a = ap_uint_pad a tmv.tm_sec 2 in
    let a = ap_char a b'.' in
    let a = ap_uint_pad a rec.timestamp_msec 3 in
    let a = ap_str a (some (codes "\",\"epoch_ms\":")) in
    let a = ap_ull a (epoch_ms rec) in
    let a = ap_str a (some (codes ",\"level\":\"")) in ap_json_cstr a (some (level_name rec.level))

-- the members behind the level
unfoldable pub ap_json_tail : Record → Appender → Appender
ap_json_tail rec a =
    let a = ap_str a (some (codes "\",\"logger\":\"")) in
    let a = ap_json_cstr a (some (Option.get_or rec.logger_name [])) in
    let a = ap_str a (some (codes "\",\"pid\":")) in
    let a = ap_uint a rec.pid in
    let a = ap_str a (some (codes ",\"tid\":")) in
    let a = ap_uint a rec.tid in
    let a = ap_str a (some (codes ",\"file\":\"")) in
    let a = ap_json_cstr a (some (Option.get_or rec.file [])) in
    let a = ap_str a (some (codes "\",\"line\":")) in
    let a = ap_uint a rec.line in
    let a = ap_str a (some (codes ",\"func\":\"")) in
    let a = ap_json_cstr a (some (Option.get_or rec.func [])) in
    let a = ap_str a (some (codes "\",\"message\":\"")) in
    let a = ap_json_escaped a rec.message rec.message_len in
    let a = ap_str a (some (codes "\",\"context\":\"")) in
    let a = ap_json_cstr a (some (Option.get_or rec.context [])) in ap_str a (some (codes "\"}\n"))

module _ (localtime : ℕ → Tm) where
  unfoldable pub format_json_record : Record → Option Bytes → ℕ → ℕ × Option Bytes
  unfolding ap_json_head ap_json_tail
  format_json_record rec none out_size = (0, none)
  format_json_record rec (some out) out_size =
      if out_size == 0
      then (0, some out)
      else finish
          (ap_json_tail rec (ap_json_head (localtime rec.timestamp_sec) rec (start out out_size)))
