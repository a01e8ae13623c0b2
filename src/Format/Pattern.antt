-- ===== src/Format/Pattern.antt =====
-- `hx_format_record` of src/hx_clog_format.c. `localtime` is the C library's, with the process's
-- time zone.
pub mod Text
use mathlib.Core.Option
use hx_clog.Common.{
  ℕ, ◌+◌, Bool, true, false, ◌||◌, [], ◌∷◌, Option, none, some, ◌==◌, if◌then◌else◌, Bytes, codes,
  set,
}
use hx_clog.Format.Appender.{Appender, ap_char, ap_str, ap_strn, ap_uint, ap_uint_pad}
use hx_clog.Format.Buffer.{start, finish}
use hx_clog.Level.{level_short_name}
use hx_clog.Format.Record.{Tm, Record, basename_of}

abbrev pub default_pattern : Bytes
default_pattern = codes "%Y-%m-%d %H:%M:%S.%e [%l] [tid:%t] %s:%# %!() - %v%n"

-- `s ? s : ""`
abbrev pub or_empty : Option Bytes → Option Bytes
or_empty s = some (Option.get_or s [])

-- the `switch` on the byte behind a percent sign
unfoldable pub ap_specifier : Tm → Record → Appender → ℕ → Appender
ap_specifier tmv rec a c =
    if c == b'Y'
    then ap_uint_pad a (tmv.tm_year + 1900) 4
    else if c == b'm'
    then ap_uint_pad a (tmv.tm_mon + 1) 2
    else if c == b'd'
    then ap_uint_pad a tmv.tm_mday 2
    else if c == b'H'
    then ap_uint_pad a tmv.tm_hour 2
    else if c == b'M'
    then ap_uint_pad a tmv.tm_min 2
    else if c == b'S'
    then ap_uint_pad a tmv.tm_sec 2
    else if c == b'e'
    then ap_uint_pad a rec.timestamp_msec 3
    else if c == b'l'
    then ap_str a (some (level_short_name rec.level))
    else if c == b'c'
    then ap_str a (or_empty rec.logger_name)
    else if c == b't'
    then ap_uint a rec.tid
    else if c == b'p'
    then ap_uint a rec.pid
    else if c == b's'
    then ap_str a (some (basename_of rec.file))
    else if c == b'F'
    then ap_str a (or_empty rec.file)
    else if c == b'#'
    then ap_uint a rec.line
    else if c == b'!'
    then ap_str a (or_empty rec.func)
    else if c == b'v'
    then ap_strn a rec.message rec.message_len
    else if c == b'x'
    then ap_str a (or_empty rec.context)
    else if c == b'n'
    then ap_char a b'\n'
    else if c == b'%'
    then ap_char a b'%'
    else ap_char (ap_char a b'%') c

-- The loop over the pattern. A percent sign at the end meets the NUL and stands for itself.
unfoldable pub ap_pattern : Tm → Record → Appender → Bytes → Appender
ap_pattern tmv rec a [] = a
ap_pattern tmv rec a (c ∷ []) = if c == b'%' then ap_char a b'%' else ap_char a c
ap_pattern tmv rec a (c ∷ d ∷ p) =
    let specified = ap_pattern tmv rec (ap_specifier tmv rec a d) p in
    let plain = ap_pattern tmv rec (ap_char a c) (d ∷ p) in if c == b'%' then specified else plain

module _ (localtime : ℕ → Tm) where
  -- the length that the whole line needs, and the memory at `out`
  unfoldable pub format_record : Option Bytes → Record → Option Bytes → ℕ → ℕ × Option Bytes
  unfolding ap_pattern
  format_record pattern rec none out_size = (0, none)
  format_record pattern rec (some out) out_size =
      let tmv = localtime rec.timestamp_sec in
      let p = Option.get_or pattern default_pattern in
      if out_size == 0 then (0, some out) else finish (ap_pattern tmv rec (start out out_size) p)
