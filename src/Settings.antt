-- ===== src/Settings.antt =====
-- src/hx_clog_core.c: the settings of the format, and the snapshot of them that each thread keeps so
-- that it need not lock for a line. The generation is an `int`, here the number of its 32 bits.
pub mod Fresh
mod Tests
use hx_clog.Common.{
  ℕ, ◌+◌, ◌-◌, ◌%◌, ◌^◌, Bool, true, false, Option, none, some, ◌==◌, if◌then◌else◌, Bytes, take,
}
use hx_clog.Status.{Status}
use hx_clog.Format.Retry.{FormatMode, Formatter, Format}

abbrev pub pattern_cap : ℕ
pattern_cap = 512

abbrev pub name_cap : ℕ
name_cap = 128

-- of `g_core`: `pattern`, `format_mode`, `formatter`, `default_logger.name` and `format_gen`
pub record Settings : Type 0 where
  pub pattern : Bytes
  pub mode : FormatMode
  pub formatter : Option Formatter
  pub logger_name : Bytes
  pub gen : ℕ

-- `tls_format_cache_t`
pub record Cache : Type 0 where
  pub gen : ℕ
  pub pattern : Bytes
  pub logger_name : Bytes
  pub mode : FormatMode
  pub formatter : Option Formatter

-- the settings as they are copied
unfoldable pub copied : Settings → Cache
copied s = record {
  gen = s.gen;
  pattern = take (pattern_cap - 1) s.pattern;
  logger_name = take (name_cap - 1) s.logger_name;
  mode = s.mode;
  formatter = s.formatter;
}

-- `fmt_cache_refresh`
unfoldable pub cache_refresh : Settings → Cache → Cache
cache_refresh s c = if s.gen == c.gen then c else copied s

-- `bump_format_gen_locked`
unfoldable pub bump_format_gen : Settings → Settings
bump_format_gen s = let g = (s.gen + 1) % 2 ^ 32 in record s { gen = if g == 0 then 1 else g }

-- `hx_clog_set_pattern`, `hx_clog_set_format_mode` and `hx_clog_set_formatter`
unfoldable pub set_pattern : Option Bytes → Settings → Status × Settings
set_pattern none s = (Status.invalid_argument, s)
set_pattern (some p) s = (
  Status.ok,
  bump_format_gen (record s { pattern = take (pattern_cap - 1) p; mode = FormatMode.pattern }),
)

unfoldable pub set_format_mode : FormatMode → Settings → Status × Settings
set_format_mode m s = (Status.ok, bump_format_gen (record s { mode = m }))

unfoldable pub set_formatter : Option Formatter → Settings → Status × Settings
set_formatter f s = (Status.ok, bump_format_gen (record s { formatter = f }))

-- what `hx_clog_reconfigure` sets, under `sink_lock`
unfoldable pub set_all : Bytes → FormatMode → Option Formatter → Bytes → Settings → Settings
set_all pattern mode formatter name s = bump_format_gen (record s {
  pattern = take (pattern_cap - 1) pattern;
  mode = mode;
  formatter = formatter;
  logger_name = take (name_cap - 1) name;
})

-- What `hx_clog_init` sets, without that lock and before any line is taken: first the format, then a
-- generation that is not kept from 0, and the name at the end.
unfoldable pub init_format : Bytes → FormatMode → Option Formatter → Settings → Settings
init_format pattern mode formatter s = record s {
  pattern = take (pattern_cap - 1) pattern;
  mode = mode;
  formatter = formatter;
}

unfoldable pub init_gen : Settings → Settings
init_gen s = record s { gen = (s.gen + 1) % 2 ^ 32 }

unfoldable pub init_name : Bytes → Settings → Settings
init_name name s = record s { logger_name = take (name_cap - 1) name }

-- the format of a thread's snapshot
abbrev pub format_of : Cache → Format
format_of c = record { pattern = some c.pattern; mode = c.mode; formatter = c.formatter }
