-- ===== src/Setup.antt =====
-- src/hx_clog_core.c and include/hx_clog.h: the configuration, its defaults and what the environment
-- overrides. The formatter is a function that knows its user data; a null pointer is `none`.
mod Tests
use hx_clog.Common.{
  ℕ, ◌*◌, ◌-◌, Bool, true, false, not, ◌&&◌, ◌||◌, [], ◌∷◌, Option, none, some, ◌==◌, if◌then◌else◌,
  Bytes, codes,
}
use hx_clog.Common.Int.{ℤ}
use hx_clog.Level.{ieq, level_from_name, info}
use hx_clog.Format.Retry.{FormatMode, Formatter}
use hx_clog.Async.{Overflow}
use hx_clog.FileSink.{Policy}

-- `hx_clog_config_t`
pub record ClogConfig : Type 0 where
  pub logger_name : Option Bytes
  pub log_dir : Option Bytes
  pub file_name : Option Bytes
  pub level : ℕ
  pub async_mode : Bool
  pub enable_console : Bool
  pub enable_file : Bool
  pub enable_color : Bool
  pub enable_crash_handler : Bool
  pub enable_syslog : Bool
  pub enable_event_log : Bool
  pub enable_android_log : Bool
  pub enable_apple_log : Bool
  pub rotate_policy : Policy
  pub max_file_size : ℕ
  pub max_backup_files : ℤ
  pub max_backup_days : ℤ
  pub rotate_daily : Bool
  pub rotate_interval_seconds : ℕ
  pub rotate_on_startup : Bool
  pub async_queue_size : ℕ
  pub async_batch_size : ℕ
  pub flush_interval_ms : ℕ
  pub overflow_policy : Overflow
  pub pattern : Option Bytes
  pub format_mode : FormatMode
  pub formatter : Option Formatter
  pub system_logger_name : Option Bytes
  pub rotate_align : Bool
  pub max_compressed_files : ℤ
  pub date_subdir : Bool

abbrev pub default_pattern : Bytes
default_pattern = codes "%Y-%m-%d %H:%M:%S.%e [%l] [tid:%t] %s:%# %!() - %v%n"

-- `hx_clog_config_default`
unfoldable pub config_default : ClogConfig
config_default = record {
  logger_name = some (codes "hx_clog");
  log_dir = some (codes "./logs");
  file_name = some (codes "app.log");
  level = info;
  async_mode = false;
  enable_console = true;
  enable_file = true;
  enable_color = true;
  enable_crash_handler = false;
  enable_syslog = false;
  enable_event_log = false;
  enable_android_log = false;
  enable_apple_log = false;
  rotate_policy = Policy.by_size_and_time;
  max_file_size = 10 * 1024 * 1024;
  max_backup_files = ℤ.negsuc 0;
  max_backup_days = ℤ.pos 0;
  rotate_daily = true;
  rotate_interval_seconds = 0;
  rotate_on_startup = false;
  async_queue_size = 8192;
  async_batch_size = 64;
  flush_interval_ms = 1000;
  overflow_policy = Overflow.block;
  pattern = some default_pattern;
  format_mode = FormatMode.pattern;
  formatter = none;
  system_logger_name = some (codes "hx_clog");
  rotate_align = false;
  max_compressed_files = ℤ.negsuc 0;
  date_subdir = false;
}

unfoldable pub or_text : Option Bytes → Bytes → Bytes
or_text none default = default
or_text (some s) default = s

-- a configuration where every text is given, as `hx_clog_init` and `hx_clog_reconfigure` fill it
unfoldable pub filled : ClogConfig → ClogConfig
filled cfg =
    let name = or_text cfg.logger_name (codes "hx_clog") in
    record cfg {
      file_name = some (or_text cfg.file_name (codes "app.log"));
      log_dir = some (or_text cfg.log_dir (codes "./logs"));
      logger_name = some name;
      system_logger_name = some (or_text cfg.system_logger_name name);
      pattern = some (or_text cfg.pattern default_pattern);
    }

-- the variable of the environment, unless it is empty
unfoldable pub set_text : Option Bytes → Option Bytes
set_text none = none
set_text (some []) = none
set_text (some (c ∷ s)) = some (c ∷ s)

unfoldable pub override_level : Option Bytes → ClogConfig → ClogConfig
override_level none cfg = cfg
override_level (some v) cfg = record cfg { level = level_from_name (some v) }

unfoldable pub override_dir : Option Bytes → ClogConfig → ClogConfig
override_dir none cfg = cfg
override_dir (some v) cfg = record cfg { log_dir = some v }

unfoldable pub override_async : Option Bytes → ClogConfig → ClogConfig
override_async none cfg = cfg
override_async (some v) cfg = record cfg { async_mode = ieq v (codes "async") }

unfoldable pub override_console : Option Bytes → ClogConfig → ClogConfig
override_console none cfg = cfg
override_console (some v) cfg = record cfg {
  enable_console = ieq v (codes "1") || ieq v (codes "true") || ieq v (codes "yes");
}

-- `apply_env_overrides`, with the variables of the environment
unfoldable pub apply_env_overrides : (Bytes → Option Bytes) → ClogConfig → ClogConfig
apply_env_overrides getenv cfg = override_console (set_text (getenv (codes "HX_CLOG_CONSOLE"))) (
    override_async (set_text (getenv (codes "HX_CLOG_MODE"))) (
      override_dir (set_text (getenv (codes "HX_CLOG_DIR")))
        (override_level (set_text (getenv (codes "HX_CLOG_LEVEL"))) cfg)))

unfoldable pub no_separator : Bytes → Bool
no_separator [] = true
no_separator (c ∷ s) =
    let later = no_separator s in if c == b'/' || c == b'\\' || c == b':' then false else later

-- `file_name_is_plain`
unfoldable pub file_name_is_plain : Option Bytes → Bool
file_name_is_plain none = false
file_name_is_plain (some []) = false
file_name_is_plain (some (c ∷ s)) = no_separator (c ∷ s)
