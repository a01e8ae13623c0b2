-- ===== src/Config/Tests.antt =====
-- src/hx_clog_core.c: a line of an ini file, and a size in it.
use hx_clog.Common.{◌*◌, ◌%◌, ◌^◌, ◌≡◌, true, false, ◌++◌, none, arith, codes}
use hx_clog.Common.Int.{ℤ}
use hx_clog.Format.Retry.{FormatMode}
use hx_clog.Format.View.{decimal}
use hx_clog.Async.{Overflow}
use hx_clog.FileSink.{Policy}
use hx_clog.Config.{Config, ini_size}
use hx_clog.Config.Sizes.{SizeUnit, ini_size-decimal}

abbrev defaults : Config
defaults = record {
  level = 2;
  log_dir = codes "./logs";
  file_name = codes "app.log";
  logger_name = codes "hx_clog";
  pattern = none;
  async_mode = false;
  enable_console = true;
  enable_file = true;
  enable_color = true;
  format_mode = FormatMode.pattern;
  max_file_size = 0;
  max_backup_files = ℤ.pos 7;
  max_backup_days = ℤ.pos 0;
  max_compressed_files = ℤ.pos 0;
  rotate_daily = false;
  rotate_interval_seconds = 0;
  rotate_on_startup = false;
  rotate_align = false;
  date_subdir = false;
  async_queue_size = 8192;
  async_batch_size = 64;
  flush_interval_ms = 1000;
  enable_crash_handler = false;
  rotate_policy = Policy.rotate_none;
  overflow_policy = Overflow.block;
}

ini_size-decimal_example : ini_size (decimal 24 64 ++ codes "K") ≡ 64 * 2 ^ 10 % 2 ^ 64
ini_size-decimal_example = ini_size-decimal 64 (omega arith) SizeUnit.capital_kilo
