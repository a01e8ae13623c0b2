-- ===== src/Lifecycle/FromFile.antt =====
-- src/hx_clog_core.c: `hx_clog_init_from_file`, with the lines that `fgets` hands out.
use hx_clog.Common.{
  Bool, true, false, ◌≡◌, refl, List, [], ◌∷◌, Option, none, some, Bytes, if◌then◌else◌, ◌==◌, ◌||◌,
}
use hx_clog.Status.{Status}
use hx_clog.Rotate.{cut, path_max}
use hx_clog.Config.{Config, ini_trim, read_trimmed, read_line, read_lines}
use hx_clog.Setup.{ClogConfig, config_default, or_text}
use hx_clog.Lifecycle.{World, Answers, Result}
use hx_clog.Lifecycle.Begin.{init}

-- the fields that the keys of a file set, with the texts in buffers of their own
unfoldable pub file_fields : ClogConfig → Config
file_fields c = record {
  level = c.level;
  log_dir = cut path_max (or_text c.log_dir []);
  file_name = cut 256 (or_text c.file_name []);
  logger_name = cut 128 (or_text c.logger_name []);
  pattern = elim c.pattern [ none ↦ none | some p ↦ some (cut 512 p) ];
  async_mode = c.async_mode;
  enable_console = c.enable_console;
  enable_file = c.enable_file;
  enable_color = c.enable_color;
  format_mode = c.format_mode;
  max_file_size = c.max_file_size;
  max_backup_files = c.max_backup_files;
  max_backup_days = c.max_backup_days;
  max_compressed_files = c.max_compressed_files;
  rotate_daily = c.rotate_daily;
  rotate_interval_seconds = c.rotate_interval_seconds;
  rotate_on_startup = c.rotate_on_startup;
  rotate_align = c.rotate_align;
  date_subdir = c.date_subdir;
  async_queue_size = c.async_queue_size;
  async_batch_size = c.async_batch_size;
  flush_interval_ms = c.flush_interval_ms;
  enable_crash_handler = c.enable_crash_handler;
  rotate_policy = c.rotate_policy;
  overflow_policy = c.overflow_policy;
}

-- the configuration with these fields
unfoldable pub with_fields : Config → ClogConfig → ClogConfig
with_fields f c = record c {
  level = f.level;
  log_dir = some f.log_dir;
  file_name = some f.file_name;
  logger_name = some f.logger_name;
  pattern = f.pattern;
  async_mode = f.async_mode;
  enable_console = f.enable_console;
  enable_file = f.enable_file;
  enable_color = f.enable_color;
  format_mode = f.format_mode;
  max_file_size = f.max_file_size;
  max_backup_files = f.max_backup_files;
  max_backup_days = f.max_backup_days;
  max_compressed_files = f.max_compressed_files;
  rotate_daily = f.rotate_daily;
  rotate_interval_seconds = f.rotate_interval_seconds;
  rotate_on_startup = f.rotate_on_startup;
  rotate_align = f.rotate_align;
  date_subdir = f.date_subdir;
  async_queue_size = f.async_queue_size;
  async_batch_size = f.async_batch_size;
  flush_interval_ms = f.flush_interval_ms;
  enable_crash_handler = f.enable_crash_handler;
  rotate_policy = f.rotate_policy;
  overflow_policy = f.overflow_policy;
}

unfoldable pub is_nothing : Option Bytes → Bool
is_nothing none = true
is_nothing (some []) = true
is_nothing (some (c ∷ s)) = false

-- what the lines of a file make of the defaults
unfoldable pub config_from : List Bytes → ClogConfig
config_from lines =
    with_fields (read_lines (file_fields config_default, true) lines).0 config_default

-- `hx_clog_init_from_file`, with a path and the lines of the file, or none where it does not open
unfoldable pub init_from_file : Answers → Option Bytes → Option (List Bytes) → World → Result
init_from_file a path none w =
    if is_nothing path
    then (Status.invalid_argument, w, [], [])
    else (Status.open_file_failed, w, [], [])
init_from_file a path (some lines) w =
    if is_nothing path
    then (Status.invalid_argument, w, [], [])
    else init a (some (config_from lines)) w

-- a line that is blank or a comment
abbrev pub IsIdle : Bytes → Type 0
IsIdle [] = Unit
IsIdle (c ∷ s) = (c == b'#' || c == b';') ≡ true

abbrev pub AllIdle : List Bytes → Type 0
AllIdle [] = Unit
AllIdle (l ∷ ls) = IsIdle (ini_trim l) × AllIdle ls

read_trimmed-idle : (st : Config × Bool) (t : Bytes) → IsIdle t → read_trimmed st t ≡ st
unfolding read_trimmed
read_trimmed-idle (f, on) [] h = refl
read_trimmed-idle (f, on) (c ∷ s) h = rw h refl

read_lines-idle : (st : Config × Bool) (ls : List Bytes) → AllIdle ls → read_lines st ls ≡ st
unfolding read_lines read_line
read_lines-idle st [] h = refl
read_lines-idle st (l ∷ ls) (idle, h) =
    rw (read_trimmed-idle st (ini_trim l) idle) (read_lines-idle st ls h)

-- The buffers hold the texts of the defaults.
default_fields : with_fields (file_fields config_default) config_default ≡ config_default
unfolding with_fields file_fields config_default or_text
default_fields = refl

config_from-idle : (ls : List Bytes) → AllIdle ls → config_from ls ≡ config_default
unfolding config_from
config_from-idle ls h = rw (read_lines-idle (file_fields config_default, true) ls h) default_fields

-- A file of blank lines and comments is as good as no configuration.
pub init_from_file-idle :
    (a : Answers) (path : Option Bytes) (ls : List Bytes) (w : World)
    → is_nothing path ≡ false
    → AllIdle ls
    → init_from_file a path (some ls) w ≡ init a (some config_default) w
unfolding init_from_file
init_from_file-idle a path ls w given h = rw (given, config_from-idle ls h) refl
