-- ===== src/Config.antt =====
-- src/hx_clog_core.c: the configuration that an ini file gives. A line is what `fgets` hands out.
pub mod Keys
pub mod Lines
pub mod Sizes
mod Tests
use hx_clog.Common.{
  ℕ, zero, suc, ◌+◌, ◌-◌, ◌*◌, ◌%◌, ◌^◌, Bool, true, false, not, ◌&&◌, ◌||◌, List, [], ◌∷◌, ◌++◌,
  reverse, Option, none, some, ltb, leb, ◌==◌, if◌then◌else◌, Bytes, codes, length, take,
}
use hx_clog.Common.Int.{ℤ, diff}
use hx_clog.Level.{ieq, level_from_name}
use hx_clog.Format.Retry.{FormatMode}
use hx_clog.Async.{Overflow}
use hx_clog.Rotate.{is_digit, skip_spaces, leading, cut, path_max}
use hx_clog.FileSink.{Policy}

-- the fields of `hx_clog_config_t` that a key of the file sets, with the texts of the caller's buffers
pub record Config : Type 0 where
  pub level : ℕ
  pub log_dir : Bytes
  pub file_name : Bytes
  pub logger_name : Bytes
  pub pattern : Option Bytes
  pub async_mode : Bool
  pub enable_console : Bool
  pub enable_file : Bool
  pub enable_color : Bool
  pub format_mode : FormatMode
  pub max_file_size : ℕ
  pub max_backup_files : ℤ
  pub max_backup_days : ℤ
  pub max_compressed_files : ℤ
  pub rotate_daily : Bool
  pub rotate_interval_seconds : ℕ
  pub rotate_on_startup : Bool
  pub rotate_align : Bool
  pub date_subdir : Bool
  pub async_queue_size : ℕ
  pub async_batch_size : ℕ
  pub flush_interval_ms : ℕ
  pub enable_crash_handler : Bool
  pub rotate_policy : Policy
  pub overflow_policy : Overflow

unfoldable pub is_blank : ℕ → Bool
is_blank c = c == b' ' || c == b'\t' || c == b'\r' || c == b'\n'

unfoldable pub skip_blanks : Bytes → Bytes
skip_blanks [] = []
skip_blanks (c ∷ s) = let rest = skip_blanks s in if is_blank c then rest else c ∷ s

unfoldable pub ini_trim : Bytes → Bytes
ini_trim s = reverse (skip_blanks (reverse (skip_blanks s)))

unfoldable pub ini_bool : Bytes → Bool
ini_bool v = ieq v (codes "1") || ieq v (codes "true") || ieq v (codes "yes") || ieq v (codes "on")

-- the factor that the byte behind the digits stands for
unfoldable pub unit_of : Bytes → ℕ
unit_of [] = 1
unit_of (c ∷ s) =
    if c == b'k' || c == b'K'
    then 1024
    else if c == b'm' || c == b'M'
    then 1024 * 1024
    else if c == b'g' || c == b'G'
    then 1024 * 1024 * 1024
    else 1

-- the loop over the digits of `ini_size`, with the number so far
unfoldable pub ini_size_from : ℕ → Bytes → ℕ
ini_size_from n [] = n
ini_size_from n (c ∷ s) =
    let more = ini_size_from ((n * 10 + (c - b'0')) % 2 ^ 64) s in
    if is_digit c then more else n * unit_of (c ∷ s) % 2 ^ 64

unfoldable pub ini_size : Bytes → ℕ
ini_size v = ini_size_from 0 v

-- `atoi`, behind the spaces
unfoldable pub int_at : Bytes → ℤ
int_at [] = ℤ.pos 0
int_at (c ∷ s) =
    if c == b'-'
    then diff 0 (leading 0 s)
    else if c == b'+'
    then ℤ.pos (leading 0 s)
    else ℤ.pos (leading 0 (c ∷ s))

unfoldable pub int_of : Bytes → ℤ
int_of v = int_at (skip_spaces v)

-- `(unsigned int)` of an `int`
unfoldable pub to_u32 : ℤ → ℕ
to_u32 (ℤ.pos n) = n % 2 ^ 32
to_u32 (ℤ.negsuc n) = 2 ^ 32 - 1 - n % 2 ^ 32

unfoldable pub policy_of : Bytes → Policy
policy_of v =
    if ieq v (codes "size")
    then Policy.by_size
    else if ieq v (codes "time")
    then Policy.by_time
    else if ieq v (codes "size_and_time") || ieq v (codes "both")
    then Policy.by_size_and_time
    else Policy.rotate_none

unfoldable pub overflow_of : Bytes → Overflow
overflow_of v =
    if ieq v (codes "drop_new")
    then Overflow.drop_new
    else if ieq v (codes "drop_old")
    then Overflow.drop_old
    else Overflow.block

-- the last keys of `ini_apply_kv`; a key that is unknown changes nothing
unfoldable pub apply_engine : Config → Bytes → Bytes → Config
apply_engine cfg k v =
    if ieq k (codes "async_queue_size")
    then record cfg { async_queue_size = to_u32 (int_of v) }
    else if ieq k (codes "async_batch_size")
    then record cfg { async_batch_size = to_u32 (int_of v) }
    else if ieq k (codes "flush_interval_ms")
    then record cfg { flush_interval_ms = to_u32 (int_of v) }
    else if ieq k (codes "crash") || ieq k (codes "enable_crash_handler")
    then record cfg { enable_crash_handler = ini_bool v }
    else if ieq k (codes "rotate_policy")
    then record cfg { rotate_policy = policy_of v }
    else if ieq k (codes "overflow") || ieq k (codes "overflow_policy")
    then record cfg { overflow_policy = overflow_of v }
    else cfg

-- the keys of the files, and those that follow
unfoldable pub apply_files : Config → Bytes → Bytes → Config
apply_files cfg k v =
    if ieq k (codes "max_file_size")
    then record cfg { max_file_size = ini_size v }
    else if ieq k (codes "max_backup_files")
    then record cfg { max_backup_files = int_of v }
    else if ieq k (codes "max_backup_days")
    then record cfg { max_backup_days = int_of v }
    else if ieq k (codes "max_compressed_files")
    then record cfg { max_compressed_files = int_of v }
    else if ieq k (codes "rotate_daily")
    then record cfg { rotate_daily = ini_bool v }
    else if ieq k (codes "rotate_interval_seconds")
    then record cfg { rotate_interval_seconds = to_u32 (int_of v) }
    else if ieq k (codes "rotate_on_startup")
    then record cfg { rotate_on_startup = ini_bool v }
    else if ieq k (codes "rotate_align")
    then record cfg { rotate_align = ini_bool v }
    else if ieq k (codes "date_subdir")
    then record cfg { date_subdir = ini_bool v }
    else apply_engine cfg k v

-- `ini_apply_kv`
unfoldable pub apply_kv : Config → Bytes → Bytes → Config
apply_kv cfg k v =
    if ieq k (codes "level")
    then record cfg { level = level_from_name (some v) }
    else if ieq k (codes "dir") || ieq k (codes "log_dir")
    then record cfg { log_dir = cut path_max v }
    else if ieq k (codes "file") || ieq k (codes "file_name")
    then record cfg { file_name = cut 256 v }
    else if ieq k (codes "logger") || ieq k (codes "logger_name")
    then record cfg { logger_name = cut 128 v }
    else if ieq k (codes "pattern")
    then record cfg { pattern = some (cut 512 v) }
    else if ieq k (codes "mode")
    then record cfg { async_mode = ieq v (codes "async") }
    else if ieq k (codes "console") || ieq k (codes "enable_console")
    then record cfg { enable_console = ini_bool v }
    else if ieq k (codes "file_output") || ieq k (codes "enable_file")
    then record cfg { enable_file = ini_bool v }
    else if ieq k (codes "color") || ieq k (codes "enable_color")
    then record cfg { enable_color = ini_bool v }
    else if ieq k (codes "format") || ieq k (codes "format_mode")
    then record cfg {
      format_mode = if ieq v (codes "json") then FormatMode.json else FormatMode.pattern;
    }
    else apply_files cfg k v

-- the bytes before the first `b` and those behind it; `none`: there is no `b`
unfoldable pub split_at : ℕ → Bytes → Option (Bytes × Bytes)
split_at b [] = none
split_at b (c ∷ s) =
    let later = split_at b s in
    if c == b then some ([], s) else elim later [ none ↦ none | some (x, y) ↦ some (c ∷ x, y) ]

-- the name of a section, from what is behind its bracket
unfoldable pub section_name : Bytes → Bytes
section_name s = elim (split_at b']' s) [ none ↦ s | some (x, y) ↦ x ]

unfoldable pub is_ours : Bytes → Bool
is_ours [] = true
is_ours (c ∷ s) = ieq (c ∷ s) (codes "hx_clog") || ieq (c ∷ s) (codes "hxclog")

-- a line with a key, or without one
unfoldable pub read_pair : Config → Option (Bytes × Bytes) → Config
read_pair cfg none = cfg
read_pair cfg (some (k, v)) = apply_kv cfg (ini_trim k) (ini_trim v)

-- a line without the blanks around it, and whether the keys are ours
unfoldable pub read_trimmed : Config × Bool → Bytes → Config × Bool
read_trimmed (cfg, in_section) [] = (cfg, in_section)
read_trimmed (cfg, in_section) (c ∷ s) =
    if c == b'#' || c == b';'
    then (cfg, in_section)
    else if c == b'['
    then (cfg, is_ours (section_name s))
    else if not in_section
    then (cfg, in_section)
    else (read_pair cfg (split_at b'=' (c ∷ s)), in_section)

unfoldable pub read_line : Config × Bool → Bytes → Config × Bool
read_line st line = read_trimmed st (ini_trim line)

-- the loop of `hx_clog_init_from_file`
unfoldable pub read_lines : Config × Bool → List Bytes → Config × Bool
read_lines st [] = st
read_lines st (line ∷ lines) = read_lines (read_line st line) lines
