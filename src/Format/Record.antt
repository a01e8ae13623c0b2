-- ===== src/Format/Record.antt =====
-- include/hx_clog.h: the log record; src/hx_clog_format.c: base names. Times are counted from 1970
-- and lines from 0, so they are not negative here.
use hx_clog.Common.{ℕ, Bool, ◌||◌, [], ◌∷◌, Option, none, some, ◌==◌, if◌then◌else◌, Bytes}

-- `struct tm`, as far as the library reads it
pub record Tm : Type 0 where
  pub tm_year : ℕ
  pub tm_mon : ℕ
  pub tm_mday : ℕ
  pub tm_hour : ℕ
  pub tm_min : ℕ
  pub tm_sec : ℕ
  pub tm_yday : ℕ

-- `hx_clog_record_t`; `none` is a null pointer.
pub record Record : Type 0 where
  pub level : ℕ
  pub logger_name : Option Bytes
  pub file : Option Bytes
  pub line : ℕ
  pub func : Option Bytes
  pub pid : ℕ
  pub tid : ℕ
  pub timestamp_sec : ℕ
  pub timestamp_msec : ℕ
  pub message : Option Bytes
  pub message_len : ℕ
  pub context : Option Bytes

abbrev pub is_separator : ℕ → Bool
is_separator c = c == b'/' || c == b'\\'

-- the loop of `basename_of`: `base` so far, and the rest of the path
unfoldable pub basename_from : Bytes → Bytes → Bytes
basename_from base [] = base
basename_from base (c ∷ p) = basename_from (if is_separator c then p else base) p

unfoldable pub basename_of : Option Bytes → Bytes
unfolding basename_from
basename_of none = []
basename_of (some path) = basename_from path path
