-- ===== src/Config/Keys.antt =====
-- src/hx_clog_core.c: the keys of an ini file as a table, each with what its value sets.
use hx_clog.Common.{
  ◌≡◌, refl, sym, Bool, false, ◌||◌, List, [], ◌∷◌, some, if◌then◌else◌, Bytes, codes,
}
use hx_clog.Level.{ieq, level_from_name}
use hx_clog.Format.Retry.{FormatMode}
use hx_clog.Async.{Overflow}
use hx_clog.FileSink.{Policy}
use hx_clog.Rotate.{cut, path_max}
use hx_clog.Config.{
  Config, ini_bool, ini_size, int_of, to_u32, policy_of, overflow_of, apply_engine, apply_files,
  apply_kv,
}

-- a key under its names, and what a value for it makes of the configuration
pub record Key : Type 0 where
  pub names : List Bytes
  pub sets : Bytes → Config → Config

-- one of the names, in small or capital letters
unfoldable pub is_named : Bytes → List Bytes → Bool
is_named k [] = false
is_named k (n ∷ []) = ieq k n
is_named k (n ∷ m ∷ ns) = ieq k n || is_named k (m ∷ ns)

-- what the table has the value of a key set; a key that is not in it sets nothing
unfoldable pub set_key : List Key → Bytes → Bytes → Config → Config
set_key [] k v cfg = cfg
set_key (key ∷ keys) k v cfg =
    let others = set_key keys k v cfg in if is_named k key.names then key.sets v cfg else others

-- what stands for a value in a table, or the last one
unfoldable pub choice : {A : Type 0} → List (List Bytes × A) → A → Bytes → A
choice [] other v = other
choice ((names, a) ∷ rows) other v =
    let later = choice rows other v in if is_named v names then a else later

abbrev policies : Bytes → Policy
policies =
    choice
      ((codes "size" ∷ [], Policy.by_size)
        ∷ (codes "time" ∷ [], Policy.by_time)
        ∷ (codes "size_and_time" ∷ codes "both" ∷ [], Policy.by_size_and_time)
        ∷ [])
      Policy.rotate_none

abbrev overflows : Bytes → Overflow
overflows =
    choice
      ((codes "drop_new" ∷ [], Overflow.drop_new) ∷ (codes "drop_old" ∷ [], Overflow.drop_old) ∷ [])
      Overflow.block

-- a yes or no
abbrev yes : Bytes → Bool
yes v = ieq v (codes "1") || ieq v (codes "true") || ieq v (codes "yes") || ieq v (codes "on")

abbrev key : Bytes → (Bytes → Config → Config) → Key
key name sets = record { names = name ∷ []; sets = sets }

abbrev key2 : Bytes → Bytes → (Bytes → Config → Config) → Key
key2 name other sets = record { names = name ∷ other ∷ []; sets = sets }

-- the keys of the logger and its sinks, before others
abbrev main_keys : List Key → List Key
main_keys rest =
    key (codes "level") (λ v cfg. record cfg { level = level_from_name (some v) })
    ∷ key2 (codes "dir") (codes "log_dir") (λ v cfg. record cfg { log_dir = cut path_max v })
    ∷ key2 (codes "file") (codes "file_name") (λ v cfg. record cfg { file_name = cut 256 v })
    ∷ key2 (codes "logger") (codes "logger_name") (λ v cfg. record cfg { logger_name = cut 128 v })
    ∷ key (codes "pattern") (λ v cfg. record cfg { pattern = some (cut 512 v) })
    ∷ key (codes "mode") (λ v cfg. record cfg { async_mode = ieq v (codes "async") })
    ∷ key2 (codes "console") (codes "enable_console")
        (λ v cfg. record cfg { enable_console = yes v })
    ∷ key2 (codes "file_output") (codes "enable_file") (λ v cfg. record cfg { enable_file = yes v })
    ∷ key2 (codes "color") (codes "enable_color") (λ v cfg. record cfg { enable_color = yes v })
    ∷ key2 (codes "format") (codes "format_mode") (λ v cfg. record cfg {
      format_mode = if ieq v (codes "json") then FormatMode.json else FormatMode.pattern;
    })
    ∷ rest

-- the keys of the files, before others
abbrev file_keys : List Key → List Key
file_keys rest =
    key (codes "max_file_size") (λ v cfg. record cfg { max_file_size = ini_size v })
    ∷ key (codes "max_backup_files") (λ v cfg. record cfg { max_backup_files = int_of v })
    ∷ key (codes "max_backup_days") (λ v cfg. record cfg { max_backup_days = int_of v })
    ∷ key (codes "max_compressed_files") (λ v cfg. record cfg { max_compressed_files = int_of v })
    ∷ key (codes "rotate_daily") (λ v cfg. record cfg { rotate_daily = yes v })
    ∷ key (codes "rotate_interval_seconds")
        (λ v cfg. record cfg { rotate_interval_seconds = to_u32 (int_of v) })
    ∷ key (codes "rotate_on_startup") (λ v cfg. record cfg { rotate_on_startup = yes v })
    ∷ key (codes "rotate_align") (λ v cfg. record cfg { rotate_align = yes v })
    ∷ key (codes "date_subdir") (λ v cfg. record cfg { date_subdir = yes v })
    ∷ rest

-- the keys of the engine, and those that remain
abbrev engine_keys : List Key → List Key
engine_keys rest =
    key (codes "async_queue_size") (λ v cfg. record cfg { async_queue_size = to_u32 (int_of v) })
    ∷ key (codes "async_batch_size") (λ v cfg. record cfg { async_batch_size = to_u32 (int_of v) })
    ∷ key (codes "flush_interval_ms")
        (λ v cfg. record cfg { flush_interval_ms = to_u32 (int_of v) })
    ∷ key2 (codes "crash") (codes "enable_crash_handler")
        (λ v cfg. record cfg { enable_crash_handler = yes v })
    ∷ key (codes "rotate_policy") (λ v cfg. record cfg { rotate_policy = policies v })
    ∷ key2 (codes "overflow") (codes "overflow_policy")
        (λ v cfg. record cfg { overflow_policy = overflows v })
    ∷ rest

-- all keys that the file of a configuration may have
unfoldable pub keys : List Key
keys = main_keys (file_keys (engine_keys []))

module _ (cfg : Config) (k v : Bytes) where
  apply_engine-set_key : set_key (engine_keys []) k v cfg ≡ apply_engine cfg k v
  unfolding apply_engine set_key is_named ini_bool choice policy_of overflow_of
  apply_engine-set_key = refl

  apply_files-set_key :
      (rest : List Key)
      → set_key rest k v cfg ≡ apply_engine cfg k v
      → set_key (file_keys rest) k v cfg ≡ apply_files cfg k v
  unfolding apply_files set_key is_named ini_bool
  apply_files-set_key rest e = rw e refl

  main-set_key :
      (rest : List Key)
      → set_key rest k v cfg ≡ apply_files cfg k v
      → set_key (main_keys rest) k v cfg ≡ apply_kv cfg k v
  unfolding apply_kv set_key is_named ini_bool
  main-set_key rest e = rw e refl

  -- the table is what `ini_apply_kv` does
  pub apply_kv-set_key : apply_kv cfg k v ≡ set_key keys k v cfg
  unfolding keys
  apply_kv-set_key = sym (
      main-set_key (file_keys (engine_keys []))
        (apply_files-set_key (engine_keys []) apply_engine-set_key))
