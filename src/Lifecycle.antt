-- ===== src/Lifecycle.antt =====
-- src/hx_clog_core.c: `hx_clog_init`, `hx_clog_reconfigure` and `hx_clog_shutdown`, with `init_lock` held
-- over each, and the calls that add sinks. It is a POSIX build with syslog, the engine and the network
-- sink. The error handler, the crash handler and `atexit` are not modelled.
pub mod Begin
pub mod Change
pub mod Access
pub mod Benign
pub mod Keeps
pub mod Owned
pub mod Init
pub mod Calls
pub mod Account
pub mod Errors
pub mod FromFile
mod Tests
use hx_clog.Common.{
  ℕ, ◌+◌, ◌-◌, Bool, true, false, not, ◌&&◌, ◌||◌, List, [], ◌∷◌, ◌++◌, Option, none, some, ◌==◌,
  ◌>>=◌, if◌then◌else◌, Bytes, codes, length, take,
}
use hx_clog.Status.{Status}
use hx_clog.CrashRing.{ring_init, ring_destroy}
use hx_clog.Async.{Line, Engine}
use hx_clog.Async.Life
use hx_clog.Async.Life.{start, flush_begin, stop_begin, stop_end}
use hx_clog.Rotate.{path_max}
use hx_clog.Setup.{
  ClogConfig, config_default, or_text, filled, apply_env_overrides, file_name_is_plain,
}
use hx_clog.Settings.{set_all}
use hx_clog.Sink.{Kind, Sink, Effect, new_sink, console_create, callback_create, syslog_create}
use hx_clog.Sink.Registry.{
  Sinks, add_sink_locked, recompute_override_count, close_non_callback_sinks, close_sinks,
  flush_sinks, reopen_sinks,
}
use hx_clog.Dispatch.{Core}
use hx_clog.Dispatch.Direct.{emit_all}
use hx_clog.Write.{System, Env, flush_dups, deliver, deliveries}

-- the state that a line reads, with `default_logger.level` and `active_config` of `g_core`
pub record World : Type 0 where
  pub system : System
  pub default_level : ℕ
  pub active : ClogConfig

-- What a call meets: the environment, the addresses of new sinks, where none is a failure, the memory
-- and the thread for the engine, and the lines that its worker hands out while the call waits for it.
pub record Answers : Type 0 where
  pub env : Env
  pub getenv : Bytes → Option Bytes
  pub console : Option ℕ
  pub out_tty : Bool
  pub err_tty : Bool
  -- `hx_sink_file_create`
  pub file : Bytes → Bytes → ClogConfig → Option ℕ
  pub syslog : Option ℕ
  pub ring_given : Bool
  pub slots_given : Bool
  pub thread_made : Bool
  pub stopped : List Line
  pub reopened : ℕ → Status

-- the list of the sinks with the handles of those that have been made and the effects
abbrev pub Built : Type 0
Built = Sinks × List ℕ × List Effect

-- `add_sink`; for none the error is reported
unfoldable pub add_sink : Option Sink → Built → Built
add_sink none b = b
add_sink (some s) (r, made, out) =
    let (status, r', effects) = add_sink_locked (some s) r in (r', s.handle ∷ made, out ++ effects)

unfoldable pub new_console : Answers → ClogConfig → Option Sink
new_console a cfg =
    if cfg.enable_console
    then console_create a.out_tty a.err_tty a.console true cfg.enable_color
    else none

-- the sink for a file, as `hx_sink_file_create` leaves it
unfoldable pub file_sink : Option ℕ → Option Sink
file_sink none = none
file_sink (some handle) = some (new_sink Kind.file handle true)

unfoldable pub new_file : Answers → ClogConfig → Option Sink
new_file a cfg =
    if cfg.enable_file
    then file_sink (a.file (or_text cfg.log_dir []) (or_text cfg.file_name []) cfg)
    else none

-- `add_configured_system_sinks`; the services of other systems give no sink
unfoldable pub add_system_sinks : Answers → ClogConfig → Built → Built
add_system_sinks a cfg b = if cfg.enable_syslog then add_sink (syslog_create a.syslog) b else b

-- the fields that hold a configuration's texts
unfoldable pub kept : ClogConfig → ClogConfig
kept cfg = record cfg {
  logger_name = some (take 127 (or_text cfg.logger_name []));
  log_dir = some (take (path_max - 1) (or_text cfg.log_dir []));
  file_name = some (take 255 (or_text cfg.file_name []));
  pattern = some (take 511 (or_text cfg.pattern []));
  system_logger_name = some (take 127 (or_text cfg.system_logger_name []));
}

-- `store_active_config_locked`
unfoldable pub store_active_config : ClogConfig → World → World
store_active_config cfg w = record w {
  active = record (kept cfg) { async_mode = w.system.core.async; level = w.system.level };
}

-- the settings of a configuration
unfoldable pub configured : ClogConfig → World → World
configured cfg w = record w {
  system = record w.system {
    level = cfg.level;
    settings =
        set_all (or_text cfg.pattern []) cfg.format_mode cfg.formatter (or_text cfg.logger_name [])
          w.system.settings;
  };
  default_level = cfg.level;
}

unfoldable pub with_core : Core → World → World
with_core c w = record w { system = record w.system { core = c } }

unfoldable pub with_sinks : Sinks → World → World
with_sinks r w = with_core (record w.system.core { sinks = r }) w

unfoldable pub set_initialized : Bool → World → World
set_initialized on w = record w { system = record w.system { initialized = on } }

-- the engine is started for the asynchronous mode, which falls back to the other one
unfoldable pub start_engine : Answers → ClogConfig → Core → Core
start_engine a cfg c =
    if cfg.async_mode
    then (let (status, e) =
          start a.slots_given a.thread_made
            (record {
              async_queue_size = cfg.async_queue_size;
              async_batch_size = cfg.async_batch_size;
              flush_interval_ms = cfg.flush_interval_ms;
              overflow_policy = cfg.overflow_policy;
            })
            c.engine in
        let up : Bool = elim status [ Status.ok ↦ true | _ ↦ false ] in
        record c { engine = e; async = up })
    else c

-- `hx_async_stop`
unfoldable pub async_stop : Answers → Core → Core × List Effect
async_stop a c =
    let (joins, e) = stop_begin c.engine in
    if joins
    then (let (c', out) = emit_all c a.stopped in (record c' { engine = stop_end e }, out))
    else (c, [])

-- what a call returns: its status, the state, the handles of the sinks that it made, and its effects
abbrev pub Result : Type 0
Result = Status × World × List ℕ × List Effect
