-- ===== src/Lifecycle/Begin.antt =====
-- src/hx_clog_core.c: `hx_clog_init`, with `init_lock` held.
use hx_clog.Common.{true, not, ◌&&◌, [], Option, none, some, ◌==◌, if◌then◌else◌, length}
use hx_clog.Status.{Status}
use hx_clog.CrashRing.{ring_init}
use hx_clog.Settings.{init_format, init_gen, init_name}
use hx_clog.Setup.{
  or_text, ClogConfig, config_default, filled, apply_env_overrides, file_name_is_plain,
}
use hx_clog.Sink.{Sink}
use hx_clog.Lifecycle.{
  World, Answers, Built, add_sink, new_console, new_file, add_system_sinks, store_active_config,
  with_core, with_sinks, set_initialized, start_engine, Result,
}

-- the configuration of `hx_clog_init`
unfoldable pub init_config : Answers → Option ClogConfig → ClogConfig
init_config a none = apply_env_overrides a.getenv (filled config_default)
init_config a (some cfg) = apply_env_overrides a.getenv (filled cfg)

-- the settings of a configuration, in the order in which `hx_clog_init` writes them
unfoldable pub begun_with : ClogConfig → World → World
begun_with cfg w =
    let formatted =
      init_format (or_text cfg.pattern []) cfg.format_mode cfg.formatter w.system.settings in
    record w {
      system = record w.system {
        level = cfg.level;
        settings = init_name (or_text cfg.logger_name []) (init_gen formatted);
      };
      default_level = cfg.level;
    }

-- what `hx_clog_init` sets before it makes sinks
unfoldable pub prepared : Answers → ClogConfig → World → World
prepared a cfg w =
    let w' = begun_with cfg w in
    let c = w'.system.core in
    with_core
      (record c {
        async = cfg.async_mode;
        sinks = record c.sinks { sinks = []; override_count = 0 };
        ring = (ring_init a.ring_given c.ring).0;
      })
      w'

-- with the sinks for the console and the file
unfoldable pub finish_init : Answers → ClogConfig → World → Built → Result
finish_init a cfg w b =
    let (r, made, out) = add_system_sinks a cfg b in
    let w' = with_sinks r w in
    let w'' = with_core (start_engine a cfg w'.system.core) w' in
    (Status.ok, set_initialized true (store_active_config cfg w''), made, out)

-- the sink for the file, if the configuration wants one
unfoldable pub init_file : Answers → ClogConfig → World → Built → Option Sink → Result
init_file a cfg w b (some s) = finish_init a cfg w (add_sink (some s) b)
init_file a cfg w b none =
    if cfg.enable_file && length b.0.sinks == 0
    then (Status.open_file_failed, with_sinks b.0 w, b.1, b.2)
    else finish_init a cfg w b

-- `hx_clog_init_locked`
unfoldable pub init : Answers → Option ClogConfig → World → Result
init a given w =
    let cfg = init_config a given in
    let w' = prepared a cfg w in
    if w.system.initialized
    then (Status.already_initialized, w, [], [])
    else if not (file_name_is_plain cfg.file_name)
    then (Status.invalid_argument, w, [], [])
    else init_file a cfg w' (add_sink (new_console a cfg) (w'.system.core.sinks, [], []))
        (new_file a cfg)
