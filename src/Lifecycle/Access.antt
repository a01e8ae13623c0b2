-- ===== src/Lifecycle/Access.antt =====
-- src/hx_clog_core.c: the calls that add sinks, and those for the level and the configuration.
use hx_clog.Common.{
  ℕ, Bool, false, not, ◌||◌, [], ◌∷◌, Option, none, some, ◌==◌, if◌then◌else◌, Bytes, length,
}
use hx_clog.Status.{Status}
use hx_clog.Setup.{ClogConfig, or_text}
use hx_clog.Sink.{Kind, Sink, new_sink, callback_create, syslog_create}
use hx_clog.Sink.Registry.{add_sink_locked}
use hx_clog.Lifecycle.{World, with_sinks, Result}

-- a sink that the application adds, with the status for one that could not be made
unfoldable pub add_runtime : Status → Option Sink → World → Result
add_runtime failed none w = (failed, w, [], [])
add_runtime failed (some s) w =
    let (status, r, effects) = add_sink_locked (some s) w.system.core.sinks in
    (status, with_sinks r w, s.handle ∷ [], effects)

-- `hx_clog_add_callback_sink_ex`: whether there is a callback, and the memory for the sink
unfoldable pub add_callback_sink : Bool → Option ℕ → World → Result
add_callback_sink given memory w =
    if not given
    then (Status.invalid_argument, w, [], [])
    else add_runtime Status.out_of_memory (callback_create memory) w

-- `hx_clog_add_syslog_sink`
unfoldable pub add_syslog_sink : Option ℕ → World → Result
add_syslog_sink memory w = add_runtime Status.platform (syslog_create memory) w

-- `hx_clog_add_network_sink`; the host is none for a null pointer
unfoldable pub add_network_sink : Option Bytes → ℕ → Option ℕ → World → Result
add_network_sink host port memory w =
    if length (or_text host []) == 0 || port == 0
    then (Status.invalid_argument, w, [], [])
    else add_runtime Status.platform
        (elim memory [ none ↦ none | some handle ↦ some (new_sink Kind.network handle false) ]) w

-- `hx_clog_set_level` and `hx_clog_get_level`
unfoldable pub set_level : ℕ → World → World
set_level level w = record w { system = record w.system { level = level }; default_level = level }

unfoldable pub get_level : World → ℕ
get_level w = w.system.level

-- `hx_clog_get_config`
unfoldable pub get_config : World → Status × Option ClogConfig
get_config w =
    if not w.system.initialized then (Status.not_initialized, none) else (Status.ok, some w.active)
