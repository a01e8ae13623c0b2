-- ===== src/Write/Named.antt =====
-- src/hx_clog_core.c: writing by the default logger, by a name and through a logger.
use hx_clog.Common.{
  ℕ, ◌≤◌, ◌<◌, ◌≡◌, Bool, true, false, not, List, [], ◌∷◌, ◌++◌, Option, none, some, arith, ltb,
  lt→ltb, if◌then◌else◌, Bytes, length,
}
use hx_clog.Status.{Status}
use hx_clog.Level.{off}
use hx_clog.Sink.{Effect}
use hx_clog.Logger.{name_cap, Logger, Registry, logger_get, set_level_for_prefix}
use hx_clog.Logger.Prefix.{set_level_for_prefix-get}
use hx_clog.Write.{System, Env, Request, is_filtered, core_writev}

-- `hx_clog_writev`, with the level of the default logger
unfoldable pub writev : Env → ℕ → System → Request → Option (System × List Effect)
writev env default_level s r =
    core_writev env s (record r { logger_name = none; logger_level = some default_level })

-- `hx_clog_writev_named`
unfoldable pub writev_named : Env → Option Bytes → System → Request → Option (System × List Effect)
writev_named env name s r = core_writev env s (record r { logger_name = name; logger_level = none })

-- `hx_clog_logger_writev`, with the default logger for a null pointer
unfoldable pub logger_writev :
    Env → Logger → Option Logger → System → Request → Option (System × List Effect)
logger_writev env default none s r =
    core_writev env s
      (record r { logger_name = some default.name; logger_level = some default.level })
logger_writev env default (some l) s r =
    core_writev env s (record r { logger_name = some l.name; logger_level = some l.level })

-- `hx_clog_logger_set_level` of a logger that is not the default one
unfoldable pub logger_set_level : Option Logger → ℕ → Status × Option Logger
logger_set_level none level = (Status.invalid_argument, none)
logger_set_level (some l) level =
    if ltb off level
    then (Status.invalid_argument, some l)
    else (Status.ok, some (record l { level = level }))

-- `hx_clog_logger_get_level` and `hx_clog_logger_name`
unfoldable pub logger_get_level : Option Logger → ℕ
logger_get_level none = off
logger_get_level (some l) = l.level

unfoldable pub name_of_logger : Option Logger → Bytes
name_of_logger none = []
name_of_logger (some l) = l.name

-- `hx_clog_logger_destroy`; `true`: the memory is freed
unfoldable pub logger_destroy : Option Logger → Bool
logger_destroy none = false
logger_destroy (some l) = not l.registered

logger_writev_below :
    (env : Env) (default l : Logger) (s : System) (r : Request)
    → r.level < l.level
    → logger_writev env default (some l) s r ≡ some (s, [])
unfolding logger_writev core_writev is_filtered
logger_writev_below env default l s r low = ground (arith, lt→ltb r.level l.level low)

-- Once the level of a prefix has been set, a message below it that is written through a logger under
-- the prefix changes nothing and has no effect.
pub logger_writev-set_level_for_prefix :
    (env : Env) (default : Logger) (s : System) (r : Request) (loggers : Registry) (c : ℕ)
    (p x : Bytes) (level : ℕ)
    → level ≤ off
    → length ((c ∷ p) ++ b'.' ∷ x) < name_cap
    → r.level < level
    → (l : Logger) × ((logger_get true
          (set_level_for_prefix true loggers (some (c ∷ p)) level).1
          (some ((c ∷ p) ++ b'.' ∷ x))).0
        ≡ some l)
      × (logger_writev env default (some l) s r ≡ some (s, []))
logger_writev-set_level_for_prefix env default s r loggers c p x level h short low =
    let (l, got, same) = set_level_for_prefix-get loggers c p x level h short in
    (l, got, logger_writev_below env default l s r (omega (arith, same)))
