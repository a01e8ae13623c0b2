-- ===== src/Logger/Tests.antt =====
-- src/hx_clog_core.c: the theorems on the registry at a registry of one logger.
use hx_clog.Common.{◌≡◌, true, false, [], ◌∷◌, some, arith, codes}
use hx_clog.Logger.{
  Logger, Registry, name_or_default, inherited_level, logger_get, set_level_for_prefix,
}
use hx_clog.Logger.Inherit.{ancestors, first_level, inherited_level-first}
use hx_clog.Logger.Again.{Run, logger_get-again}
use hx_clog.Logger.Prefix.{set_level_for_prefix-get}

abbrev net : Registry
net = record {
  loggers = record { id = 0; name = codes "net"; level = 4; registered = true } ∷ [];
  count = 1;
  level = 2;
  next = 1;
}

inherited_level-first_example :
    inherited_level net (codes "net.tcp") ≡ first_level net.loggers 2 (ancestors (codes "net.tcp"))
inherited_level-first_example = inherited_level-first net (codes "net.tcp") (omega arith)

abbrev with_db : Registry
with_db = (logger_get true net (some (codes "db"))).1

abbrev used : Registry
used =
    (set_level_for_prefix true (logger_get true with_db (some (codes "net.tcp"))).1
      (some (codes "db")) 4).1

used-Run : Run with_db used
used-Run =
    Run.sets true (codes "db") 4 (omega arith)
      (Run.gets true (some (codes "net.tcp")) (unfold name_or_default in omega arith) Run.stays)

logger_get-again_example :
    (l : Logger) × (l' : Logger) × ((logger_get true net (some (codes "db"))).0 ≡ some l)
    × (logger_get false used (some (codes "db")) ≡ (some l', used))
    × (l'.id ≡ l.id)
logger_get-again_example =
    logger_get-again net (some (codes "db")) false (unfold name_or_default in omega arith) used-Run

set_level_for_prefix-get_example :
    (l : Logger) × ((logger_get true
        (set_level_for_prefix true net (some (codes "net")) 1).1
        (some (codes "net.tcp"))).0
      ≡ some l)
    × (l.level ≡ 1)
set_level_for_prefix-get_example =
    set_level_for_prefix-get net b'n' (codes "et") (codes "tcp") 1 (omega arith) (omega arith)
