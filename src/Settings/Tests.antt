-- ===== src/Settings/Tests.antt =====
-- src/hx_clog_core.c: the theorem on snapshots, at a thread that logs before and after a new pattern.
use hx_clog.Common.{◌≡◌, refl, inl, [], none, some, arith, codes}
use hx_clog.Format.Retry.{FormatMode}
use hx_clog.Settings.{Settings, copied, cache_refresh, set_pattern}
use hx_clog.Settings.Fresh.{Shared, Step, Run, steps, IsFresh, Run-refreshed}

-- as the library starts, and a thread with it
abbrev start : Shared
start = record {
  settings = record {
    pattern = codes "%v";
    mode = FormatMode.pattern;
    formatter = none;
    logger_name = codes "hx_clog";
    gen = 1;
  };
  cache = record {
    gen = 0;
    pattern = [];
    logger_name = [];
    mode = FormatMode.pattern;
    formatter = none;
  };
}

start-IsFresh : IsFresh start
start-IsFresh = record { some_gen = omega arith; known_gen = omega arith; held = inl refl }

abbrev first : Shared
first = record start { cache = cache_refresh start.settings start.cache }

abbrev then_set : Settings
then_set = (set_pattern (some (codes "[%l] %v")) first.settings).1

Run-refreshed_example : cache_refresh then_set first.cache ≡ copied then_set
Run-refreshed_example =
    Run-refreshed
      (Run.goes (Step.refreshes {x = start})
        (Run.goes (Step.patterns {x = first} (some (codes "[%l] %v"))) Run.done))
      start-IsFresh (unfold steps in omega arith)
