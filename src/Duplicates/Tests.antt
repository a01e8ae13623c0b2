-- ===== src/Duplicates/Tests.antt =====
-- src/hx_clog_core.c: the theorem on duplicates at a message that comes twice, and another one.
use hx_clog.Common.{ℕ, ◌≡◌, refl, true, false, List, [], ◌∷◌, ◌++◌, none, some, arith, codes, Bytes}
use hx_clog.Duplicates.{Dup}
use hx_clog.Duplicates.Keys.{expand}
use hx_clog.Duplicates.Events.{Event, keys_of, run, owed}
use hx_clog.Duplicates.Runs.{run_lem}

abbrev fresh : Dup
fresh = record {
  enabled = true;
  window_ms = 1000;
  have_last = false;
  last_level = 0;
  last_line = 0;
  last_logger = [];
  last_file = [];
  last_msg = [];
  last_msg_len = 0;
  repeats = 0;
  last_ms = 0;
}

abbrev says : Bytes → ℕ → Event
says msg now = Event.logs (record {
  level = 2;
  file = none;
  line = 1;
  logger_name = some (codes "hx_clog");
  msg = msg;
  msg_len = 2;
  now_ms = now;
})

abbrev events : List Event
events = says (codes "hi") 5 ∷ says (codes "hi") 6 ∷ says (codes "ho") 7 ∷ Event.flushes ∷ []

run_lem_example : keys_of events ≡ expand none ((run events fresh).0 ++ owed (run events fresh).1)
run_lem_example = run_lem events fresh refl refl (omega arith)
