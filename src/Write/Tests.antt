-- ===== src/Write/Tests.antt =====
-- src/hx_clog_core.c: the theorems on written messages, at a FATAL one.
use hx_clog.Common.{◌≡◌, refl, true, false, List, [], ◌∷◌, none, some, arith, codes, replicate}
use hx_clog.Format.Retry.{FormatMode}
use hx_clog.Async.{Overflow}
use hx_clog.Sink.{Kind, Sink, Effect}
use hx_clog.Dispatch.{Core, line_stack_size}
use hx_clog.Duplicates.{check_and_update}
use hx_clog.Write.{System, Env, Request, core_writev, message_of, is_filtered, refreshed}
use hx_clog.Write.Enough.{Settled}
use hx_clog.Write.Fatal.{IsAccepted, Written, core_writev_total, core_writev-fatal}

abbrev heard : Sink
heard = record {
  kind = Kind.callback 2;
  handle = 7;
  is_file = false;
  id = 1;
  min_level = 0;
  override_set = false;
  override_mode = FormatMode.pattern;
  override_has_pattern = false;
  override_pattern = [];
}

abbrev core : Core
core = record {
  sinks = record { sinks = heard ∷ []; next_sink_id = 2; override_count = 0 };
  ring = record { ring = none; head = 0; count = 0; inited = false };
  async = false;
  engine = record {
    slots = [];
    capacity = 0;
    head = 0;
    tail = 0;
    count = 0;
    batch_size = 0;
    flush_interval_ms = 0;
    overflow = Overflow.block;
    running = false;
    stop = false;
    flush_request = false;
    scratch_cap = 0;
    dropped = 0;
    high_watermark = 0;
    prims_ready = false;
  };
  written = 0;
}

abbrev system : System
system = record {
  initialized = true;
  level = 2;
  settings = record {
    pattern = codes "%v";
    mode = FormatMode.pattern;
    formatter = none;
    logger_name = codes "hx_clog";
    gen = 1;
  };
  core = core;
  dup = record {
    enabled = false;
    window_ms = 0;
    have_last = false;
    last_level = 0;
    last_line = 0;
    last_logger = [];
    last_file = [];
    last_msg = [];
    last_msg_len = 0;
    repeats = 0;
    last_ms = 0;
  };
  cache = record {
    gen = 0;
    pattern = [];
    logger_name = [];
    mode = FormatMode.pattern;
    formatter = none;
  };
  context = [];
}

abbrev env : Env
env = record {
  pid = 1;
  tid = 1;
  clock = λ k. (0, 0);
  malloc = λ n. none;
  localtime = λ t. record {
    tm_year = 70;
    tm_mon = 0;
    tm_mday = 1;
    tm_hour = 0;
    tm_min = 0;
    tm_sec = 0;
    tm_yday = 0;
  };
  stack = λ k. replicate line_stack_size 0;
  flushed = ([], core.engine);
}

abbrev last_words : Request
last_words = record {
  logger_name = none;
  logger_level = none;
  level = 5;
  file = none;
  line = 1;
  func = none;
  text = some (codes "bye");
}

last_words-IsAccepted : IsAccepted env system last_words (codes "bye")
last_words-IsAccepted = record {
  synchronous = refl;
  initialized = refl;
  filtered = unfold is_filtered in refl;
  formatted = refl;
  new = unfold check_and_update refreshed in refl;
}

core_writev_total_example :
    (x : System × List Effect) × (core_writev env system last_words ≡ some x)
core_writev_total_example = core_writev_total env system last_words

core_writev-fatal_example :
    (x : System × List Effect) × (core_writev env system last_words ≡ some x)
    × Settled x
    × Written env (refreshed system) last_words (message_of env (codes "bye")) x
core_writev-fatal_example =
    core_writev-fatal env system last_words (codes "bye") last_words-IsAccepted (omega arith)
