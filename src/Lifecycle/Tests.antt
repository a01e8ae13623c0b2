-- ===== src/Lifecycle/Tests.antt =====
-- src/hx_clog_core.c: the theorems on the life of the library, with a console and syslog.
use hx_clog.Common.{ℕ, ◌≡◌, refl, true, false, List, [], ◌++◌, none, some, codes, replicate}
use hx_clog.Status.{Status}
use hx_clog.Format.Retry.{FormatMode}
use hx_clog.Async.{Overflow}
use hx_clog.Setup.{
  ClogConfig, config_default, or_text, filled, set_text, override_level, override_dir,
  override_async, override_console, apply_env_overrides, no_separator, file_name_is_plain,
}
use hx_clog.Sink.{Effect}
use hx_clog.Dispatch.{Core, line_stack_size}
use hx_clog.Write.{System, Env}
use hx_clog.Lifecycle.{World, Answers, Result}
use hx_clog.Lifecycle.Begin.{init}
use hx_clog.Lifecycle.Change.{shutdown, reconfigure}
use hx_clog.Lifecycle.Benign.{closed}
use hx_clog.Lifecycle.Owned.{count}
use hx_clog.Lifecycle.Errors.{reconfigure-kept}
use hx_clog.Lifecycle.Account.{Run, Step, Run-closed}

abbrev core : Core
core = record {
  sinks = record { sinks = []; next_sink_id = 1; override_count = 0 };
  ring = record { ring = none; head = 0; count = 0; inited = false };
  async = false;
  engine = record {
    slots = [];
    capacity = 0;
    head = 0;
    tail = 0;
    count = 0;
    batch_size = 0;
    flush_interval_ms = 0;
    overflow = Overflow.block;
    running = false;
    stop = false;
    flush_request = false;
    scratch_cap = 0;
    dropped = 0;
    high_watermark = 0;
    prims_ready = false;
  };
  written = 0;
}

abbrev system : System
system = record {
  initialized = false;
  level = 2;
  settings = record {
    pattern = codes "%v";
    mode = FormatMode.pattern;
    formatter = none;
    logger_name = codes "hx_clog";
    gen = 1;
  };
  core = core;
  dup = record {
    enabled = false;
    window_ms = 0;
    have_last = false;
    last_level = 0;
    last_line = 0;
    last_logger = [];
    last_file = [];
    last_msg = [];
    last_msg_len = 0;
    repeats = 0;
    last_ms = 0;
  };
  cache = record {
    gen = 0;
    pattern = [];
    logger_name = [];
    mode = FormatMode.pattern;
    formatter = none;
  };
  context = [];
}

abbrev env : Env
env = record {
  pid = 1;
  tid = 1;
  clock = λ k. (0, 0);
  malloc = λ n. none;
  localtime = λ t. record {
    tm_year = 70;
    tm_mon = 0;
    tm_mday = 1;
    tm_hour = 0;
    tm_min = 0;
    tm_sec = 0;
    tm_yday = 0;
  };
  stack = λ k. replicate line_stack_size 0;
  flushed = ([], core.engine);
}

abbrev fresh : World
fresh = record { system = system; default_level = 2; active = config_default }

-- no file, and the console with syslog
abbrev wanted : ClogConfig
wanted = record config_default { enable_file = false; enable_syslog = true }

abbrev answers : Answers
answers = record {
  env = env;
  getenv = λ v. none;
  console = some 11;
  out_tty = true;
  err_tty = true;
  file = λ dir name cfg. none;
  syslog = some 12;
  ring_given = true;
  slots_given = true;
  thread_made = true;
  stopped = [];
  reopened = λ h. Status.ok;
}

abbrev begun : Result
begun = init answers (some wanted) fresh

begun_on : begun.1.system.initialized ≡ true
unfolding init file_name_is_plain hx_clog.Lifecycle.Begin.init_config apply_env_overrides
    override_console set_text override_async override_dir override_level filled or_text
    config_default no_separator hx_clog.Lifecycle.Begin.init_file hx_clog.Lifecycle.new_file
    hx_clog.Lifecycle.Begin.finish_init hx_clog.Lifecycle.set_initialized
begun_on = refl

Run-closed_example :
    (w : World) × (outs : List Effect) × (shutdown answers begun.1 ≡ some (w, outs))
    × ((h : ℕ) → count h (begun.2 ++ []) ≡ closed h ((begun.3 ++ []) ++ outs))
Run-closed_example =
    Run-closed answers (Run.goes (Step.inits answers (some wanted) refl) Run.done) refl begun_on

abbrev no_handles : List ℕ
no_handles = []

abbrev no_effects : List Effect
no_effects = []

-- a configuration with a file that cannot be made
abbrev up : World
up = record fresh { system = record system { initialized = true } }

refused : reconfigure answers (some config_default) up ≡ some (Status.open_file_failed, up, [], [])
unfolding reconfigure filled file_name_is_plain or_text config_default no_separator
    hx_clog.Lifecycle.new_file hx_clog.Lifecycle.file_sink hx_clog.Lifecycle.Change.with_file
refused = refl

reconfigure-kept_example : (up ≡ up) × (no_handles ≡ []) × (no_effects ≡ [])
reconfigure-kept_example = reconfigure-kept answers (some config_default) refused (λ e. cc e)
