-- ===== src/Dispatch/Tests.antt =====
-- src/hx_clog_core.c: the theorem on records at a console and a callback sink with its own format.
use hx_clog.Common.{
  ℕ, ◌+◌, ◌%◌, ◌^◌, ◌≡◌, refl, inl, true, false, [], ◌∷◌, ◌++◌, Option, none, some, arith, Bytes,
  codes, replicate,
}
use hx_clog.Format.Record.{Tm, Record}
use hx_clog.Format.Retry.{FormatMode, Format}
use hx_clog.Async.{Engine, Line, Overflow, no_slot}
use hx_clog.Async.Bounded.{Provides}
use hx_clog.Async.Window.{window}
use hx_clog.Sink.{Kind, Sink, Stream}
use hx_clog.Sink.Registry.{Sinks, overrides}
use hx_clog.Sink.Invariant.{IsValid}
use hx_clog.Sink.Reach.{default_shown, own_shown}
use hx_clog.Dispatch.{Core, line_stack_size, dispatch_lines, dispatch_record}
use hx_clog.Dispatch.Lines.{text_for, text_of}
use hx_clog.Dispatch.Queued.{IsAsync, Waiting, dispatch_lines-queued}
use hx_clog.Dispatch.Once.{dispatch_record-once}

abbrev terminal : Sink
terminal = record {
  kind = Kind.console (record {
    out = some Stream.stdout;
    err = some Stream.stderr;
    enable_color = true;
    color_out_tty = true;
    color_err_tty = false;
  });
  handle = 6;
  is_file = false;
  id = 1;
  min_level = 0;
  override_set = false;
  override_mode = FormatMode.pattern;
  override_has_pattern = false;
  override_pattern = [];
}

abbrev heard : Sink
heard = record terminal {
  kind = Kind.callback 2;
  handle = 7;
  id = 2;
  override_set = true;
  override_has_pattern = true;
  override_pattern = codes "%v";
}

abbrev idle_engine : Engine
idle_engine = record {
  slots = [];
  capacity = 0;
  head = 0;
  tail = 0;
  count = 0;
  batch_size = 0;
  flush_interval_ms = 0;
  overflow = Overflow.block;
  running = false;
  stop = false;
  flush_request = false;
  scratch_cap = 0;
  dropped = 0;
  high_watermark = 0;
  prims_ready = false;
}

abbrev both : Sinks
both = record { sinks = terminal ∷ heard ∷ []; next_sink_id = 3; override_count = 1 }

abbrev up : Core
up = record {
  sinks = both;
  ring = record { ring = none; head = 0; count = 0; inited = false };
  async = false;
  engine = idle_engine;
  written = 4;
}

both-IsValid : IsValid both
both-IsValid = record {
  room = omega arith;
  counted = unfold overrides in refl;
  next_pos = omega arith;
  known = omega arith;
  distinct = omega arith;
}

abbrev greeting : Record
greeting = record {
  level = 3;
  logger_name = some (codes "hx_clog");
  file = none;
  line = 1;
  func = none;
  pid = 1;
  tid = 1;
  timestamp_sec = 0;
  timestamp_msec = 0;
  message = some (codes "hi");
  message_len = 2;
  context = none;
}

abbrev plainly : Format
plainly = record { pattern = some (codes "[%l] %v"); mode = FormatMode.pattern; formatter = none }

abbrev epoch : ℕ → Tm
epoch t = record {
  tm_year = 70;
  tm_mon = 0;
  tm_mday = 1;
  tm_hour = 0;
  tm_min = 0;
  tm_sec = 0;
  tm_yday = 0;
}

abbrev no_memory : ℕ → Option Bytes
no_memory n = none

abbrev zeros : ℕ → Bytes
zeros k = replicate line_stack_size 0

dispatch_record-once_example :
    ((dispatch_record epoch no_memory zeros up greeting plainly).2 ≡ [])
    × ((dispatch_record epoch no_memory zeros up greeting plainly).0.written ≡ (4 + 1) % 2 ^ 64)
    × ((dispatch_record epoch no_memory zeros up greeting plainly).1
        ≡ default_shown 3
            (text_for epoch no_memory zeros greeting 0 plainly)
            (terminal ∷ heard ∷ [])
          ++ own_shown 3 (text_of epoch no_memory zeros greeting plainly) 1 (terminal ∷ heard ∷ []))
dispatch_record-once_example =
    dispatch_record-once epoch no_memory zeros greeting plainly up (inl refl) both-IsValid

abbrev gives : ℕ → Option Bytes
gives n = some []

gives-Provides : Provides gives
gives-Provides n h = ([], refl)

-- a running engine with room for two lines
abbrev busy_engine : Engine
busy_engine = record idle_engine {
  slots = no_slot ∷ no_slot ∷ [];
  capacity = 2;
  running = true;
  prims_ready = true;
}

abbrev busy : Core
busy = record up { async = true; engine = busy_engine }

busy-IsAsync : IsAsync busy
busy-IsAsync = record {
  async = refl;
  valid = record {
    size = refl;
    capacity_u32 = omega arith;
    head_in = omega arith;
    tail_eq = refl;
    count_in = omega arith;
    mark_in = omega arith;
    mark_ge = omega arith;
  };
  up = record { ready = refl; running = refl; going = refl };
}

abbrev hi : Line
hi = record { level = 2; text = codes "hi"; size = 2; target = 0; count_stats = true }

dispatch_lines-queued_example : Waiting busy (hi ∷ []) (dispatch_lines gives busy (hi ∷ []))
dispatch_lines-queued_example =
    dispatch_lines-queued gives gives-Provides busy (hi ∷ []) busy-IsAsync
      (record { size_in = omega arith; size_u31 = omega arith }, tt) (unfold window in omega arith)
