-- ===== src/Sink/Tests.antt =====
-- src/hx_clog_core.c: the theorems on the sinks at a callback sink and a console.
use hx_clog.Common.{refl, false, [], some, arith, codes}
use hx_clog.Format.Retry.{FormatMode}
use hx_clog.Sink.{Kind, Sink}
use hx_clog.Sink.Registry.{Sinks, add_sink_locked, set_sink_pattern, overrides}
use hx_clog.Sink.Invariant.{IsValid}
use hx_clog.Sink.Valid.{Step, Run, Run-IsValid}

abbrev no_sinks : Sinks
no_sinks = record { sinks = []; next_sink_id = 1; override_count = 0 }

no_sinks-IsValid : IsValid no_sinks
no_sinks-IsValid = record {
  room = omega arith;
  counted = unfold overrides in refl;
  next_pos = omega arith;
  known = tt;
  distinct = tt;
}

abbrev heard : Sink
heard = record {
  kind = Kind.callback 2;
  handle = 7;
  is_file = false;
  id = 0;
  min_level = 0;
  override_set = false;
  override_mode = FormatMode.pattern;
  override_has_pattern = false;
  override_pattern = [];
}

abbrev one_sink : Sinks
one_sink = (add_sink_locked (some heard) no_sinks).1

Run-IsValid_example : IsValid (set_sink_pattern 1 (some (codes "%v")) one_sink).1
Run-IsValid_example =
    Run-IsValid
      (Run.goes (Step.adds (some heard) refl (omega arith))
        (Run.goes (Step.patterns 1 (some (codes "%v"))) Run.done))
      no_sinks-IsValid
