-- ===== src/CrashCallback/Tests.antt =====
-- src/hx_clog_core.c: the theorems on the callback for a crash, with one call and with two.
use hx_clog.Common.{◌≡◌, refl, [], ◌∷◌, some}
use hx_clog.CrashCallback.{
  detach, store_data, publish, read_callback, read_data, Setter, Handler, System, Step, Run,
  at_first,
}
use hx_clog.CrashCallback.Pairs.{Passed, got-Passed}
use hx_clog.CrashCallback.Torn.{got-torn}

abbrev called_back : System
called_back = record {
  memory = record { crash_cb = some 7; crash_cb_ud = 8 };
  setter = Setter.idle;
  handler = Handler.got (some 7) 8 1 1;
  calls = (some 7, 8) ∷ [];
}

one_call-Run : Run at_first called_back
unfolding detach store_data publish read_callback read_data
one_call-Run = Run.goes (Step.detaches (some 7) 8) (
    Run.goes (Step.stores (some 7) 8) (
      Run.goes (Step.publishes (some 7) 8)
        (Run.goes Step.looks (Run.goes (Step.gets (some 7) 1) Run.done))))

got-Passed_example : Passed (some 7) 8 called_back.calls
got-Passed_example = got-Passed 7 8 1 one_call-Run refl

got-torn_example :
    (s : System) × Run at_first s
    × (s.handler ≡ Handler.got (some 7) 10 1 2)
    × (s.calls ≡ (some 9, 10) ∷ (some 7, 8) ∷ [])
got-torn_example = got-torn 7 8 9 10
