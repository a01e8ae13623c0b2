-- ===== src/Lifecycle/Calls.antt =====
-- src/hx_clog_core.c: flush, reconfigure and shutdown keep account of the sinks.
use hx_clog.Common.{
  refl, inl, inr, Bool, true, false, List, [], ◌++◌, Option, none, some, arith, Bool-cases, ◌>>=◌,
  if◌then◌else◌,
}
use hx_clog.Setup.{ClogConfig, filled, file_name_is_plain}
use hx_clog.Sink.{Sink, Effect}
use hx_clog.Sink.Registry.{close_non_callback_sinks, close_sinks, recompute_override_count}
use hx_clog.Dispatch.{Core}
use hx_clog.Async.Life.{stop_begin}
use hx_clog.Lifecycle.{
  World, Answers, Built, add_sink, new_console, new_file, add_system_sinks, store_active_config,
  configured, with_core, with_sinks, async_stop, Result,
}
use hx_clog.Lifecycle.Change.{flush, shutdown, swap_sinks, replace_sinks, with_file, reconfigure}
use hx_clog.Lifecycle.Benign.{closed-append, Benign, Benign-none, Benign-then, Benign-flush}
use hx_clog.Lifecycle.Keeps.{
  KeepsSinks, emit_all-Benign, async_flush-Benign, handed-Benign, Keeps, flush_dups-Keeps,
}
use hx_clog.Lifecycle.Owned.{
  Ledger, add_sink-BuiltFrom, add_system_sinks-BuiltFrom, close_non_callback_sinks-owned,
  close_sinks-closed,
}
use hx_clog.Write.{System, async_flush, flush_dups, deliver, deliveries}
use hx_clog.Lifecycle.Init.{sinks_of, ResultFrom, start_engine-sinks}

-- what a call that makes no sinks leaves, if it ends
abbrev pub ReturnFrom : List Sink → Option (World × List Effect) → Type 0
ReturnFrom ss none = Unit
ReturnFrom ss (some (w, out)) = Ledger ss (sinks_of w) [] out

ReturnFrom-bind :
    (s : System) (m : Option (System × List Effect))
    (f : System × List Effect → Option (World × List Effect))
    → Keeps s m
    → ((x : System × List Effect)
        → Benign s.core.sinks.sinks x.0.core.sinks.sinks x.1
        → ReturnFrom s.core.sinks.sinks (f x))
    → ReturnFrom s.core.sinks.sinks (m >>= f)
ReturnFrom-bind s none f h k = tt
ReturnFrom-bind s (some x) f h k = k x h

async_stop-Benign : (a : Answers) (c : Core) → KeepsSinks c (async_stop a c)
unfolding async_stop
async_stop-Benign a c = elim (Bool-cases (stop_begin c.engine).0) [
  | inl e ↦ rw e (emit_all-Benign c a.stopped)
  | inr e ↦ rw e (Benign-none c.sinks.sinks)
]

pub flush-ReturnFrom : (a : Answers) (w : World) → ReturnFrom (sinks_of w) (flush a w)
unfolding flush
flush-ReturnFrom a w = elim (Bool-cases w.system.initialized) [
  | inr off ↦ simp off (λ h. refl)
  | inl on ↦ simp on (
      ReturnFrom-bind w.system (flush_dups a.env (deliver a.env deliveries) w.system) _
        (flush_dups-Keeps a.env w.system)
        (λ x b h.
          let c = x.0.core in
          let y = if c.async then async_flush a.env c else (c, []) in
          let handed = handed-Benign c (async_flush a.env c) c.async (async_flush-Benign a.env c) in
          let all = Benign-then (Benign-then b handed) (Benign-flush y.0.sinks.sinks) in
          omega (arith, all.same h, all.open_still h)))
]

pub shutdown-ReturnFrom : (a : Answers) (w : World) → ReturnFrom (sinks_of w) (shutdown a w)
unfolding shutdown
shutdown-ReturnFrom a w = elim (Bool-cases w.system.initialized) [
  | inr off ↦ simp off (λ h. refl)
  | inl on ↦ simp on (
      ReturnFrom-bind w.system (flush_dups a.env (deliver a.env deliveries) w.system) _
        (flush_dups-Keeps a.env w.system)
        (λ x b h.
          let c = x.0.core in
          let y = if c.async then async_stop a c else (c, []) in
          let handed = handed-Benign c (async_stop a c) c.async (async_stop-Benign a c) in
          let all = Benign-then b handed in
          omega (
            arith,
            all.same h,
            all.open_still h,
            closed-append h (x.1 ++ y.1) (close_sinks y.0.sinks.sinks),
            close_sinks-closed h y.0.sinks.sinks,
          )))
]

stopped-Benign :
    (a : Answers) (c : Core) (async : Bool)
    → KeepsSinks c (if async then async_stop a (record c { async = false }) else (c, []))
stopped-Benign a c true = async_stop-Benign a (record c { async = false })
stopped-Benign a c false = Benign-none c.sinks.sinks

swap_sinks-ResultFrom :
    (a : Answers) (cfg : ClogConfig) (file : Option Sink) (w : World)
    → ResultFrom (sinks_of w) (swap_sinks a cfg file w)
unfolding swap_sinks store_active_config configured with_core with_sinks recompute_override_count
swap_sinks-ResultFrom a cfg file w =
    let quiet : Core = record w.system.core { async = false } in
    let (c, handed) = if w.system.core.async then async_stop a quiet else (w.system.core, []) in
    let quieted = stopped-Benign a w.system.core w.system.core.async in
    let callbacks = (close_non_callback_sinks c.sinks.sinks).0 in
    let start : Built = (record c.sinks { sinks = callbacks }, [], []) in
    let built = add_system_sinks a cfg (add_sink file (add_sink (new_console a cfg) start)) in
    let from =
      add_system_sinks-BuiltFrom callbacks a cfg
        (add_sink file (add_sink (new_console a cfg) start))
        (add_sink-BuiltFrom callbacks file (add_sink (new_console a cfg) start)
          (add_sink-BuiltFrom callbacks (new_console a cfg) start (λ h. refl))) in
    let effects = (close_non_callback_sinks c.sinks.sinks).1 in
    λ h.
      rw
        (start_engine-sinks a cfg
          (record c { sinks = recompute_override_count built.0; async = false }))
        (omega (
          arith,
          quieted.same h,
          quieted.open_still h,
          close_non_callback_sinks-owned h c.sinks.sinks,
          from h,
          closed-append h (handed ++ effects) built.2,
          closed-append h handed effects,
        ))

-- what a call that can make sinks leaves, if it ends
abbrev pub OutcomeFrom : List Sink → Option Result → Type 0
OutcomeFrom ss none = Unit
OutcomeFrom ss (some r) = ResultFrom ss r

replaced-OutcomeFrom :
    (ss : List Sink) (a : Answers) (cfg : ClogConfig) (file : Option Sink)
    (m : Option (World × List Effect))
    → ReturnFrom ss m
    → OutcomeFrom ss (
        m >>= λ x.
        let (status, w, made, out) = swap_sinks a cfg file x.0 in
        some (status, w, made, x.1 ++ out))
replaced-OutcomeFrom ss a cfg file none h = tt
replaced-OutcomeFrom ss a cfg file (some (w, before)) k = λ h. omega (
  arith,
  k h,
  swap_sinks-ResultFrom a cfg file w h,
  closed-append h before (swap_sinks a cfg file w).3,
)

replace_sinks-OutcomeFrom :
    (a : Answers) (cfg : ClogConfig) (file : Option Sink) (w : World)
    → OutcomeFrom (sinks_of w) (replace_sinks a cfg file w)
unfolding replace_sinks
replace_sinks-OutcomeFrom a cfg file w =
    replaced-OutcomeFrom (sinks_of w) a cfg file (flush a w) (flush-ReturnFrom a w)

with_file-OutcomeFrom :
    (a : Answers) (cfg : ClogConfig) (w : World) (file : Option Sink)
    → OutcomeFrom (sinks_of w) (with_file a cfg w file)
unfolding with_file
with_file-OutcomeFrom a cfg w (some s) = replace_sinks-OutcomeFrom a cfg (some s) w
with_file-OutcomeFrom a cfg w none = elim (Bool-cases cfg.enable_file) [
  | inl e ↦ simp e (λ h. refl)
  | inr e ↦ simp e (replace_sinks-OutcomeFrom a cfg none w)
]

pub reconfigure-OutcomeFrom :
    (a : Answers) (given : Option ClogConfig) (w : World)
    → OutcomeFrom (sinks_of w) (reconfigure a given w)
unfolding reconfigure
reconfigure-OutcomeFrom a none w = elim (Bool-cases w.system.initialized) [
  | inl e ↦ simp e (λ h. refl)
  | inr e ↦ simp e (λ h. refl)
]
reconfigure-OutcomeFrom a (some given) w = elim (Bool-cases w.system.initialized) [
  | inr off ↦ simp off (λ h. refl)
  | inl on ↦ elim (Bool-cases (file_name_is_plain (filled given).file_name)) [
    | inr bad ↦ simp (on, bad) (λ h. refl)
    | inl plain ↦
        simp (on, plain) (with_file-OutcomeFrom a (filled given) w (new_file a (filled given)))
  ]
]
