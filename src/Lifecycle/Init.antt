-- ===== src/Lifecycle/Init.antt =====
-- src/hx_clog_core.c: `hx_clog_init` keeps account of the sinks that it makes.
use hx_clog.Common.{
  ◌≡◌, refl, ap, inl, inr, ◌&&◌, List, [], Option, none, some, arith, ◌==◌, Bool-cases, length,
}
use hx_clog.Setup.{ClogConfig, file_name_is_plain}
use hx_clog.Sink.{Sink}
use hx_clog.Dispatch.{Core}
use hx_clog.Lifecycle.{
  World, Answers, Built, add_sink, new_console, new_file, add_system_sinks, store_active_config,
  with_core, with_sinks, set_initialized, start_engine, Result,
}
use hx_clog.Lifecycle.Begin.{init_config, prepared, finish_init, init_file, init}
use hx_clog.Lifecycle.Benign.{owned}
use hx_clog.Lifecycle.Owned.{Ledger, BuiltFrom, add_sink-BuiltFrom, add_system_sinks-BuiltFrom}

abbrev pub sinks_of : World → List Sink
sinks_of w = w.system.core.sinks.sinks

abbrev pub ResultFrom : List Sink → Result → Type 0
ResultFrom ss (status, w, made, out) = Ledger ss (sinks_of w) made out

pub start_engine-sinks :
    (a : Answers) (cfg : ClogConfig) (c : Core) → (start_engine a cfg c).sinks ≡ c.sinks
unfolding start_engine
start_engine-sinks a cfg c = elim (Bool-cases cfg.async_mode) [
  | inl e ↦ rw e refl
  | inr e ↦ rw e refl
]

finish_init-ResultFrom :
    (ss : List Sink) (a : Answers) (cfg : ClogConfig) (w : World) (b : Built)
    → BuiltFrom ss b
    → ResultFrom ss (finish_init a cfg w b)
unfolding finish_init set_initialized store_active_config with_core with_sinks
finish_init-ResultFrom ss a cfg w b k =
    let (r, made, out) = add_system_sinks a cfg b in
    λ h.
      rw (start_engine-sinks a cfg (record w.system.core { sinks = r }))
        (add_system_sinks-BuiltFrom ss a cfg b k h)

init_file-ResultFrom :
    (ss : List Sink) (a : Answers) (cfg : ClogConfig) (w : World) (b : Built) (s : Option Sink)
    → BuiltFrom ss b
    → ResultFrom ss (init_file a cfg w b s)
unfolding init_file with_sinks with_core
init_file-ResultFrom ss a cfg w b (some s) k =
    finish_init-ResultFrom ss a cfg w (add_sink (some s) b) (add_sink-BuiltFrom ss (some s) b k)
init_file-ResultFrom ss a cfg w b none k =
    elim (Bool-cases (cfg.enable_file && length b.0.sinks == 0)) [
      | inl e ↦ rw e k
      | inr e ↦ rw e (finish_init-ResultFrom ss a cfg w b k)
    ]

-- Where there are no sinks, `init` keeps account of those that it makes.
pub init-ResultFrom :
    (a : Answers) (given : Option ClogConfig) (w : World)
    → sinks_of w ≡ []
    → ResultFrom (sinks_of w) (init a given w)
unfolding init prepared with_core
init-ResultFrom a given w none_yet =
    let cfg = init_config a given in
    elim (Bool-cases w.system.initialized) [
      | inl e ↦ simp e (λ h. refl)
      | inr e ↦ elim (Bool-cases (file_name_is_plain cfg.file_name)) [
        | inr bad ↦ simp (e, bad) (λ h. refl)
        | inl plain ↦
            simp (e, plain)
              (λ h.
                let built =
                  add_sink (new_console a cfg) ((prepared a cfg w).system.core.sinks, [], []) in
                let nothing : owned h (sinks_of w) ≡ 0 = ap (owned h) none_yet in
                omega (
                  arith,
                  nothing,
                  init_file-ResultFrom [] a cfg (prepared a cfg w) built (new_file a cfg)
                      (add_sink-BuiltFrom [] (new_console a cfg)
                        ((prepared a cfg w).system.core.sinks, [], []) (λ k. refl))
                      h,
                ))
      ]
    ]
