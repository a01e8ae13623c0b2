-- ===== src/Lifecycle/Account.antt =====
-- src/hx_clog_core.c: over the whole life of the library, every sink that is made is closed once.
use hx_clog.Common.{
  ℕ, ◌+◌, ◌≡◌, refl, ap, inl, inr, Bool, true, false, ◌||◌, List, [], ◌∷◌, ◌++◌, Option, none, some,
  arith, ◌==◌, Bool-cases, Bytes, length,
}
use hx_clog.Status.{Status}
use hx_clog.Setup.{ClogConfig, or_text}
use hx_clog.Sink.{Sink, Effect, syslog_create}
use hx_clog.Sink.Registry.{Sinks, recompute_override_count}
use hx_clog.Lifecycle.{World, Answers, with_core, with_sinks}
use hx_clog.Lifecycle.Begin.{init}
use hx_clog.Lifecycle.Change.{flush, shutdown, reconfigure}
use hx_clog.Lifecycle.Access.{add_runtime}
use hx_clog.Lifecycle.Benign.{one_if, owned, closed, closed-append}
use hx_clog.Lifecycle.Keeps.{core_writev-Keeps}
use hx_clog.Lifecycle.Owned.{count, count-append, Ledger, add_sink_locked-Ledger}
use hx_clog.Write.{System, Env, flush_dups, deliver, deliveries, Request, core_writev}
use hx_clog.Sink.Registry.{remove_sink}
use hx_clog.Common.{Ends, Ends-bind, result_of}
use hx_clog.Sink.Registry.{split_id, removed}
use hx_clog.Write.Enough.{Quiet, flush_dups-Ends}
use hx_clog.Lifecycle.Access.{add_callback_sink, add_syslog_sink, add_network_sink}
use hx_clog.Lifecycle.Init.{sinks_of, ResultFrom, init-ResultFrom}
use hx_clog.Lifecycle.Calls.{flush-ReturnFrom, shutdown-ReturnFrom, reconfigure-OutcomeFrom}

-- A call of the application or of a thread that logs, with the handles of the sinks that it makes and
-- its effects. The library is initialised where there are no sinks.
pub data Step : World → World → List ℕ → List Effect → Type 0 where
  inits :
      {w : World} (a : Answers) (given : Option ClogConfig)
      → sinks_of w ≡ []
      → Step w (init a given w).1 (init a given w).2 (init a given w).3
  reconfigures :
      {w w' : World} {made : List ℕ} {out : List Effect} (a : Answers) (given : Option ClogConfig)
      (status : Status)
      → reconfigure a given w ≡ some (status, w', made, out)
      → Step w w' made out
  flushes :
      {w w' : World} {out : List Effect} (a : Answers)
      → flush a w ≡ some (w', out)
      → Step w w' [] out
  shuts_down :
      {w w' : World} {out : List Effect} (a : Answers)
      → shutdown a w ≡ some (w', out)
      → Step w w' [] out
  writes :
      {w : World} {s : System} {out : List Effect} (env : Env) (r : Request)
      → core_writev env w.system r ≡ some (s, out)
      → Step w (record w { system = s }) [] out
  adds_callback :
      {w : World} (given : Bool) (memory : Option ℕ)
      → Step w
          (add_callback_sink given memory w).1
          (add_callback_sink given memory w).2
          (add_callback_sink given memory w).3
  adds_syslog :
      {w : World} (memory : Option ℕ)
      → Step w
          (add_syslog_sink memory w).1
          (add_syslog_sink memory w).2
          (add_syslog_sink memory w).3
  adds_network :
      {w : World} (host : Option Bytes) (port : ℕ) (memory : Option ℕ)
      → Step w
          (add_network_sink host port memory w).1
          (add_network_sink host port memory w).2
          (add_network_sink host port memory w).3
  removes :
      {w : World} (id : ℕ)
      → Step w
          (with_sinks (remove_sink id w.system.core.sinks).1 w)
          []
          (remove_sink id w.system.core.sinks).2

pub data Run : World → World → List ℕ → List Effect → Type 0 where
  done : {w : World} → Run w w [] []
  goes :
      {w w' w'' : World} {made more : List ℕ} {out outs : List Effect}
      → Step w w' made out
      → Run w' w'' more outs
      → Run w w'' (made ++ more) (out ++ outs)

add_runtime-ResultFrom :
    (failed : Status) (s : Option Sink) (w : World)
    → ResultFrom (sinks_of w) (add_runtime failed s w)
unfolding add_runtime with_sinks with_core
add_runtime-ResultFrom failed none w = λ h. refl
add_runtime-ResultFrom failed (some s) w = add_sink_locked-Ledger s w.system.core.sinks

add_callback_sink-ResultFrom :
    (given : Bool) (memory : Option ℕ) (w : World)
    → ResultFrom (sinks_of w) (add_callback_sink given memory w)
unfolding add_callback_sink
add_callback_sink-ResultFrom true memory w = add_runtime-ResultFrom Status.out_of_memory _ w
add_callback_sink-ResultFrom false memory w = λ h. refl

add_network_sink-ResultFrom :
    (host : Option Bytes) (port : ℕ) (memory : Option ℕ) (w : World)
    → ResultFrom (sinks_of w) (add_network_sink host port memory w)
unfolding add_network_sink
add_network_sink-ResultFrom host port memory w =
    elim (Bool-cases (length (or_text host []) == 0 || port == 0)) [
      | inl e ↦ rw e (λ h. refl)
      | inr e ↦ rw e (add_runtime-ResultFrom Status.platform _ w)
    ]

-- of a sink that is taken out
abbrev TakenOut : ℕ → List Sink → Option (Sink × List Sink) → Type 0
TakenOut h ss none = Unit
TakenOut h ss (some (s, ts)) = owned h ss ≡ one_if (s.handle == h) + owned h ts

TakenOut-cons :
    (h : ℕ) (s : Sink) (ss : List Sink) (o : Option (Sink × List Sink))
    → TakenOut h ss o
    → TakenOut h (s ∷ ss) (elim o [ none ↦ none | some (t, ts) ↦ some (t, s ∷ ts) ])
TakenOut-cons h s ss none k = tt
TakenOut-cons h s ss (some (t, ts)) k = omega (arith, k)

split_id-TakenOut : (h id : ℕ) (ss : List Sink) → TakenOut h ss (split_id id ss)
unfolding split_id
split_id-TakenOut h id [] = tt
split_id-TakenOut h id (s ∷ ss) = elim (Bool-cases (s.id == id)) [
  | inl e ↦ rw e refl
  | inr e ↦ rw e (TakenOut-cons h s ss (split_id id ss) (split_id-TakenOut h id ss))
]

removed-Ledger :
    (r : Sinks) (o : Option (Sink × List Sink))
    → ((h : ℕ) → TakenOut h r.sinks o)
    → Ledger r.sinks (removed r o).1.sinks [] (removed r o).2
unfolding removed recompute_override_count
removed-Ledger r none k h = omega arith
removed-Ledger r (some (s, ts)) k h = omega (arith, k h)

Step-Ledger :
    {w w' : World} {made : List ℕ} {out : List Effect}
    → Step w w' made out
    → Ledger (sinks_of w) (sinks_of w') made out
unfolding add_syslog_sink with_sinks with_core remove_sink
Step-Ledger (inits {w} a given none_yet) = init-ResultFrom a given w none_yet
Step-Ledger (reconfigures {w} a given status e) = rw e at (reconfigure-OutcomeFrom a given w)
Step-Ledger (flushes {w} a e) = rw e at (flush-ReturnFrom a w)
Step-Ledger (shuts_down {w} a e) = rw e at (shutdown-ReturnFrom a w)
Step-Ledger (writes {w} env r e) =
    let b = rw e at (core_writev-Keeps env w.system r) in
    λ h. omega (arith, b.same h, b.open_still h)
Step-Ledger (adds_callback {w} given memory) = add_callback_sink-ResultFrom given memory w
Step-Ledger (adds_syslog {w} memory) =
    add_runtime-ResultFrom Status.platform (syslog_create memory) w
Step-Ledger (adds_network {w} host port memory) = add_network_sink-ResultFrom host port memory w
Step-Ledger (removes {w} id) =
    removed-Ledger w.system.core.sinks (split_id id (sinks_of w))
      (λ h. split_id-TakenOut h id (sinks_of w))

Run-Ledger :
    {w w' : World} {made : List ℕ} {out : List Effect}
    → Run w w' made out
    → Ledger (sinks_of w) (sinks_of w') made out
Run-Ledger done = λ h. refl
Run-Ledger (goes {made = made} {more = more} {out = out} {outs = outs} step run) = λ h. omega (
  arith,
  count-append h made more,
  closed-append h out outs,
  Step-Ledger step h,
  Run-Ledger run h,
)

shutdown-Ends :
    (a : Answers) (w : World)
    → w.system.initialized ≡ true
    → Ends (λ (x : World × List Effect). sinks_of x.0 ≡ []) (shutdown a w)
unfolding shutdown
shutdown-Ends a w on = simp on (
    Ends-bind (Quiet w.system) (λ (x : World × List Effect). sinks_of x.0 ≡ [])
      (flush_dups a.env (deliver a.env deliveries) w.system) _ (flush_dups-Ends a.env w.system)
      (λ x q. refl))

-- Take any calls of init, reconfigure, flush and shutdown, of those that add and remove sinks and
-- of `core_writev`, from a state without sinks to one where the library is initialised, where init
-- is only called while there are no sinks. A shutdown then ends, and over all of it each sink has
-- been closed exactly as often as it was made. What the file system, the allocator and the worker
-- thread answer is arbitrary.
pub Run-closed :
    {w w' : World} {made : List ℕ} {out : List Effect} (a : Answers)
    → Run w w' made out
    → sinks_of w ≡ []
    → w'.system.initialized ≡ true
    → (w'' : World) × (outs : List Effect) × (shutdown a w' ≡ some (w'', outs))
      × ((h : ℕ) → count h made ≡ closed h (out ++ outs))
Run-closed {w} {w'} {made} {out} a run none_yet on =
    let ((w'', outs), e, empty) =
      result_of (λ (x : World × List Effect). sinks_of x.0 ≡ []) (shutdown a w')
        (shutdown-Ends a w' on) in
    let last = rw e at (shutdown-ReturnFrom a w') in
    (
      w'',
      outs,
      e,
      λ h. omega (
        arith,
        Run-Ledger run h,
        last h,
        closed-append h out outs,
        ap (owned h) none_yet,
        ap (owned h) empty,
      ),
    )
