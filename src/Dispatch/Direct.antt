-- ===== src/Dispatch/Direct.antt =====
-- src/hx_clog_core.c: in the synchronous mode, or when the engine is stopped, lines go straight to the sinks.
use hx_clog.Common.{
  ℕ, ◌≡◌, ◌⊎◌, refl, ◌∙◌, ap, inl, inr, Bool, true, false, List, [], ◌∷◌, ◌++◌, Option, arith,
  if◌then◌else◌, Bytes, take,
}
use hx_clog.Status.{Status}
use hx_clog.Async.{Line, Outcome, Engine, enqueue}
use hx_clog.Sink.{Effect}
use hx_clog.Sink.Registry.{emit_to_sinks}
use hx_clog.Dispatch.{
  Core, add_written, core_emit, enqueued, dispatch_line, goes_on, dispatch_lines,
}

-- The lines go straight to the sinks: the mode is synchronous, or the engine is stopped.
abbrev pub Direct : Core → Type 0
Direct c = (c.async ≡ false) ⊎ (c.engine.running ≡ false)

-- the lines that are emitted one after the other
unfoldable pub emit_all : Core → List Line → Core × List Effect
emit_all c [] = (c, [])
emit_all c (l ∷ ls) =
    let (c', out) = core_emit c l in let (c'', outs) = emit_all c' ls in (c'', out ++ outs)

module _ (malloc : ℕ → Option Bytes) where
  enqueue_stopped :
      (e : Engine) (l : Line)
      → e.running ≡ false
      → enqueue malloc e l ≡ (Outcome.returns Status.not_initialized false, e)
  unfolding enqueue
  enqueue_stopped e l h = ground arith

  dispatched-direct :
      (c : Core) (l : Line) (async : Bool)
      → (async ≡ false) ⊎ (c.engine.running ≡ false)
      → (if async
          then (let (o, e) = enqueue malloc c.engine l in enqueued malloc c l o e)
          else (Outcome.returns Status.ok false, (core_emit c l).0, (core_emit c l).1))
        ≡ (Outcome.returns Status.ok false, (core_emit c l).0, (core_emit c l).1)
  unfolding enqueued
  dispatched-direct c l false d = refl
  dispatched-direct c l true (inl e) = cc
  dispatched-direct c l true (inr e) =
      ap (λ (x : Outcome × Engine). enqueued malloc c l x.0 x.1) (enqueue_stopped c.engine l e)

  dispatch_line-Direct :
      (c : Core) (l : Line)
      → Direct c
      → dispatch_line malloc c l
        ≡ (Outcome.returns Status.ok false, (core_emit c l).0, (core_emit c l).1)
  unfolding dispatch_line
  dispatch_line-Direct c l d = dispatched-direct c l c.async d

  counted_async :
      (b : Bool) (c : Core)
      → ((if b then add_written 1 c else c).async ≡ c.async)
        × ((if b then add_written 1 c else c).engine ≡ c.engine)
  unfolding add_written
  counted_async true c = (refl, refl)
  counted_async false c = (refl, refl)

  core_emit-Direct : (c : Core) (l : Line) → Direct c → Direct (core_emit c l).0
  unfolding core_emit
  core_emit-Direct c l d =
      let c' : Core = record c {
        sinks = record c.sinks {
          sinks = (emit_to_sinks l.level (take l.size l.text) l.target c.sinks.sinks).0;
        };
      } in
      let (a, e) = counted_async l.count_stats c' in
      elim d [ inl x ↦ inl (a ∙ x) | inr x ↦ inr (ap (λ (y : Engine). y.running) e ∙ x) ]

  pub dispatch_lines-Direct :
      (c : Core) (ls : List Line)
      → Direct c
      → dispatch_lines malloc c ls ≡ ((emit_all c ls).0, (emit_all c ls).1, [])
  unfolding dispatch_lines goes_on emit_all
  dispatch_lines-Direct c [] d = refl
  dispatch_lines-Direct c (l ∷ ls) d =
      rw (dispatch_line-Direct c l d) (
        let c' = (core_emit c l).0 in
        rw (dispatch_lines-Direct c' ls (core_emit-Direct c l d)) refl)
