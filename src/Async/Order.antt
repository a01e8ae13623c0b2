-- ===== src/Async/Order.antt =====
-- src/hx_clog_async.c: no line is lost or overtaken between the threads that log and the sinks.
use native.Mathlib.Nat.{mod-eq_of_lt}
use hx_clog.Common.{
  replicate, length-replicate, ℕ, ◌+◌, ◌^◌, ◌<◌, ◌≡◌, ◌≢◌, refl, ◌∙◌, sym, ap, ◌⊎◌, inl, inr, Bool,
  true, false, not, ◌||◌, ◌&&◌, [], ◌∷◌, ◌++◌, Option, arith, ltb, Bool-cases, ltb→lt, Bytes,
  append_assoc, get_or, ◌==◌,
}
use hx_clog.Async.{Overflow, Engine, no_slot}
use hx_clog.Async.Window.{line_of, contents, IsValid, window_zero}
use hx_clog.Async.Bounded.{Provides}
use hx_clog.Async.Worker.{take_line, advance, idle, batch_end}
use hx_clog.Async.Life.{Settings, flush_begin, stop_begin, start, started, or_default}
use hx_clog.Async.Fifo.{System, taken, Step, Run, IsFifo}
use hx_clog.Async.Advance.{advance-IsValid, overflow-advance, contents-advance, take_line_cases}
use hx_clog.Async.Calls.{called_first, called_later}

-- An engine whose flags alone differ.
flags-IsValid :
    {e : Engine} (r stop flush : Bool)
    → IsValid e
    → IsValid (record e { flush_request = flush; stop = stop })
flags-IsValid r stop flush v = record {
  size = v.size;
  capacity_u32 = v.capacity_u32;
  head_in = v.head_in;
  tail_eq = v.tail_eq;
  count_in = v.count_in;
  mark_in = v.mark_in;
  mark_ge = v.mark_ge;
}

flags-IsFifo :
    {s : System} (stop flush : Bool)
    → IsFifo s
    → IsFifo (record s { engine = record s.engine { flush_request = flush; stop = stop } })
flags-IsFifo stop flush f = record {
  valid = flags-IsValid true stop flush f.valid;
  keeps = f.keeps;
  order = f.order;
}

flush_begin_cases :
    (e : Engine)
    → (flush_begin e ≡ (false, e)) ⊎ (flush_begin e ≡ (true, record e { flush_request = true }))
unfolding flush_begin
flush_begin_cases e = elim (Bool-cases e.prims_ready) [
  | inr h ↦ inl (simp h refl)
  | inl h ↦ elim (Bool-cases (not e.running || e.count == 0)) [
    | inl k ↦ inl (simp (h, k) refl)
    | inr k ↦ inr (simp (h, k) refl)
  ]
]

stop_begin_cases :
    (e : Engine) → (stop_begin e ≡ (false, e)) ⊎ (stop_begin e ≡ (true, record e { stop = true }))
unfolding stop_begin
stop_begin_cases e = elim (Bool-cases e.prims_ready) [
  | inr h ↦ inl (simp h refl)
  | inl h ↦ elim (Bool-cases e.running) [
    | inr k ↦ inl (simp (h, k) refl)
    | inl k ↦ inr (simp (h, k) refl)
  ]
]

module _ (malloc : ℕ → Option Bytes) (memory : Provides malloc) where
  pub taken-IsFifo :
      {s : System}
      → IsFifo s
      → ltb 0 s.engine.count ≡ true
      → IsFifo (taken s (take_line malloc s.engine))
  unfolding taken
  taken-IsFifo {s} f some_line =
      let pos = ltb→lt 0 s.engine.count some_line in
      elim (take_line_cases malloc memory s.engine) [
        | inl loops ↦ rw loops f
        | inr (c, emits) ↦ rw emits (record {
          valid = advance-IsValid s.engine c f.valid pos;
          keeps = λ d. f.keeps (sym (overflow-advance s.engine) ∙ d);
          order =
              f.order
              ∙ ap (λ q. s.emitted ++ q) (contents-advance s.engine c pos)
              ∙ sym (
                  append_assoc s.emitted
                    (line_of (get_or s.engine.slots s.engine.head no_slot) ∷ [])
                    (contents (record (advance s.engine) { scratch_cap = c })));
        })
      ]

  Step-IsFifo : {s t : System} → Step malloc s t → IsFifo s → IsFifo t
  unfolding idle batch_end
  Step-IsFifo {s} (Step.calls l short) f = called_first malloc memory l short f
  Step-IsFifo {s} (Step.wakes l short) f = called_later malloc memory l short f
  Step-IsFifo (Step.takes some_line) f = taken-IsFifo f some_line
  Step-IsFifo {s} Step.idles f = flags-IsFifo s.engine.stop false f
  Step-IsFifo {s} Step.ends f = elim (Bool-cases (s.engine.flush_request && s.engine.count == 0)) [
    | inl h ↦ simp h (flags-IsFifo s.engine.stop false f)
    | inr h ↦ simp h f
  ]
  Step-IsFifo {s} Step.flushes f = elim (flush_begin_cases s.engine) [
    | inl h ↦ rw h f
    | inr h ↦ rw h (flags-IsFifo s.engine.stop true f)
  ]
  Step-IsFifo {s} Step.stops f = elim (stop_begin_cases s.engine) [
    | inl h ↦ rw h f
    | inr h ↦ rw h (flags-IsFifo true s.engine.flush_request f)
  ]

  -- In a run of the threads that starts with a valid engine and its queue in order, the engine
  -- stays valid, and the lines that were accepted are those given to the sinks, followed by those
  -- that wait, in the order of the calls. The policy is not `drop_old`, the allocator has memory
  -- and the lines have less than `2 ^ 31` bytes.
  pub Run-IsFifo : {s t : System} → Run malloc s t → IsFifo s → IsFifo t
  Run-IsFifo Run.done f = f
  Run-IsFifo (Run.goes step run) f = Run-IsFifo run (Step-IsFifo step f)

queue_size_in : (n : ℕ) → n < 2 ^ 32 → (0 < or_default n 8192) × (or_default n 8192 < 2 ^ 32)
unfolding or_default
queue_size_in n h = elim (Bool-cases (n == 0)) [
  | inl z ↦ rw z (omega arith, omega arith)
  | inr z ↦ rw z (ground arith, h)
]

-- When `hx_async_start` succeeds with a policy other than `drop_old`, for any 32-bit size of the
-- queue, also 0, the engine is valid and its queue is in order, with no line accepted or emitted
-- yet.
start-IsFifo :
    (cfg : Settings) (e : Engine)
    → cfg.async_queue_size < 2 ^ 32
    → cfg.overflow_policy ≢ Overflow.drop_old
    → IsFifo (record { engine = (start true true cfg e).1; accepted = []; emitted = [] })
unfolding start started or_default
start-IsFifo cfg e size_u32 keeps =
    let cap = or_default cfg.async_queue_size 8192 in
    let (pos, cap_u32) = queue_size_in cfg.async_queue_size size_u32 in
    let turn : 0 + 0 < cap = omega arith in
    record {
      valid = record {
        size = length-replicate cap no_slot;
        capacity_u32 = cap_u32;
        head_in = pos;
        tail_eq = sym (mod-eq_of_lt turn);
        count_in = omega arith;
        mark_in = omega arith;
        mark_ge = omega arith;
      };
      keeps = keeps;
      order = sym (window_zero (replicate cap no_slot) cap 0);
    }
