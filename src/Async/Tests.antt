-- ===== src/Async/Tests.antt =====
-- src/hx_clog_async.c: the theorems at concrete engines, lines and runs.
use hx_clog.Common.{
  ℕ, zero, suc, ◌+◌, ◌^◌, ◌≡◌, refl, true, false, [], ◌∷◌, Option, none, some, arith, Bytes, codes,
  inl,
}
use hx_clog.Async.{Slot, Overflow, Engine, Line, no_slot, enqueue}
use hx_clog.Async.Grow.{grow, doublings, Grown, grow_total, grow_loops}
use hx_clog.Async.Window.{window, contents, IsValid}
use hx_clog.Async.Bounded.{queued, push_bounded, Provides, IsOpen, IsLine, Leads}
use hx_clog.Async.Queue.{enqueue_lem}
use hx_clog.Async.Life.{Settings}
use hx_clog.Async.Fifo.{System, called, Step, Run, IsFifo}
use hx_clog.Async.Order.{Run-IsFifo}
use hx_clog.Async.Drain.{drain, AllShort, drain_lem}

abbrev gives : ℕ → Option Bytes
gives n = some []

gives-Provides : Provides gives
gives-Provides n h = ([], refl)

abbrev hi : Line
hi = record { level = 2; text = codes "hi"; size = 2; target = 0; count_stats = true }

hi-IsLine : IsLine hi
hi-IsLine = record { size_in = omega arith; size_u31 = omega arith }

abbrev empty : Engine
empty = record {
  slots = no_slot ∷ no_slot ∷ [];
  capacity = 2;
  head = 0;
  tail = 0;
  count = 0;
  batch_size = 64;
  flush_interval_ms = 1000;
  overflow = Overflow.block;
  running = true;
  stop = false;
  flush_request = false;
  scratch_cap = 0;
  dropped = 0;
  high_watermark = 0;
  prims_ready = true;
}

empty-IsValid : IsValid empty
empty-IsValid = record {
  size = refl;
  capacity_u32 = omega arith;
  head_in = omega arith;
  tail_eq = refl;
  count_in = omega arith;
  mark_in = omega arith;
  mark_ge = omega arith;
}

empty-IsOpen : IsOpen empty
empty-IsOpen = record { ready = refl; running = refl; going = refl }

enqueue_lem_example :
    Leads
      (enqueue gives empty hi)
      (push_bounded Overflow.block 2 (contents empty) (queued hi))
      Overflow.block
enqueue_lem_example = enqueue_lem gives gives-Provides empty hi empty-IsValid empty-IsOpen hi-IsLine

abbrev settings : Settings
settings = record {
  async_queue_size = 2;
  async_batch_size = 0;
  flush_interval_ms = 0;
  overflow_policy = Overflow.block;
}

abbrev before : System
before = record { engine = empty; accepted = []; emitted = [] }

before-IsFifo : IsFifo before
before-IsFifo = record { valid = empty-IsValid; keeps = λ e. cc; order = unfold window in refl }

abbrev after : System
after = called before hi (enqueue gives empty hi)

Run-IsFifo_example : IsFifo after
Run-IsFifo_example =
    Run-IsFifo gives gives-Provides (Run.goes (Step.calls hi hi-IsLine) Run.done) before-IsFifo

abbrev written : Slot
written = record { level = 2; target = 0; count_stats = true; len = 2; cap = 256; buf = codes "hi" }

abbrev one_line : System
one_line = record {
  engine = record empty { slots = written ∷ no_slot ∷ []; tail = 1; count = 1; high_watermark = 1 };
  accepted = queued hi ∷ [];
  emitted = [];
}

one_line-IsFifo : IsFifo one_line
one_line-IsFifo = record {
  valid = record {
    size = refl;
    capacity_u32 = omega arith;
    head_in = omega arith;
    tail_eq = refl;
    count_in = omega arith;
    mark_in = omega arith;
    mark_ge = omega arith;
  };
  keeps = λ e. cc;
  order = unfold window in refl;
}

one_line-AllShort :
    AllShort
      (record empty { slots = written ∷ no_slot ∷ []; tail = 1; count = 1; high_watermark = 1 })
unfolding AllShort
one_line-AllShort zero = omega arith
one_line-AllShort (suc zero) = omega arith
one_line-AllShort (suc (suc i)) = omega arith

drain_lem_example :
    ((drain gives 1 one_line).engine.count ≡ 0)
    × ((drain gives 1 one_line).emitted ≡ queued hi ∷ [])
drain_lem_example = drain_lem gives gives-Provides 1 one_line one_line-IsFifo one_line-AllShort refl

grow_total_example : (r : ℕ) × (grow doublings 256 1000 ≡ some r) × Grown 1000 256 r
grow_total_example = grow_total 256 1000 (omega arith) (omega arith)

grow_loops_example : grow 100 256 (2 ^ 31 + 1) ≡ none
grow_loops_example = grow_loops 100 256 (2 ^ 31 + 1) (inl (23, refl)) (omega arith)
