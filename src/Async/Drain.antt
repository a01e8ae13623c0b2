-- ===== src/Async/Drain.antt =====
-- src/hx_clog_async.c: the worker that drains the queue, as it does before it exits.
use hx_clog.Common.{
  ℕ, zero, suc, ◌+◌, ◌-◌, ◌%◌, ◌^◌, ◌≤◌, ◌<◌, ◌≡◌, refl, ◌∙◌, sym, ap, inl, inr, [], ◌++◌, Option,
  arith, ltb, lt→ltb, ltb→lt, Bool-cases, Bytes, get_or, append-nil, ◌==◌, if◌then◌else◌,
}
use hx_clog.Async.{Engine, no_slot}
use hx_clog.Async.Grow.{grow_total}
use hx_clog.Async.Window.{window, contents, line_of, window_zero}
use hx_clog.Async.Bounded.{Provides}
use hx_clog.Async.Queue.{start_in}
use hx_clog.Async.Worker.{Taken, take_line, advance}
use hx_clog.Async.Fifo.{System, taken, IsFifo}
use hx_clog.Async.Order.{taken-IsFifo}

-- `n` rounds of the worker with no call of another thread between them
pub drain : (ℕ → Option Bytes) → ℕ → System → System
drain malloc zero s = s
drain malloc (suc n) s = drain malloc n (taken s (take_line malloc s.engine))

-- The slots hold lines of less than `2 ^ 31` bytes.
unfoldable pub AllShort : Engine → Type 0
AllShort e = (i : ℕ) → (get_or e.slots i no_slot).len < 2 ^ 31

module _ (malloc : ℕ → Option Bytes) (memory : Provides malloc) where
  take_line_total :
      (e : Engine)
      → AllShort e
      → (c : ℕ) × (take_line malloc e ≡ (
        Taken.emits (line_of (get_or e.slots e.head no_slot)),
        record (advance e) { scratch_cap = c },
      ))
  unfolding take_line advance AllShort
  take_line_total e short =
      let s = get_or e.slots e.head no_slot in
      let need = (s.len + 1) % 2 ^ 32 in
      let small : need ≤ 2 ^ 31 = omega (arith, short e.head) in
      elim (Bool-cases (ltb e.scratch_cap need)) [
        | inl less ↦
            let from = if e.scratch_cap == 0 then 256 else e.scratch_cap in
            let (pos, from_u32) =
              start_in e.scratch_cap need (ltb→lt e.scratch_cap need less) small in
            let (r, grown, (big, up, size)) = grow_total from need small pos in
            let r_u32 : r < 2 ^ 32 = elim size [
              | inl same ↦ omega arith
              | inr bound ↦ omega arith
            ] in
            let (nb, given) = memory r r_u32 in (r, rw (less, grown, given) refl)
        | inr fits ↦ (e.scratch_cap, rw fits refl)
      ]

  -- A round shortens the queue by a line and keeps the lengths.
  taken_next :
      (s : System)
      → AllShort s.engine
      → ((taken s (take_line malloc s.engine)).engine.count ≡ s.engine.count - 1)
        × AllShort (taken s (take_line malloc s.engine)).engine
        × ((taken s (take_line malloc s.engine)).accepted ≡ s.accepted)
  unfolding taken advance AllShort
  taken_next s short = let (c, e) = take_line_total s.engine short in rw e (refl, short, refl)

  -- From a valid engine with its queue in order, after as many rounds of the worker as lines wait
  -- the queue is empty, and the sinks were given every line that was accepted, in the order of the
  -- calls. The policy is not `drop_old`, the allocator has memory, the lines have less than `2 ^
  -- 31` bytes, and no other thread calls in between.
  pub drain_lem :
      (n : ℕ) (s : System)
      → IsFifo s
      → AllShort s.engine
      → s.engine.count ≡ n
      → ((drain malloc n s).engine.count ≡ 0) × ((drain malloc n s).emitted ≡ s.accepted)
  unfolding drain
  drain_lem zero s f short e =
      let none_wait : contents s.engine ≡ [] =
        ap (window s.engine.slots s.engine.capacity s.engine.head) e
        ∙ window_zero s.engine.slots s.engine.capacity s.engine.head in
      (e, sym (f.order ∙ ap (λ q. s.emitted ++ q) none_wait ∙ append-nil s.emitted))
  drain_lem (suc n) s f short e =
      let t = taken s (take_line malloc s.engine) in
      let (count, short', same) = taken_next s short in
      let fifo = taken-IsFifo malloc memory f (lt→ltb 0 s.engine.count (omega arith)) in
      let (empty, all) = drain_lem n t fifo short' (omega arith) in (empty, all ∙ same)
