-- ===== src/Async/Advance.antt =====
-- src/hx_clog_async.c: a round of the worker and the ring of slots.
use hx_clog.Common.{
  ℕ, suc, ◌+◌, ◌-◌, ◌%◌, ◌^◌, ◌<◌, ◌≡◌, refl, ◌∙◌, sym, ap, ◌⊎◌, inl, inr, ◌∷◌, Option, arith, ltb,
  Bool-cases, Option-cases, ltb→lt, Bytes, get_or, ◌==◌, if◌then◌else◌,
}
use hx_clog.Async.{Engine, no_slot}
use hx_clog.Async.Grow.{grow, doublings, grow_bound}
use hx_clog.Async.Window.{line_of, window, contents, IsValid, next_in, step_round, window_head}
use hx_clog.Async.Bounded.{Provides}
use hx_clog.Async.Worker.{Taken, take_line, advance}

pub advance-IsValid :
    (e : Engine) (c : ℕ)
    → IsValid e
    → 0 < e.count
    → IsValid (record (advance e) { scratch_cap = c })
unfolding advance
advance-IsValid e c v some_line =
    let n : suc (e.count - 1) ≡ e.count = omega arith in
    record {
      size = v.size;
      capacity_u32 = v.capacity_u32;
      head_in = next_in v.head_in;
      tail_eq =
          v.tail_eq
          ∙ sym
              (step_round e.capacity e.head (e.count - 1) ∙ ap (λ j. (e.head + j) % e.capacity) n);
      count_in = omega (arith, v.count_in);
      mark_in = v.mark_in;
      mark_ge = omega (arith, v.mark_ge);
    }

pub overflow-advance : (e : Engine) → (advance e).overflow ≡ e.overflow
unfolding advance
overflow-advance e = refl

-- the line at the head, and those behind it
pub contents-advance :
    (e : Engine) (c : ℕ)
    → 0 < e.count
    → contents e
      ≡ line_of (get_or e.slots e.head no_slot) ∷ contents (record (advance e) { scratch_cap = c })
unfolding advance
contents-advance e c some_line =
    let n : e.count ≡ suc (e.count - 1) = omega arith in
    ap (window e.slots e.capacity e.head) n ∙ window_head e.slots e.capacity e.head (e.count - 1)

pub from_u32 :
    (cap need : ℕ) → cap < need → need < 2 ^ 32 → (if cap == 0 then 256 else cap) < 2 ^ 32
from_u32 cap need less small = elim (Bool-cases (cap == 0)) [
  | inl e ↦ rw e (omega arith)
  | inr e ↦ rw e (omega arith)
]

module _ (malloc : ℕ → Option Bytes) (memory : Provides malloc) where
  -- With memory for its buffer the worker takes the line at the head, or is stuck in the loop that
  -- doubles the size of the buffer.
  pub take_line_cases :
      (e : Engine)
      → (take_line malloc e ≡ (Taken.stuck, e))
        ⊎ ((c : ℕ) × (take_line malloc e ≡ (
          Taken.emits (line_of (get_or e.slots e.head no_slot)),
          record (advance e) { scratch_cap = c },
        )))
  unfolding take_line advance
  take_line_cases e =
      let s = get_or e.slots e.head no_slot in
      let need = (s.len + 1) % 2 ^ 32 in
      let from = if e.scratch_cap == 0 then 256 else e.scratch_cap in
      elim (Bool-cases (ltb e.scratch_cap need)) [
        | inl less ↦ elim (Option-cases (grow doublings from need)) [
          | inl loops ↦ inl (rw (less, loops) refl)
          | inr (c, ends) ↦
              let c_u32 =
                grow_bound doublings from need
                  (from_u32 e.scratch_cap need (ltb→lt e.scratch_cap need less) (omega arith))
                  ends in
              let (nb, given) = memory c c_u32 in inr (c, rw (less, ends, given) refl)
        ]
        | inr fits ↦ inr (e.scratch_cap, rw fits refl)
      ]
