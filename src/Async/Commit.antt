-- ===== src/Async/Commit.antt =====
-- src/hx_clog_async.c: the changes of the engine that store a line, drop one or count it.
use native.Mathlib.Nat.{mod-add-mod}
use hx_clog.Common.{
  ℕ, suc, inl, inr, ◌+◌, ◌-◌, ◌%◌, ◌≤◌, ◌<◌, ◌≡◌, refl, ◌∙◌, sym, ap, [], ◌∷◌, ◌++◌, arith, ltb,
  if◌then◌else◌, Bool-cases, ltb→ge, length, take, drop, set, length-set, take-append_le,
  take-of_le, length-take,
}
use hx_clog.Async.{Slot, Engine, Line, count_drop, fill, commit}
use hx_clog.Async.Window.{
  line_of, window, contents, IsValid, next_in, step_round, window_rest, window-set,
}
use hx_clog.Async.Bounded.{queued}

line_of-fill : (s : Slot) (l : Line) → l.size ≤ length l.text → line_of (fill s l) ≡ queued l
unfolding fill
line_of-fill s l h =
    let n : length (take l.size l.text) ≡ l.size = omega (arith, length-take l.size l.text) in
    let t : take l.size (take l.size l.text ++ drop l.size s.buf) ≡ take l.size l.text =
      take-append_le l.size (take l.size l.text) (drop l.size s.buf) (omega arith)
      ∙ take-of_le l.size (take l.size l.text) (omega arith) in
    ap (λ b. record { level = l.level; text = b; target = l.target; count_stats = l.count_stats }) t

-- The line that is stored is the last of the lines in the queue.
pub contents-commit :
    (e : Engine) (s : Slot) (l : Line)
    → IsValid e
    → e.count < e.capacity
    → l.size ≤ length l.text
    → contents (commit e s l) ≡ contents e ++ queued l ∷ []
unfolding commit
contents-commit e s l v room h =
    let n : e.count + 1 ≡ suc e.count = omega arith in
    ap (window (set e.slots e.tail (fill s l)) e.capacity e.head) n
    ∙ window-set e.slots e.capacity (fill s l) e.count e.head e.tail v.size v.head_in room v.tail_eq
    ∙ ap (λ x. contents e ++ x ∷ []) (line_of-fill s l h)

max_in : (mark n room : ℕ) → mark ≤ room → n ≤ room → (if ltb mark n then n else mark) ≤ room
max_in mark n room h k = elim (Bool-cases (ltb mark n)) [ inl e ↦ rw e k | inr e ↦ rw e h ]

max_ge : (mark n : ℕ) → n ≤ (if ltb mark n then n else mark)
max_ge mark n = elim (Bool-cases (ltb mark n)) [
  | inl e ↦ rw e (omega arith)
  | inr e ↦ rw e (ltb→ge mark n e)
]

pub commit-IsValid :
    (e : Engine) (s : Slot) (l : Line) → IsValid e → e.count < e.capacity → IsValid (commit e s l)
unfolding commit
commit-IsValid e s l v room = record {
  size = length-set e.slots e.tail (fill s l) ∙ v.size;
  capacity_u32 = v.capacity_u32;
  head_in = v.head_in;
  tail_eq =
      rw v.tail_eq
        (mod-add-mod (e.head + e.count) e.capacity 1 ∙ ap (λ j. j % e.capacity) (omega arith));
  count_in = omega arith;
  mark_in = max_in e.high_watermark (e.count + 1) e.capacity v.mark_in (omega arith);
  mark_ge = max_ge e.high_watermark (e.count + 1);
}

-- An engine that differs in what the invariant does not read.
pub count_drop-IsValid : (e : Engine) → IsValid e → IsValid (count_drop e).0
unfolding count_drop
count_drop-IsValid e v = record {
  size = v.size;
  capacity_u32 = v.capacity_u32;
  head_in = v.head_in;
  tail_eq = v.tail_eq;
  count_in = v.count_in;
  mark_in = v.mark_in;
  mark_ge = v.mark_ge;
}

-- `drop_old`: the engine without its oldest line
unfoldable pub older : Engine → Engine
older e = record e { head = (e.head + 1) % e.capacity; count = e.count - 1 }

pub older-IsValid : (e : Engine) → IsValid e → e.capacity ≤ e.count → IsValid (older e)
unfolding older
older-IsValid e v full =
    let n : suc (e.count - 1) ≡ e.count = omega (arith, v.head_in) in
    let n_in : e.count - 1 ≤ e.count = omega arith in
    record {
      size = v.size;
      capacity_u32 = v.capacity_u32;
      head_in = next_in v.head_in;
      tail_eq =
          v.tail_eq
          ∙ sym
              (step_round e.capacity e.head (e.count - 1) ∙ ap (λ j. (e.head + j) % e.capacity) n);
      count_in = omega (arith, v.count_in);
      mark_in = v.mark_in;
      mark_ge = omega (arith, v.mark_ge);
    }

pub contents-older :
    (e : Engine) → IsValid e → e.capacity ≤ e.count → contents (older e) ≡ drop 1 (contents e)
unfolding older
contents-older e v full =
    let n : suc (e.count - 1) ≡ e.count = omega (arith, v.head_in) in
    window_rest e.slots e.capacity e.head (e.count - 1)
    ∙ ap (λ j. drop 1 (window e.slots e.capacity e.head j)) n

pub contents-count_drop : (e : Engine) → contents (count_drop e).0 ≡ contents e
unfolding count_drop
contents-count_drop e = refl

pub count-count_drop :
    (e : Engine) → ((count_drop e).0.count ≡ e.count) × ((count_drop e).0.capacity ≡ e.capacity)
unfolding count_drop
count-count_drop e = (refl, refl)

pub overflow-commit : (e : Engine) (s : Slot) (l : Line) → (commit e s l).overflow ≡ e.overflow
unfolding commit
overflow-commit e s l = refl

pub overflow-count_drop : (e : Engine) → (count_drop e).0.overflow ≡ e.overflow
unfolding count_drop
overflow-count_drop e = refl
