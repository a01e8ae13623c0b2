-- ===== src/Async/Window.antt =====
-- src/hx_clog_async.c: the lines that the ring of slots holds, and the invariant of the engine.
use native.Mathlib.Nat.{mod-eq_of_lt, mod-eq-sub-mod, mod-add-mod}
use native.Mathlib.Decide.{dec_lt}
use hx_clog.Common.{
  ℕ, zero, suc, ◌+◌, ◌-◌, ◌%◌, ◌^◌, ◌≤◌, ◌<◌, ◌≡◌, ◌≢◌, refl, ◌∙◌, sym, ap, ap₂, Bool, List, [],
  ◌∷◌, ◌++◌, arith, Bytes, length, take, drop, get_or, set, get_or-set_self, get_or-set_ne,
}
use hx_clog.Async.{Slot, Engine, no_slot}

-- a line as it is handed to the sinks
pub record Queued : Type 0 where
  pub level : ℕ
  pub text : Bytes
  pub target : ℕ
  pub count_stats : Bool

abbrev pub line_of : Slot → Queued
line_of s = record {
  level = s.level;
  text = take s.len s.buf;
  target = s.target;
  count_stats = s.count_stats;
}

module _ (slots : List Slot) (cap : ℕ) where
  -- the lines of `n` slots from index `h` on, going round at `cap`
  unfoldable pub window : ℕ → ℕ → List Queued
  window h zero = []
  window h (suc n) = line_of (get_or slots h no_slot) ∷ window ((h + 1) % cap) n

  pub length-window : (h n : ℕ) → length (window h n) ≡ n
  unfolding window
  length-window h zero = refl
  length-window h (suc n) = ap suc (length-window ((h + 1) % cap) n)

-- the window without its first line
pub window_rest :
    (slots : List Slot) (cap h n : ℕ)
    → window slots cap ((h + 1) % cap) n ≡ drop 1 (window slots cap h (suc n))
unfolding window
window_rest slots cap h n = refl

pub window_zero : (slots : List Slot) (cap h : ℕ) → window slots cap h 0 ≡ []
unfolding window
window_zero slots cap h = refl

pub window_head :
    (slots : List Slot) (cap h n : ℕ)
    → window slots cap h (suc n)
      ≡ line_of (get_or slots h no_slot) ∷ window slots cap ((h + 1) % cap) n
unfolding window
window_head slots cap h n = refl

abbrev pub contents : Engine → List Queued
contents e = window e.slots e.capacity e.head e.count

-- what holds of a running engine at each release of its lock
pub record IsValid (e : Engine) : Type 0 where
  pub size : length e.slots ≡ e.capacity
  pub capacity_u32 : e.capacity < 2 ^ 32
  pub head_in : e.head < e.capacity
  pub tail_eq : e.tail ≡ (e.head + e.count) % e.capacity
  pub count_in : e.count ≤ e.capacity
  pub mark_in : e.high_watermark ≤ e.capacity
  pub mark_ge : e.count ≤ e.high_watermark

pub next_in : {h cap : ℕ} → h < cap → (h + 1) % cap < cap
next_in h = omega arith

-- Fewer than `cap` steps round the ring lead to another slot.
round-ne : {cap h : ℕ} (k : ℕ) → h < cap → k < cap → 0 < k → (h + k) % cap ≢ h
round-ne {cap} {h} k hh hk pos = elim (dec_lt (h + k) cap) [
  | yes p ↦ omega (arith, mod-eq_of_lt p)
  | no p ↦ omega (
    arith,
    mod-eq-sub-mod {n = h + k} {m = cap} (omega arith),
    mod-eq_of_lt {n = h + k - cap} {m = cap} (omega arith),
  )
]

pub step_round : (cap h k : ℕ) → ((h + 1) % cap + k) % cap ≡ (h + suc k) % cap
step_round cap h k = rw mod-add-mod (ap (λ j. j % cap) (omega arith))

-- The slot written just behind a window that does not fill the ring extends the window.
pub window-set :
    (slots : List Slot) (cap : ℕ) (s : Slot) (n h t : ℕ)
    → length slots ≡ cap
    → h < cap
    → n < cap
    → t ≡ (h + n) % cap
    → window (set slots t s) cap h (suc n) ≡ window slots cap h n ++ line_of s ∷ []
unfolding window
window-set slots cap s zero h t size hh hn e =
    let h_in : h + 0 < cap = omega arith in
    let t_eq : t ≡ h = omega (arith, mod-eq_of_lt h_in) in
    let g : get_or (set slots t s) h no_slot ≡ s =
      rw t_eq (get_or-set_self slots h s no_slot (omega arith)) in
    ap (λ x. line_of x ∷ []) g
window-set slots cap s (suc n) h t size hh hn e =
    ap₂ ◌∷◌
      (ap line_of
        (get_or-set_ne slots s no_slot (λ q. round-ne (suc n) hh hn (omega arith) (sym e ∙ q))))
      (window-set slots cap s n ((h + 1) % cap) t size (next_in hh) (omega arith)
        (e ∙ sym (step_round cap h n)))
