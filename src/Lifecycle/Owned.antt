-- ===== src/Lifecycle/Owned.antt =====
-- src/hx_clog_core.c: every sink that is made is in the list, or closed.
use hx_clog.Common.{
  ℕ, ◌+◌, ◌≡◌, refl, ◌∙◌, ap, inl, inr, Bool, true, false, not, List, [], ◌∷◌, ◌++◌, Option, none,
  some, arith, leb, ◌==◌, Bool-cases, if◌then◌else◌, length,
}
use hx_clog.Setup.{ClogConfig}
use hx_clog.Sink.{Sink, Effect, syslog_create}
use hx_clog.Sink.Registry.{
  max_sinks, Sinks, numbered, level_in_range, put_sink, add_sink_locked, is_callback,
  close_non_callback_sinks, close_sinks,
}
use hx_clog.Lifecycle.{Answers, Built, add_sink, add_system_sinks}
use hx_clog.Lifecycle.Benign.{one_if, owned, closed, closed-append, owned-append}

-- how often a handle is made
abbrev pub count : ℕ → List ℕ → ℕ
count h [] = 0
count h (k ∷ ks) = one_if (k == h) + count h ks

pub count-append : (h : ℕ) (ks ls : List ℕ) → count h (ks ++ ls) ≡ count h ks + count h ls
count-append h [] ls = omega arith
count-append h (k ∷ ks) ls = omega (arith, count-append h ks ls)

-- Of each sink, as many are made and were there as are closed and are left.
abbrev pub Ledger : List Sink → List Sink → List ℕ → List Effect → Type 0
Ledger ss ts made out = (h : ℕ) → count h made + owned h ss ≡ closed h out + owned h ts

numbered-handle : (n : ℕ) (s : Sink) → (numbered n s).handle ≡ s.handle
unfolding numbered
numbered-handle n s = refl

ranged-handle : (s : Sink) → (level_in_range s).handle ≡ s.handle
unfolding level_in_range
ranged-handle s = ground arith

put_handle :
    (n : ℕ) (s : Sink) (fresh : Bool)
    → (level_in_range (if fresh then numbered n s else s)).handle ≡ s.handle
put_handle n s true = ranged-handle (numbered n s) ∙ numbered-handle n s
put_handle n s false = ranged-handle s

put_sink-owned :
    (h : ℕ) (s : Sink) (r : Sinks)
    → owned h (put_sink s r).sinks ≡ owned h r.sinks + one_if (s.handle == h)
unfolding put_sink
put_sink-owned h s r =
    let fresh = s.id == 0 in
    let t = level_in_range (if fresh then numbered r.next_sink_id s else s) in
    owned-append h r.sinks (t ∷ [])
    ∙ ap (λ x. owned h r.sinks + (one_if (x == h) + 0)) (put_handle r.next_sink_id s fresh)
    ∙ omega arith

pub add_sink_locked-Ledger :
    (s : Sink) (r : Sinks)
    → Ledger r.sinks
        (add_sink_locked (some s) r).1.sinks
        (s.handle ∷ [])
        (add_sink_locked (some s) r).2
unfolding add_sink_locked
add_sink_locked-Ledger s r h = elim (Bool-cases (leb max_sinks (length r.sinks))) [
  | inl e ↦ rw e (omega arith)
  | inr e ↦ rw e (omega (arith, put_sink-owned h s r))
]

-- of a list that is being built
abbrev pub BuiltFrom : List Sink → Built → Type 0
BuiltFrom ss (r, made, out) = Ledger ss r.sinks made out

pub add_sink-BuiltFrom :
    (ss : List Sink) (s : Option Sink) (b : Built) → BuiltFrom ss b → BuiltFrom ss (add_sink s b)
unfolding add_sink
add_sink-BuiltFrom ss none b k = k
add_sink-BuiltFrom ss (some s) (r, made, out) k = λ h.
    omega
      (arith, k h, add_sink_locked-Ledger s r h, closed-append h out (add_sink_locked (some s) r).2)

pub add_system_sinks-BuiltFrom :
    (ss : List Sink) (a : Answers) (cfg : ClogConfig) (b : Built)
    → BuiltFrom ss b
    → BuiltFrom ss (add_system_sinks a cfg b)
unfolding add_system_sinks
add_system_sinks-BuiltFrom ss a cfg b k = elim (Bool-cases cfg.enable_syslog) [
  | inl e ↦ rw e (add_sink-BuiltFrom ss (syslog_create a.syslog) b k)
  | inr e ↦ rw e k
]

pub close_non_callback_sinks-owned :
    (h : ℕ) (ss : List Sink)
    → owned h ss
      ≡ closed h (close_non_callback_sinks ss).1 + owned h (close_non_callback_sinks ss).0
unfolding close_non_callback_sinks
close_non_callback_sinks-owned h [] = omega arith
close_non_callback_sinks-owned h (s ∷ ss) = elim (Bool-cases (not (is_callback s.kind))) [
  | inl e ↦ rw e (omega (arith, close_non_callback_sinks-owned h ss))
  | inr e ↦ rw e (omega (arith, close_non_callback_sinks-owned h ss))
]

pub close_sinks-closed : (h : ℕ) (ss : List Sink) → closed h (close_sinks ss) ≡ owned h ss
unfolding close_sinks
close_sinks-closed h [] = refl
close_sinks-closed h (s ∷ ss) = omega (arith, close_sinks-closed h ss)
