-- ===== src/Async/Calls.antt =====
-- src/hx_clog_async.c: the calls of the threads that log and the order of the lines.
use hx_clog.Common.{
  ℕ, ◌<◌, ◌≡◌, ◌≢◌, refl, ◌∙◌, sym, ap, ◌⊎◌, inl, inr, false, List, [], ◌∷◌, ◌++◌, Option, leb,
  Bool-cases, leb→gt, Bytes, append_assoc, length,
}
use hx_clog.Status.{Status}
use hx_clog.Async.{Overflow, Engine, Line, Outcome, enqueue, enqueue_blocked, store}
use hx_clog.Async.Window.{Queued, contents}
use hx_clog.Async.Bounded.{
  queued, Verdict, verdict, push_full, push_bounded, Provides, IsLine, Leads,
}
use hx_clog.Async.Queue.{store_pushes, enqueue_lem, enqueue_cases}
use hx_clog.Async.Fifo.{System, extended, called, IsFifo}

extended-append :
    (w : Verdict) (a c : List Queued) (x : Queued) → extended w (a ++ c) x ≡ a ++ extended w c x
unfolding extended
extended-append Verdict.accepted a c x = append_assoc a c (x ∷ [])
extended-append Verdict.refused a c x = refl
extended-append Verdict.must_wait a c x = refl
extended-append Verdict.failed a c x = refl

-- what the policies other than `drop_old` do to the queue
push_full-extended :
    (o : Overflow) (q : List Queued) (x : Queued)
    → o ≢ Overflow.drop_old
    → (push_full o q x).1 ≡ extended (push_full o q x).0 q x
unfolding extended push_full
push_full-extended Overflow.drop_new q x h = refl
push_full-extended Overflow.drop_old q x h = absurd (h refl)
push_full-extended Overflow.block q x h = refl

push_bounded-extended :
    (o : Overflow) (room : ℕ) (q : List Queued) (x : Queued)
    → o ≢ Overflow.drop_old
    → (push_bounded o room q x).1 ≡ extended (push_bounded o room q x).0 q x
unfolding push_bounded extended
push_bounded-extended o room q x h = elim (Bool-cases (leb room (length q))) [
  | inl full ↦ rw full (push_full-extended o q x h)
  | inr free ↦ rw free refl
]

-- A call that leaves the queue as its verdict says keeps the order.
called-IsFifo :
    {s : System} (l : Line) (r : Outcome × Engine) (w : Verdict)
    → IsFifo s
    → Leads r (w, extended w (contents s.engine) (queued l)) s.engine.overflow
    → IsFifo (called s l r)
unfolding called
called-IsFifo {s} l (o, e) w f (is, q, v, p) = record {
  valid = v;
  keeps = λ d. f.keeps (sym p ∙ d);
  order =
      rw (is, q)
        (ap (λ a. extended w a (queued l)) f.order
          ∙ extended-append w s.emitted (contents s.engine) (queued l));
}

module _ (malloc : ℕ → Option Bytes) (memory : Provides malloc) where
  -- a call, at its first test of the queue
  pub called_first :
      {s : System} (l : Line)
      → IsLine l
      → IsFifo s
      → IsFifo (called s l (enqueue malloc s.engine l))
  unfolding verdict extended
  called_first {s} l short f = elim (enqueue_cases malloc memory s.engine l) [
    | inl up ↦
        let e = s.engine in
        let b = push_bounded e.overflow e.capacity (contents e) (queued l) in
        let (is, q, v, p) = enqueue_lem malloc memory e l f.valid up short in
        let ext = push_bounded-extended e.overflow e.capacity (contents e) (queued l) f.keeps in
        called-IsFifo l (enqueue malloc e l) b.0 f (is, q ∙ ext, v, p)
    | inr closed ↦
        called-IsFifo l (enqueue malloc s.engine l) Verdict.failed f
          (rw closed (refl, refl, f.valid, refl))
  ]

  blocked_cases :
      (e : Engine) (l : Line)
      → (enqueue_blocked malloc e l ≡ (Outcome.waits, e))
        ⊎ (enqueue_blocked malloc e l ≡ (Outcome.returns Status.not_initialized false, e))
        ⊎ ((e.count < e.capacity) × (enqueue_blocked malloc e l ≡ store malloc e l false))
  unfolding enqueue_blocked
  blocked_cases e l = elim (Bool-cases e.stop) [
    | inl s ↦ inr (
        inl (elim (Bool-cases (leb e.capacity e.count)) [
          | inl full ↦ simp (s, full) refl
          | inr room ↦ simp (s, room) refl
        ]))
    | inr s ↦ elim (Bool-cases (leb e.capacity e.count)) [
      | inl full ↦ inl (simp (s, full) refl)
      | inr room ↦ elim (Bool-cases e.running) [
        | inl r ↦ inr (inr (leb→gt e.capacity e.count room, simp (s, room, r) refl))
        | inr r ↦ inr (inl (simp (s, room, r) refl))
      ]
    ]
  ]

  -- a call that waited for room, at a later test
  pub called_later :
      {s : System} (l : Line)
      → IsLine l
      → IsFifo s
      → IsFifo (called s l (enqueue_blocked malloc s.engine l))
  unfolding verdict extended
  called_later {s} l short f = elim (blocked_cases s.engine l) [
    | inl waits ↦
        called-IsFifo l (enqueue_blocked malloc s.engine l) Verdict.must_wait f
          (rw waits (refl, refl, f.valid, refl))
    | inr (inl closed) ↦
        called-IsFifo l (enqueue_blocked malloc s.engine l) Verdict.failed f
          (rw closed (refl, refl, f.valid, refl))
    | inr (inr (room, stores)) ↦
        called-IsFifo l (enqueue_blocked malloc s.engine l) Verdict.accepted f
          (rw stores (store_pushes malloc memory s.engine l false f.valid room short))
  ]
