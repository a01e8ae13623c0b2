-- ===== src/Lifecycle/Benign.antt =====
-- src/hx_clog_core.c: lines and flushes make and close no sinks.
use hx_clog.Common.{
  ℕ, ◌+◌, ◌≡◌, refl, ◌∙◌, ap, ap₂, inl, inr, Bool, true, false, ◌&&◌, List, [], ◌∷◌, ◌++◌, arith,
  leb, ltb, ◌==◌, Bool-cases, if◌then◌else◌, Bytes,
}
use hx_clog.Level.{warn}
use hx_clog.Sink.{
  Kind, Sink, Effect, Console, Stream, color_reset, level_color, same_stream, is_open, stream_of,
  console_emit, write_kind, sink_write,
}
use hx_clog.Sink.Registry.{flush_sinks, is_target, emit_to_sinks}

abbrev pub one_if : Bool → ℕ
one_if b = if b then 1 else 0

-- how many sinks of a list have a handle
abbrev pub owned : ℕ → List Sink → ℕ
owned h [] = 0
owned h (s ∷ ss) = one_if (s.handle == h) + owned h ss

abbrev pub closing : ℕ → Effect → ℕ
closing h (Effect.closes k) = one_if (k == h)
closing h (Effect.prints x t) = 0
closing h (Effect.calls k l t) = 0
closing h (Effect.logs p t) = 0
closing h (Effect.writes k t) = 0
closing h (Effect.flushes k) = 0

-- how often the effects close a sink
abbrev pub closed : ℕ → List Effect → ℕ
closed h [] = 0
closed h (e ∷ es) = closing h e + closed h es

pub closed-append : (h : ℕ) (es fs : List Effect) → closed h (es ++ fs) ≡ closed h es + closed h fs
closed-append h [] fs = omega arith
closed-append h (e ∷ es) fs = omega (arith, closed-append h es fs)

pub owned-append : (h : ℕ) (ss ts : List Sink) → owned h (ss ++ ts) ≡ owned h ss + owned h ts
owned-append h [] ts = omega arith
owned-append h (s ∷ ss) ts = omega (arith, owned-append h ss ts)

-- The sinks have the handles that they had, and none is closed.
pub record Benign (ss : List Sink) (ts : List Sink) (out : List Effect) : Type 0 where
  pub same : (h : ℕ) → owned h ts ≡ owned h ss
  pub open_still : (h : ℕ) → closed h out ≡ 0

pub Benign-none : (ss : List Sink) → Benign ss ss []
Benign-none ss = record { same = λ h. refl; open_still = λ h. refl }

pub Benign-then :
    {ss ts us : List Sink} {out more : List Effect}
    → Benign ss ts out
    → Benign ts us more
    → Benign ss us (out ++ more)
Benign-then {out} {more} a b = record {
  same = λ h. b.same h ∙ a.same h;
  open_still = λ h. omega (arith, closed-append h out more, a.open_still h, b.open_still h);
}

flushes-closed : (h : ℕ) (ss : List Sink) → closed h (flush_sinks ss) ≡ 0
unfolding flush_sinks
flushes-closed h [] = refl
flushes-closed h (s ∷ ss) = omega (arith, flushes-closed h ss)

pub Benign-flush : (ss : List Sink) → Benign ss ss (flush_sinks ss)
Benign-flush ss = record { same = λ h. refl; open_still = λ h. flushes-closed h ss }

print-closed :
    (b : Bool) (x : Stream) (color text : Bytes) (h : ℕ)
    → closed h (
        if b
        then Effect.prints x color ∷ Effect.prints x text ∷ Effect.prints x color_reset ∷ []
        else Effect.prints x text ∷ [])
      ≡ 0
print-closed true x color text h = omega arith
print-closed false x color text h = omega arith

console_emit-closed :
    (c : Console) (level : ℕ) (text : Bytes) (h : ℕ) → closed h (console_emit c level text) ≡ 0
unfolding console_emit
console_emit-closed c level text h =
    let target = if leb warn level && is_open c.err then c.err else c.out in
    let tty = if same_stream target c.err then c.color_err_tty else c.color_out_tty in
    print-closed (c.enable_color && tty) (stream_of target) (level_color level) text h

-- what a write leaves of a sink: its handle
abbrev Written : Sink → Sink × List Effect → Type 0
Written s (s', out) = (s'.handle ≡ s.handle) × ((h : ℕ) → closed h out ≡ 0)

write_kind-Written :
    (k : Kind) (s : Sink) (level : ℕ) (text : Bytes) → Written s (write_kind k s level text)
unfolding write_kind
write_kind-Written (Kind.console c) s level text = (refl, console_emit-closed c level text)
write_kind-Written (Kind.callback last) s level text = (refl, λ h. omega arith)
write_kind-Written Kind.syslog s level text = (refl, λ h. omega arith)
write_kind-Written Kind.event_log s level text = (refl, λ h. refl)
write_kind-Written Kind.android_log s level text = (refl, λ h. refl)
write_kind-Written Kind.apple_log s level text = (refl, λ h. refl)
write_kind-Written Kind.file s level text = (refl, λ h. omega arith)
write_kind-Written Kind.network s level text = (refl, λ h. omega arith)

sink_write-Written : (s : Sink) (level : ℕ) (text : Bytes) → Written s (sink_write s level text)
unfolding sink_write
sink_write-Written s level text = elim (Bool-cases (ltb level s.min_level)) [
  | inl e ↦ rw e (refl, λ h. refl)
  | inr e ↦ rw e (write_kind-Written s.kind s level text)
]

emitted-Written :
    (level : ℕ) (text : Bytes) (s : Sink) (hit : Bool)
    → Written s (if hit then sink_write s level text else (s, []))
emitted-Written level text s true = sink_write-Written s level text
emitted-Written level text s false = (refl, λ h. refl)

pub emit_to_sinks-Benign :
    (level : ℕ) (text : Bytes) (target : ℕ) (ss : List Sink)
    → Benign ss (emit_to_sinks level text target ss).0 (emit_to_sinks level text target ss).1
unfolding emit_to_sinks
emit_to_sinks-Benign level text target [] = Benign-none []
emit_to_sinks-Benign level text target (s ∷ ss) =
    let (s', out) = if is_target target s then sink_write s level text else (s, []) in
    let (same, quiet) = emitted-Written level text s (is_target target s) in
    let later = emit_to_sinks-Benign level text target ss in
    record {
      same = λ h. ap₂ ◌+◌ (ap (λ x. one_if (x == h)) same) (later.same h);
      open_still = λ h. omega (
        arith,
        closed-append h out (emit_to_sinks level text target ss).1,
        quiet h,
        later.open_still h,
      );
    }
