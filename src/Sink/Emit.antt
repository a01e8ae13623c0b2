-- ===== src/Sink/Emit.antt =====
-- src/hx_clog_core.c, src/hx_clog_sink.c: which sinks a line reaches, and with what.
use hx_clog.Common.{
  ℕ, ◌≡◌, refl, ap₂, inl, inr, Bool, true, false, List, [], ◌∷◌, ◌++◌, map, ltb, if◌then◌else◌,
  Bool-cases, Bytes,
}
use hx_clog.Sink.{Kind, Sink, Effect, write_kind, sink_write}
use hx_clog.Sink.Registry.{is_target, emit_to_sinks}

-- a sink without the level that its callback was last given
abbrev pub plain_kind : Kind → Kind
plain_kind (Kind.callback last) = Kind.callback 0
plain_kind (Kind.console c) = Kind.console c
plain_kind Kind.file = Kind.file
plain_kind Kind.syslog = Kind.syslog
plain_kind Kind.event_log = Kind.event_log
plain_kind Kind.android_log = Kind.android_log
plain_kind Kind.apple_log = Kind.apple_log
plain_kind Kind.network = Kind.network

abbrev pub plain : Sink → Sink
plain s = record s { kind = plain_kind s.kind }

write_kind-plain :
    (k : Kind) (s : Sink) (level : ℕ) (text : Bytes)
    → s.kind ≡ k
    → (plain (write_kind k s level text).0 ≡ plain s)
      × ((write_kind k s level text).1 ≡ (write_kind (plain_kind k) (plain s) level text).1)
unfolding write_kind
write_kind-plain (Kind.callback last) s level text e = (rw e refl, refl)
write_kind-plain (Kind.console c) s level text e = (refl, refl)
write_kind-plain Kind.file s level text e = (refl, refl)
write_kind-plain Kind.syslog s level text e = (refl, refl)
write_kind-plain Kind.event_log s level text e = (refl, refl)
write_kind-plain Kind.android_log s level text e = (refl, refl)
write_kind-plain Kind.apple_log s level text e = (refl, refl)
write_kind-plain Kind.network s level text e = (refl, refl)

guarded-plain :
    (low : Bool) (s : Sink) (level : ℕ) (text : Bytes)
    → let out = if low then (s, []) else write_kind s.kind s level text in
      (plain out.0 ≡ plain s)
      × (out.1 ≡ (if low then (plain s, []) else write_kind (plain s).kind (plain s) level text).1)
guarded-plain true s level text = (refl, refl)
guarded-plain false s level text = write_kind-plain s.kind s level text refl

sink_write-plain :
    (s : Sink) (level : ℕ) (text : Bytes)
    → (plain (sink_write s level text).0 ≡ plain s)
      × ((sink_write s level text).1 ≡ (sink_write (plain s) level text).1)
unfolding sink_write
sink_write-plain s level text = guarded-plain (ltb level s.min_level) s level text

-- one round of the loop
abbrev pub emitted : ℕ → Bytes → ℕ → Sink → Sink × List Effect
emitted level text target s = if is_target target s then sink_write s level text else (s, [])

emitted-plain :
    (level : ℕ) (text : Bytes) (target : ℕ) (s : Sink)
    → (plain (emitted level text target s).0 ≡ plain s)
      × ((emitted level text target s).1 ≡ (emitted level text target (plain s)).1)
unfolding is_target
emitted-plain level text target s = elim (Bool-cases (is_target target s)) [
  | inl e ↦ rw e (sink_write-plain s level text)
  | inr e ↦ rw e (refl, refl)
]

-- A line changes no sink but for that level, and what it does does not depend on that level.
pub emit_to_sinks-plain :
    (level : ℕ) (text : Bytes) (target : ℕ) (ss : List Sink)
    → (map plain (emit_to_sinks level text target ss).0 ≡ map plain ss)
      × ((emit_to_sinks level text target ss).1
          ≡ (emit_to_sinks level text target (map plain ss)).1)
unfolding emit_to_sinks
emit_to_sinks-plain level text target [] = (refl, refl)
emit_to_sinks-plain level text target (s ∷ ss) =
    let (same, out) = emitted-plain level text target s in
    let (rest, outs) = emit_to_sinks-plain level text target ss in
    (ap₂ (λ x xs. x ∷ xs) same rest, ap₂ (λ x xs. x ++ xs) out outs)
