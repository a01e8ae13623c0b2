-- ===== src/Sink/Shown.antt =====
-- src/hx_clog_sink.c: what a line at a sink has to do, told apart from `hx_sink_write`.
use hx_clog.Common.{
  ℕ, ◌≡◌, refl, inl, inr, Bool, true, false, ◌&&◌, List, [], ◌∷◌, Option, none, some, ltb, leb,
  if◌then◌else◌, Bool-cases, arith, Bytes,
}
use hx_clog.Level.{warn}
use hx_clog.Sink.{
  Stream, Console, Kind, Sink, Effect, level_color, color_reset, priority, same_stream, is_open,
  stream_of, console_emit, write_kind, sink_write,
}

-- Warnings and what is worse go to the error stream, if there is one.
stream_for : Option Stream → ℕ → Option Stream → Option Stream
stream_for out level none = out
stream_for out level (some s) = if ltb level warn then out else some s

-- Colours are for terminals.
is_colored : Console → Option Stream → Bool
is_colored c s =
    c.enable_color && (if same_stream s c.err then c.color_err_tty else c.color_out_tty)

-- the text between the colour of its level and the end of the colour, or alone
dressed : Bool → Stream → ℕ → Bytes → List Effect
dressed false s level text = Effect.prints s text ∷ []
dressed true s level text =
    Effect.prints s (level_color level) ∷ Effect.prints s text ∷ Effect.prints s color_reset ∷ []

-- the one effect of a text at a sink that takes it
at_kind : Kind → ℕ → ℕ → Bytes → List Effect
unfolding stream_for is_colored dressed
at_kind (Kind.console c) handle level text =
    let s = stream_for c.out level c.err in dressed (is_colored c s) (stream_of s) level text
at_kind (Kind.callback last) handle level text = Effect.calls handle level text ∷ []
at_kind Kind.syslog handle level text = Effect.logs (priority level) text ∷ []
at_kind Kind.file handle level text = Effect.writes handle text ∷ []
at_kind Kind.network handle level text = Effect.writes handle text ∷ []
at_kind Kind.event_log handle level text = []
at_kind Kind.android_log handle level text = []
at_kind Kind.apple_log handle level text = []

-- what a text of a level does at a sink: nothing, if the level is below that of the sink
unfoldable pub shown : Sink → ℕ → Bytes → List Effect
unfolding at_kind
shown s level text = if leb s.min_level level then at_kind s.kind s.handle level text else []

stream_for_lem :
    (out : Option Stream) (level : ℕ) (err : Option Stream)
    → (if leb warn level && is_open err then err else out) ≡ stream_for out level err
unfolding stream_for is_open
stream_for_lem out level none = ground arith
stream_for_lem out level (some s) = ground arith

dressed_lem :
    (b : Bool) (s : Stream) (level : ℕ) (text : Bytes)
    → (if b
        then Effect.prints s (level_color level)
          ∷ Effect.prints s text
          ∷ Effect.prints s color_reset
          ∷ []
        else Effect.prints s text ∷ [])
      ≡ dressed b s level text
unfolding dressed
dressed_lem true s level text = refl
dressed_lem false s level text = refl

console_emit-at_kind :
    (c : Console) (handle level : ℕ) (text : Bytes)
    → console_emit c level text ≡ at_kind (Kind.console c) handle level text
unfolding console_emit at_kind is_colored
console_emit-at_kind c handle level text =
    let s = stream_for c.out level c.err in
    rw (stream_for_lem c.out level c.err) (dressed_lem (is_colored c s) (stream_of s) level text)

write_kind-at_kind :
    (k : Kind) (s : Sink) (level : ℕ) (text : Bytes)
    → (write_kind k s level text).1 ≡ at_kind k s.handle level text
unfolding write_kind at_kind
write_kind-at_kind (Kind.console c) s level text = console_emit-at_kind c s.handle level text
write_kind-at_kind (Kind.callback last) s level text = refl
write_kind-at_kind Kind.syslog s level text = refl
write_kind-at_kind Kind.event_log s level text = refl
write_kind-at_kind Kind.android_log s level text = refl
write_kind-at_kind Kind.apple_log s level text = refl
write_kind-at_kind Kind.file s level text = refl
write_kind-at_kind Kind.network s level text = refl

lt→leb : (a b : ℕ) → ltb b a ≡ true → leb a b ≡ false
lt→leb a b h = ground (arith, h)

ge→leb : (a b : ℕ) → ltb b a ≡ false → leb a b ≡ true
ge→leb a b h = ground (arith, h)

pub sink_write-shown :
    (s : Sink) (level : ℕ) (text : Bytes) → (sink_write s level text).1 ≡ shown s level text
unfolding sink_write shown
sink_write-shown s level text = elim (Bool-cases (ltb level s.min_level)) [
  | inl low ↦ rw (low, lt→leb s.min_level level low) refl
  | inr high ↦ rw (high, ge→leb s.min_level level high) (write_kind-at_kind s.kind s level text)
]
