-- ===== src/Duplicates/Events.antt =====
-- src/hx_clog_core.c: calls that log, flush and set the suppression, with the output that they bring.
use hx_clog.Common.{
  ℕ, ◌+◌, ◌≤◌, ◌≡◌, refl, inl, inr, Bool, true, false, List, [], ◌∷◌, ◌++◌, Option, none, some, ltb,
  if◌then◌else◌, Bool-cases,
}
use hx_clog.Duplicates.{
  Dup, Call, Summary, pending, check_and_update, flush_pending, set_duplicate_suppression,
}
use hx_clog.Duplicates.Keys.{Key, key_of, last_key, Out, passed, repeated, expand, last_of}

-- the calls of the application, with the output that each brings
pub data Event : Type 0 where
  logs : Call → Event
  flushes : Event
  sets : Bool → ℕ → Event

unfoldable pub summarised : Option Summary → List Out
summarised none = []
summarised (some s) = repeated s.repeats ∷ []

-- an event: its output and the new state
unfoldable pub step : Event → Dup → List Out × Dup
step (logs c) d =
    let (suppressed, s, d') = check_and_update d c in
    (summarised s ++ (if suppressed then [] else passed (key_of c) ∷ []), d')
step flushes d = let (s, d') = flush_pending d in (summarised s, d')
step (sets enable window_ms) d =
    let (s, d') = set_duplicate_suppression enable window_ms d in (summarised s, d')

unfoldable pub run : List Event → Dup → List Out × Dup
run [] d = ([], d)
run (e ∷ es) d = let (os, d') = step e d in let (rest, d'') = run es d' in (os ++ rest, d'')

-- the messages of some events
unfoldable pub keys_of : List Event → List Key
keys_of [] = []
keys_of (logs c ∷ es) = key_of c ∷ keys_of es
keys_of (flushes ∷ es) = keys_of es
keys_of (sets enable window_ms ∷ es) = keys_of es

-- the repeats that no summary has told yet
abbrev pub owed : Dup → List Out
owed d = if ltb 0 d.repeats then repeated d.repeats ∷ [] else []

-- Repeats are owed only of a message that is remembered, and none is while the suppression is off.
pub record IsValid (last : Option Key) (d : Dup) : Type 0 where
  pub held : d.have_last ≡ true → last ≡ some (last_key d)
  pub owing : d.have_last ≡ false → d.repeats ≡ 0
  pub off : d.enabled ≡ false → d.have_last ≡ false

pub summarised-pending : (d : Dup) → summarised (pending d) ≡ owed d
unfolding summarised pending
summarised-pending d = elim (Bool-cases (ltb 0 d.repeats)) [ inl e ↦ rw e refl | inr e ↦ rw e refl ]

pub last_of-owed : (last : Option Key) (d : Dup) → last_of last (owed d) ≡ last
unfolding last_of
last_of-owed last d = elim (Bool-cases (ltb 0 d.repeats)) [ inl e ↦ rw e refl | inr e ↦ rw e refl ]

pub no_owed : (d : Dup) → d.repeats ≡ 0 → owed d ≡ []
no_owed d e = rw e refl

-- What an event does, after a message `last` and with the repeats that are owed.
pub record Goes (last : Option Key) (d : Dup) (keys : List Key) (out : List Out × Dup)
    : Type 0 where
  pub valid : IsValid (last_of last out.0) out.1
  pub told :
      expand last (owed d) ++ keys ≡ expand last out.0 ++ expand (last_of last out.0) (owed out.1)
  pub few : out.1.repeats ≤ d.repeats + 1
