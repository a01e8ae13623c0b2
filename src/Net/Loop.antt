-- ===== src/Net/Loop.antt =====
-- src/hx_clog_net.c: the loop of `net_write` that sends a line in parts.
use hx_clog.Common.{
  ℕ, zero, suc, ◌+◌, ◌<◌, ◌≡◌, refl, ◌∙◌, ap, inl, inr, Bool, true, false, List, [], ◌∷◌, ◌++◌,
  append_assoc, Option, none, some, arith, ◌==◌, Bool-cases, ◌>>=◌, if◌then◌else◌, Bytes, take,
  drop, length, length-drop, take-append-drop, Ends, Ends-bind,
}
use hx_clog.Net.{Event, send_all}
use hx_clog.Net.Events.{gather, taken, Calm, Calm-nil, Calm-sends}

-- The bytes taken are a first part of the text, and all of it where the loop is done.
abbrev pub Part : Bytes → Bool × List Event → Type 0
Part text (done, es) =
    Calm es × (rest : Bytes) × (gather taken es ++ rest ≡ text) × (done ≡ true → rest ≡ [])

module _ (send : ℕ → Bytes → Option ℕ) (fd : ℕ) where
  Part-sends :
      (s : ℕ) (text : Bytes) (r : Bool × List Event)
      → Part (drop s text) r
      → Part text (r.0, Event.sends fd (take s text) ∷ r.1)
  Part-sends s text (done, es) (calm, rest, eq, whole) = (
    Calm-sends fd (take s text) es calm,
    rest,
    append_assoc (take s text) (gather taken es) rest
        ∙ ap (◌++◌ (take s text)) eq
        ∙ take-append-drop s text,
    whole,
  )

  round_lem :
      (fuel k : ℕ) (text : Bytes)
      → ((s : ℕ) → 0 < s → Ends (Part (drop s text)) (send_all send fuel fd (k + 1) (drop s text)))
      → (o : Option ℕ)
      → Ends (Part text) (elim o [
        | none ↦ some (false, [])
        | some s ↦
            if s == 0
            then some (false, [])
            else (send_all send fuel fd (k + 1) (drop s text) >>= λ r.
                some (r.0, Event.sends fd (take s text) ∷ r.1))
      ])
  round_lem fuel k text more none = (Calm-nil, text, refl, λ d. absurd (cc d))
  round_lem fuel k text more (some s) = elim (Bool-cases (s == 0)) [
    | inl e ↦ rw e (Calm-nil, text, refl, λ d. absurd (cc d))
    | inr e ↦ rw e (
        Ends-bind (Part (drop s text)) (Part text) (send_all send fuel fd (k + 1) (drop s text))
          (λ r. some (r.0, Event.sends fd (take s text) ∷ r.1)) (more s (ground (arith, e)))
          (λ r p. Part-sends s text r p))
  ]

  -- The loop ends: each round takes at least a byte.
  pub send_all_lem :
      (fuel k : ℕ) (text : Bytes)
      → length text < fuel
      → Ends (Part text) (send_all send fuel fd k text)
  unfolding send_all
  send_all_lem zero k text h = absurd (omega arith)
  send_all_lem (suc fuel) k [] h = (Calm-nil, [], refl, λ d. refl)
  send_all_lem (suc fuel) k (c ∷ text) h =
      round_lem fuel k (c ∷ text)
        (λ s pos.
          send_all_lem fuel (k + 1) (drop s (c ∷ text)) (omega (arith, length-drop s (c ∷ text))))
        (send k (c ∷ text))
