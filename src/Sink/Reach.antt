-- ===== src/Sink/Reach.antt =====
-- src/hx_clog_core.c: a line for all sinks without a format of their own, and a line for one sink.
use hx_clog.Common.{
  ℕ, ◌+◌, ◌<◌, ◌≡◌, ◌≢◌, refl, ◌∙◌, ap₂, Bool, true, false, not, List, [], ◌∷◌, ◌++◌, append-nil,
  arith, ==_iff, ne→==, if◌then◌else◌, Bytes,
}
use hx_clog.Sink.{Sink, Effect, sink_write}
use hx_clog.Sink.Registry.{is_target, emit_to_sinks}
use hx_clog.Sink.Parts.{All, Distinct}
use hx_clog.Sink.Shown.{shown, sink_write-shown}

-- what a text does at the sinks without a format of their own
unfoldable pub default_shown : ℕ → Bytes → List Sink → List Effect
default_shown level text [] = []
default_shown level text (s ∷ ss) =
    (if s.override_set then [] else shown s level text) ++ default_shown level text ss

-- what a text for each of the others does at them, of which the first has number `k`
unfoldable pub own_shown : ℕ → (ℕ → Sink → Bytes) → ℕ → List Sink → List Effect
own_shown level text_of k [] = []
own_shown level text_of k (s ∷ ss) =
    if s.override_set
    then shown s level (text_of k s) ++ own_shown level text_of (k + 1) ss
    else own_shown level text_of k ss

module _ (level : ℕ) where
  first_default :
      (text : Bytes) (own : Bool) (s : Sink)
      → (if not own then sink_write s level text else (s, [])).1
        ≡ (if own then [] else shown s level text)
  first_default text true s = refl
  first_default text false s = sink_write-shown s level text

  pub emit_to_sinks-default :
      (text : Bytes) (ss : List Sink)
      → (emit_to_sinks level text 0 ss).1 ≡ default_shown level text ss
  unfolding emit_to_sinks default_shown is_target
  emit_to_sinks-default text [] = refl
  emit_to_sinks-default text (s ∷ ss) =
      ap₂ (λ x xs. x ++ xs) (first_default text s.override_set s) (emit_to_sinks-default text ss)

  emit_to_sinks-none :
      (text : Bytes) (target : ℕ) (ss : List Sink)
      → 0 < target
      → All (λ t. t.id ≢ target) ss
      → (emit_to_sinks level text target ss).1 ≡ []
  unfolding emit_to_sinks is_target
  emit_to_sinks-none text target [] pos h = refl
  emit_to_sinks-none text target (s ∷ ss) pos (n, h) =
      rw (ne→== target 0 (omega arith), ne→== s.id target n)
        (emit_to_sinks-none text target ss pos h)

  -- The sink is the only one among `ss` that a line for its id reaches.
  abbrev pub Hits : List Sink → Sink → Type 0
  Hits ss s = (text : Bytes) → (emit_to_sinks level text s.id ss).1 ≡ shown s level text

  Hits-first : (s : Sink) (ss : List Sink) → 0 < s.id → All (λ t. t.id ≢ s.id) ss → Hits (s ∷ ss) s
  unfolding emit_to_sinks is_target
  Hits-first s ss pos h text =
      rw (ne→== s.id 0 (omega arith), (==_iff s.id s.id).1 refl)
        (ap₂ (λ x xs. x ++ xs) (sink_write-shown s level text)
            (emit_to_sinks-none text s.id ss pos h)
          ∙ append-nil (shown s level text))

  Hits-later : (s t : Sink) (ss : List Sink) → 0 < t.id → t.id ≢ s.id → Hits ss t → Hits (s ∷ ss) t
  unfolding emit_to_sinks is_target
  Hits-later s t ss pos n h text =
      rw (ne→== t.id 0 (omega arith), ne→== s.id t.id (omega arith)) (h text)

  Hits-cons :
      (s : Sink) (ss ts : List Sink)
      → All (λ t. 0 < t.id) ts
      → All (λ t. t.id ≢ s.id) ts
      → All (Hits ss) ts
      → All (Hits (s ∷ ss)) ts
  Hits-cons s ss [] p n h = tt
  Hits-cons s ss (t ∷ ts) (pos, p) (ne, n) (hit, h) =
      (Hits-later s t ss pos ne hit, Hits-cons s ss ts p n h)

  pub Hits-All : (ss : List Sink) → All (λ s. 0 < s.id) ss → Distinct ss → All (Hits ss) ss
  Hits-All [] p d = tt
  Hits-All (s ∷ ss) (pos, p) (n, d) =
      (Hits-first s ss pos n, Hits-cons s ss ss p n (Hits-All ss p d))
