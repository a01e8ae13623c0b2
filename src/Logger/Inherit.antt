-- ===== src/Logger/Inherit.antt =====
-- src/hx_clog_core.c: the level that a new logger starts at.
use hx_clog.Common.{
  ℕ, zero, suc, ◌-◌, ◌<◌, ◌≡◌, refl, ◌∙◌, sym, ap, List, [], ◌∷◌, ◌++◌, map, Option, none, some,
  ◌==◌, arith, inl, inr, if◌then◌else◌, Bool-cases, Option-cases, Bytes, length, take-of_le,
}
use hx_clog.Rotate.{last_dot, dot_after}
use hx_clog.Logger.{name_cap, Logger, Registry, find_in, inherited_from, inherited_level}

-- the parts of a name before its dots, the longest first
unfoldable pub ancestors : Bytes → List Bytes
ancestors [] = []
ancestors (c ∷ s) = map (◌∷◌ c) (ancestors s) ++ (if c == b'.' then [] ∷ [] else [])

abbrev pub level_or : Option Logger → ℕ → ℕ
level_or (some l) default = l.level
level_or none default = default

-- the level of the first of the names that is registered
unfoldable pub first_level : List Logger → ℕ → List Bytes → ℕ
first_level ls default [] = default
first_level ls default (name ∷ names) = level_or (find_in ls name) (first_level ls default names)

last_dot-none : (s : Bytes) → last_dot s ≡ none → ancestors s ≡ []
unfolding last_dot dot_after ancestors
last_dot-none [] h = refl
last_dot-none (c ∷ s) h = elim (Option-cases (last_dot s)) [
  | inr ((b, a), e) ↦ let clash : some (c ∷ b, a) ≡ none = sym (ap (dot_after c s) e) ∙ h in cc
  | inl e ↦
      let at : dot_after c s none ≡ none = sym (ap (dot_after c s) e) ∙ h in
      elim (Bool-cases (c == b'.')) [
        | inl d ↦ let clash : some ([], s) ≡ none = rw d at at in cc
        | inr d ↦ rw (last_dot-none s e, d) refl
      ]
]

last_dot-some :
    (s before after : Bytes)
    → last_dot s ≡ some (before, after)
    → (ancestors s ≡ before ∷ ancestors before) × (length before < length s)
unfolding last_dot dot_after ancestors
last_dot-some [] before after h = cc
last_dot-some (c ∷ s) before after h = elim (Option-cases (last_dot s)) [
  | inr ((b, a), e) ↦
      let (parts, shorter) = last_dot-some s b a e in
      let at : some (c ∷ b, a) ≡ some (before, after) = sym (ap (dot_after c s) e) ∙ h in
      let same : before ≡ c ∷ b = cc in rw (same, parts) (refl, omega arith)
  | inl e ↦
      let at : dot_after c s none ≡ some (before, after) = sym (ap (dot_after c s) e) ∙ h in
      elim (Bool-cases (c == b'.')) [
        | inl d ↦
            let first : some ([], s) ≡ some (before, after) = rw d at at in
            let same : before ≡ [] = cc in rw (same, last_dot-none s e, d) (refl, omega arith)
        | inr d ↦ let clash : none ≡ some (before, after) = rw d at at in cc
      ]
]

inherited_from-first :
    (fuel : ℕ) (ls : List Logger) (default : ℕ) (buf : Bytes)
    → length buf < fuel
    → inherited_from fuel ls default buf ≡ first_level ls default (ancestors buf)
unfolding inherited_from first_level
inherited_from-first zero ls default buf h = absurd (omega arith)
inherited_from-first (suc fuel) ls default buf h = elim (Option-cases (last_dot buf)) [
  | inl e ↦ rw (e, inherited_from, last_dot-none buf e) refl
  | inr ((before, after), e) ↦
      let (parts, shorter) = last_dot-some buf before after e in
      elim (Option-cases (find_in ls before)) [
        | inr (l, found) ↦ rw (e, inherited_from, parts, found) refl
        | inl absent ↦
            rw (e, inherited_from, parts, absent)
              (inherited_from-first fuel ls default before (omega arith))
      ]
]

-- A new logger with a name of less than 128 bytes starts at the level of the first registered one
-- among the parts of its name before its dots, the longest first, and else at the global level.
pub inherited_level-first :
    (r : Registry) (name : Bytes)
    → length name < name_cap
    → inherited_level r name ≡ first_level r.loggers r.level (ancestors name)
unfolding inherited_level
inherited_level-first r name h =
    rw (take-of_le (name_cap - 1) name (omega arith))
      (inherited_from-first name_cap r.loggers r.level name h)
