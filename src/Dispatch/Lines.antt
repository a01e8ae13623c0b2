-- ===== src/Dispatch/Lines.antt =====
-- src/hx_clog_core.c: the lines of a record, and what they do when they go straight to the sinks.
use hx_clog.Common.{
  ℕ, ◌+◌, ◌%◌, ◌^◌, ◌≤◌, ◌≡◌, ◌⊎◌, refl, ◌∙◌, ap, ap₂, sym, inl, inr, Bool, true, false, not, List,
  [], ◌∷◌, ◌++◌, map, Option, none, some, arith, ltb, lt→ltb, ltb→ge, if◌then◌else◌, Bool-cases,
  Bytes, take, length,
}
use hx_clog.Format.Record.{Tm, Record}
use hx_clog.Format.Retry
use hx_clog.Format.Retry.{Format, format_with_retry}
use hx_clog.Async.{Line}
use hx_clog.Sink.{Sink}
use hx_clog.Sink.Registry.{max_sinks, Sinks, overrides, emit_to_sinks}
use hx_clog.Sink.Parts.{All}
use hx_clog.Sink.Invariant.{IsValid}
use hx_clog.Sink.Emit.{plain, emit_to_sinks-plain}
use hx_clog.Sink.Shown.{shown}
use hx_clog.Sink.Reach.{default_shown, own_shown, emit_to_sinks-default, Hits}
use hx_clog.Dispatch.{
  Core, add_written, core_emit, Override, snapshot, collect, is_empty, line_for, own_format,
  line_stack_size, own_lines, record_lines,
}
use hx_clog.Dispatch.Direct.{emit_all}

-- the overrides and the number of the sinks without one
unfoldable pub own_list : List Sink → List Override
own_list [] = []
own_list (s ∷ ss) = if s.override_set then snapshot s ∷ own_list ss else own_list ss

unfoldable pub default_count : List Sink → ℕ
default_count [] = 0
default_count (s ∷ ss) = if s.override_set then default_count ss else default_count ss + 1

collect_lem :
    (n : ℕ) (ss : List Sink)
    → n + length ss ≤ max_sinks
    → collect n ss ≡ (own_list ss, default_count ss)
unfolding collect own_list default_count
collect_lem n [] h = refl
collect_lem n (s ∷ ss) h = elim (Bool-cases s.override_set) [
  | inl e ↦ simp (e, lt→ltb n max_sinks (omega arith), collect_lem (n + 1) ss (omega arith))
  | inr e ↦ simp (e, collect_lem n ss (omega arith))
]

pub default_shown-none :
    (level : ℕ) (text : Bytes) (ss : List Sink)
    → default_count ss ≡ 0
    → default_shown level text ss ≡ []
unfolding default_shown default_count
default_shown-none level text [] e = refl
default_shown-none level text (s ∷ ss) e = elim (Bool-cases s.override_set) [
  | inl own ↦ simp (own, default_shown-none level text ss (rw own at e))
  | inr own ↦ let e' : default_count ss + 1 ≡ 0 = rw own at e in absurd (omega arith)
]

own_list-none : (ss : List Sink) → overrides ss ≡ 0 → own_list ss ≡ []
unfolding overrides own_list
own_list-none [] e = refl
own_list-none (s ∷ ss) e = elim (Bool-cases s.override_set) [
  | inl own ↦ let e' : overrides ss + 1 ≡ 0 = rw own at e in absurd (omega arith)
  | inr own ↦ simp (own, own_list-none ss (rw own at e))
]

-- the effect of a line on the core
counted_sinks : (b : Bool) (c : Core) → ((if b then add_written 1 c else c).sinks ≡ c.sinks)
unfolding add_written
counted_sinks true c = refl
counted_sinks false c = refl

counted_written :
    (b : Bool) (c : Core)
    → (if b then add_written 1 c else c).written
      ≡ (if b then (c.written + 1) % 2 ^ 64 else c.written)
unfolding add_written
counted_written true c = refl
counted_written false c = refl

core_emit-sinks :
    (c : Core) (l : Line)
    → (core_emit c l).0.sinks.sinks
      ≡ (emit_to_sinks l.level (take l.size l.text) l.target c.sinks.sinks).0
unfolding core_emit
core_emit-sinks c l =
    let ss = (emit_to_sinks l.level (take l.size l.text) l.target c.sinks.sinks).0 in
    let c' : Core = record c { sinks = record c.sinks { sinks = ss } } in
    ap (λ (x : Sinks). x.sinks) (counted_sinks l.count_stats c')

core_emit-written :
    (c : Core) (l : Line)
    → (core_emit c l).0.written ≡ (if l.count_stats then (c.written + 1) % 2 ^ 64 else c.written)
unfolding core_emit
core_emit-written c l =
    let ss = (emit_to_sinks l.level (take l.size l.text) l.target c.sinks.sinks).0 in
    let c' : Core = record c { sinks = record c.sinks { sinks = ss } } in
    counted_written l.count_stats c'

pattern_or :
    (b : Bool) (p : Bytes) (q : Option Bytes)
    → let o : Option Bytes = if b then some p else none in
      elim o [ none ↦ q | some own ↦ some own ] ≡ (if b then some p else q)
pattern_or true p q = refl
pattern_or false p q = refl

module _ (localtime : ℕ → Tm) (malloc : ℕ → Option Bytes) (stack : ℕ → Bytes) (rec : Record) where
  -- the text of the record in a format, printed into the stack buffer for the `k`th time
  abbrev pub text_for : ℕ → Format → Bytes
  text_for k g =
      let l = format_with_retry localtime malloc rec g (stack k) line_stack_size in
      take (Retry.Line.len l) (Retry.Line.line l)

  -- The format of a sink: its own mode, and its own pattern or else that of all. The formatter of
  -- the application is only for sinks without a format of their own.
  abbrev pub format_at : Format → Sink → Format
  format_at f s = record {
    pattern = if s.override_has_pattern then some s.override_pattern else f.pattern;
    mode = s.override_mode;
    formatter = none;
  }

  -- the text for a sink with a format of its own, next to the format of all
  abbrev pub text_of : Format → ℕ → Sink → Bytes
  text_of f k s = text_for k (format_at f s)

  own_format-format_at :
      (f : Format) (s : Sink) → own_format localtime malloc stack f (snapshot s) ≡ format_at f s
  unfolding own_format snapshot
  own_format-format_at f s =
      let with_pattern : Option Bytes → Format =
        λ p. record { pattern = p; mode = s.override_mode; formatter = none } in
      ap with_pattern (pattern_or s.override_has_pattern s.override_pattern f.pattern)

module _ (full : List Sink) where
  -- The sinks are those of `full` but for what their callbacks were last given.
  abbrev pub Stays : Core → Type 0
  Stays c = map plain c.sinks.sinks ≡ map plain full

  core_emit-Stays : (c : Core) (l : Line) → Stays c → Stays (core_emit c l).0
  core_emit-Stays c l same =
      ap (map plain) (core_emit-sinks c l)
      ∙ (emit_to_sinks-plain l.level (take l.size l.text) l.target c.sinks.sinks).0
      ∙ same

  core_emit-shown :
      (c : Core) (l : Line)
      → Stays c
      → (core_emit c l).1 ≡ (emit_to_sinks l.level (take l.size l.text) l.target full).1
  unfolding core_emit
  core_emit-shown c l same =
      (emit_to_sinks-plain l.level (take l.size l.text) l.target c.sinks.sinks).1
      ∙ ap (λ xs. (emit_to_sinks l.level (take l.size l.text) l.target xs).1) same
      ∙ sym (emit_to_sinks-plain l.level (take l.size l.text) l.target full).1

  module _ (localtime : ℕ → Tm) (malloc : ℕ → Option Bytes) (stack : ℕ → Bytes) (rec : Record)
      (f : Format) where
    pub own_lines-shown :
        (c : Core) (k : ℕ) (counted : Bool) (ys : List Sink)
        → Stays c
        → All (Hits rec.level full) ys
        → (emit_all c (own_lines localtime malloc stack k rec f counted (own_list ys))).1
          ≡ own_shown rec.level (text_of localtime malloc stack rec f) k ys
    unfolding own_lines own_list own_shown emit_all line_for snapshot
    own_lines-shown c k counted [] same h = refl
    own_lines-shown c k counted (s ∷ ys) same (hit, h) = elim (Bool-cases s.override_set) [
      | inl own ↦ simp own (
          let line =
            line_for localtime malloc stack k rec (own_format localtime malloc stack f (snapshot s))
              s.id (not counted) in
          ap₂ (λ x xs. x ++ xs)
            (core_emit-shown c line same
              ∙ hit (
                  text_for localtime malloc stack rec k
                    (own_format localtime malloc stack f (snapshot s)))
              ∙ ap (λ g. shown s rec.level (text_for localtime malloc stack rec k g))
                  (own_format-format_at localtime malloc stack rec f s))
            (own_lines-shown (core_emit c line).0 (k + 1) true ys (core_emit-Stays c line same) h))
      | inr own ↦ simp own (own_lines-shown c k counted ys same h)
    ]

    -- Of the lines only the first may count.
    counted_once :
        (c : Core) (k : ℕ) (os : List Override)
        → (emit_all c (own_lines localtime malloc stack k rec f true os)).0.written ≡ c.written
    unfolding own_lines emit_all line_for
    counted_once c k [] = refl
    counted_once c k (o ∷ os) =
        let line =
          line_for localtime malloc stack k rec (own_format localtime malloc stack f o) o.id
            false in
        counted_once (core_emit c line).0 (k + 1) os ∙ core_emit-written c line

    pub own_counted :
        (c : Core) (k : ℕ) (os : List Override)
        → is_empty os ≡ false
        → (emit_all c (own_lines localtime malloc stack k rec f false os)).0.written
          ≡ (c.written + 1) % 2 ^ 64
    unfolding own_lines emit_all line_for is_empty
    own_counted c k [] e = cc
    own_counted c k (o ∷ os) e =
        let line =
          line_for localtime malloc stack k rec (own_format localtime malloc stack f o) o.id true in
        counted_once (core_emit c line).0 (k + 1) os ∙ core_emit-written c line

    pub lines_by_default :
        (c : Core) (ss : List Sink)
        → Stays c
        → ss ≡ full
        → All (Hits rec.level full) full
        → let ls =
            line_for localtime malloc stack 0 rec f 0 true
            ∷ own_lines localtime malloc stack 1 rec f true (own_list ss) in
          ((emit_all c ls).0.written ≡ (c.written + 1) % 2 ^ 64)
          × ((emit_all c ls).1
              ≡ default_shown rec.level (text_for localtime malloc stack rec 0 f) full
                ++ own_shown rec.level (text_of localtime malloc stack rec f) 1 full)
    unfolding emit_all line_for
    lines_by_default c ss same is h =
        let line = line_for localtime malloc stack 0 rec f 0 true in
        let c' = (core_emit c line).0 in
        rw is (
          counted_once c' 1 (own_list full) ∙ core_emit-written c line,
          ap₂ (λ x xs. x ++ xs)
              (core_emit-shown c line same
                ∙ emit_to_sinks-default rec.level (text_for localtime malloc stack rec 0 f) full)
              (own_lines-shown c' 1 true full (core_emit-Stays c line same) h),
        )

-- which lines a record has
pub record_lines_lem :
    (localtime : ℕ → Tm) (malloc : ℕ → Option Bytes) (stack : ℕ → Bytes) (rec : Record) (f : Format)
    (r : Sinks)
    → IsValid r
    → (record_lines localtime malloc stack r rec f
        ≡ line_for localtime malloc stack 0 rec f 0 true
          ∷ own_lines localtime malloc stack 1 rec f true (own_list r.sinks))
      ⊎ ((default_count r.sinks ≡ 0)
          × (is_empty (own_list r.sinks) ≡ false)
          × (record_lines localtime malloc stack r rec f
              ≡ own_lines localtime malloc stack 1 rec f false (own_list r.sinks)))
unfolding record_lines
record_lines_lem localtime malloc stack rec f r v = elim (Bool-cases (ltb 0 r.override_count)) [
  | inr e ↦
      let none_own : overrides r.sinks ≡ 0 =
        omega (arith, ltb→ge 0 r.override_count e, v.counted) in
      inl (rw (e, own_list-none r.sinks none_own) refl)
  | inl e ↦
      let all = collect_lem 0 r.sinks (omega (arith, v.room)) in
      elim (Bool-cases (ltb 0 (default_count r.sinks))) [
        | inl d ↦ inl (rw (e, all, d) refl)
        | inr d ↦ elim (Bool-cases (is_empty (own_list r.sinks))) [
          | inl n ↦ inl (rw (e, all, d, n) refl)
          | inr n ↦
              inr (omega (arith, ltb→ge 0 (default_count r.sinks) d), n, rw (e, all, d, n) refl)
        ]
      ]
]
