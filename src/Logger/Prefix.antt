-- ===== src/Logger/Prefix.antt =====
-- src/hx_clog_core.c: setting the level of a prefix, and the loggers that are got under it.
use mathlib.Core.List.{map-append, map-map}
use hx_clog.Rotate.Fresh.{has_prefix-append, drop-length_append}
use hx_clog.Common.{
  append_assoc, append-nil, ℕ, ◌-◌, ◌≤◌, ◌<◌, ◌≡◌, refl, ◌∙◌, sym, ap, Bool, true, false, ◌||◌,
  List, [], ◌∷◌, ◌++◌, map, Option, none, some, ltb, ◌==◌, arith, inl, inr, if◌then◌else◌,
  Bool-cases, Option-cases, Bytes, length, length-append, ge→ltb, take, take-of_le, drop, eqs,
  eqs_iff,
}
use hx_clog.Level.{off}
use hx_clog.Rotate.{has_prefix}
use hx_clog.Logger.{
  name_cap, Logger, Registry, find_in, name_or_default, register, get_at, logger_get, ends_part,
  descends, set_levels, with_prefix, set_level_for_prefix,
}
use hx_clog.Logger.Inherit.{ancestors, first_level, inherited_level-first}

eqs_refl : (s : Bytes) → eqs s s ≡ true
eqs_refl s = (eqs_iff s s).1 refl

-- the new logger is found under its name
pub found_new :
    (r : Registry) (name : Bytes)
    → length name < name_cap
    → find_in (register r name).1.loggers name ≡ some (register r name).0
unfolding register find_in
found_new r name short =
    let whole : take (name_cap - 1) name ≡ name = take-of_le (name_cap - 1) name (omega arith) in
    rw (whole, eqs_refl name) refl

-- what a change of the levels makes of a logger that is found under a name
unfoldable pub leveled : Bytes → ℕ → Bytes → Option Logger → Option Logger
leveled prefix level name none = none
leveled prefix level name (some l) =
    some (if descends prefix name then record l { level = level } else l)

pub set_levels-find :
    (prefix : Bytes) (level : ℕ) (ls : List Logger) (name : Bytes)
    → find_in (set_levels prefix level ls) name ≡ leveled prefix level name (find_in ls name)
unfolding set_levels find_in leveled
set_levels-find prefix level [] name = refl
set_levels-find prefix level (l ∷ ls) name =
    let rest = set_levels-find prefix level ls name in
    elim (Bool-cases (eqs l.name name)) [
      | inl e ↦
          let same : l.name ≡ name = (eqs_iff l.name name).0 e in
          elim (Bool-cases (descends prefix name)) [
            | inl d ↦ simp (same, d, eqs_refl name) refl
            | inr d ↦ simp (same, d, eqs_refl name) refl
          ]
      | inr e ↦ elim (Bool-cases (descends prefix l.name)) [
        | inl d ↦ simp (d, e, rest) refl
        | inr d ↦ simp (d, e, rest) refl
      ]
    ]

-- Everything under a prefix: its own ancestors are the last of the ancestors.
ancestors-under :
    (prefix x : Bytes)
    → ancestors (prefix ++ b'.' ∷ x)
      ≡ map (λ y. prefix ++ b'.' ∷ y) (ancestors x) ++ prefix ∷ ancestors prefix
unfolding ancestors
ancestors-under [] x = refl
ancestors-under (c ∷ p) x =
    let below = map (λ y. p ++ b'.' ∷ y) (ancestors x) in
    let own = if c == b'.' then [] ∷ [] else [] in
    ap (λ a. map (◌∷◌ c) a ++ own) (ancestors-under p x)
    ∙ ap (λ a. a ++ own) (map-append (◌∷◌ c) below (p ∷ ancestors p))
    ∙ append_assoc (map (◌∷◌ c) below) (map (◌∷◌ c) (p ∷ ancestors p)) own
    ∙ ap (λ a. a ++ (c ∷ p) ∷ ancestors (c ∷ p))
        (map-map (◌∷◌ c) (λ y. p ++ b'.' ∷ y) (ancestors x))

or_true : (b : Bool) → (b || true) ≡ true
or_true true = refl
or_true false = refl

descends-under : (prefix x : Bytes) → descends prefix (prefix ++ b'.' ∷ x) ≡ true
unfolding descends ends_part
descends-under prefix x =
    rw (has_prefix-append prefix (b'.' ∷ x), drop-length_append prefix (b'.' ∷ x))
      (or_true (length prefix == 0))

descends_self : (prefix : Bytes) → descends prefix prefix ≡ true
unfolding descends ends_part
descends_self prefix =
    let begins : has_prefix prefix prefix ≡ true =
      ap (λ s. has_prefix s prefix) (sym (append-nil prefix)) ∙ has_prefix-append prefix [] in
    let nothing : drop (length prefix) prefix ≡ [] =
      ap (drop (length prefix)) (sym (append-nil prefix)) ∙ drop-length_append prefix [] in
    rw (begins, nothing) (or_true (length prefix == 0))

-- in a registry whose levels were set, the level of what is under the prefix
first_level-under :
    (prefix : Bytes) (level default : ℕ) (ls : List Logger) {lg : Logger} (names : List Bytes)
    (more : List Bytes)
    → find_in ls prefix ≡ some lg
    → first_level
        (set_levels prefix level ls)
        default
        (map (λ y. prefix ++ b'.' ∷ y) names ++ prefix ∷ more)
      ≡ level
unfolding first_level leveled
first_level-under prefix level default ls [] more found =
    rw (set_levels-find prefix level ls prefix, found, descends_self prefix) refl
first_level-under prefix level default ls (y ∷ names) more found =
    let name = prefix ++ b'.' ∷ y in
    elim (Option-cases (find_in ls name)) [
      | inl absent ↦
          rw (set_levels-find prefix level ls name, absent)
            (first_level-under prefix level default ls names more found)
      | inr (l, here) ↦
          rw (set_levels-find prefix level ls name, here, descends-under prefix y) refl
    ]

-- the logger that is got after the levels of a registry that has the prefix were set
get-under :
    (r : Registry) (prefix x : Bytes) (level : ℕ) {lg : Logger}
    → find_in r.loggers prefix ≡ some lg
    → length (prefix ++ b'.' ∷ x) < name_cap
    → let r' = record r { loggers = set_levels prefix level r.loggers } in
      (l : Logger) × ((get_at true r'
          (prefix ++ b'.' ∷ x)
          (find_in r'.loggers (prefix ++ b'.' ∷ x))).0
        ≡ some l)
      × (l.level ≡ level)
unfolding get_at register leveled
get-under r prefix x level found short =
    let name = prefix ++ b'.' ∷ x in
    let r' = record r { loggers = set_levels prefix level r.loggers } in
    elim (Option-cases (find_in r.loggers name)) [
      | inr (l, here) ↦
          let at : find_in r'.loggers name ≡ some (record l { level = level }) =
            set_levels-find prefix level r.loggers name ∙ rw (here, descends-under prefix x) refl in
          (record l { level = level }, ap (λ o. (get_at true r' name o).0) at, refl)
      | inl absent ↦
          let at : find_in r'.loggers name ≡ none =
            set_levels-find prefix level r.loggers name ∙ rw absent refl in
          (
            (register r' name).0,
            ap (λ o. (get_at true r' name o).0) at,
            inherited_level-first r' name short
                ∙ ap (first_level r'.loggers r'.level) (ancestors-under prefix x)
                ∙ first_level-under prefix level r.level r.loggers (ancestors x) (ancestors prefix)
                    found,
          )
    ]

-- The logger of the prefix is there once it was asked for with memory at hand.
with_prefix-find :
    (r : Registry) (c : ℕ) (p : Bytes)
    → length (c ∷ p) < name_cap
    → (lg : Logger) × (find_in (with_prefix true r (c ∷ p)).loggers (c ∷ p) ≡ some lg)
unfolding with_prefix logger_get get_at register find_in name_or_default
with_prefix-find r c p short = elim (Option-cases (find_in r.loggers (c ∷ p))) [
  | inr (l, found) ↦
      let got : logger_get true r (some (c ∷ p)) ≡ (some l, r) = ap (get_at true r (c ∷ p)) found in
      (l, ap (λ g. find_in g.1.loggers (c ∷ p)) got ∙ found)
  | inl absent ↦
      let (lg, r') = register r (c ∷ p) in
      let got : logger_get true r (some (c ∷ p)) ≡ (some lg, r') =
        ap (get_at true r (c ∷ p)) absent in
      let found = found_new r (c ∷ p) short in
      (lg, ap (λ g. find_in g.1.loggers (c ∷ p)) got ∙ found)
]

-- After the level of a prefix has been set, each logger that is got under the prefix has that
-- level, whether it was there before or is new. The prefix is not empty, the name has less than
-- 128 bytes, the level is one of the levels, and there is memory.
pub set_level_for_prefix-get :
    (r : Registry) (c : ℕ) (p x : Bytes) (level : ℕ)
    → level ≤ off
    → length ((c ∷ p) ++ b'.' ∷ x) < name_cap
    → (l : Logger) × ((logger_get true
          (set_level_for_prefix true r (some (c ∷ p)) level).1
          (some ((c ∷ p) ++ b'.' ∷ x))).0
        ≡ some l)
      × (l.level ≡ level)
unfolding set_level_for_prefix logger_get name_or_default
set_level_for_prefix-get r c p x level h short =
    let (lg, found) = with_prefix-find r c p (omega (arith, length-append (c ∷ p) (b'.' ∷ x))) in
    let is_level : ltb off level ≡ false = ge→ltb off level h in
    rw is_level (get-under (with_prefix true r (c ∷ p)) (c ∷ p) x level found short)
