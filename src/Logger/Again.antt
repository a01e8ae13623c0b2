-- ===== src/Logger/Again.antt =====
-- src/hx_clog_core.c: getting a logger again, after other calls on the registry.
use hx_clog.Common.{
  ℕ, ◌-◌, ◌<◌, ◌≡◌, refl, ◌∙◌, sym, ap, Bool, true, false, [], ◌∷◌, Option, none, some, ltb, arith,
  inl, inr, Bool-cases, Option-cases, Bytes, length, take, take-of_le, eqs, eqs_iff,
}
use hx_clog.Level.{off}
use hx_clog.Logger.{
  name_cap, Logger, Registry, find_in, name_or_default, register, get_at, logger_get, descends,
  set_levels, with_prefix, set_level_for_prefix,
}
use hx_clog.Logger.Prefix.{found_new, leveled, set_levels-find}

-- what calls for loggers and for the levels of prefixes make of a registry, with names that fit
-- into the buffer; with or without memory
pub data Run (r : Registry) : Registry → Type 0 where
  stays : Run r r
  gets :
      {r' : Registry} (given : Bool) (asked : Option Bytes)
      → length (name_or_default asked) < name_cap
      → Run r r'
      → Run r (logger_get given r' asked).1
  sets :
      {r' : Registry} (given : Bool) (prefix : Bytes) (level : ℕ)
      → length prefix < name_cap
      → Run r r'
      → Run r (set_level_for_prefix given r' (some prefix) level).1

-- the logger found under the name has the number
Keeps : Bytes → ℕ → Registry → Type 0
Keeps name id r = (l : Logger) × (find_in r.loggers name ≡ some l) × (l.id ≡ id)

get-Keeps :
    (given : Bool) (name : Bytes) (id : ℕ) (r : Registry) (other : Bytes)
    → length other < name_cap
    → Keeps name id r
    → Keeps name id (get_at given r other (find_in r.loggers other)).1
unfolding Keeps get_at register find_in
get-Keeps false name id r other short (l, found, same) =
    elim (Option-cases (find_in r.loggers other)) [
      | inr (l', here) ↦ rw here (l, found, same)
      | inl absent ↦ rw absent (l, found, same)
    ]
get-Keeps true name id r other short (l, found, same) =
    let whole : take (name_cap - 1) other ≡ other = take-of_le (name_cap - 1) other (omega arith) in
    elim (Option-cases (find_in r.loggers other)) [
      | inr (l', here) ↦ rw here (l, found, same)
      | inl absent ↦ elim (Bool-cases (eqs other name)) [
        | inr differs ↦ simp (absent, whole, differs) (l, found, same)
        | inl equal ↦
            let clash : none ≡ some l =
              sym absent ∙ ap (find_in r.loggers) ((eqs_iff other name).0 equal) ∙ found in
            cc
      ]
    ]

set-Keeps :
    (prefix : Bytes) (level : ℕ) (name : Bytes) (id : ℕ) (r : Registry)
    → Keeps name id r
    → Keeps name id (record r { loggers = set_levels prefix level r.loggers })
unfolding Keeps leveled
set-Keeps prefix level name id r (l, found, same) =
    let at = set_levels-find prefix level r.loggers name in
    elim (Bool-cases (descends prefix name)) [
      | inl d ↦ (record l { level = level }, at ∙ rw (found, d) refl, same)
      | inr d ↦ (l, at ∙ rw (found, d) refl, same)
    ]

with_prefix-Keeps :
    (given : Bool) (prefix : Bytes) (name : Bytes) (id : ℕ) (r : Registry)
    → length prefix < name_cap
    → Keeps name id r
    → Keeps name id (with_prefix given r prefix)
unfolding with_prefix logger_get name_or_default
with_prefix-Keeps given [] name id r short h = h
with_prefix-Keeps given (c ∷ p) name id r short h = get-Keeps given name id r (c ∷ p) short h

Run-Keeps :
    {r r' : Registry} (name : Bytes) (id : ℕ) → Run r r' → Keeps name id r → Keeps name id r'
unfolding logger_get set_level_for_prefix
Run-Keeps name id Run.stays h = h
Run-Keeps name id (Run.gets {r'} given asked short run) h =
    get-Keeps given name id r' (name_or_default asked) short (Run-Keeps name id run h)
Run-Keeps name id (Run.sets {r'} given prefix level short run) h =
    let k = Run-Keeps name id run h in
    elim (Bool-cases (ltb off level)) [
      | inl above ↦ simp above k
      | inr is_level ↦ simp is_level (
          set-Keeps prefix level name id (with_prefix given r' prefix)
            (with_prefix-Keeps given prefix name id r' short k))
    ]

-- what a first call with memory at hand hands out is found under the name
got-Keeps :
    (r : Registry) (name : Bytes)
    → length name < name_cap
    → (l : Logger) × ((get_at true r name (find_in r.loggers name)).0 ≡ some l)
      × Keeps name l.id (get_at true r name (find_in r.loggers name)).1
unfolding get_at Keeps
got-Keeps r name short = elim (Option-cases (find_in r.loggers name)) [
  | inr (l, here) ↦ rw here (l, refl, (l, here, refl))
  | inl absent ↦
      let lg = (register r name).0 in rw absent (lg, refl, (lg, found_new r name short, refl))
]

-- Once a logger was got with memory at hand, a later call with its name gives the logger with the
-- same number and leaves the registry as it is, whatever loggers were got and whatever levels of
-- prefixes were set in between, with or without memory. All names have less than 128 bytes.
pub logger_get-again :
    (r : Registry) {r' : Registry} (asked : Option Bytes) (given : Bool)
    → length (name_or_default asked) < name_cap
    → Run (logger_get true r asked).1 r'
    → (l : Logger) × (l' : Logger) × ((logger_get true r asked).0 ≡ some l)
      × (logger_get given r' asked ≡ (some l', r'))
      × (l'.id ≡ l.id)
unfolding logger_get get_at Keeps
logger_get-again r {r'} asked given short run =
    let name = name_or_default asked in
    let (l, got, first) = got-Keeps r name short in
    let (l', found, same) = Run-Keeps name l.id run first in
    (l, l', got, ap (get_at given r' name) found, same)
