-- ===== src/Logger.antt =====
-- src/hx_clog_core.c: the registry of named loggers. A pointer to a logger is the number of its
-- allocation; the registry's lock is held over each function.
pub mod Again
pub mod Inherit
pub mod Prefix
mod Tests
use hx_clog.Common.{
  ℕ, zero, suc, ◌+◌, ◌-◌, Bool, true, false, not, ◌&&◌, ◌||◌, List, [], ◌∷◌, ◌++◌, Option, none,
  some, ltb, leb, ◌==◌, if◌then◌else◌, Bytes, codes, length, take, drop, eqs,
}
use hx_clog.Status.{Status}
use hx_clog.Level.{off}
use hx_clog.Rotate.{last_dot, has_prefix}

-- `char name[128]`
abbrev pub name_cap : ℕ
name_cap = 128

-- `struct hx_clog_logger` without its link
pub record Logger : Type 0 where
  pub id : ℕ
  pub name : Bytes
  pub level : ℕ
  pub registered : Bool

-- `logger_head`, `logger_count` and `level` of `g_core`, and the number of the next allocation
pub record Registry : Type 0 where
  pub loggers : List Logger
  pub count : ℕ
  pub level : ℕ
  pub next : ℕ

-- `logger_find_locked`
unfoldable pub find_in : List Logger → Bytes → Option Logger
find_in [] name = none
find_in (l ∷ ls) name = let later = find_in ls name in if eqs l.name name then some l else later

unfoldable pub logger_find : Registry → Option Bytes → Option Logger
logger_find r none = none
logger_find r (some name) = find_in r.loggers name

-- The loop of `logger_inherited_level_locked`: the name is cut at its last dot, over and over. The
-- fuel is one more than the bytes of the buffer.
unfoldable pub inherited_from : ℕ → List Logger → ℕ → Bytes → ℕ
inherited_from zero ls default buf = default
inherited_from (suc fuel) ls default buf = elim (last_dot buf) [
  | none ↦ default
  | some (before, after) ↦ elim (find_in ls before) [
    | some anc ↦ anc.level
    | none ↦ inherited_from fuel ls default before
  ]
]

unfoldable pub inherited_level : Registry → Bytes → ℕ
inherited_level r name = inherited_from name_cap r.loggers r.level (take (name_cap - 1) name)

-- the name of a logger that is asked for; `none` is a null pointer
unfoldable pub name_or_default : Option Bytes → Bytes
name_or_default none = codes "hx_clog"
name_or_default (some []) = codes "hx_clog"
name_or_default (some (c ∷ name)) = c ∷ name

-- a logger that is not there yet, in front of the others
unfoldable pub register : Registry → Bytes → Logger × Registry
register r name =
    let lg : Logger = record {
      id = r.next;
      name = take (name_cap - 1) name;
      level = inherited_level r name;
      registered = true;
    } in
    (lg, record r { loggers = lg ∷ r.loggers; count = r.count + 1; next = r.next + 1 })

unfoldable pub get_at : Bool → Registry → Bytes → Option Logger → Option Logger × Registry
get_at given r name (some lg) = (some lg, r)
get_at given r name none =
    let (lg, r') = register r name in if given then (some lg, r') else (none, r)

-- `hx_clog_logger_get`; `given`: the logger could be allocated
unfoldable pub logger_get : Bool → Registry → Option Bytes → Option Logger × Registry
logger_get given r asked =
    let name = name_or_default asked in get_at given r name (find_in r.loggers name)

-- the end of the text, or a dot
unfoldable pub ends_part : Bytes → Bool
ends_part [] = true
ends_part (c ∷ s) = c == b'.'

-- the loggers that `hx_clog_set_level_for_prefix` is about
unfoldable pub descends : Bytes → Bytes → Bool
descends prefix name =
    length prefix == 0 || (has_prefix name prefix && ends_part (drop (length prefix) name))

unfoldable pub set_levels : Bytes → ℕ → List Logger → List Logger
set_levels prefix level [] = []
set_levels prefix level (l ∷ ls) =
    (if descends prefix l.name then record l { level = level } else l) ∷ set_levels prefix level ls

-- the registry in which the logger of the prefix is, if there is memory for it
unfoldable pub with_prefix : Bool → Registry → Bytes → Registry
with_prefix given r [] = r
with_prefix given r (c ∷ prefix) = (logger_get given r (some (c ∷ prefix))).1

unfoldable pub set_level_for_prefix : Bool → Registry → Option Bytes → ℕ → Status × Registry
set_level_for_prefix given r none level = (Status.invalid_argument, r)
set_level_for_prefix given r (some prefix) level =
    let r' = with_prefix given r prefix in
    if ltb off level
    then (Status.invalid_argument, r)
    else (Status.ok, record r' { loggers = set_levels prefix level r'.loggers })

unfoldable pub drop_all : Registry → Registry
drop_all r = record r { loggers = []; count = 0 }

-- `hx_clog_logger_create`; `given`: the logger could be allocated
unfoldable pub logger_create : Bool → ℕ → Option Bytes → ℕ → Status × Option Logger
logger_create given id asked level =
    if ltb off level
    then (Status.invalid_argument, none)
    else if not given
    then (Status.out_of_memory, none)
    else (
      Status.ok,
      some (record {
        id = id;
        name = take (name_cap - 1) (name_or_default asked);
        level = level;
        registered = false;
      }),
    )
