-- ===== src/Sink/Registry.antt =====
-- src/hx_clog_core.c: the list of the sinks, with `sink_lock` held over each function. It is the
-- array `g_core.sinks` up to `sink_count`, where no pointer is null.
use hx_clog.Common.{
  ℕ, ◌+◌, ◌-◌, ◌%◌, ◌^◌, Bool, true, false, not, List, [], ◌∷◌, ◌++◌, Option, none, some, ltb, leb,
  ◌==◌, if◌then◌else◌, Bytes, length, take,
}
use hx_clog.Status.{Status}
use hx_clog.Level.{trace, off}
use hx_clog.Format.Retry.{FormatMode}
use hx_clog.Sink.{Kind, Sink, Effect, sink_write}

-- `HX_CLOG_MAX_SINKS` and `HX_SINK_PATTERN_MAX`
abbrev pub max_sinks : ℕ
max_sinks = 16

abbrev pub sink_pattern_max : ℕ
sink_pattern_max = 256

-- `sinks` with `sink_count`, `next_sink_id` and `override_count` of `g_core`
pub record Sinks : Type 0 where
  pub sinks : List Sink
  pub next_sink_id : ℕ
  pub override_count : ℕ

-- the sink with an id and without an override of the format
unfoldable pub numbered : ℕ → Sink → Sink
numbered n s = record s {
  id = n;
  override_set = false;
  override_mode = FormatMode.pattern;
  override_has_pattern = false;
  override_pattern = [];
}

unfoldable pub next_id : ℕ → ℕ
next_id n = let m = (n + 1) % 2 ^ 32 in if m == 0 then 1 else m

unfoldable pub level_in_range : Sink → Sink
level_in_range s = if ltb off s.min_level then record s { min_level = trace } else s

-- a sink for which there is room
unfoldable pub put_sink : Sink → Sinks → Sinks
put_sink s r =
    let fresh = s.id == 0 in
    let s = level_in_range (if fresh then numbered r.next_sink_id s else s) in
    record r {
      sinks = r.sinks ++ s ∷ [];
      next_sink_id = if fresh then next_id r.next_sink_id else r.next_sink_id;
    }

-- `none` is a null pointer
unfoldable pub add_sink_locked : Option Sink → Sinks → Status × Sinks × List Effect
add_sink_locked none r = (Status.platform, r, [])
add_sink_locked (some s) r =
    if leb max_sinks (length r.sinks)
    then (Status.invalid_argument, r, Effect.closes s.handle ∷ [])
    else (Status.ok, put_sink s r, [])

-- the number of sinks with an override
unfoldable pub overrides : List Sink → ℕ
overrides [] = 0
overrides (s ∷ ss) = let n = overrides ss in if s.override_set then n + 1 else n

unfoldable pub recompute_override_count : Sinks → Sinks
recompute_override_count r = record r { override_count = overrides r.sinks }

-- the first sink with an id, and the others
unfoldable pub split_id : ℕ → List Sink → Option (Sink × List Sink)
split_id id [] = none
split_id id (s ∷ ss) =
    let later = split_id id ss in
    if s.id == id
    then some (s, ss)
    else elim later [ none ↦ none | some (t, ts) ↦ some (t, s ∷ ts) ]

-- the first sink with an id is changed
unfoldable pub change_id : ℕ → (Sink → Sink) → List Sink → Option (List Sink)
change_id id f [] = none
change_id id f (s ∷ ss) =
    let later = change_id id f ss in
    if s.id == id then some (f s ∷ ss) else elim later [ none ↦ none | some ts ↦ some (s ∷ ts) ]

-- with the sink to remove and the others, if it is there
unfoldable pub removed : Sinks → Option (Sink × List Sink) → Status × Sinks × List Effect
removed r none = (Status.invalid_argument, r, [])
removed r (some (s, ss)) = (
  Status.ok,
  recompute_override_count (record r { sinks = ss }),
  Effect.flushes s.handle ∷ Effect.closes s.handle ∷ [],
)

unfoldable pub remove_sink : ℕ → Sinks → Status × Sinks × List Effect
remove_sink id r = removed r (split_id id r.sinks)

unfoldable pub with_level : ℕ → Sink → Sink
with_level level s = record s { min_level = level }

-- with the changed list, if the sink is there
unfoldable pub changed : Sinks → Option (List Sink) → Status × Sinks
changed r none = (Status.invalid_argument, r)
changed r (some ss) = (Status.ok, record r { sinks = ss })

unfoldable pub set_sink_level : ℕ → ℕ → Sinks → Status × Sinks
set_sink_level id level r =
    if ltb off level
    then (Status.invalid_argument, r)
    else changed r (change_id id (with_level level) r.sinks)

-- a sink with a pattern of its own, or again without a format of its own
unfoldable pub with_pattern : Option Bytes → Sink → Sink
with_pattern none s = record s {
  override_set = false;
  override_has_pattern = false;
  override_pattern = [];
}
with_pattern (some pattern) s = record s {
  override_pattern = take (sink_pattern_max - 1) pattern;
  override_has_pattern = true;
  override_mode = FormatMode.pattern;
  override_set = true;
}

unfoldable pub with_mode : FormatMode → Sink → Sink
with_mode mode s = record s { override_mode = mode; override_set = true }

-- the same for a change of the format, with the overrides counted again
unfoldable pub reformatted : Sinks → Option (List Sink) → Status × Sinks
reformatted r none = (Status.invalid_argument, r)
reformatted r (some ss) = (Status.ok, recompute_override_count (record r { sinks = ss }))

unfoldable pub set_sink_pattern : ℕ → Option Bytes → Sinks → Status × Sinks
set_sink_pattern id pattern r = reformatted r (change_id id (with_pattern pattern) r.sinks)

unfoldable pub set_sink_format_mode : ℕ → FormatMode → Sinks → Status × Sinks
set_sink_format_mode id mode r = reformatted r (change_id id (with_mode mode) r.sinks)

unfoldable pub flush_sinks : List Sink → List Effect
flush_sinks [] = []
flush_sinks (s ∷ ss) = Effect.flushes s.handle ∷ flush_sinks ss

unfoldable pub flush_sink : ℕ → Sinks → Status × List Effect
flush_sink id r = elim (split_id id r.sinks) [
  | none ↦ (Status.invalid_argument, [])
  | some (s, ss) ↦ (Status.ok, Effect.flushes s.handle ∷ [])
]

unfoldable pub is_callback : Kind → Bool
is_callback (Kind.callback last) = true
is_callback (Kind.console c) = false
is_callback Kind.file = false
is_callback Kind.syslog = false
is_callback Kind.event_log = false
is_callback Kind.android_log = false
is_callback Kind.apple_log = false
is_callback Kind.network = false

-- the sinks that are left, and the calls for the others
unfoldable pub close_non_callback_sinks : List Sink → List Sink × List Effect
close_non_callback_sinks [] = ([], [])
close_non_callback_sinks (s ∷ ss) =
    let (left, effects) = close_non_callback_sinks ss in
    if not (is_callback s.kind)
    then (left, Effect.flushes s.handle ∷ Effect.closes s.handle ∷ effects)
    else (s ∷ left, effects)

-- the loop of `hx_clog_shutdown`
unfoldable pub close_sinks : List Sink → List Effect
close_sinks [] = []
close_sinks (s ∷ ss) = Effect.flushes s.handle ∷ Effect.closes s.handle ∷ close_sinks ss

-- The loop of `hx_clog_reopen`, with the result so far; `reopen` is `hx_sink_file_reopen` at a sink.
unfoldable pub reopen_sinks : (ℕ → Status) → Status → List Sink → Status
reopen_sinks reopen rc [] = rc
reopen_sinks reopen rc (s ∷ ss) =
    let again : Status = elim (reopen s.handle) [ Status.ok ↦ rc | r ↦ r ] in
    reopen_sinks reopen (if s.is_file then again else rc) ss

-- whether a line for `target` goes to a sink; 0 stands for the sinks without a format of their own
unfoldable pub is_target : ℕ → Sink → Bool
is_target target s = if target == 0 then not s.override_set else s.id == target

-- the loop of `hx_core_emit_to_sinks`
unfoldable pub emit_to_sinks : ℕ → Bytes → ℕ → List Sink → List Sink × List Effect
emit_to_sinks level text target [] = ([], [])
emit_to_sinks level text target (s ∷ ss) =
    let (s', out) = if is_target target s then sink_write s level text else (s, []) in
    let (ss', outs) = emit_to_sinks level text target ss in (s' ∷ ss', out ++ outs)
