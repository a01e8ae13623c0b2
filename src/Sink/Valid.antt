-- ===== src/Sink/Valid.antt =====
-- src/hx_clog_core.c: the list of the sinks stays well formed, whatever the application does with it.
use hx_clog.Common.{
  ℕ, ◌+◌, ◌^◌, ◌≤◌, ◌<◌, ◌≡◌, refl, ◌∙◌, sym, inl, inr, List, Option, none, some, arith, ltb,
  Bool-cases, ltb→ge, Bytes, length,
}
use hx_clog.Level.{off}
use hx_clog.Format.Retry.{FormatMode}
use hx_clog.Sink.{Sink}
use hx_clog.Sink.Registry.{
  Sinks, add_sink_locked, overrides, recompute_override_count, change_id, remove_sink, with_level,
  changed, set_sink_level, with_pattern, with_mode, reformatted, set_sink_pattern,
  set_sink_format_mode,
}
use hx_clog.Sink.Parts.{
  All, Distinct, Changed, change_id-All, length-change_id, change_id-Distinct, overrides-change_id,
}
use hx_clog.Sink.Invariant.{Known, IsValid, IsNew, add_sink_locked-IsValid, remove_sink-IsValid}

-- what a change keeps
abbrev Kept : Sinks → Option (List Sink) → Type 0
Kept r o =
    Changed (All (Known r.next_sink_id)) o
    × Changed Distinct o
    × Changed (λ ts. length ts ≡ length r.sinks) o

change_id-Kept :
    (f : Sink → Sink) (id : ℕ) (r : Sinks)
    → ((s : Sink) → ((f s).id ≡ s.id) × (s.min_level ≤ off → (f s).min_level ≤ off))
    → IsValid r
    → Kept r (change_id id f r.sinks)
change_id-Kept f id r same v = (
  change_id-All f (Known r.next_sink_id) id r.sinks
      (λ s h. rw ((same s).0) (h.0, h.1, (same s).1 h.2)) v.known,
  change_id-Distinct f id r.sinks (λ s. (same s).0) v.distinct,
  length-change_id f id r.sinks,
)

reformatted-IsValid :
    (r : Sinks) (o : Option (List Sink)) → Kept r o → IsValid r → IsValid (reformatted r o).1
unfolding reformatted recompute_override_count
reformatted-IsValid r none k v = v
reformatted-IsValid r (some ss) (h, d, e) v = record {
  room = omega (arith, v.room, e);
  counted = refl;
  next_pos = v.next_pos;
  known = h;
  distinct = d;
}

changed-IsValid :
    (r : Sinks) (o : Option (List Sink))
    → Kept r o
    → Changed (λ ts. overrides ts ≡ overrides r.sinks) o
    → IsValid r
    → IsValid (changed r o).1
unfolding changed
changed-IsValid r none k c v = v
changed-IsValid r (some ss) (h, d, e) c v = record {
  room = omega (arith, v.room, e);
  counted = v.counted ∙ sym c;
  next_pos = v.next_pos;
  known = h;
  distinct = d;
}

set_sink_level-IsValid :
    (id level : ℕ) (r : Sinks) → IsValid r → IsValid (set_sink_level id level r).1
unfolding set_sink_level
set_sink_level-IsValid id level r v = elim (Bool-cases (ltb off level)) [
  | inl e ↦ rw e v
  | inr e ↦ rw e (
      changed-IsValid r (change_id id (with_level level) r.sinks)
        (change_id-Kept (with_level level) id r
          (λ s. unfold with_level in (refl, λ h. ltb→ge off level e)) v)
        (overrides-change_id (with_level level) id r.sinks (λ s. unfold with_level in refl)) v)
]

with_pattern-same :
    (pattern : Option Bytes) (s : Sink)
    → ((with_pattern pattern s).id ≡ s.id)
      × (s.min_level ≤ off → (with_pattern pattern s).min_level ≤ off)
unfolding with_pattern
with_pattern-same none s = (refl, λ h. h)
with_pattern-same (some p) s = (refl, λ h. h)

set_sink_pattern-IsValid :
    (id : ℕ) (pattern : Option Bytes) (r : Sinks)
    → IsValid r
    → IsValid (set_sink_pattern id pattern r).1
unfolding set_sink_pattern
set_sink_pattern-IsValid id pattern r v =
    reformatted-IsValid r (change_id id (with_pattern pattern) r.sinks)
      (change_id-Kept (with_pattern pattern) id r (with_pattern-same pattern) v) v

set_sink_format_mode-IsValid :
    (id : ℕ) (mode : FormatMode) (r : Sinks)
    → IsValid r
    → IsValid (set_sink_format_mode id mode r).1
unfolding set_sink_format_mode
set_sink_format_mode-IsValid id mode r v =
    reformatted-IsValid r (change_id id (with_mode mode) r.sinks)
      (change_id-Kept (with_mode mode) id r (λ s. unfold with_mode in (refl, λ h. h)) v) v

-- a call of the application; of two to the power of 32 ids none has been given away twice yet
pub data Step : Sinks → Sinks → Type 0 where
  adds :
      {r : Sinks} (s : Option Sink)
      → IsNew s
      → r.next_sink_id + 1 < 2 ^ 32
      → Step r (add_sink_locked s r).1
  removes : {r : Sinks} (id : ℕ) → Step r (remove_sink id r).1
  levels : {r : Sinks} (id level : ℕ) → Step r (set_sink_level id level r).1
  patterns : {r : Sinks} (id : ℕ) (p : Option Bytes) → Step r (set_sink_pattern id p r).1
  modes : {r : Sinks} (id : ℕ) (m : FormatMode) → Step r (set_sink_format_mode id m r).1

pub data Run : Sinks → Sinks → Type 0 where
  done : {r : Sinks} → Run r r
  goes : {r s t : Sinks} → Step r s → Run s t → Run r t

Step-IsValid : {r s : Sinks} → Step r s → IsValid r → IsValid s
Step-IsValid (adds {r} s new few) v = add_sink_locked-IsValid s r new few v
Step-IsValid (removes {r} id) v = remove_sink-IsValid id r v
Step-IsValid (levels {r} id level) v = set_sink_level-IsValid id level r v
Step-IsValid (patterns {r} id p) v = set_sink_pattern-IsValid id p r v
Step-IsValid (modes {r} id m) v = set_sink_format_mode-IsValid id m r v

-- Whatever sinks the application adds and removes, and whatever levels, patterns and modes it
-- sets, the list of the sinks stays well formed: it is no longer than the array, the ids are
-- distinct and not 0, the levels are levels, and the sinks with a format of their own are counted.
-- Of the `2 ^ 32` ids none has come round yet.
pub Run-IsValid : {r s : Sinks} → Run r s → IsValid r → IsValid s
Run-IsValid done v = v
Run-IsValid (goes st run) v = Run-IsValid run (Step-IsValid st v)
