-- ===== src/Sink/Invariant.antt =====
-- src/hx_clog_core.c: what a well-formed list of sinks is, and that adding and removing sinks keep it.
use hx_clog.Common.{
  ℕ, ◌+◌, ◌%◌, ◌^◌, ◌≤◌, ◌<◌, ◌≡◌, ◌≢◌, refl, ◌∙◌, sym, inl, inr, false, List, [], ◌∷◌, Option,
  none, some, arith, leb, ne→==, Bool-cases, leb→gt, length, length-append,
}
use hx_clog.Level.{off}
use hx_clog.Sink.{Sink}
use hx_clog.Sink.Registry.{
  max_sinks, Sinks, numbered, next_id, level_in_range, put_sink, add_sink_locked, overrides,
  recompute_override_count, split_id, removed, remove_sink,
}
use hx_clog.Sink.Parts.{
  All, Distinct, Parts, Rest, All-map, All-append, split_id-Parts, Distinct-append, split_id-Rest,
  overrides-append,
}

-- a sink that is registered, while the ids from `next` on are not given away
abbrev pub Known : ℕ → Sink → Type 0
Known next s = (0 < s.id) × (s.id < next) × (s.min_level ≤ off)

pub record IsValid (r : Sinks) : Type 0 where
  pub room : length r.sinks ≤ max_sinks
  pub counted : r.override_count ≡ overrides r.sinks
  pub next_pos : 0 < r.next_sink_id
  pub known : All (Known r.next_sink_id) r.sinks
  pub distinct : Distinct r.sinks

-- what the functions that create a sink leave
abbrev pub IsNew : Option Sink → Type 0
IsNew none = Unit
IsNew (some s) = (s.id ≡ 0)

ranged_id : (s : Sink) → (level_in_range s).id ≡ s.id
unfolding level_in_range
ranged_id s = ground arith

ranged_level : (s : Sink) → (level_in_range s).min_level ≤ off
unfolding level_in_range
ranged_level s = ground arith

ranged_override : (s : Sink) → (level_in_range s).override_set ≡ s.override_set
unfolding level_in_range
ranged_override s = ground arith

next_id_lem : (n : ℕ) → n + 1 < 2 ^ 32 → next_id n ≡ n + 1
unfolding next_id
next_id_lem n h =
    let e : (n + 1) % 2 ^ 32 ≡ n + 1 = omega arith in rw (e, ne→== (n + 1) 0 (omega arith)) refl

put_sink-IsValid :
    (s : Sink) (r : Sinks)
    → s.id ≡ 0
    → r.next_sink_id + 1 < 2 ^ 32
    → length r.sinks < max_sinks
    → IsValid r
    → IsValid (put_sink s r)
unfolding put_sink numbered
put_sink-IsValid s r new few room v =
    let t = level_in_range (numbered r.next_sink_id s) in
    let id : t.id ≡ r.next_sink_id = ranged_id (numbered r.next_sink_id s) in
    let plain : t.override_set ≡ false = ranged_override (numbered r.next_sink_id s) in
    rw (new, next_id_lem r.next_sink_id few)
      record {
        room = omega (arith, length-append r.sinks (t ∷ []));
        counted = v.counted ∙ sym (overrides-append r.sinks t plain);
        next_pos = omega arith;
        known =
            All-append (Known (r.next_sink_id + 1)) r.sinks t
              (All-map (Known r.next_sink_id) (Known (r.next_sink_id + 1)) r.sinks
                (λ x h. omega (arith, h.0, h.1, h.2)) v.known)
              (
                omega (arith, id, v.next_pos),
                omega (arith, id),
                ranged_level (numbered r.next_sink_id s),
              );
        distinct = Distinct-append r.sinks t v.distinct (
            All-map (Known r.next_sink_id) (λ x. t.id ≢ x.id) r.sinks
              (λ x h. omega (arith, id, h.1)) v.known);
      }

pub add_sink_locked-IsValid :
    (s : Option Sink) (r : Sinks)
    → IsNew s
    → r.next_sink_id + 1 < 2 ^ 32
    → IsValid r
    → IsValid (add_sink_locked s r).1
unfolding add_sink_locked
add_sink_locked-IsValid none r new few v = v
add_sink_locked-IsValid (some s) r new few v = elim (Bool-cases (leb max_sinks (length r.sinks))) [
  | inl e ↦ rw e v
  | inr e ↦ rw e (put_sink-IsValid s r new few (leb→gt _ _ e) v)
]

removed-IsValid :
    (r : Sinks) (o : Option (Sink × List Sink))
    → Parts (Known r.next_sink_id) o
    → Rest (length r.sinks) o
    → IsValid r
    → IsValid (removed r o).1
unfolding removed recompute_override_count
removed-IsValid r none p d v = v
removed-IsValid r (some (s, ss)) (p, h) (e, d) v = record {
  room = omega (arith, v.room, e);
  counted = refl;
  next_pos = v.next_pos;
  known = h;
  distinct = d;
}

pub remove_sink-IsValid : (id : ℕ) (r : Sinks) → IsValid r → IsValid (remove_sink id r).1
unfolding remove_sink
remove_sink-IsValid id r v =
    removed-IsValid r (split_id id r.sinks)
      (split_id-Parts (Known r.next_sink_id) id r.sinks v.known)
      (split_id-Rest id r.sinks v.distinct) v
