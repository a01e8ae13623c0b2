-- ===== src/Write/Enough.antt =====
-- src/hx_clog_core.c: writing a message always comes to an end, also where a FATAL message flushes, the
-- flush emits a summary, and the summary is a FATAL record that flushes again.
use hx_clog.Common.{
  ℕ, suc, ◌≤◌, ◌≡◌, refl, ◌∙◌, ap, sym, inl, inr, Bool, true, false, not, ◌||◌, List, [], ◌++◌,
  Option, none, some, arith, leb, leb→gt, append_assoc, ◌==◌, if◌then◌else◌, Bool-cases, ◌>>=◌,
  Ends, Ends-bind, Ends-map,
}
use hx_clog.Level.{fatal}
use hx_clog.Format.Record.{Record}
use hx_clog.Settings.{format_of}
use hx_clog.Dispatch.{Core, dispatch_record}
use hx_clog.Sink.{Effect}
use hx_clog.Sink.Registry.{flush_sinks}
use hx_clog.Duplicates.{Dup, Summary, pending, flush_pending}
use hx_clog.Write.{
  System, Env, Delivery, async_flush, refreshed, emit_summary, flush_dups, flush, deliver,
  deliveries,
}

-- no repeats are counted
abbrev pub Settled : System × List Effect → Type 0
Settled x = x.0.dup.repeats ≡ 0

-- no repeats are counted, and the library is initialised as it was
abbrev pub Quiet : System → System × List Effect → Type 0
Quiet s x = Settled x × (x.0.initialized ≡ s.initialized)

-- the effects end with the flush of every sink that there is in the end
abbrev pub Flushed : System × List Effect → Type 0
Flushed x = (front : List Effect) × (x.1 ≡ front ++ flush_sinks x.0.core.sinks.sinks)

-- what the lines of a record do, at the start of its delivery
abbrev pub dispatched : Env → System → Record → List Effect
dispatched env s rec =
    let s' = refreshed s in
    (dispatch_record env.localtime env.malloc env.stack s'.core rec (format_of s'.cache)).1

-- the effects begin with these, and end with the flush of every sink that there is in the end
abbrev pub Between : List Effect → System × List Effect → Type 0
Between out x = (middle : List Effect) × (x.1 ≡ out ++ middle ++ flush_sinks x.0.core.sinks.sinks)

-- after a record, in a state
abbrev pub Delivered : Env → System → Record → System × List Effect → Type 0
Delivered env s rec x =
    (x.0.initialized ≡ s.initialized)
    × (s.dup.repeats ≡ 0 → Settled x)
    × (fatal ≤ rec.level → s.initialized ≡ true → Settled x × Between (dispatched env s rec) x)

flush_pending-settled : (d : Dup) → d.repeats ≡ 0 → flush_pending d ≡ (none, d)
unfolding flush_pending pending
flush_pending-settled d e = simp e refl

flush_pending-repeats : (d : Dup) → (flush_pending d).1.repeats ≡ 0
unfolding flush_pending
flush_pending-repeats d = ground arith

module _ (env : Env) where
  -- a summary, if the delivery of one ends in a settled state
  pub emit_summary-Quiet :
      (go : Delivery) (s : System) (m : Option Summary)
      → ((t : System) (rec : Record) → t.dup.repeats ≡ 0 → Ends (Quiet t) (go t rec))
      → s.dup.repeats ≡ 0
      → Ends (Quiet s) (emit_summary env go s m)
  unfolding emit_summary refreshed
  emit_summary-Quiet go s none h e = (e, refl)
  emit_summary-Quiet go s (some m) h e = elim (Bool-cases (not s.initialized || m.repeats == 0)) [
    | inl skip ↦ rw skip (e, refl)
    | inr send ↦ rw send (h (refreshed s) _ e)
  ]

  flush_dups-settled :
      (go : Delivery) (s : System) → s.dup.repeats ≡ 0 → Ends (Quiet s) (flush_dups env go s)
  unfolding flush_dups emit_summary
  flush_dups-settled go s e = rw (flush_pending-settled s.dup e) (e, refl)

  flush_dups-Quiet :
      (go : Delivery) (s : System)
      → ((t : System) (rec : Record) → t.dup.repeats ≡ 0 → Ends (Quiet t) (go t rec))
      → Ends (Quiet s) (flush_dups env go s)
  unfolding flush_dups
  flush_dups-Quiet go s h =
      let (m, d) = flush_pending s.dup in
      emit_summary-Quiet go (record s { dup = d }) m h (flush_pending-repeats s.dup)

  -- what a flush leaves
  abbrev pub Drained : System → System × List Effect → Type 0
  Drained s x =
      (x.0.initialized ≡ s.initialized)
      × (s.dup.repeats ≡ 0 → Settled x)
      × (s.initialized ≡ true → Settled x × Flushed x)

  -- the end of a flush: the engine, and then the sinks
  abbrev with_engine : Core → Core × List Effect
  with_engine c = if c.async then async_flush env c else (c, [])

  abbrev ended : System × List Effect → Option (System × List Effect)
  ended (s, out) =
      let (c, handed) = with_engine s.core in
      some (record s { core = c }, out ++ handed ++ flush_sinks c.sinks.sinks)

  flush_by :
      (go : Delivery) (s : System) (on : Bool)
      → s.initialized ≡ on
      → Ends (Quiet s) (flush_dups env go s)
      → Ends (Drained s) (if not on then some (s, []) else (flush_dups env go s >>= ended))
  flush_by go s true i h =
      Ends-bind (Quiet s) (Drained s) (flush_dups env go s) ended h
        (λ x e. (e.1, λ _. e.0, λ _. (e.0, (x.1 ++ (with_engine x.0.core).1, refl))))
  flush_by go s false i h = (refl, λ e. e, λ on. cc (on, i))

  flush-Drained :
      (go : Delivery) (s : System)
      → Ends (Quiet s) (flush_dups env go s)
      → Ends (Drained s) (flush env go s)
  unfolding flush
  flush-Drained go s h = flush_by go s s.initialized refl h

  -- the state in which a record flushes
  after : System → Record → System × List Effect
  unfolding refreshed
  after s rec =
      let s' = refreshed s in
      let (c, out, left) =
        dispatch_record env.localtime env.malloc env.stack s'.core rec (format_of s'.cache) in
      (record s' { core = c }, out)

  -- the effects of a record before those of the flush
  add_front :
      (s t : System) (rec : Record)
      → t.dup ≡ s.dup
      → t.initialized ≡ s.initialized
      → (o : Option (System × List Effect)) → Ends (Drained t) o
      → Ends
          (Delivered env s rec)
          (elim o [ none ↦ none | some (u, more) ↦ some (u, dispatched env s rec ++ more) ])
  add_front s t rec same init none h = h
  add_front s t rec same init (some (u, more)) (held, kept, drained) =
      let out = dispatched env s rec in
      (
        held ∙ init,
        λ e. kept (ap (λ (d : Dup). d.repeats) same ∙ e),
        λ f i.
            let (settled, (front, eq)) = drained (init ∙ i) in
            (
              settled,
              (
                front,
                ap (λ z. out ++ z) eq
                    ∙ sym (append_assoc out front (flush_sinks u.core.sinks.sinks)),
              ),
            ),
      )

  deliver_by :
      (go : Delivery) (s t : System) (rec : Record) (severe : Bool)
      → leb fatal rec.level ≡ severe
      → t.dup ≡ s.dup
      → t.initialized ≡ s.initialized
      → Ends (Quiet t) (flush_dups env go t)
      → Ends (Delivered env s rec) (
          if severe
          then elim (flush env go t) [
            | none ↦ none
            | some (u, more) ↦ some (u, dispatched env s rec ++ more)
          ]
          else some (t, dispatched env s rec))
  deliver_by go s t rec true e same init h =
      add_front s t rec same init (flush env go t) (flush-Drained go t h)
  deliver_by go s t rec false e same init h = (
    init,
    λ n. ap (λ (d : Dup). d.repeats) same ∙ n,
    λ f. absurd (omega (arith, leb→gt fatal rec.level e, f)),
  )

  deliver-Delivered :
      (fuel : ℕ) (s : System) (rec : Record)
      → Ends (Quiet (after s rec).0) (flush_dups env (deliver env fuel) (after s rec).0)
      → Ends (Delivered env s rec) (deliver env (suc fuel) s rec)
  unfolding deliver after refreshed
  deliver-Delivered fuel s rec h =
      let t = (after s rec).0 in
      deliver_by (deliver env fuel) s t rec (leb fatal rec.level) refl refl refl h

  -- With no repeats counted, one delivery is enough; and two are in any case.
  deliver-settled :
      (fuel : ℕ) (s : System) (rec : Record)
      → s.dup.repeats ≡ 0
      → Ends (Delivered env s rec) (deliver env (suc fuel) s rec)
  unfolding after refreshed
  deliver-settled fuel s rec e =
      deliver-Delivered fuel s rec (flush_dups-settled (deliver env fuel) (after s rec).0 e)

  pub deliver-still :
      (fuel : ℕ) (s : System) (rec : Record)
      → s.dup.repeats ≡ 0
      → Ends (Quiet s) (deliver env (suc fuel) s rec)
  deliver-still fuel s rec e =
      Ends-map (Delivered env s rec) (Quiet s) (deliver env (suc fuel) s rec) (λ x d. (d.1 e, d.0))
        (deliver-settled fuel s rec e)

  pub deliver_lem :
      (s : System) (rec : Record) → Ends (Delivered env s rec) (deliver env deliveries s rec)
  deliver_lem s rec =
      deliver-Delivered 1 s rec (flush_dups-Quiet (deliver env 1) (after s rec).0 (deliver-still 0))

  pub flush_dups-Ends : (s : System) → Ends (Quiet s) (flush_dups env (deliver env deliveries) s)
  flush_dups-Ends s = flush_dups-Quiet (deliver env deliveries) s (deliver-still 1)
