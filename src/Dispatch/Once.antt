-- ===== src/Dispatch/Once.antt =====
-- src/hx_clog_core.c: in the synchronous mode a record reaches each sink once, in the sink's format.
use hx_clog.Common.{
  ℕ, ◌+◌, ◌%◌, ◌^◌, ◌<◌, ◌≡◌, refl, ap, sym, inl, inr, true, false, [], ◌++◌, map, Option, Bytes,
}
use hx_clog.Format.Record.{Tm, Record}
use hx_clog.Format.Retry.{Format}
use hx_clog.CrashRing.{ring_push}
use hx_clog.Sink.Registry.{Sinks}
use hx_clog.Sink.Parts.{All, All-map}
use hx_clog.Sink.Invariant.{IsValid, Known}
use hx_clog.Sink.Emit.{plain}
use hx_clog.Sink.Reach.{default_shown, own_shown, Hits, Hits-All}
use hx_clog.Dispatch.{Core, line_for, record_lines, dispatch_record}
use hx_clog.Dispatch.Direct.{Direct, emit_all, dispatch_lines-Direct}
use hx_clog.Dispatch.Lines.{
  own_list, default_shown-none, record_lines_lem, text_for, text_of, own_lines-shown, own_counted,
  lines_by_default,
}

Hits-valid : (level : ℕ) (r : Sinks) → IsValid r → All (Hits level r.sinks) r.sinks
Hits-valid level r v =
    Hits-All level r.sinks
      (All-map (Known r.next_sink_id) (λ s. 0 < s.id) r.sinks (λ s h. h.0) v.known) v.distinct

module _ (localtime : ℕ → Tm) (malloc : ℕ → Option Bytes) (stack : ℕ → Bytes) (rec : Record)
    (f : Format) where
  record_lines-shown :
      (c : Core) (r : Sinks)
      → r ≡ c.sinks
      → IsValid r
      → let done = emit_all c (record_lines localtime malloc stack r rec f) in
        (done.0.written ≡ (c.written + 1) % 2 ^ 64)
        × (done.1
            ≡ default_shown rec.level (text_for localtime malloc stack rec 0 f) r.sinks
              ++ own_shown rec.level (text_of localtime malloc stack rec f) 1 r.sinks)
  record_lines-shown c r is v =
      let same = ap (λ (x : Sinks). map plain x.sinks) (sym is) in
      elim (record_lines_lem localtime malloc stack rec f r v) [
        | inl e ↦ rw e (
            lines_by_default r.sinks localtime malloc stack rec f c r.sinks same refl
              (Hits-valid rec.level r v))
        | inr (no_default, some_own, e) ↦
            rw
              (
                e,
                default_shown-none rec.level (text_for localtime malloc stack rec 0 f) r.sinks
                    no_default,
              )
              (
                own_counted r.sinks localtime malloc stack rec f c 1 (own_list r.sinks) some_own,
                own_lines-shown r.sinks localtime malloc stack rec f c 1 false r.sinks same
                    (Hits-valid rec.level r v),
              )
      ]

  -- In the synchronous mode, or with the engine stopped, a record leaves no line waiting, counts
  -- as one written line, and reaches each sink once: those without a format of their own get its
  -- text in the common format, and then each other one its text in its own mode and with its own
  -- pattern, or the common one, if it has none. What a text does at a sink is `shown`: if the
  -- level of the sink lets it, it is printed, between colours on a terminal for them, handed to
  -- the callback, entered in the log of the system or written, by the kind of the sink, and
  -- nothing at the sinks for other systems. The list of the sinks is well formed.
  pub dispatch_record-once :
      (c : Core)
      → Direct c
      → IsValid c.sinks
      → let full = c.sinks.sinks in
        let (c', out, left) = dispatch_record localtime malloc stack c rec f in
        (left ≡ [])
        × (c'.written ≡ (c.written + 1) % 2 ^ 64)
        × (out
            ≡ default_shown rec.level (text_for localtime malloc stack rec 0 f) full
              ++ own_shown rec.level (text_of localtime malloc stack rec f) 1 full)
  unfolding dispatch_record
  dispatch_record-once c d v =
      let l = line_for localtime malloc stack 0 rec f 0 true in
      let c1 : Core = record c { ring = ring_push c.ring l.text l.size } in
      let (counted, effects) = record_lines-shown c1 c.sinks refl v in
      rw (dispatch_lines-Direct malloc c1 (record_lines localtime malloc stack c.sinks rec f) d)
        (refl, counted, effects)
