-- ===== src/Lifecycle/Keeps.antt =====
-- src/hx_clog_core.c: writing a line and flushing keep the sinks, and close none.
use hx_clog.Common.{
  ℕ, zero, suc, inl, inr, Bool, true, false, not, ◌||◌, List, [], ◌∷◌, ◌++◌, Option, none, some,
  leb, ◌==◌, Bool-cases, ◌>>=◌, if◌then◌else◌, Bytes, take,
}
use hx_clog.Status.{Status}
use hx_clog.Level.{fatal}
use hx_clog.Format.Record.{Record}
use hx_clog.Async.{Engine, Line, Outcome, enqueue}
use hx_clog.Settings.{format_of}
use hx_clog.Sink.{Effect}
use hx_clog.Dispatch.{
  Core, add_written, core_emit, enqueued, dispatch_line, goes_on, dispatch_lines, dispatch_record,
}
use hx_clog.Dispatch.Direct.{emit_all}
use hx_clog.Duplicates.{Summary, check_and_update, flush_pending}
use hx_clog.Async.Life.{flush_begin}
use hx_clog.Write.{
  async_flush, System, Env, Delivery, Request, refreshed, emit_summary, flush_dups, flush, deliver,
  deliveries, write_message, core_writev, is_filtered, message_of, name_of, dup_call, record_of,
}
use hx_clog.Lifecycle.Benign.{Benign, Benign-none, Benign-then, Benign-flush, emit_to_sinks-Benign}

abbrev pub KeepsSinks : Core → Core × List Effect → Type 0
KeepsSinks c (c', out) = Benign c.sinks.sinks c'.sinks.sinks out

pub core_emit-Benign : (c : Core) (l : Line) → KeepsSinks c (core_emit c l)
unfolding core_emit add_written
core_emit-Benign c l = elim (Bool-cases l.count_stats) [
  | inl e ↦ rw e (emit_to_sinks-Benign l.level (take l.size l.text) l.target c.sinks.sinks)
  | inr e ↦ rw e (emit_to_sinks-Benign l.level (take l.size l.text) l.target c.sinks.sinks)
]

pub emit_all-Benign : (c : Core) (ls : List Line) → KeepsSinks c (emit_all c ls)
unfolding emit_all
emit_all-Benign c [] = Benign-none c.sinks.sinks
emit_all-Benign c (l ∷ ls) =
    Benign-then (core_emit-Benign c l) (emit_all-Benign (core_emit c l).0 ls)

module _ (malloc : ℕ → Option Bytes) where
  enqueued-Benign :
      (c : Core) (l : Line) (o : Outcome) (e : Engine)
      → KeepsSinks c ((enqueued malloc c l o e).1, (enqueued malloc c l o e).2)
  unfolding enqueued
  enqueued-Benign c l (Outcome.returns Status.not_initialized report) e =
      core_emit-Benign (record c { engine = e }) l
  enqueued-Benign c l (Outcome.returns Status.ok report) e = Benign-none c.sinks.sinks
  enqueued-Benign c l (Outcome.returns Status.invalid_argument report) e = Benign-none c.sinks.sinks
  enqueued-Benign c l (Outcome.returns Status.already_initialized report) e =
      Benign-none c.sinks.sinks
  enqueued-Benign c l (Outcome.returns Status.open_file_failed report) e = Benign-none c.sinks.sinks
  enqueued-Benign c l (Outcome.returns Status.out_of_memory report) e = Benign-none c.sinks.sinks
  enqueued-Benign c l (Outcome.returns Status.thread_failed report) e = Benign-none c.sinks.sinks
  enqueued-Benign c l (Outcome.returns Status.queue_full report) e = Benign-none c.sinks.sinks
  enqueued-Benign c l (Outcome.returns Status.platform report) e = Benign-none c.sinks.sinks
  enqueued-Benign c l Outcome.waits e = Benign-none c.sinks.sinks
  enqueued-Benign c l Outcome.loops e = Benign-none c.sinks.sinks

  dispatch_line-Benign :
      (c : Core) (l : Line)
      → KeepsSinks c ((dispatch_line malloc c l).1, (dispatch_line malloc c l).2)
  unfolding dispatch_line
  dispatch_line-Benign c l = elim (Bool-cases c.async) [
    | inl e ↦
        simp e (enqueued-Benign c l (enqueue malloc c.engine l).0 (enqueue malloc c.engine l).1)
    | inr e ↦ simp e (core_emit-Benign c l)
  ]

  goes_on-Benign :
      (c : Core) (rest : Core → Core × List Effect × List Line) (ls : List Line)
      (r : Outcome × Core × List Effect)
      → ((d : Core) → KeepsSinks d ((rest d).0, (rest d).1))
      → KeepsSinks c (r.1, r.2)
      → KeepsSinks c ((goes_on malloc rest ls r).0, (goes_on malloc rest ls r).1)
  unfolding goes_on
  goes_on-Benign c rest ls (Outcome.returns s report, d, out) k b = Benign-then b (k d)
  goes_on-Benign c rest ls (Outcome.waits, d, out) k b = b
  goes_on-Benign c rest ls (Outcome.loops, d, out) k b = b

  dispatch_lines-Benign :
      (c : Core) (ls : List Line)
      → KeepsSinks c ((dispatch_lines malloc c ls).0, (dispatch_lines malloc c ls).1)
  unfolding dispatch_lines
  dispatch_lines-Benign c [] = Benign-none c.sinks.sinks
  dispatch_lines-Benign c (l ∷ ls) =
      goes_on-Benign c (λ d. dispatch_lines malloc d ls) (l ∷ ls) (dispatch_line malloc c l)
        (λ d. dispatch_lines-Benign d ls) (dispatch_line-Benign c l)

-- The result, if there is one, has the handles of the sinks that there were, and closes none.
abbrev pub Keeps : System → Option (System × List Effect) → Type 0
Keeps s none = Unit
Keeps s (some (s', out)) = Benign s.core.sinks.sinks s'.core.sinks.sinks out

pub Keeps-bind :
    (s : System) (m : Option (System × List Effect))
    (f : System × List Effect → Option (System × List Effect))
    → Keeps s m
    → ((x : System × List Effect)
        → Benign s.core.sinks.sinks x.0.core.sinks.sinks x.1
        → Keeps s (f x))
    → Keeps s (m >>= f)
Keeps-bind s none f h k = tt
Keeps-bind s (some x) f h k = k x h

-- effects that come before those of a result
pub Keeps-after :
    (s t : System) (out : List Effect) (m : Option (System × List Effect))
    → Benign s.core.sinks.sinks t.core.sinks.sinks out
    → Keeps t m
    → Keeps s (elim m [ none ↦ none | some (u, more) ↦ some (u, out ++ more) ])
Keeps-after s t out none b h = tt
Keeps-after s t out (some (u, more)) b h = Benign-then b h

Keeps-front :
    (s t : System) (out : List Effect) (m : Option (System × List Effect))
    → Benign s.core.sinks.sinks t.core.sinks.sinks out
    → Keeps t m
    → Keeps s (m >>= λ x. some (x.0, out ++ x.1))
Keeps-front s t out none b h = tt
Keeps-front s t out (some (u, more)) b h = Benign-then b h

pub async_flush-Benign : (env : Env) (c : Core) → KeepsSinks c (async_flush env c)
unfolding async_flush
async_flush-Benign env c = elim (Bool-cases (flush_begin c.engine).0) [
  | inl e ↦ rw e (emit_all-Benign c env.flushed.0)
  | inr e ↦ rw e (Benign-none c.sinks.sinks)
]

pub handed-Benign :
    (c : Core) (x : Core × List Effect) (async : Bool)
    → KeepsSinks c x
    → KeepsSinks c (if async then x else (c, []))
handed-Benign c x true b = b
handed-Benign c x false b = Benign-none c.sinks.sinks

module _ (env : Env) where
  emit_summary-Keeps :
      (go : Delivery) (s : System) (m : Option Summary)
      → ((t : System) (rec : Record) → Keeps t (go t rec))
      → Keeps s (emit_summary env go s m)
  unfolding emit_summary refreshed
  emit_summary-Keeps go s none k = Benign-none s.core.sinks.sinks
  emit_summary-Keeps go s (some m) k = elim (Bool-cases (not s.initialized || m.repeats == 0)) [
    | inl e ↦ rw e (Benign-none s.core.sinks.sinks)
    | inr e ↦ rw e (k (refreshed s) _)
  ]

  flush_dups-by :
      (go : Delivery) (s : System)
      → ((t : System) (rec : Record) → Keeps t (go t rec))
      → Keeps s (flush_dups env go s)
  unfolding flush_dups
  flush_dups-by go s k =
      let (m, d) = flush_pending s.dup in emit_summary-Keeps go (record s { dup = d }) m k

  flush-Keeps :
      (go : Delivery) (s : System)
      → ((t : System) (rec : Record) → Keeps t (go t rec))
      → Keeps s (flush env go s)
  unfolding flush
  flush-Keeps go s k = elim (Bool-cases s.initialized) [
    | inr e ↦ simp e (Benign-none s.core.sinks.sinks)
    | inl e ↦ simp e (
        Keeps-bind s (flush_dups env go s) _ (flush_dups-by go s k) (λ x b.
          let c = x.0.core in
          let y = if c.async then async_flush env c else (c, []) in
          let handed = handed-Benign c (async_flush env c) c.async (async_flush-Benign env c) in
          Benign-then (Benign-then b handed) (Benign-flush y.0.sinks.sinks)))
  ]

  delivered :
      (s t : System) (severe : Bool) (out : List Effect) (m : Option (System × List Effect))
      → Benign s.core.sinks.sinks t.core.sinks.sinks out
      → Keeps t m
      → Keeps s (
          if severe
          then elim m [ none ↦ none | some (u, more) ↦ some (u, out ++ more) ]
          else some (t, out))
  delivered s t true out m b h = Keeps-after s t out m b h
  delivered s t false out m b h = b

  pub deliver-Keeps : (fuel : ℕ) (s : System) (rec : Record) → Keeps s (deliver env fuel s rec)
  unfolding deliver refreshed dispatch_record
  deliver-Keeps zero s rec = tt
  deliver-Keeps (suc fuel) s rec =
      let s' = refreshed s in
      let (c, out, left) =
        dispatch_record env.localtime env.malloc env.stack s'.core rec (format_of s'.cache) in
      let b : Benign s.core.sinks.sinks c.sinks.sinks out = dispatch_lines-Benign env.malloc _ _ in
      delivered s (record s' { core = c }) (leb fatal rec.level) out
        (flush env (deliver env fuel) (record s' { core = c })) b
        (flush-Keeps (deliver env fuel) (record s' { core = c }) (deliver-Keeps fuel))

  pub flush_dups-Keeps : (s : System) → Keeps s (flush_dups env (deliver env deliveries) s)
  flush_dups-Keeps s = flush_dups-by (deliver env deliveries) s (deliver-Keeps deliveries)

  summed_up :
      (s s' : System) (r : Request) (name msg : Bytes) (before : List Effect) (suppressed : Bool)
      → Benign s.core.sinks.sinks s'.core.sinks.sinks before
      → Keeps s (
          (if suppressed
            then some (s', [])
            else deliver env deliveries s' (record_of env s' r name msg))
          >>= λ x. some (x.0, before ++ x.1))
  summed_up s s' r name msg before true b = Benign-then b (Benign-none s'.core.sinks.sinks)
  summed_up s s' r name msg before false b =
      let m = deliver env deliveries s' (record_of env s' r name msg) in
      Keeps-front s s' before m b (deliver-Keeps deliveries s' (record_of env s' r name msg))

  write_message-Keeps :
      (s : System) (r : Request) (msg : Bytes) → Keeps s (write_message env s r msg)
  unfolding write_message
  write_message-Keeps s r msg =
      let name = name_of s.cache.logger_name r.logger_name in
      let (suppressed, m, d) = check_and_update s.dup (dup_call env r name msg) in
      let s1 : System = record s { dup = d } in
      Keeps-bind s (emit_summary env (deliver env deliveries) s1 m)
        (λ x.
          (if suppressed
            then some (x.0, [])
            else deliver env deliveries x.0 (record_of env x.0 r name msg))
          >>= λ y. some (y.0, x.1 ++ y.1))
        (emit_summary-Keeps (deliver env deliveries) s1 m (deliver-Keeps deliveries))
        (λ x b. summed_up s x.0 r name msg x.1 suppressed b)

  by_text-Keeps :
      (s : System) (r : Request) (o : Option Bytes)
      → Keeps s (elim o [
        | none ↦ some (s, [])
        | some text ↦ write_message env (refreshed s) r (message_of env text)
      ])
  unfolding refreshed
  by_text-Keeps s r none = Benign-none s.core.sinks.sinks
  by_text-Keeps s r (some text) = write_message-Keeps (refreshed s) r (message_of env text)

  pub core_writev-Keeps : (s : System) (r : Request) → Keeps s (core_writev env s r)
  unfolding core_writev
  core_writev-Keeps s r = elim (Bool-cases (not s.initialized || is_filtered s r)) [
    | inl skip ↦ rw skip (Benign-none s.core.sinks.sinks)
    | inr go ↦ rw go (by_text-Keeps s r r.text)
  ]
