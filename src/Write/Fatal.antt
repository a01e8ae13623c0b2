-- ===== src/Write/Fatal.antt =====
-- src/hx_clog_core.c: a call of `core_writev` comes to an end, and a FATAL message flushes all sinks.
use hx_clog.Common.{
  ◌≤◌, ◌≡◌, refl, ◌∙◌, ap, sym, inl, inr, Bool, true, false, not, ◌||◌, List, [], ◌++◌,
  append_assoc, Option, none, some, arith, if◌then◌else◌, Bool-cases, Bytes, length, ◌>>=◌, Ends,
  Ends-bind, Ends-map, Ends-itself, result_of,
}
use hx_clog.Level.{fatal}
use hx_clog.Format.Record.{Record}
use hx_clog.Sink.{Effect}
use hx_clog.Sink.Registry.{flush_sinks}
use hx_clog.Duplicates.{Dup, Call, Summary, pending, is_duplicate, remember, check_and_update}
use hx_clog.Write.{
  System, Env, Request, refreshed, emit_summary, deliver, deliveries, name_of, message_of, dup_call,
  record_of, write_message, core_writev, is_filtered,
}
use hx_clog.Write.Enough.{
  Settled, Quiet, Between, dispatched, Delivered, deliver_lem, deliver-still, emit_summary-Quiet,
}

-- the outcome of the test for duplicates
abbrev pub tested : Env → System → Request → Bytes → Bool × Option Summary × Dup
tested env s r msg =
    check_and_update s.dup (dup_call env r (name_of s.cache.logger_name r.logger_name) msg)

-- With a summary to emit no repeats are counted any more.
abbrev Checked : Bool × Option Summary × Dup → Type 0
Checked (suppressed, none, d') = Unit
Checked (suppressed, some m, d') = d'.repeats ≡ 0

remember-Checked : (d : Dup) (c : Call) (m : Option Summary) → Checked (false, m, remember d c)
unfolding remember
remember-Checked d c none = tt
remember-Checked d c (some m) = refl

check_and_update-Checked : (d : Dup) (c : Call) → Checked (check_and_update d c)
unfolding check_and_update
check_and_update-Checked d c = elim (Bool-cases d.enabled) [
  | inr e ↦ simp e tt
  | inl e ↦ elim (Bool-cases (is_duplicate d c)) [
    | inl twice ↦ simp (e, twice) tt
    | inr once ↦ simp (e, once) (remember-Checked d c (pending d))
  ]
]

-- the summary that comes before a message, and the state behind it
abbrev pub summed : Env → System → Request → Bytes → Option (System × List Effect)
summed env s r msg =
    let (suppressed, m, d) = tested env s r msg in
    emit_summary env (deliver env deliveries) (record s { dup = d }) m

-- a record of the message: what was asked for, with its name and its text
pub record Tells (r : Request) (name msg : Bytes) (rec : Record) : Type 0 where
  pub level : rec.level ≡ r.level
  pub logger_name : rec.logger_name ≡ some name
  pub file : rec.file ≡ r.file
  pub line : rec.line ≡ r.line
  pub func : rec.func ≡ r.func
  pub message : rec.message ≡ some msg
  pub message_len : rec.message_len ≡ length msg

-- The effects are those of the summary, then those of the lines of a record of the message, and
-- they end with the flush of every sink.
abbrev pub Written : Env → System → Request → Bytes → System × List Effect → Type 0
Written env s r msg x =
    (t : System) × (before : List Effect) × (rec : Record) × (summed env s r msg ≡ some (t, before))
    × Tells r (name_of s.cache.logger_name r.logger_name) msg rec
    × Between (before ++ dispatched env t rec) x

told :
    (env : Env) (s : System) (r : Request) (name msg : Bytes)
    → Tells r name msg (record_of env s r name msg)
unfolding record_of
told env s r name msg = record {
  level = refl;
  logger_name = refl;
  file = refl;
  line = refl;
  func = refl;
  message = refl;
  message_len = refl;
}

-- what a call leaves, if the message is FATAL and not suppressed
abbrev Severe : Env → System → Request → Bytes → System × List Effect → Type 0
Severe env s r msg x =
    (tested env s r msg).0 ≡ false
    → s.initialized ≡ true
    → fatal ≤ r.level
    → Settled x × Written env s r msg x

module _ (env : Env) where
  summary-Ends :
      (s : System) (m : Option Summary) (suppressed : Bool)
      → Checked (suppressed, m, s.dup)
      → Ends (λ x. x.0.initialized ≡ s.initialized) (emit_summary env (deliver env deliveries) s m)
  unfolding emit_summary
  summary-Ends s none suppressed h = refl
  summary-Ends s (some m) suppressed h =
      Ends-map (Quiet s) (λ x. x.0.initialized ≡ s.initialized)
        (emit_summary env (deliver env deliveries) s (some m)) (λ x q. q.1)
        (emit_summary-Quiet env (deliver env deliveries) s (some m) (deliver-still env 1) h)

  -- the record of a message behind the effects `before`
  behind :
      (s s' : System) (r : Request) (msg : Bytes) (before : List Effect) (suppressed : Bool)
      → (tested env s r msg).0 ≡ suppressed
      → summed env s r msg ≡ some (s', before)
      → s'.initialized ≡ s.initialized
      → let name = name_of s.cache.logger_name r.logger_name in
        Ends (Severe env s r msg) (
          (if suppressed
            then some (s', [])
            else deliver env deliveries s' (record_of env s' r name msg))
          >>= λ x. some (x.0, before ++ x.1))
  unfolding record_of
  behind s s' r msg before true is e init = λ new. cc (is, new)
  behind s s' r msg before false is e init =
      let rec = record_of env s' r (name_of s.cache.logger_name r.logger_name) msg in
      Ends-bind (Delivered env s' rec) (Severe env s r msg) (deliver env deliveries s' rec)
        (λ x. some (x.0, before ++ x.1)) (deliver_lem env s' rec)
        (λ x d new i f.
          let (settled, (middle, eq)) = d.2 f (init ∙ i) in
          let out = dispatched env s' rec in
          let ends = flush_sinks x.0.core.sinks.sinks in
          (
            settled,
            (
              s',
              before,
              rec,
              e,
              told env s' r (name_of s.cache.logger_name r.logger_name) msg,
              (
                middle,
                ap (λ z. before ++ z) eq
                    ∙ sym (append_assoc before (out ++ middle) ends)
                    ∙ ap (λ z. z ++ ends) (sym (append_assoc before out middle)),
              ),
            ),
          ))

  write_message_lem :
      (s : System) (r : Request) (msg : Bytes)
      → Ends (Severe env s r msg) (write_message env s r msg)
  unfolding write_message
  write_message_lem s r msg =
      let name = name_of s.cache.logger_name r.logger_name in
      let (suppressed, m, d) = check_and_update s.dup (dup_call env r name msg) in
      let s1 : System = record s { dup = d } in
      let same : System × List Effect → Type 0 = λ x. x.0.initialized ≡ s1.initialized in
      let m' = summed env s r msg in
      Ends-bind (λ x. same x × (m' ≡ some x)) (Severe env s r msg) m'
        (λ x.
          (if suppressed
            then some (x.0, [])
            else deliver env deliveries x.0 (record_of env x.0 r name msg))
          >>= λ y. some (y.0, x.1 ++ y.1))
        (Ends-itself same m'
          (summary-Ends s1 m suppressed (check_and_update-Checked s.dup (dup_call env r name msg))))
        (λ x h. behind s x.0 r msg x.1 suppressed refl h.1 h.0)

  -- The call is not filtered, and its message is formatted and not suppressed. No line goes through
  -- the queue, where it could wait or be lost.
  pub record IsAccepted (s : System) (r : Request) (text : Bytes) : Type 0 where
    pub synchronous : s.core.async ≡ false
    pub initialized : s.initialized ≡ true
    pub filtered : is_filtered s r ≡ false
    pub formatted : r.text ≡ some text
    pub new : (tested env (refreshed s) r (message_of env text)).0 ≡ false

  passes_filters :
      {s : System} {r : Request} (text : Bytes)
      → IsAccepted s r text
      → (not s.initialized || is_filtered s r) ≡ true
      → ⊥
  passes_filters text a skip = ground (arith, a.initialized, a.filtered)

  -- what every call leaves
  abbrev pub Left : System → Request → System × List Effect → Type 0
  Left s r x =
      (text : Bytes)
      → IsAccepted s r text
      → fatal ≤ r.level
      → Settled x × Written env (refreshed s) r (message_of env text) x

  by_text :
      (s : System) (r : Request) (o : Option Bytes)
      → r.text ≡ o
      → Ends (Left s r) (elim o [
        | none ↦ some (s, [])
        | some text ↦ write_message env (refreshed s) r (message_of env text)
      ])
  unfolding refreshed
  by_text s r none e = λ text a f. cc (a.formatted, e)
  by_text s r (some text) e =
      Ends-map (Severe env (refreshed s) r (message_of env text)) (Left s r)
        (write_message env (refreshed s) r (message_of env text))
        (λ x h text' a f.
          let same : text' ≡ text = cc (a.formatted, e) in
          rw same (h (rw same at a.new) a.initialized f))
        (write_message_lem (refreshed s) r (message_of env text))

  core_writev_lem : (s : System) (r : Request) → Ends (Left s r) (core_writev env s r)
  unfolding core_writev
  core_writev_lem s r = elim (Bool-cases (not s.initialized || is_filtered s r)) [
    | inl skip ↦ rw skip (λ text a f. absurd (passes_filters text a skip))
    | inr go ↦ rw go (by_text s r r.text refl)
  ]

-- Every call of `core_writev` in the synchronous mode ends, with two nested deliveries as its
-- fuel.
pub core_writev_total :
    (env : Env) (s : System) (r : Request)
    → (x : System × List Effect) × (core_writev env s r ≡ some x)
core_writev_total env s r =
    let (x, e, h) = result_of (Left env s r) (core_writev env s r) (core_writev_lem env s r) in
    (x, e)

-- A FATAL message that is accepted is written: the call ends, no repeats are counted any more, and
-- the effects are those of the summary of repeats, if there is one, then those of the lines of a
-- record with its level, name, place and text, and in the end the flushes of all the sinks. It is
-- accepted if the library is initialised and in the synchronous mode, and the message is not
-- filtered, can be formatted and is not suppressed as a duplicate.
pub core_writev-fatal :
    (env : Env) (s : System) (r : Request) (text : Bytes)
    → IsAccepted env s r text
    → fatal ≤ r.level
    → (x : System × List Effect) × (core_writev env s r ≡ some x)
      × Settled x
      × Written env (refreshed s) r (message_of env text) x
core_writev-fatal env s r text a f =
    let (x, e, h) = result_of (Left env s r) (core_writev env s r) (core_writev_lem env s r) in
    let (settled, written) = h text a f in (x, e, settled, written)
