-- ===== src/Duplicates/Runs.antt =====
-- src/hx_clog_core.c: the messages that pass and the summaries tell which messages there were.
use hx_clog.Common.{
  ℕ, ◌+◌, ◌%◌, ◌^◌, ◌<◌, ◌≡◌, refl, ◌∙◌, ap, sym, inl, inr, Bool, true, false, not, List, [], ◌∷◌,
  ◌++◌, append-nil, append_assoc, Option, none, some, arith, ltb, ltb→ge, if◌then◌else◌, Bool-cases,
  replicate, length,
}
use hx_clog.Duplicates.{
  Dup, Call, Summary, is_same, is_duplicate, pending, remember, check_and_update, flush_pending,
  configured, set_duplicate_suppression,
}
use hx_clog.Duplicates.Keys.{
  Key, key_of, last_key, Out, passed, repeated, expand, last_of, is_same-key, remember-key,
  expand-append, last_of-append, replicate_more, expand_owed,
}
use hx_clog.Duplicates.Events.{
  Event, logs, flushes, sets, summarised, step, run, keys_of, owed, IsValid, summarised-pending,
  last_of-owed, no_owed, Goes,
}

passes :
    (last : Option Key) (d : Dup) (c : Call)
    → d.enabled ≡ false
    → IsValid last d
    → Goes last d (key_of c ∷ []) (passed (key_of c) ∷ [], d)
unfolding expand last_of
passes last d c e v =
    let none_owed = no_owed d (v.owing (v.off e)) in
    record {
      valid = record { held = λ h. cc (h, v.off e); owing = v.owing; off = v.off };
      told = rw (v.owing (v.off e)) refl;
      few = omega arith;
    }

duplicate_parts :
    (d : Dup) (c : Call) → is_duplicate d c ≡ true → (d.have_last ≡ true) × (is_same d c ≡ true)
unfolding is_duplicate
duplicate_parts d c e = ground arith

-- repeats owed, by their number
abbrev owed_of : ℕ → List Out
owed_of n = if ltb 0 n then repeated n ∷ [] else []

counts :
    (last : Option Key) (d : Dup) (c : Call)
    → d.enabled ≡ true
    → is_duplicate d c ≡ true
    → d.repeats + 1 < 2 ^ 64
    → IsValid last d
    → Goes last d
        (key_of c ∷ [])
        ([], record d { repeats = (d.repeats + 1) % 2 ^ 64; last_ms = c.now_ms })
unfolding expand last_of
counts last d c on e few v =
    let (have, same) = duplicate_parts d c e in
    let key = is_same-key d c same in
    let n : (d.repeats + 1) % 2 ^ 64 ≡ d.repeats + 1 = omega arith in
    record {
      valid = record { held = v.held; owing = λ h. cc (h, have); off = v.off };
      told =
          let k = last_key d in
          let l : last ≡ some k = v.held have in
          ap (λ x. expand x (owed d) ++ key_of c ∷ []) l
          ∙ ap (λ z. z ++ key_of c ∷ []) (expand_owed d.repeats k)
          ∙ ap (λ x. replicate d.repeats k ++ x ∷ []) key
          ∙ replicate_more d.repeats k
          ∙ sym (expand_owed (d.repeats + 1) k)
          ∙ ap (λ m. expand (some k) (owed_of m)) (sym n)
          ∙ ap (λ x. expand x (owed_of ((d.repeats + 1) % 2 ^ 64))) (sym l);
      few = omega arith;
    }

starts_anew :
    (last : Option Key) (d : Dup) (c : Call)
    → d.enabled ≡ true
    → Goes last d (key_of c ∷ []) (summarised (pending d) ++ passed (key_of c) ∷ [], remember d c)
unfolding expand last_of remember
starts_anew last d c on =
    let os = owed d ++ passed (key_of c) ∷ [] in
    let ends : last_of last os ≡ some (key_of c) =
      last_of-append last (owed d) (passed (key_of c) ∷ []) in
    rw (summarised-pending d) record {
      valid = record {
        held = λ h. ends ∙ ap (λ k. some k) (sym (remember-key d c));
        owing = λ h. refl;
        off = λ h. cc (h, on);
      };
      told =
          sym (append-nil (expand last os) ∙ expand-append last (owed d) (passed (key_of c) ∷ []));
      few = omega arith;
    }

-- nothing is owed after a flush
settled :
    (last : Option Key) (d d' : Dup)
    → IsValid last d'
    → d'.repeats ≡ 0
    → Goes last d [] (summarised (pending d), d')
unfolding expand
settled last d d' v e = rw (summarised-pending d) record {
  valid = rw (last_of-owed last d) v;
  told = rw (last_of-owed last d, e) refl;
  few = omega (arith, e);
}

flushed :
    (last : Option Key) (d : Dup)
    → IsValid last d
    → Goes last d [] (summarised (flush_pending d).0, (flush_pending d).1)
unfolding flush_pending
flushed last d v = elim (Bool-cases (ltb 0 d.repeats)) [
  | inl e ↦
      let d' : Dup = record d { repeats = 0; have_last = false } in
      let ok : IsValid last d' = record { held = λ h. cc h; owing = λ h. refl; off = λ h. refl } in
      simp e (settled last d d' ok refl)
  | inr e ↦ simp e (settled last d d v (omega (arith, ltb→ge 0 d.repeats e)))
]

set_on :
    (last : Option Key) (d : Dup) (window_ms : ℕ)
    → IsValid last d
    → Goes last d [] ([], configured true window_ms d)
unfolding expand last_of configured
set_on last d window_ms v = record {
  valid = record { held = v.held; owing = v.owing; off = λ h. cc h };
  told = append-nil (expand last (owed d));
  few = omega arith;
}

set_off :
    (last : Option Key) (d : Dup) (window_ms : ℕ)
    → IsValid last d
    → Goes last d []
        (summarised (flush_pending d).0, configured false window_ms (flush_pending d).1)
unfolding configured flush_pending
set_off last d window_ms v =
    let d' = configured false window_ms (flush_pending d).1 in
    settled last d d' (record { held = λ h. cc h; owing = λ h. refl; off = λ h. refl }) refl

abbrev checked : Dup → Call → Bool → Bool → Bool × Option Summary × Dup
checked d c on twice =
    if not on
    then (false, none, d)
    else if twice
    then (true, none, record d { repeats = (d.repeats + 1) % 2 ^ 64; last_ms = c.now_ms })
    else (false, pending d, remember d c)

-- a message, by the two tests that it meets
logged_by :
    (last : Option Key) (d : Dup) (c : Call) (on twice : Bool)
    → d.enabled ≡ on
    → is_duplicate d c ≡ twice
    → d.repeats + 1 < 2 ^ 64
    → IsValid last d
    → let (suppressed, s, d') = checked d c on twice in
      Goes last d
        (key_of c ∷ [])
        (summarised s ++ (if suppressed then [] else passed (key_of c) ∷ []), d')
unfolding summarised
logged_by last d c false twice e t few v = passes last d c e v
logged_by last d c true true e t few v = counts last d c e t few v
logged_by last d c true false e t few v = starts_anew last d c e

logged-Goes :
    (last : Option Key) (d : Dup) (c : Call)
    → d.repeats + 1 < 2 ^ 64
    → IsValid last d
    → Goes last d (key_of c ∷ []) (step (logs c) d)
unfolding step check_and_update
logged-Goes last d c few v = logged_by last d c d.enabled (is_duplicate d c) refl refl few v

step-Goes :
    (last : Option Key) (e : Event) (d : Dup)
    → d.repeats + 1 < 2 ^ 64
    → IsValid last d
    → Goes last d (keys_of (e ∷ [])) (step e d)
unfolding step keys_of set_duplicate_suppression summarised
step-Goes last flushes d few v = flushed last d v
step-Goes last (sets true window_ms) d few v = set_on last d window_ms v
step-Goes last (sets false window_ms) d few v = set_off last d window_ms v
step-Goes last (logs c) d few v = logged-Goes last d c few v

keys_of-cons : (e : Event) (es : List Event) → keys_of (e ∷ es) ≡ keys_of (e ∷ []) ++ keys_of es
unfolding keys_of
keys_of-cons (logs c) es = refl
keys_of-cons flushes es = refl
keys_of-cons (sets enable window_ms) es = refl

run-Goes :
    (last : Option Key) (es : List Event) (d : Dup)
    → d.repeats + length es < 2 ^ 64
    → IsValid last d
    → expand last (owed d) ++ keys_of es ≡ expand last ((run es d).0 ++ owed (run es d).1)
unfolding run keys_of expand
run-Goes last [] d few v = append-nil (expand last (owed d))
run-Goes last (e ∷ es) d few v =
    let (os, d') = step e d in
    let g = step-Goes last e d (omega (arith, few)) v in
    let (rest, d'') = run es d' in
    let ih = run-Goes (last_of last os) es d' (omega (arith, few, g.few)) g.valid in
    ap (λ z. expand last (owed d) ++ z) (keys_of-cons e es)
    ∙ sym (append_assoc (expand last (owed d)) (keys_of (e ∷ [])) (keys_of es))
    ∙ ap (λ z. z ++ keys_of es) g.told
    ∙ append_assoc (expand last os) (expand (last_of last os) (owed d')) (keys_of es)
    ∙ ap (λ z. expand last os ++ z) ih
    ∙ sym (expand-append last os (rest ++ owed d''))
    ∙ ap (expand last) (sym (append_assoc os rest (owed d'')))

-- The messages that pass and the summaries, with one more for the repeats that are still counted,
-- tell what was logged: each message that passes, and after it as many repeats of it as its
-- summaries say, are the messages of the events, in their order. Messages are told apart by level,
-- line, length and the first bytes of logger, file and text. At first none is remembered, and
-- there are less than `2 ^ 64` events.
pub run_lem :
    (es : List Event) (d : Dup)
    → d.have_last ≡ false
    → d.repeats ≡ 0
    → length es < 2 ^ 64
    → keys_of es ≡ expand none ((run es d).0 ++ owed (run es d).1)
unfolding expand
run_lem es d fresh zero_repeats few =
    let v : IsValid none d = record {
      held = λ h. cc (h, fresh);
      owing = λ h. zero_repeats;
      off = λ h. fresh;
    } in
    ap (λ x. expand none x ++ keys_of es) (sym (no_owed d zero_repeats))
    ∙ run-Goes none es d (omega arith) v
