-- ===== src/CrashCallback/Pairs.antt =====
-- src/hx_clog_core.c: with which user data the handler of a crash calls back.
use hx_clog.Common.{
  ℕ, ◌≤◌, ◌≡◌, ◌≢◌, ◌⊎◌, refl, inl, inr, List, [], ◌∷◌, Option, none, some, arith, length,
}
use hx_clog.CrashCallback.{
  Shared, detach, store_data, publish, read_callback, read_data, Setter, Handler, System, Step,
  detaches, stores, publishes, looks, gets, Run, done, goes, at_first,
}

-- the arguments are those of a call that has begun
abbrev pub Passed : Option ℕ → ℕ → List (Option ℕ × ℕ) → Type 0
Passed cb u [] = ⊥
Passed cb u ((c, v) ∷ calls) = ((cb ≡ c) × (u ≡ v)) ⊎ Passed cb u calls

-- there is no callback, or it goes with the data
abbrev Paired : Option ℕ → ℕ → List (Option ℕ × ℕ) → Type 0
Paired cb u calls = (cb ≡ none) ⊎ Passed cb u calls

-- what the setter knows of the memory
abbrev Sets : Setter → Shared → List (Option ℕ × ℕ) → Type 0
Sets Setter.idle m calls = Paired m.crash_cb m.crash_cb_ud calls
Sets (Setter.detached cb u) m calls = (m.crash_cb ≡ none) × Passed cb u calls
Sets (Setter.stored cb u) m calls = (m.crash_cb ≡ none) × (m.crash_cb_ud ≡ u) × Passed cb u calls

-- what the handler knows, if no call has begun since its first read
abbrev Handles : Handler → Setter → Shared → List (Option ℕ × ℕ) → Type 0
Handles Handler.waiting t m calls = Unit
Handles (Handler.looked cb n) t m calls =
    (n ≤ length calls) × (n ≡ length calls → (cb ≡ none) ⊎ ((cb ≡ m.crash_cb) × (t ≡ Setter.idle)))
Handles (Handler.got cb u n k) t m calls = n ≡ k → Paired cb u calls

record IsValid (s : System) : Type 0 where
  sets : Sets s.setter s.memory s.calls
  handles : Handles s.handler s.setter s.memory s.calls

Paired-more :
    (c : Option ℕ) (v : ℕ) (cb : Option ℕ) (u : ℕ) (calls : List (Option ℕ × ℕ))
    → Paired cb u calls
    → Paired cb u ((c, v) ∷ calls)
Paired-more c v cb u calls (inl e) = inl e
Paired-more c v cb u calls (inr p) = inr (inr p)

-- a call begins, while the handler stands anywhere
begin-Handles :
    (h : Handler) (m : Shared) (calls : List (Option ℕ × ℕ)) (cb : Option ℕ) (u : ℕ)
    → Handles h Setter.idle m calls
    → Handles h (Setter.detached cb u) (detach m) ((cb, u) ∷ calls)
begin-Handles Handler.waiting m calls cb u k = tt
begin-Handles (Handler.looked c n) m calls cb u (le, k) = (omega arith, λ e. absurd (omega arith))
begin-Handles (Handler.got c v n l) m calls cb u k = λ e. Paired-more cb u c v calls (k e)

-- a call goes on: it was not idle
on-Handles :
    (h : Handler) (t t' : Setter) (m m' : Shared) (calls : List (Option ℕ × ℕ))
    → t ≢ Setter.idle
    → Handles h t m calls
    → Handles h t' m' calls
on-Handles Handler.waiting t t' m m' calls busy k = tt
on-Handles (Handler.looked c n) t t' m m' calls busy (le, k) =
    (le, λ e. elim (k e) [ inl none_seen ↦ inl none_seen | inr p ↦ absurd (busy (p.1)) ])
on-Handles (Handler.got c v n l) t t' m m' calls busy k = k

-- the first read
look-Handles :
    (t : Setter) (m : Shared) (calls : List (Option ℕ × ℕ))
    → Sets t m calls
    → Handles (Handler.looked (read_callback m) (length calls)) t m calls
unfolding read_callback
look-Handles Setter.idle m calls k = (omega arith, λ e. inr (refl, refl))
look-Handles (Setter.detached cb u) m calls (off, p) = (omega arith, λ e. inl off)
look-Handles (Setter.stored cb u) m calls (off, same, p) = (omega arith, λ e. inl off)

-- the second read
get-Handles :
    (t : Setter) (m : Shared) (calls : List (Option ℕ × ℕ)) (cb : Option ℕ) (n : ℕ)
    → Sets t m calls
    → Handles (Handler.looked cb n) t m calls
    → Handles (Handler.got cb (read_data m) n (length calls)) t m calls
unfolding read_data
get-Handles t m calls cb n sets (le, k) = λ e. elim (k e) [
  | inl none_seen ↦ inl none_seen
  | inr (same, idle) ↦
      let known : Paired m.crash_cb m.crash_cb_ud calls = rw idle at sets in rw same known
]

Step-IsValid : {s t : System} → Step s t → IsValid s → IsValid t
unfolding detach store_data publish
Step-IsValid (detaches {m} {h} {calls} cb u) v = record {
  sets = (refl, inl (refl, refl));
  handles = begin-Handles h m calls cb u v.handles;
}
Step-IsValid (stores {m} {h} {calls} cb u) v = record {
  sets = (v.sets.0, refl, v.sets.1);
  handles =
      on-Handles h (Setter.detached cb u) (Setter.stored cb u) m _ calls (λ e. cc e) v.handles;
}
Step-IsValid (publishes {m} {h} {calls} cb u) v = record {
  sets = inr (rw (v.sets.1) (v.sets.2));
  handles = on-Handles h (Setter.stored cb u) Setter.idle m _ calls (λ e. cc e) v.handles;
}
Step-IsValid (looks {m} {t} {calls}) v = record {
  sets = v.sets;
  handles = look-Handles t m calls v.sets;
}
Step-IsValid (gets {m} {t} {calls} cb n) v = record {
  sets = v.sets;
  handles = get-Handles t m calls cb n v.sets v.handles;
}

Run-IsValid : {s t : System} → Run s t → IsValid s → IsValid t
Run-IsValid done v = v
Run-IsValid (goes step run) v = Run-IsValid run (Step-IsValid step v)

at_first-IsValid : IsValid at_first
at_first-IsValid = record { sets = inl refl; handles = tt }

-- If as many calls of `hx_clog_set_crash_callback` have begun at the second read of the handler as
-- at its first, and the callback that it got is not null, then one of these calls was given that
-- callback together with the data that the handler got. The calls are made by one thread, in any
-- interleaving with the handler.
pub got-Passed :
    {s : System} (cb u n : ℕ)
    → Run at_first s
    → s.handler ≡ Handler.got (some cb) u n n
    → Passed (some cb) u s.calls
got-Passed {s} cb u n run e =
    let h = (Run-IsValid run at_first-IsValid).handles in
    elim ((rw e at h) refl) [ inl clash ↦ absurd (cc clash) | inr p ↦ p ]
