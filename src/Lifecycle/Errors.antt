-- ===== src/Lifecycle/Errors.antt =====
-- src/hx_clog_core.c: a reconfiguration that fails changes nothing.
use hx_clog.Common.{ℕ, ◌≡◌, refl, inl, inr, List, [], ◌++◌, Option, none, some, Bool-cases, ◌>>=◌}
use hx_clog.Status.{Status}
use hx_clog.Setup.{ClogConfig, filled, file_name_is_plain}
use hx_clog.Sink.{Sink, Effect}
use hx_clog.Lifecycle.{World, Answers, new_file, Result}
use hx_clog.Lifecycle.Change.{flush, swap_sinks, replace_sinks, with_file, reconfigure}
use hx_clog.Common.{◌≢◌}

-- Where the status is not `ok`, the world is as it was, and nothing has been done.
abbrev IsSafe : World → Option Result → Type 0
IsSafe w none = Unit
IsSafe w (some (status, w', made, out)) = status ≢ Status.ok → (w' ≡ w) × (made ≡ []) × (out ≡ [])

replaced-IsSafe :
    (w : World) (a : Answers) (cfg : ClogConfig) (file : Option Sink)
    (m : Option (World × List Effect))
    → IsSafe w (
        m >>= λ x.
        let (status, w', made, out) = swap_sinks a cfg file x.0 in
        some (status, w', made, x.1 ++ out))
unfolding swap_sinks
replaced-IsSafe w a cfg file none = tt
replaced-IsSafe w a cfg file (some (w', before)) = λ bad. absurd (bad refl)

with_file-IsSafe :
    (a : Answers) (cfg : ClogConfig) (w : World) (file : Option Sink)
    → IsSafe w (with_file a cfg w file)
unfolding with_file replace_sinks
with_file-IsSafe a cfg w (some s) = replaced-IsSafe w a cfg (some s) (flush a w)
with_file-IsSafe a cfg w none = elim (Bool-cases cfg.enable_file) [
  | inl e ↦ simp e (λ bad. (refl, refl, refl))
  | inr e ↦ simp e (replaced-IsSafe w a cfg none (flush a w))
]

reconfigure-IsSafe :
    (a : Answers) (given : Option ClogConfig) (w : World) → IsSafe w (reconfigure a given w)
unfolding reconfigure
reconfigure-IsSafe a none w = elim (Bool-cases w.system.initialized) [
  | inl e ↦ simp e (λ bad. (refl, refl, refl))
  | inr e ↦ simp e (λ bad. (refl, refl, refl))
]
reconfigure-IsSafe a (some given) w = elim (Bool-cases w.system.initialized) [
  | inr off ↦ simp off (λ bad. (refl, refl, refl))
  | inl on ↦ elim (Bool-cases (file_name_is_plain (filled given).file_name)) [
    | inr bad ↦ simp (on, bad) (λ b. (refl, refl, refl))
    | inl plain ↦ simp (on, plain) (with_file-IsSafe a (filled given) w (new_file a (filled given)))
  ]
]

-- A call of reconfigure that ends with any status but `ok` leaves the state as it was, makes no
-- sink and has no effect.
pub reconfigure-kept :
    {w w' : World} {status : Status} {made : List ℕ} {out : List Effect} (a : Answers)
    (given : Option ClogConfig)
    → reconfigure a given w ≡ some (status, w', made, out)
    → status ≢ Status.ok
    → (w' ≡ w) × (made ≡ []) × (out ≡ [])
reconfigure-kept {w} a given e bad = (rw e at (reconfigure-IsSafe a given w)) bad
