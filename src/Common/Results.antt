-- ===== src/Common/Results.antt =====
-- Results that may be missing: what holds of a result, if there is one.
use mathlib.Core.Path.{◌≡◌, refl}
use mathlib.Core.Option.{Option, none, some}
use hx_clog.Common.Tests.{◌>>=◌}

-- There is a result, and `P` holds of it.
abbrev pub Ends {ℓ} : {A : Type ℓ} → (A → Type 0) → Option A → Type 0
Ends P none = ⊥
Ends P (some x) = P x

module _ {ℓ} {A : Type ℓ} (P : A → Type 0) where
  pub Ends-bind {κ} :
      {B : Type κ} (Q : B → Type 0) (m : Option A) (f : A → Option B)
      → Ends P m
      → ((x : A) → P x → Ends Q (f x))
      → Ends Q (m >>= f)
  Ends-bind Q none f h k = absurd h
  Ends-bind Q (some x) f h k = k x h

  pub Ends-map : (Q : A → Type 0) (o : Option A) → ((x : A) → P x → Q x) → Ends P o → Ends Q o
  Ends-map Q none k h = h
  Ends-map Q (some x) k h = k x h

  -- a result, from what holds of it
  pub result_of : (o : Option A) → Ends P o → (x : A) × (o ≡ some x) × P x
  result_of none h = absurd h
  result_of (some x) h = (x, refl, h)

-- which result it is
pub Ends-itself :
    {A : Type 0} (P : A → Type 0) (o : Option A) → Ends P o → Ends (λ x. P x × (o ≡ some x)) o
Ends-itself P none h = h
Ends-itself P (some x) h = (h, refl)
