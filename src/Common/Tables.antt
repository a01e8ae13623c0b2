-- ===== src/Common/Tables.antt =====
-- Facts about the numbers up to a bound, by evaluation of a test on each of them.
use hx_clog.Common.{ℕ, zero, suc, ◌<◌, ◌≡◌, Bool, true, false, if◌then◌else◌, arith}

-- The test succeeds on each number below the bound.
unfoldable pub passes : (ℕ → Bool) → ℕ → Bool
passes test zero = true
passes test (suc bound) = let rest = passes test bound in if test bound then rest else false

pub passes_lem :
    (test : ℕ → Bool) (bound : ℕ) {k : ℕ} → k < bound → passes test bound ≡ true → test k ≡ true
unfolding passes
passes_lem test zero less all = absurd (omega arith)
passes_lem test (suc bound) {k} less all = ground (arith, passes_lem test bound {k = k})
