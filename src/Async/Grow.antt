-- ===== src/Async/Grow.antt =====
-- src/hx_clog_async.c: the loops `while (newcap < need) newcap *= 2;`, over 32-bit numbers.
use native.Mathlib.Nat.{pow-succ', pow-zero, mul_assoc, one-le-pow}
use hx_clog.Common.{
  ℕ, zero, suc, ◌*◌, ◌%◌, ◌^◌, ◌≤◌, ◌<◌, ◌≡◌, ◌⊎◌, inl, inr, refl, Option, none, some, arith, ltb,
  if◌then◌else◌, Bool-cases, ltb→lt, ltb→ge, lt→ltb, ge→ltb, false,
}

-- A number that grows by doubling is 0 or large after as many rounds: more do not help.
abbrev pub doublings : ℕ
doublings = 33

-- `none`: the loop has not ended in `rounds` rounds
pub grow : ℕ → ℕ → ℕ → Option ℕ
grow zero newcap need = none
grow (suc rounds) newcap need =
    let more = grow rounds (newcap * 2 % 2 ^ 32) need in
    if ltb newcap need then more else some newcap

module _ (need : ℕ) where
  -- The loop has ended at `r`: large enough, and less than twice the need if it has grown.
  abbrev pub Grown : ℕ → ℕ → Type 0
  Grown newcap r = (need ≤ r) × (newcap ≤ r) × ((r ≡ newcap) ⊎ (r < 2 * need))

  grow_from :
      (rounds newcap : ℕ)
      → need ≤ 2 ^ 31
      → 0 < newcap
      → need ≤ newcap * 2 ^ rounds
      → (r : ℕ) × (grow (suc rounds) newcap need ≡ some r) × Grown newcap r
  unfolding grow
  grow_from zero newcap small pos enough =
      let e : ltb newcap need ≡ false = ge→ltb newcap need (omega (arith, pow-zero 2)) in
      (newcap, rw e, (omega (arith, pow-zero 2), omega arith, inl refl))
  grow_from (suc rounds) newcap small pos enough = elim (Bool-cases (ltb newcap need)) [
    | inl less ↦
        let lt = ltb→lt newcap need less in
        let pos2 : 0 < newcap * 2 = omega arith in
        let enough2 : need ≤ newcap * 2 * 2 ^ rounds = rw (pow-succ', ← mul_assoc) at enough in
        let rest = grow_from rounds (newcap * 2) small pos2 enough2 in
        let twice : newcap * 2 % 2 ^ 32 ≡ newcap * 2 = omega arith in
        let (r, e, (big, up, size)) = rest in
        (
          r,
          rw (less, twice) e,
          (big, omega arith, elim size [ inl same ↦ inr (omega arith) | inr bound ↦ inr bound ]),
        )
    | inr done ↦ (newcap, rw done, (ltb→ge newcap need done, omega arith, inl refl))
  ]

-- From any positive capacity the loop ends within 33 rounds for every need up to `2 ^ 31`, at a
-- capacity that is large enough and not smaller than the first, and that is less than twice the
-- need if it has grown.
pub grow_total :
    (newcap need : ℕ)
    → need ≤ 2 ^ 31
    → 0 < newcap
    → (r : ℕ) × (grow doublings newcap need ≡ some r) × Grown need newcap r
grow_total newcap need small pos = grow_from need 32 newcap small pos (omega arith)

le-mul_pow : (c j : ℕ) → c ≤ c * 2 ^ j
le-mul_pow c j = grind (arith, one-le-pow j 2)

-- a power of two up to `2 ^ 31`, or 0
abbrev pub Doubles : ℕ → Type 0
Doubles c = ((j : ℕ) × (c * 2 ^ j ≡ 2 ^ 31)) ⊎ (c ≡ 0)

pub Doubles-le : {c : ℕ} → Doubles c → c ≤ 2 ^ 31
Doubles-le {c} (inl (j, e)) = omega (arith, le-mul_pow c j)
Doubles-le (inr e) = omega arith

Doubles-twice : (c : ℕ) → Doubles c → Doubles (c * 2 % 2 ^ 32)
Doubles-twice c (inl (zero, e)) = inr (omega (arith, pow-zero 2))
Doubles-twice c (inl (suc j, e)) =
    let twice : c * 2 * 2 ^ j ≡ 2 ^ 31 = rw (pow-succ', ← mul_assoc) at e in
    let same : c * 2 % 2 ^ 32 ≡ c * 2 = omega (arith, le-mul_pow (c * 2) j) in
    inl (j, rw same twice)
Doubles-twice c (inr e) = inr (omega arith)

-- For a need above `2 ^ 31` the loop over 32-bit numbers that starts at a power of two up to `2 ^
-- 31`, or at 0, has not ended after any number of rounds.
pub grow_loops :
    (rounds newcap need : ℕ) → Doubles newcap → 2 ^ 31 < need → grow rounds newcap need ≡ none
unfolding grow
grow_loops zero newcap need d h = refl
grow_loops (suc rounds) newcap need d h =
    let less : newcap < need = omega (arith, Doubles-le d) in
    rw (lt→ltb newcap need less)
      (grow_loops rounds (newcap * 2 % 2 ^ 32) need (Doubles-twice newcap d) h)

-- Where the loop ends, it has not left the 32-bit numbers.
pub grow_bound :
    (rounds newcap need : ℕ)
    → {r : ℕ} → newcap < 2 ^ 32
    → grow rounds newcap need ≡ some r
    → r < 2 ^ 32
unfolding grow
grow_bound zero newcap need h e = cc
grow_bound (suc rounds) newcap need {r} h e = elim (Bool-cases (ltb newcap need)) [
  | inl less ↦ grow_bound rounds (newcap * 2 % 2 ^ 32) need (omega arith) (rw less at e)
  | inr done ↦
      let e' : some newcap ≡ some r = rw done at e in let same : newcap ≡ r = cc in rw (← same) h
]
