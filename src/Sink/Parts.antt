-- ===== src/Sink/Parts.antt =====
-- src/hx_clog_core.c: what the loops over the sinks keep of a list: what holds of all its members,
-- and that no two ids are the same.
use hx_clog.Common.{
  ℕ, suc, ◌+◌, ◌≡◌, ◌≢◌, refl, ap, inl, inr, false, List, [], ◌∷◌, ◌++◌, Option, none, some, arith,
  ◌==◌, Bool-cases, length,
}
use hx_clog.Sink.{Sink}
use hx_clog.Sink.Registry.{overrides, split_id, change_id}

abbrev pub All : (Sink → Type 0) → List Sink → Type 0
All P [] = Unit
All P (s ∷ ss) = P s × All P ss

-- no two sinks have the same id
abbrev pub Distinct : List Sink → Type 0
Distinct [] = Unit
Distinct (s ∷ ss) = All (λ t. t.id ≢ s.id) ss × Distinct ss

-- of the sink that is taken out and of the others
abbrev pub Parts : (Sink → Type 0) → Option (Sink × List Sink) → Type 0
Parts P none = Unit
Parts P (some (s, ss)) = P s × (All P ss)

-- of the others: one is missing, and their ids are distinct
abbrev pub Rest : ℕ → Option (Sink × List Sink) → Type 0
Rest n none = Unit
Rest n (some (s, ss)) = (length ss + 1 ≡ n) × Distinct ss

abbrev pub Changed : (List Sink → Type 0) → Option (List Sink) → Type 0
Changed P none = Unit
Changed P (some ss) = P ss

module _ (P : Sink → Type 0) where
  pub All-map :
      (Q : Sink → Type 0) (ss : List Sink) → ((s : Sink) → P s → Q s) → All P ss → All Q ss
  All-map Q [] f h = tt
  All-map Q (s ∷ ss) f (p, h) = (f s p, All-map Q ss f h)

  pub All-append : (ss : List Sink) (s : Sink) → All P ss → P s → All P (ss ++ s ∷ [])
  All-append [] s h p = (p, tt)
  All-append (x ∷ ss) s (q, h) p = (q, All-append ss s h p)

  Parts-cons :
      (s : Sink) (o : Option (Sink × List Sink))
      → P s
      → Parts P o
      → Parts P (elim o [ none ↦ none | some (t, ts) ↦ some (t, s ∷ ts) ])
  Parts-cons s none p h = tt
  Parts-cons s (some (t, ts)) p (q, h) = (q, (p, h))

  pub split_id-Parts : (id : ℕ) (ss : List Sink) → All P ss → Parts P (split_id id ss)
  unfolding split_id
  split_id-Parts id [] h = tt
  split_id-Parts id (s ∷ ss) (p, h) = elim (Bool-cases (s.id == id)) [
    | inl e ↦ rw e (p, h)
    | inr e ↦ rw e (Parts-cons s (split_id id ss) p (split_id-Parts id ss h))
  ]

pub Distinct-append :
    (ss : List Sink) (s : Sink) → Distinct ss → All (λ t. s.id ≢ t.id) ss → Distinct (ss ++ s ∷ [])
Distinct-append [] s d h = (tt, tt)
Distinct-append (x ∷ ss) s (a, d) (n, h) =
    (All-append (λ t. t.id ≢ x.id) ss s a n, Distinct-append ss s d h)

Rest-cons :
    (s : Sink) (n : ℕ) (o : Option (Sink × List Sink))
    → Parts (λ t. t.id ≢ s.id) o
    → Rest n o
    → Rest (suc n) (elim o [ none ↦ none | some (t, ts) ↦ some (t, s ∷ ts) ])
Rest-cons s n none a h = tt
Rest-cons s n (some (t, ts)) (a, others) (e, d) = (omega (arith, e), (others, d))

pub split_id-Rest : (id : ℕ) (ss : List Sink) → Distinct ss → Rest (length ss) (split_id id ss)
unfolding split_id
split_id-Rest id [] d = tt
split_id-Rest id (s ∷ ss) (a, d) = elim (Bool-cases (s.id == id)) [
  | inl e ↦ rw e (omega arith, d)
  | inr e ↦ rw e (
      Rest-cons s (length ss) (split_id id ss) (split_id-Parts (λ t. t.id ≢ s.id) id ss a)
        (split_id-Rest id ss d))
]

Changed-cons :
    (P Q : List Sink → Type 0) (s : Sink) (o : Option (List Sink))
    → ((ss : List Sink) → P ss → Q (s ∷ ss))
    → Changed P o
    → Changed Q (elim o [ none ↦ none | some ts ↦ some (s ∷ ts) ])
Changed-cons P Q s none f h = tt
Changed-cons P Q s (some ts) f h = f ts h

Distinct-cons :
    (s : Sink) (o : Option (List Sink))
    → Changed (All (λ t. t.id ≢ s.id)) o
    → Changed Distinct o
    → Changed Distinct (elim o [ none ↦ none | some ts ↦ some (s ∷ ts) ])
Distinct-cons s none a d = tt
Distinct-cons s (some ts) a d = (a, d)

module _ (f : Sink → Sink) where
  pub change_id-All :
      (P : Sink → Type 0) (id : ℕ) (ss : List Sink)
      → ((s : Sink) → P s → P (f s))
      → All P ss
      → Changed (All P) (change_id id f ss)
  unfolding change_id
  change_id-All P id [] k h = tt
  change_id-All P id (s ∷ ss) k (p, h) = elim (Bool-cases (s.id == id)) [
    | inl e ↦ rw e (k s p, h)
    | inr e ↦ rw e (
        Changed-cons (All P) (All P) s (change_id id f ss) (λ ts q. (p, q))
          (change_id-All P id ss k h))
  ]

  pub length-change_id :
      (id : ℕ) (ss : List Sink) → Changed (λ ts. length ts ≡ length ss) (change_id id f ss)
  unfolding change_id
  length-change_id id [] = tt
  length-change_id id (s ∷ ss) = elim (Bool-cases (s.id == id)) [
    | inl e ↦ rw e refl
    | inr e ↦ rw e (
        Changed-cons (λ ts. length ts ≡ length ss) (λ ts. length ts ≡ suc (length ss)) s
          (change_id id f ss) (λ ts q. ap suc q) (length-change_id id ss))
  ]

  -- A change that keeps the ids keeps them distinct.
  pub change_id-Distinct :
      (id : ℕ) (ss : List Sink)
      → ((s : Sink) → (f s).id ≡ s.id)
      → Distinct ss
      → Changed Distinct (change_id id f ss)
  unfolding change_id
  change_id-Distinct id [] same d = tt
  change_id-Distinct id (s ∷ ss) same (a, d) = elim (Bool-cases (s.id == id)) [
    | inl e ↦ rw (e, same s) (a, d)
    | inr e ↦ rw e (
        Distinct-cons s (change_id id f ss)
          (change_id-All (λ t. t.id ≢ s.id) id ss (λ t n. rw (same t) n) a)
          (change_id-Distinct id ss same d))
  ]

pub overrides-append :
    (ss : List Sink) (s : Sink) → s.override_set ≡ false → overrides (ss ++ s ∷ []) ≡ overrides ss
unfolding overrides
overrides-append [] s e = rw e
overrides-append (x ∷ ss) s e = rw (overrides-append ss s e)

pub overrides-change_id :
    (f : Sink → Sink) (id : ℕ) (ss : List Sink)
    → ((s : Sink) → (f s).override_set ≡ s.override_set)
    → Changed (λ ts. overrides ts ≡ overrides ss) (change_id id f ss)
unfolding change_id overrides
overrides-change_id f id [] same = tt
overrides-change_id f id (s ∷ ss) same = elim (Bool-cases (s.id == id)) [
  | inl e ↦ rw (e, same s) refl
  | inr e ↦ rw e (
      Changed-cons (λ ts. overrides ts ≡ overrides ss) (λ ts. overrides ts ≡ overrides (s ∷ ss)) s
        (change_id id f ss) (λ ts q. rw q refl) (overrides-change_id f id ss same))
]
