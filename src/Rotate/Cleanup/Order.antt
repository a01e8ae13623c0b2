-- ===== src/Rotate/Cleanup/Order.antt =====
-- src/hx_clog_rotate.c: the sort of the backups.
use mathlib.Core.List.{Permᴰ, reverse-reverse}
use mathlib.Core.List.Permᴰ
use hx_clog.Common.{
  ◌≡◌, refl, true, false, List, [], ◌∷◌, ◌++◌, reverse, arith, Bool-cases, inl, inr,
}
use hx_clog.Common.Int.{ℤ, less}
use hx_clog.Rotate.Cleanup.{Backup, sink, sort_onto, sort}

-- Each backup's key is at least as large as those that follow.
pub Falls : List Backup → Type 0
Falls [] = Unit
Falls (b ∷ []) = Unit
Falls (b ∷ c ∷ bs) = (less b.key c.key ≡ false) × Falls (c ∷ bs)

sink-Permᴰ : (b : Backup) (xs : List Backup) → Permᴰ (sink b xs) (b ∷ xs)
unfolding sink
sink-Permᴰ b [] = Permᴰ.refl (b ∷ [])
sink-Permᴰ b (x ∷ xs) = elim (Bool-cases (less b.key x.key)) [
  | inl e ↦ rw e (Permᴰ.trans (Permᴰ.cons refl (sink-Permᴰ b xs)) (Permᴰ.swap refl refl))
  | inr e ↦ rw e (Permᴰ.refl (b ∷ x ∷ xs))
]

less-asym : (a b : ℤ) → less a b ≡ true → less b a ≡ false
less-asym (ℤ.pos m) (ℤ.pos n) h = ground arith
less-asym (ℤ.pos m) (ℤ.negsuc n) h = cc
less-asym (ℤ.negsuc m) (ℤ.pos n) h = refl
less-asym (ℤ.negsuc m) (ℤ.negsuc n) h = ground arith

-- The backup takes its place where the keys still fall.
sink-Falls : (b : Backup) (xs : List Backup) → Falls xs → Falls (sink b xs)
unfolding sink Falls
sink-Falls b [] f = tt
sink-Falls b (x ∷ []) f = elim (Bool-cases (less b.key x.key)) [
  | inl e ↦ rw e (less-asym b.key x.key e, tt)
  | inr e ↦ rw e (e, tt)
]
sink-Falls b (x ∷ y ∷ ys) (f, fs) =
    let rest = sink-Falls b (y ∷ ys) fs in
    elim (Bool-cases (less b.key x.key)) [
      | inr e ↦ rw e (e, (f, fs))
      | inl e ↦ elim (Bool-cases (less b.key y.key)) [
        | inl e' ↦ rw (e, e') (f, rw e' at rest)
        | inr e' ↦ rw (e, e') (less-asym b.key x.key e, rw e' at rest)
      ]
    ]

sort_onto-Falls : (sorted bs : List Backup) → Falls sorted → Falls (reverse (sort_onto sorted bs))
unfolding sort_onto
sort_onto-Falls sorted [] f = rw reverse-reverse f
sort_onto-Falls sorted (b ∷ bs) f = sort_onto-Falls (sink b sorted) bs (sink-Falls b sorted f)

sort_onto-Permᴰ : (sorted bs : List Backup) → Permᴰ (sort_onto sorted bs) (sorted ++ bs)
unfolding sort_onto
sort_onto-Permᴰ sorted [] =
    Permᴰ.trans (Permᴰ.reverse sorted) (Permᴰ.symm (Permᴰ.append-nil sorted))
sort_onto-Permᴰ sorted (b ∷ bs) = Permᴰ.trans (sort_onto-Permᴰ (sink b sorted) bs) (
    Permᴰ.trans (Permᴰ.append_right bs (sink-Permᴰ b sorted))
      (Permᴰ.symm (Permᴰ.middle b sorted bs)))

-- The sort keeps the backups, each as often as it was there, and puts them into the order of their
-- keys: read from the end, the keys never rise.
pub sort_lem : (bs : List Backup) → Permᴰ (sort bs) bs × Falls (reverse (sort bs))
unfolding sort Falls
sort_lem bs = (sort_onto-Permᴰ [] bs, sort_onto-Falls [] bs tt)
