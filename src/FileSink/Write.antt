-- ===== src/FileSink/Write.antt =====
-- src/hx_clog_file.c, src/hx_clog_rotate.c: what a rotation does to the sink's count of bytes.
use mathlib.Core.Bool.{true≢false}
use hx_clog.Common.{
  ℕ, ◌+◌, ◌%◌, ◌^◌, ◌≤◌, ◌<◌, ◌≡◌, ◌⊎◌, inl, inr, refl, Bool, true, false, not, ◌&&◌, ◌||◌, [],
  arith, ltb, leb, ◌==◌, Bool-cases, ltb→ge, lt→ltb, Bytes,
}
use hx_clog.Status.{Status}
use hx_clog.Format.Record.{Tm}
use hx_clog.FileSink.{
  Policy, FileSink, Os, open_in, open_active, size_policy, no_policy, sized, need_size, need_daily,
  need_interval, roll_over, rename_done, archive, rotate_maybe, rotates,
}

-- The file system does what it is asked to, and a write writes no more than it is given.
pub record Works (os : Os) : Type 0 where
  pub opens : (path : Bytes) → os.opens path ≡ true
  pub makes : (path : Bytes) → os.makes_dir path ≡ true
  pub renames : (from to : Bytes) → os.renames from to ≡ true
  pub writes : (n : ℕ) → os.written n ≤ n

-- the time of a failed rotation is over
unfoldable pub Ready : Os → FileSink → Type 0
Ready os fs = (fs.rotate_fail_sec ≡ 0) ⊎ (fs.rotate_fail_sec < os.now)

size_policy-rotates : (p : Policy) → size_policy p ≡ true → no_policy p ≡ false
unfolding size_policy no_policy
size_policy-rotates Policy.rotate_none h = cc
size_policy-rotates Policy.by_size h = refl
size_policy-rotates Policy.by_time h = refl
size_policy-rotates Policy.by_size_and_time h = refl

and_not : (a b : Bool) → (not a && b) ≡ true → a ≡ false
and_not true b h = cc
and_not false b h = refl

module _ (localtime : ℕ → Tm) (os : Os) where
  open_active-ok : (fs : FileSink) → Works os → (open_active localtime os fs).0 ≡ true
  unfolding open_active open_in
  open_active-ok fs w = elim (Bool-cases fs.date_subdir) [
    | inl d ↦ simp (w.makes, w.opens, d) refl
    | inr d ↦ simp (w.makes, w.opens, d) refl
  ]

  pub rename_done-size :
      (fs : FileSink) → Works os → (rename_done localtime os fs).1.current_size ≡ 0
  unfolding rename_done
  rename_done-size fs w = simp (open_active-ok _ w) refl

  archive-size :
      (fs : FileSink) (tmv : Tm) (sec : ℕ)
      → Works os
      → (archive localtime os fs tmv sec).1.current_size ≡ 0
  unfolding archive
  archive-size fs tmv sec w = simp w.renames (rename_done-size _ w)

  roll_over-size : (fs : FileSink) → Works os → (roll_over localtime os fs).1.current_size ≡ 0
  unfolding roll_over
  roll_over-size fs w = simp (open_active-ok _ w) refl

  -- A rotation empties the file; where there is none, the size asks for none.
  rotate_maybe-size :
      (fs : FileSink) (incoming : ℕ)
      → Works os
      → Ready os fs
      → ((rotate_maybe localtime os fs incoming).1.current_size ≡ 0)
        ⊎ ((rotate_maybe localtime os fs incoming ≡ (Status.ok, fs, []))
            × (need_size fs incoming ≡ false))
  unfolding rotate_maybe Ready
  rotate_maybe-size fs incoming w ready =
      let time = need_daily localtime os fs || need_interval os fs in
      let late : (not (fs.rotate_fail_sec == 0) && leb os.now fs.rotate_fail_sec) ≡ false =
        elim ready [ inl z ↦ ground arith | inr l ↦ ground arith ] in
      elim (Bool-cases (not (need_size fs incoming) && not time)) [
        | inl idle ↦ inr (simp (late, idle) refl, and_not (need_size fs incoming) (not time) idle)
        | inr due ↦ elim (Bool-cases (fs.date_subdir && need_daily localtime os fs)) [
          | inl new ↦ inl (simp (late, due, new) (roll_over-size fs w))
          | inr old ↦ inl (simp (late, due, old) (archive-size fs _ os.now w))
        ]
      ]

  no_size :
      (fs : FileSink) (size : ℕ)
      → sized fs ≡ true
      → 0 < fs.max_file_size
      → need_size fs size ≡ false
      → fs.current_size + size < 2 ^ 64
      → (fs.current_size ≡ 0) ⊎ (fs.current_size + size ≤ fs.max_file_size)
  unfolding need_size
  no_size fs size s pos h small =
      elim (Bool-cases (ltb fs.max_file_size ((fs.current_size + size) % 2 ^ 64))) [
        | inr fits ↦
            let le = ltb→ge fs.max_file_size ((fs.current_size + size) % 2 ^ 64) fits in
            inr (omega arith)
        | inl over ↦ elim (Bool-cases (ltb 0 fs.current_size)) [
          | inr none ↦ inl (omega (arith, ltb→ge 0 fs.current_size none))
          | inl some ↦
              let limited : ltb 0 fs.max_file_size ≡ true = lt→ltb 0 fs.max_file_size pos in
              let clash : true ≡ false = simp (s, limited, over, some) at h in
              absurd (true≢false clash)
        ]
      ]

  pub sized-rotates : (fs : FileSink) → sized fs ≡ true → rotates fs ≡ true
  unfolding rotates sized
  sized-rotates fs s = elim (Bool-cases fs.rotate_daily) [
    | inl d ↦ simp d refl
    | inr d ↦ simp (d, size_policy-rotates fs.policy s) refl
  ]

  -- After a rotation, if there is one, there is room for the line.
  pub rotate_maybe-room :
      (fs : FileSink) (size limit : ℕ)
      → Works os
      → Ready os fs
      → sized fs ≡ true
      → 0 < fs.max_file_size
      → fs.current_size + size < 2 ^ 64
      → fs.max_file_size ≤ limit
      → size ≤ limit
      → let n = (rotate_maybe localtime os fs size).1.current_size in
        (n + size ≤ limit) × (n + size < 2 ^ 64)
  rotate_maybe-room fs size limit w ready s pos small h k =
      elim (rotate_maybe-size fs size w ready) [
        | inl empty ↦ (omega arith, omega arith)
        | inr (same, free) ↦ elim (no_size fs size s pos free small) [
          | inl z ↦ rw same (omega arith, omega arith)
          | inr f ↦ rw same (omega arith, omega arith)
        ]
      ]
