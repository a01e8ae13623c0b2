-- ===== src/Rotate/Recognise/Archive.antt =====
-- src/hx_clog_rotate.c: the archives of a rotation, as the cleanup finds them and orders them.
use hx_clog.Common.{
  ℕ, ◌+◌, ◌*◌, ◌^◌, ◌<◌, ◌≡◌, ◌⊎◌, refl, ◌∙◌, ap, inl, inr, Bool, true, false, [], ◌∷◌, ◌++◌,
  append_assoc, arith, if◌then◌else◌, lt→ltb, Bytes, some, length, codes,
}
use hx_clog.Common.Int.{ℤ, less}
use hx_clog.Format.Record.{Tm}
use hx_clog.Format.View.{decimal}
use hx_clog.Rotate.{path_max, date_tag, make_archive_name}
use hx_clog.Rotate.Match.{match_ending, archive_name_match, archive_order_key}
use hx_clog.Rotate.Fresh.{Stops, ending, ending-Stops, IsDate}
use hx_clog.Rotate.Recognise.{
  named, tagged, match_ending-plain, match_ending-gz, make_archive_name-named,
  archive_name_match-named, archive_order_key-named,
}

-- the name of an archive that is still as it was renamed, or that has been compressed
abbrev pub stored : Bool → Bytes → Bytes
stored gz name = if gz then name ++ codes ".gz" else name

pub stored-Stops : (gz : Bool) (ext : Bytes) → Stops (stored gz (ending ext))
unfolding ending Stops
stored-Stops true [] = refl
stored-Stops true (c ∷ e) = refl
stored-Stops false ext = ending-Stops ext

stored-named :
    (gz : Bool) (stem tail : Bytes) (tmv : Tm) (index : ℕ)
    → stored gz (named stem tmv index tail) ≡ named stem tmv index (stored gz tail)
unfolding named tagged
stored-named true stem tail tmv index =
    let front = stem ++ b'.' ∷ [] in
    let date = date_tag tmv in
    let d = decimal 24 index in
    let gz = codes ".gz" in
    append_assoc front (date ++ b'.' ∷ (d ++ tail)) gz
    ∙ ap (λ z. front ++ z) (append_assoc date (b'.' ∷ (d ++ tail)) gz)
    ∙ ap (λ z. front ++ (date ++ b'.' ∷ z)) (append_assoc d tail gz)
stored-named false stem tail tmv index = refl

match_ending-stored :
    (gz : Bool) (ext : Bytes) → match_ending ext (stored gz (ending ext)) ≡ some gz
match_ending-stored true ext = match_ending-gz ext
match_ending-stored false ext = match_ending-plain ext

-- lexicographic order of the date and of the index
abbrev pub Before : Tm → ℕ → Tm → ℕ → Type 0
Before a i b j =
    (a.tm_year < b.tm_year)
    ⊎ ((a.tm_year ≡ b.tm_year)
        × ((a.tm_mon < b.tm_mon)
            ⊎ ((a.tm_mon ≡ b.tm_mon)
                × ((a.tm_mday < b.tm_mday) ⊎ ((a.tm_mday ≡ b.tm_mday) × (i < j))))))

Before-lt :
    (a b : Tm) (i j : ℕ)
    → IsDate a
    → IsDate b
    → i < 10 ^ 8
    → Before a i b j
    → ((a.tm_year + 1900) * 10000 + (a.tm_mon + 1) * 100 + a.tm_mday) * 100000000 + i
      < ((b.tm_year + 1900) * 10000 + (b.tm_mon + 1) * 100 + b.tm_mday) * 100000000 + j
Before-lt a b i j da db h before =
    let ma = da.mon_in in
    let xa = da.day_in in
    elim before [
      | inl y ↦ omega arith
      | inr (ey, inl m) ↦ omega arith
      | inr (ey, inr (em, inl x)) ↦ omega arith
      | inr (ey, inr (em, inr (ex, l))) ↦ omega arith
    ]

module _ (stem ext : Bytes) where
  -- the name with its ending fits into a path
  abbrev pub Fits : Tm → ℕ → Type 0
  Fits tmv index = length (named stem tmv index (ending ext)) < path_max

  pub stored_name :
      (tmv : Tm) (index : ℕ) (gz : Bool)
      → Fits tmv index
      → stored gz (make_archive_name stem ext tmv index)
        ≡ named stem tmv index (stored gz (ending ext))
  stored_name tmv index gz short =
      ap (stored gz) (make_archive_name-named stem ext tmv index short)
      ∙ stored-named gz stem (ending ext) tmv index

  -- The name that a rotation gives an archive, as it is or with `.gz` behind it, is recognised by
  -- the cleanup of the same stem and extension, and it is told which of the two it is. The date
  -- has a year below 10000, the index fits into an `int`, and the name fits into a path.
  pub archive_name_match-make_archive_name :
      (tmv : Tm) (index : ℕ) (gz : Bool)
      → IsDate tmv
      → index < 2 ^ 31
      → Fits tmv index
      → archive_name_match
          (stored gz (make_archive_name stem ext tmv index))
          (stem ++ b'.' ∷ [])
          ext
        ≡ some gz
  archive_name_match-make_archive_name tmv index gz d h short =
      let tail = stored gz (ending ext) in
      let stops = stored-Stops gz ext in
      ap (λ x. archive_name_match x (stem ++ b'.' ∷ []) ext) (stored_name tmv index gz short)
      ∙ archive_name_match-named stem tail tmv index d (omega arith) stops ext
      ∙ match_ending-stored gz ext

  -- Of two archives of a file, compressed or not, the one with the earlier date, or on one day
  -- with the smaller index, has the smaller key, whatever the times of the files are. The dates
  -- have years below 10000, the indices are below `10 ^ 8`, and the names fit into a path.
  pub archive_order_key-Before :
      (a b : Tm) (i j : ℕ) (gz gz' : Bool) (fallback fallback' : ℤ)
      → IsDate a
      → IsDate b
      → i < 10 ^ 8
      → j < 10 ^ 8
      → Fits a i
      → Fits b j
      → Before a i b j
      → let prefix = stem ++ b'.' ∷ [] in
        less
          (archive_order_key (stored gz (make_archive_name stem ext a i)) prefix fallback)
          (archive_order_key (stored gz' (make_archive_name stem ext b j)) prefix fallback')
        ≡ true
  archive_order_key-Before a b i j gz gz' f f' da db h k sa sb before =
      rw
        (
          stored_name a i gz sa,
          stored_name b j gz' sb,
          archive_order_key-named stem (stored gz (ending ext)) a i da (omega arith)
              (stored-Stops gz ext) f,
          archive_order_key-named stem (stored gz' (ending ext)) b j db (omega arith)
              (stored-Stops gz' ext) f',
        )
        (lt→ltb _ _ (Before-lt a b i j da db h before))
