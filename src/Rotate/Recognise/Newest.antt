-- ===== src/Rotate/Recognise/Newest.antt =====
-- src/hx_clog_rotate.c: a new archive is the newest one, in the order of the cleanup.
use mathlib.Core.List.{Memᴰ}
use hx_clog.Common.{
  ℕ, ◌+◌, ◌-◌, ◌^◌, ◌≤◌, ◌<◌, ◌≡◌, refl, ◌∙◌, sym, ap, inl, inr, Bool, true, false, List, [], ◌∷◌,
  ◌++◌, arith, Bytes, length, length-append, take-of_le,
}
use hx_clog.Common.Int.{ℤ, less}
use hx_clog.Format.Record.{Tm}
use hx_clog.Format.View.{decimal}
use hx_clog.Format.Decimal.{length-decimal}
use hx_clog.Rotate.{
  stem_cap, ext_cap, needle_cap, cut, split_name, date_tag, make_archive_name, has_prefix,
  scan_index, next_archive,
}
use hx_clog.Rotate.Match.{archive_order_key}
use hx_clog.Rotate.Fresh.{
  ending, IsDate, needle_of, archive_begins, length-needle, length-ending, scan_index_reads,
}
use hx_clog.Rotate.Recognise.{needle_named}
use hx_clog.Rotate.Recognise.Archive.{
  stored, stored_name, stored-Stops, Fits, Before, archive_order_key-Before,
}

module _ (stem ext : Bytes) (stem_in : length stem < stem_cap) (ext_in : length ext < ext_cap) where
  short_name : (tmv : Tm) (index : ℕ) → IsDate tmv → index < 2 ^ 64 → Fits stem ext tmv index
  short_name tmv index date h =
      let needle = needle_of stem (date_tag tmv) in
      omega (
        arith,
        ap length (needle_named stem tmv index (ending ext)),
        length-append (needle ++ decimal 24 index) (ending ext),
        length-append needle (decimal 24 index),
        length-needle stem tmv date,
        length-decimal index h,
        length-ending ext,
      )

  -- an archive of the day is counted
  index_counted :
      (tmv a : Tm) (names : List Bytes) (i : ℕ) (gz : Bool)
      → IsDate a
      → date_tag a ≡ date_tag tmv
      → i < 10 ^ 8
      → Memᴰ (stored gz (make_archive_name stem ext a i)) names
      → i ≤ scan_index stem (date_tag tmv) 0 names
  index_counted tmv a names i gz date same h found =
      let needle = needle_of stem (date_tag a) in
      let whole : cut needle_cap needle ≡ needle =
        take-of_le (needle_cap - 1) needle (omega (arith, length-needle stem a date)) in
      let tail = stored gz (ending ext) in
      let fname = stored gz (make_archive_name stem ext a i) in
      let is : fname ≡ needle ++ decimal 24 i ++ tail =
        stored_name stem ext a i gz (short_name a i date (omega arith))
        ∙ sym (needle_named stem a i tail) in
      let (begins, reads) = archive_begins needle i tail (omega arith) (stored-Stops gz ext) in
      let begins' : has_prefix fname (cut needle_cap needle) ≡ true = rw (whole, is) begins in
      let found' : Memᴰ fname names = found in
      let counted = scan_index_reads stem (date_tag a) fname 0 found' begins' in
      let low : i ≤ scan_index stem (date_tag a) 0 names = rw (whole, is, reads) at counted in
      rw (sym same) low

  -- The archive that a rotation makes has a greater key, in the order of the cleanup, than each
  -- archive of the same file in the directory, compressed or not, that is of no later day. The
  -- stem and the extension fit into their buffers, the dates have years below 10000, and the index
  -- of that archive and the new index are below `10 ^ 8`.
  pub next_archive-newest :
      (base_name : Bytes) (tmv a : Tm) (names : List Bytes) (i : ℕ) (gz : Bool)
      (fallback fallback' : ℤ)
      → split_name base_name ≡ (stem, ext)
      → IsDate tmv
      → IsDate a
      → Before a 0 tmv 1
      → i < 10 ^ 8
      → scan_index stem (date_tag tmv) 0 names < 10 ^ 8 - 1
      → Memᴰ (stored gz (make_archive_name stem ext a i)) names
      → let prefix = stem ++ b'.' ∷ [] in
        less
          (archive_order_key (stored gz (make_archive_name stem ext a i)) prefix fallback)
          (archive_order_key (next_archive base_name tmv names) prefix fallback')
        ≡ true
  unfolding next_archive
  next_archive-newest base_name tmv a names i gz f f' split date old not_later h few found =
      let top = scan_index stem (date_tag tmv) 0 names in
      let before : Before a i tmv (top + 1) = elim not_later [
        | inl y ↦ inl y
        | inr (ey, inl m) ↦ inr (ey, inl m)
        | inr (ey, inr (em, inl d)) ↦ inr (ey, inr (em, inl d))
        | inr (ey, inr (em, inr (ed, l))) ↦
            let same : date_tag a ≡ date_tag tmv = unfold date_tag in rw (ey, em, ed) refl in
            inr (
              ey,
              inr (em, inr (ed, omega (arith, index_counted tmv a names i gz old same h found))),
            )
      ] in
      rw split (
        archive_order_key-Before stem ext a tmv i (top + 1) gz false f f' old date h
          (omega (arith, few)) (short_name a i old (omega arith))
          (short_name tmv (top + 1) date (omega (arith, few))) before)
