-- ===== src/Mem/Alloc.antt =====
-- The search of `alloc_ppages` in mem.c: what it finds, and that it misses nothing.
pub mod Up
pub mod Down
use pcboot.Prelude.{
  ℕ, zero, suc, ◌+◌, ◌-◌, ◌*◌, ◌/◌, ◌%◌, ◌≤◌, ◌<◌, ◌≡◌, refl, ap, ◌∙◌, Bool, true, false, not, ◌&&◌,
  ◌||◌, Option, none, some, ltb, leb, ◌==◌, if◌then◌else◌, arith, Bool-cases, inl, inr,
}
use pcboot.Mem.{
  Bitmap, Mem, Area, heap, stack, is_free, range_is_free, Search, Outcome, page, no_page,
  out_of_fuel, alloc_ppages, search_area,
}
use pcboot.Mem.Range.{Took}
use pcboot.Mem.Valid.{HintOk, IsValid, Ensures}
use Down.{search_down-Ensures}
use Up.{search_up-Ensures}

module _ (count : ℕ) (m m' : Mem) where
  Ensures-size : (out : Outcome) → Ensures count m out m' → m'.bmsize ≡ m.bmsize
  Ensures-size (page pg) e = e.0.size
  Ensures-size no_page e = e.1
  Ensures-size out_of_fuel e = absurd e

  Ensures-flag :
      (on : Bool) (out : Outcome)
      → Ensures count m out m'
      → Ensures count m out (record m' { enabled = on })
  Ensures-flag on (page pg) e =
      (record { were_free = e.0.were_free; now = e.0.now; size = e.0.size }, e.1)
  Ensures-flag on no_page e = e
  Ensures-flag on out_of_fuel e = e

  -- A search frees no page.
  Ensures-taken :
      (out : Outcome) (q : ℕ)
      → Ensures count m out m'
      → is_free m.bitmap q ≡ false
      → is_free m'.bitmap q ≡ false
  Ensures-taken (page pg) q e h = ground (arith, e.0.now q)
  Ensures-taken no_page q e h = rw (e.0) h
  Ensures-taken out_of_fuel q e h = absurd e

-- `alloc_ppages` ends, whatever it is asked for. If it gives a page, then the pages from that on
-- were free and are taken, no other page is changed, and the range starts inside the bitmap. If it
-- gives none, nothing is changed, and no free range of this length starts inside the bitmap. The
-- interrupt flag is restored, and the hint stays right.
pub alloc_ppages-Ensures :
    (count : ℕ) (area : Area) (m : Mem)
    → 0 < count
    → IsValid m
    → let (out, m') = alloc_ppages count area m in
      Ensures count m out m' × (m'.enabled ≡ m.enabled) × IsValid m'
unfolding alloc_ppages search_area
alloc_ppages-Ensures count heap m pos v =
    let begin : Search = record { mem = record m { enabled = false }; found_free = false } in
    let (found, hint, last) =
      search_up-Ensures count m begin pos refl refl refl
        (record { hint = v.hint; within = v.within; whole = v.whole; some_words = v.some_words }) in
    let size = Ensures-size count m _ _ found in
    (
      Ensures-flag count m _ m.enabled _ found,
      refl,
      record {
        hint = hint;
        within = rw size last;
        whole = rw size v.whole;
        some_words = rw size v.some_words;
      },
    )
alloc_ppages-Ensures count stack m pos v =
    let begin : Search = record { mem = record m { enabled = false }; found_free = false } in
    let (found, last) = search_down-Ensures count m begin pos refl refl refl v in
    let size = Ensures-size count m _ _ found in
    (
      Ensures-flag count m _ m.enabled _ found,
      refl,
      record {
        hint = λ q h. Ensures-taken count m _ _ q found (v.hint q (omega (arith, last)));
        within = rw size (rw last v.within);
        whole = rw size v.whole;
        some_words = rw size v.some_words;
      },
    )
