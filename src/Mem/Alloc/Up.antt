-- ===== src/Mem/Alloc/Up.antt =====
-- The search from the hint upwards.
use pcboot.Prelude.{
  ℕ, zero, suc, ◌+◌, ◌*◌, ◌/◌, ◌≤◌, ◌<◌, ◌≡◌, refl, ◌∙◌, Bool, true, false, Option, none, some,
  ◌==◌, if◌then◌else◌, arith, Bool-cases, inl, inr,
}
use native.Mathlib.Decide.{dec_lt}
use mathlib.Core.Path.{subst}
use pcboot.Prelude.Arith.{below_next}
use pcboot.Mem.{
  Mem, heap, is_free, range_is_free, alloc_ppage_range, Search, try_page, scan_word, visit_word,
  search_up, Outcome, page,
}
use pcboot.Mem.Bitmap.{full_word}
use pcboot.Mem.Range.{Took, alloc_ppage_range-true, alloc_ppage_range-false}
use pcboot.Mem.Valid.{HintOk, IsValid, Miss, Ensures, Miss-taken}

-- The hint after a free page is seen.
abbrev noted : ℕ → Search → Mem
noted idx s = record (s.mem) { last_alloc_idx = if s.found_free then s.mem.last_alloc_idx else idx }

abbrev attempt : ℕ → ℕ → Mem → Bool × Search
attempt count pg m =
    let (taken, m') = alloc_ppage_range pg count m in
    (taken, record { mem = m'; found_free = true })

try_page_taken :
    (count idx pg : ℕ) (s : Search)
    → is_free s.mem.bitmap pg ≡ false
    → try_page heap count idx pg s ≡ (false, s)
unfolding try_page
try_page_taken count idx pg s h = rw h

try_page_free :
    (count idx pg : ℕ) (s : Search)
    → is_free s.mem.bitmap pg ≡ true
    → try_page heap count idx pg s ≡ attempt count pg (noted idx s)
unfolding try_page
try_page_free count idx pg s h = elim (Bool-cases s.found_free) [
  | inl seen ↦ rw (h, seen)
  | inr first ↦ rw (h, first)
]

module _ (count : ℕ) (pos : 0 < count) (m : Mem) where
  -- The pages before `lo` are looked at, and none of them starts a free range.
  record Scanning (lo : ℕ) (s : Search) : Type 0 where
    same : s.mem.bitmap ≡ m.bitmap
    size : s.mem.bmsize ≡ m.bmsize
    hint : HintOk s.mem
    last : s.mem.last_alloc_idx * 32 ≤ lo
    unseen : s.found_free ≡ false → (q : ℕ) → q < lo → is_free m.bitmap q ≡ false
    missed : (q : ℕ) → q < lo → Miss count m.bitmap q

  record Found (pg hi : ℕ) (s : Search) : Type 0 where
    took : Took count pg m s.mem
    hint : HintOk s.mem
    last : s.mem.last_alloc_idx * 32 ≤ pg
    below : pg < hi

  abbrev Visited : ℕ → Option ℕ → Search → Type 0
  Visited hi none s = Scanning hi s
  Visited hi (some pg) s = Found pg hi s

  Found-mono : {pg lo hi : ℕ} {s : Search} → lo ≤ hi → Found pg lo s → Found pg hi s
  Found-mono h f = record {
    took = f.took;
    hint = f.hint;
    last = f.last;
    below = omega (arith, f.below);
  }

  module _ (idx pg : ℕ) (s : Search) (sc : Scanning pg s) (in_word : idx * 32 ≤ pg) where
    noted-hint : HintOk (noted idx s)
    noted-hint q h = elim (Bool-cases s.found_free) [
      | inl seen ↦ sc.hint q (ground arith)
      | inr first ↦ rw sc.same (sc.unseen first q (ground arith))
    ]

    noted-last : (noted idx s).last_alloc_idx * 32 ≤ pg
    noted-last = ground (arith, sc.last)

    Scanning-free : is_free m.bitmap pg ≡ false → Scanning (pg + 1) s
    Scanning-free h = record {
      same = sc.same;
      size = sc.size;
      hint = sc.hint;
      last = omega (arith, sc.last);
      unseen = λ u. below_next (λ q. is_free m.bitmap q ≡ false) pg (sc.unseen u) h;
      missed = below_next (Miss count m.bitmap) pg sc.missed (Miss-taken count pg m.bitmap pos h);
    }

    abbrev after_miss : Search
    after_miss = record { mem = record (noted idx s) { enabled = false }; found_free = true }

    Scanning-range : Miss count m.bitmap pg → Scanning (pg + 1) after_miss
    Scanning-range h = record {
      same = sc.same;
      size = sc.size;
      hint = noted-hint;
      last = omega (arith, noted-last);
      unseen = λ u. cc;
      missed = below_next (Miss count m.bitmap) pg sc.missed h;
    }

    hit_range :
        (m' : Mem)
        → Took count pg (noted idx s) m'
        → m'.last_alloc_idx ≡ (noted idx s).last_alloc_idx
        → Found pg (pg + 1) (record { mem = m'; found_free = true })
    hit_range m' took last = record {
      took = record {
        were_free = λ q lo hi. rw (← sc.same) (took.were_free q lo hi);
        now = λ q. rw (← sc.same) (took.now q);
        size = took.size ∙ sc.size;
      };
      hint = λ q h. ground (arith, took.now q, noted-hint q (ground arith));
      last = omega (arith, last, noted-last);
      below = omega arith;
    }

  -- The 32 pages of a word.
  scan_word-Visited :
      (idx i pg hi : ℕ) (s : Search)
      → pg + i ≡ hi
      → idx * 32 ≤ pg
      → Scanning pg s
      → Visited hi (scan_word i heap count idx pg s).0 (scan_word i heap count idx pg s).1
  unfolding scan_word
  scan_word-Visited idx zero pg hi s e in_word sc =
      let end : pg ≡ hi = omega arith in subst (λ k. Scanning k s) end sc
  scan_word-Visited idx (suc i) pg hi s e in_word sc = elim (Bool-cases (is_free s.mem.bitmap pg)) [
    | inr taken ↦
        rw (try_page_taken count idx pg s taken, scan_word)
          (scan_word-Visited idx i (pg + 1) hi s (omega arith) (omega arith)
            (Scanning-free idx pg s sc in_word (rw (← sc.same) taken)))
    | inl is_it ↦ elim (Bool-cases (range_is_free count pg s.mem.bitmap)) [
      | inl hit ↦
          let (m', done, took, last, on) = alloc_ppage_range-true pg count (noted idx s) hit in
          rw (try_page_free count idx pg s is_it, done, scan_word)
            (Found-mono (omega arith) (hit_range idx pg s sc in_word m' took last))
      | inr miss ↦
          rw
            (
              try_page_free count idx pg s is_it,
              alloc_ppage_range-false pg count (noted idx s) miss,
              scan_word,
            )
            (scan_word-Visited idx i (pg + 1) hi (after_miss idx pg s sc in_word) (omega arith)
              (omega arith) (Scanning-range idx pg s sc in_word (rw (← sc.same) miss)))
    ]
  ]

  skip_word :
      (idx : ℕ) (s : Search)
      → s.mem.bitmap idx ≡ 0xffffffff
      → Scanning (idx * 32) s
      → Scanning (idx * 32 + 32) s
  skip_word idx s full sc = record {
    same = sc.same;
    size = sc.size;
    hint = sc.hint;
    last = omega (arith, sc.last);
    unseen = λ u q h. elim (dec_lt q (idx * 32)) [
      | yes k ↦ sc.unseen u q k
      | no k ↦ none_free q (omega arith) h
    ];
    missed = λ q h. elim (dec_lt q (idx * 32)) [
      | yes k ↦ sc.missed q k
      | no k ↦ Miss-taken count q m.bitmap pos (none_free q (omega arith) h)
    ];
  }
    where
      none_free : (q : ℕ) → idx * 32 ≤ q → q < idx * 32 + 32 → is_free m.bitmap q ≡ false
      none_free q lo hi =
          let here : q / 32 ≡ idx = omega arith in
          full_word m.bitmap q (rw here (rw (← sc.same) full))

  visit_word-Visited :
      (idx : ℕ) (s : Search)
      → Scanning (idx * 32) s
      → Visited (idx * 32 + 32) (visit_word heap count idx s).0 (visit_word heap count idx s).1
  unfolding visit_word
  visit_word-Visited idx s sc = elim (Bool-cases (s.mem.bitmap idx == 0xffffffff)) [
    | inl full ↦ rw full (skip_word idx s (ground arith) sc)
    | inr some_free ↦
        rw some_free (scan_word-Visited idx 32 (idx * 32) (idx * 32 + 32) s refl (omega arith) sc)
  ]

  abbrev Done : ℕ → Outcome → Search → Type 0
  Done max out s = Ensures count m out s.mem × HintOk s.mem × (s.mem.last_alloc_idx ≤ max)

  -- A word is visited, and the search goes on from there if it gave no page.
  after_visit :
      (idx max : ℕ) (o : Option ℕ) (s : Search) (rest : Outcome × Search)
      → idx < max
      → max * 32 ≡ m.bmsize * 8
      → Visited (idx * 32 + 32) o s
      → (Scanning (idx * 32 + 32) s → Done max rest.0 rest.1)
      → let r : Outcome × Search = elim o [ some pg ↦ (page pg, s) | none ↦ rest ] in
        Done max r.0 r.1
  after_visit idx max none s rest h end v go_on = go_on v
  after_visit idx max (some pg) s rest h end v go_on =
      ((v.took, omega (arith, v.below)), v.hint, omega (arith, v.below, v.last))

  search_up-Done :
      (fuel idx max : ℕ) (s : Search)
      → idx ≤ max
      → max < idx + fuel
      → max * 32 ≡ m.bmsize * 8
      → Scanning (idx * 32) s
      → Done max (search_up fuel count idx max s).0 (search_up fuel count idx max s).1
  unfolding search_up
  search_up-Done zero idx max s le more end sc = absurd (omega arith)
  search_up-Done (suc fuel) idx max s le more end sc = elim (Bool-cases (idx == max)) [
    | inl stop ↦
        rw stop
          ((sc.same, sc.size, λ q h. sc.missed q (ground arith)), sc.hint, ground (arith, sc.last))
    | inr go ↦ rw go (
        after_visit idx max (visit_word heap count idx s).0 (visit_word heap count idx s).1
          (search_up fuel count (idx + 1) max (visit_word heap count idx s).1) (ground arith) end
          (visit_word-Visited idx s sc)
          λ sc'.
            search_up-Done fuel (idx + 1) max (visit_word heap count idx s).1 (ground arith)
              (omega arith) end
              (subst (λ k. Scanning k (visit_word heap count idx s).1) (omega arith) sc'))
  ]

-- The search of the heap from a hint that is right.
pub search_up-Ensures :
    (count : ℕ) (m : Mem) (s : Search)
    → 0 < count
    → s.mem.bitmap ≡ m.bitmap
    → s.mem.bmsize ≡ m.bmsize
    → s.found_free ≡ false
    → IsValid s.mem
    → let (out, s') =
        search_up (s.mem.bmsize / 4 + 1) count s.mem.last_alloc_idx (s.mem.bmsize / 4) s in
      Ensures count m out s'.mem × HintOk s'.mem × (s'.mem.last_alloc_idx ≤ s.mem.bmsize / 4)
search_up-Ensures count m s pos same size first v =
    search_up-Done count pos m (s.mem.bmsize / 4 + 1) s.mem.last_alloc_idx (s.mem.bmsize / 4) s
      v.within (omega arith) (omega (arith, v.whole))
      (record {
        same = same;
        size = size;
        hint = v.hint;
        last = omega arith;
        unseen = λ u q h. rw (← same) (v.hint q h);
        missed = λ q h. Miss-taken count q m.bitmap pos (rw (← same) (v.hint q h));
      })
