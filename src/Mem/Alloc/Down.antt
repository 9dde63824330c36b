-- ===== src/Mem/Alloc/Down.antt =====
-- The search from the top of the bitmap downwards.
use native.Mathlib.Decide.{dec_lt, ℕ_discrete}
use mathlib.Core.Path.{subst}
use pcboot.Prelude.{
  ℕ, zero, suc, ◌+◌, ◌-◌, ◌*◌, ◌/◌, ◌≤◌, ◌<◌, ◌≡◌, refl, sym, ◌∙◌, Bool, true, false, Option, none,
  some, ◌==◌, arith, Bool-cases, inl, inr,
}
use pcboot.Mem.{
  Mem, stack, is_free, range_is_free, alloc_ppage_range, Search, try_page, scan_word, visit_word,
  search_down, Outcome, page,
}
use pcboot.Mem.Bitmap.{full_word}
use pcboot.Mem.Range.{Took, alloc_ppage_range-true, alloc_ppage_range-false}
use pcboot.Mem.Valid.{IsValid, Miss, Ensures, Miss-taken}

try_page_taken :
    (count idx pg : ℕ) (s : Search)
    → is_free s.mem.bitmap pg ≡ false
    → try_page stack count idx pg s ≡ (false, s)
unfolding try_page
try_page_taken count idx pg s h = rw h

abbrev attempt : ℕ → ℕ → Search → Bool × Search
attempt count pg s =
    let (taken, m') = alloc_ppage_range pg count s.mem in
    (taken, record { mem = m'; found_free = s.found_free })

try_page_free :
    (count idx pg : ℕ) (s : Search)
    → is_free s.mem.bitmap pg ≡ true
    → try_page stack count idx pg s ≡ attempt count pg s
unfolding try_page
try_page_free count idx pg s h = elim (Bool-cases s.found_free) [
  | inl seen ↦ rw (h, seen)
  | inr first ↦ rw (h, first)
]

module _ (count : ℕ) (pos : 0 < count) (m : Mem) where
  -- The pages from `lo` on up to the end are looked at, and none of them starts a free range.
  record Scanning (lo : ℕ) (s : Search) : Type 0 where
    same : s.mem.bitmap ≡ m.bitmap
    size : s.mem.bmsize ≡ m.bmsize
    last : s.mem.last_alloc_idx ≡ m.last_alloc_idx
    missed : (q : ℕ) → lo ≤ q → q < m.bmsize * 8 → Miss count m.bitmap q

  record Found (pg hi : ℕ) (s : Search) : Type 0 where
    took : Took count pg m s.mem
    last : s.mem.last_alloc_idx ≡ m.last_alloc_idx
    below : pg < hi

  abbrev Visited : (lo hi : ℕ) → Option ℕ → Search → Type 0
  Visited lo hi none s = Scanning lo s
  Visited lo hi (some pg) s = Found pg hi s

  Scanning-here :
      (pg : ℕ) (s s' : Search)
      → s'.mem.bitmap ≡ s.mem.bitmap
      → s'.mem.bmsize ≡ s.mem.bmsize
      → s'.mem.last_alloc_idx ≡ s.mem.last_alloc_idx
      → Miss count m.bitmap pg
      → Scanning (pg + 1) s
      → Scanning pg s'
  Scanning-here pg s s' same size last h sc = record {
    same = same ∙ sc.same;
    size = size ∙ sc.size;
    last = last ∙ sc.last;
    missed = λ q lo hi. elim (ℕ_discrete q pg) [
      | yes e ↦ subst (Miss count m.bitmap) (sym e) h
      | no ne ↦ sc.missed q (omega arith) hi
    ];
  }

  -- The last `i` pages of the word `idx` that are left, from `pg` downwards to `lo`.
  scan_word-Visited :
      (idx i pg lo hi : ℕ) (s : Search)
      → pg ≡ lo + i - 1
      → lo + i ≤ hi
      → Scanning (lo + i) s
      → Visited lo hi (scan_word i stack count idx pg s).0 (scan_word i stack count idx pg s).1
  unfolding scan_word
  scan_word-Visited idx zero pg lo hi s e below sc =
      let end : lo + 0 ≡ lo = omega arith in subst (λ k. Scanning k s) end sc
  scan_word-Visited idx (suc i) pg lo hi s e below sc =
      let at : Scanning (pg + 1) s = subst (λ k. Scanning k s) (omega arith) sc in
      let next : pg ≡ lo + i = omega arith in
      elim (Bool-cases (is_free s.mem.bitmap pg)) [
        | inr taken ↦
            rw (try_page_taken count idx pg s taken, scan_word)
              (scan_word-Visited idx i (pg - 1) lo hi s (omega arith) (omega arith) (
                subst (λ k. Scanning k s) next
                  (Scanning-here pg s s refl refl refl
                    (Miss-taken count pg m.bitmap pos (rw (← sc.same) taken)) at)))
        | inl is_it ↦ elim (Bool-cases (range_is_free count pg s.mem.bitmap)) [
          | inl hit ↦
              let (m', done, took, last, on) = alloc_ppage_range-true pg count s.mem hit in
              rw (try_page_free count idx pg s is_it, done, scan_word)
                (record {
                  took = record {
                    were_free = λ q lo hi. rw (← sc.same) (took.were_free q lo hi);
                    now = λ q. rw (← sc.same) (took.now q);
                    size = took.size ∙ sc.size;
                  };
                  last = last ∙ sc.last;
                  below = omega arith;
                })
          | inr miss ↦
              let s' : Search = record {
                mem = record (s.mem) { enabled = false };
                found_free = s.found_free;
              } in
              rw
                (
                  try_page_free count idx pg s is_it,
                  alloc_ppage_range-false pg count s.mem miss,
                  scan_word,
                )
                (scan_word-Visited idx i (pg - 1) lo hi s' (omega arith) (omega arith) (
                  subst (λ k. Scanning k s') next
                    (Scanning-here pg s s' refl refl refl (rw (← sc.same) miss) at)))
        ]
      ]

  skip_word :
      (idx : ℕ) (s : Search)
      → s.mem.bitmap idx ≡ 0xffffffff
      → Scanning (idx * 32 + 32) s
      → Scanning (idx * 32) s
  skip_word idx s full sc = record {
    same = sc.same;
    size = sc.size;
    last = sc.last;
    missed = λ q lo hi. elim (dec_lt q (idx * 32 + 32)) [
      | yes k ↦
          let here : q / 32 ≡ idx = omega arith in
          Miss-taken count q m.bitmap pos (full_word m.bitmap q (rw here (rw (← sc.same) full)))
      | no k ↦ sc.missed q (omega arith) hi
    ];
  }

  visit_word-Visited :
      (idx : ℕ) (s : Search)
      → Scanning (idx * 32 + 32) s
      → let r = visit_word stack count idx s in Visited (idx * 32) (idx * 32 + 32) r.0 r.1
  unfolding visit_word
  visit_word-Visited idx s sc = elim (Bool-cases (s.mem.bitmap idx == 0xffffffff)) [
    | inl full ↦ rw full (skip_word idx s (ground arith) sc)
    | inr some_free ↦ rw some_free (
        scan_word-Visited idx 32 (idx * 32 + 31) (idx * 32) (idx * 32 + 32) s (omega arith)
          (omega arith) sc)
  ]

  abbrev Done : Outcome → Search → Type 0
  Done out s = Ensures count m out s.mem × (s.mem.last_alloc_idx ≡ m.last_alloc_idx)

  after_visit :
      (idx : ℕ) (o : Option ℕ) (s : Search) (rest : Outcome × Search)
      → (idx + 1) * 32 ≤ m.bmsize * 8
      → Visited (idx * 32) (idx * 32 + 32) o s
      → (Scanning (idx * 32) s → Done rest.0 rest.1)
      → let r : Outcome × Search = elim o [ some pg ↦ (page pg, s) | none ↦ rest ] in Done r.0 r.1
  after_visit idx none s rest h v go_on = go_on v
  after_visit idx (some pg) s rest h v go_on = ((v.took, omega (arith, v.below)), v.last)

  search_down-Done :
      (n : ℕ) (s : Search)
      → n * 32 ≤ m.bmsize * 8
      → Scanning (n * 32) s
      → Done (search_down count n s).0 (search_down count n s).1
  unfolding search_down
  search_down-Done zero s le sc = ((sc.same, sc.size, λ q h. sc.missed q (omega arith) h), sc.last)
  search_down-Done (suc idx) s le sc =
      after_visit idx (visit_word stack count idx s).0 (visit_word stack count idx s).1
        (search_down count idx (visit_word stack count idx s).1) (omega arith)
        (visit_word-Visited idx s (subst (λ k. Scanning k s) (omega arith) sc))
        (search_down-Done idx (visit_word stack count idx s).1 (omega arith))

pub search_down-Ensures :
    (count : ℕ) (m : Mem) (s : Search)
    → 0 < count
    → s.mem.bitmap ≡ m.bitmap
    → s.mem.bmsize ≡ m.bmsize
    → s.mem.last_alloc_idx ≡ m.last_alloc_idx
    → IsValid m
    → let (out, s') = search_down count ((s.mem.bmsize - 1) / 4 + 1) s in
      Ensures count m out s'.mem × (s'.mem.last_alloc_idx ≡ m.last_alloc_idx)
search_down-Ensures count m s pos same size last v =
    search_down-Done count pos m ((s.mem.bmsize - 1) / 4 + 1) s
      (omega (arith, v.whole, v.some_words))
      (record {
        same = same;
        size = size;
        last = last;
        missed = λ q lo hi. absurd (omega (arith, v.whole, v.some_words));
      })
