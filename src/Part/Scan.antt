-- ===== src/Part/Scan.antt =====
-- The partitions that `read_partitions` of part.c finds in a master boot record, and an extended one without an end.
use pcboot.Prelude.{
  ℕ, zero, suc, ◌+◌, ◌%◌, ◌^◌, ◌<◌, ◌≡◌, refl, sym, ap, ◌∙◌, Bool, true, false, not, List, [], ◌∷◌,
  ◌++◌, Option, none, some, ltb, ◌==◌, if◌then◌else◌, bit_and, bit_or, arith, length, map,
  Bool-cases, inl, inr,
}
use pcboot.Fat.{Bytes, le16, le32}
use pcboot.Part.{
  Partition, Walk, Partitions, endless, failed, partitions, prec, type_of, is_ext, bootsig,
  part_act_bit, part_prim_bit, attributes, partition, scan_record, scan_records, mark_ebr, num_rec,
  goes_on, after, scan_sector, read_loop, read_partitions,
}

abbrev pub walk : (sidx first_ebr_offs nparts : ℕ) → List Partition → Walk
walk s f k t = record { sidx = s; first_ebr_offs = f; nparts = k; ptab = t }

-- The partition of a record in the master boot record
abbrev pub primary : Bytes → ℕ → Partition
primary b i = record {
  start_sect = le32 (prec b i) 8 % 2 ^ 32;
  size_sect = le32 (prec b i) 12;
  attributes =
      bit_or
        (if bit_and (prec b i 0) 0x80 == 0 then type_of b i else bit_or (type_of b i) part_act_bit)
        part_prim_bit;
}

-- The records that are not empty
abbrev pub used : Bytes → (left i : ℕ) → List ℕ
used b zero i = []
used b (suc left) i = let rest = used b left (i + 1) in if type_of b i == 0 then rest else i ∷ rest

partition-primary :
    (b : Bytes) (i k : ℕ) (t : List Partition) → partition b i (walk 0 0 k t) ≡ primary b i
unfolding partition attributes
partition-primary b i k t =
    let e : le32 (prec b i) 8 + 0 ≡ le32 (prec b i) 8 = omega arith in
    λ j. record (primary b i) { start_sect = e j % 2 ^ 32 }

passed :
    (p : Bool) (b : Bytes) (n left i : ℕ) (w w' : Walk)
    → scan_record p b n i w ≡ (w', false)
    → scan_records p b n (suc left) i w ≡ scan_records p b n left (i + 1) w'
unfolding scan_records
passed p b n left i w w' e = ap (λ r. if r.1 then r.0 else scan_records p b n left (i + 1) r.0) e

third {ℓ} :
    {A : Type ℓ} (p q : Bool) (x y z : A)
    → p ≡ false
    → q ≡ false
    → (if p then x else if q then y else z) ≡ z
third p q x y z e e' = rw (e, e') refl

goes :
    (p q : Bool) (y z : Partitions)
    → p ≡ false
    → q ≡ true
    → (if p then failed else if q then y else z) ≡ y
goes p q y z e e' = rw (e, e') refl

record_empty :
    (b : Bytes) (i k : ℕ) (t : List Partition)
    → (type_of b i == 0) ≡ true
    → scan_record true b 0 i (walk 0 0 k t) ≡ (walk 0 0 k t, false)
unfolding scan_record
record_empty b i k t e = rw e refl

record_used :
    (b : Bytes) (i k : ℕ) (t : List Partition)
    → (type_of b i == 0) ≡ false
    → is_ext (type_of b i) ≡ false
    → scan_record true b 0 i (walk 0 0 k t) ≡ (walk 0 0 (k + 1) (t ++ primary b i ∷ []), false)
unfolding scan_record
record_used b i k t e e' =
    third (type_of b i == 0) (is_ext (type_of b i)) _ _ _ e e'
    ∙ ap (λ p. (walk 0 0 (k + 1) (t ++ p ∷ []), false)) (partition-primary b i k t)

-- None of the records is that of an extended partition.
abbrev pub NoExt : Bytes → (left i : ℕ) → Type 0
NoExt b zero i = Unit
NoExt b (suc left) i = (is_ext (type_of b i) ≡ false) × NoExt b left (i + 1)

append_nil : (t : List Partition) → t ++ [] ≡ t
append_nil [] = refl
append_nil (p ∷ t) = ap (λ l. p ∷ l) (append_nil t)

append_one : (t l : List Partition) (p : Partition) → (t ++ p ∷ []) ++ l ≡ t ++ p ∷ l
append_one [] l p = refl
append_one (a ∷ t) l p = ap (λ s. a ∷ s) (append_one t l p)

found : (b : Bytes) (left i k : ℕ) (t : List Partition) → Walk
found b left i k t = walk 0 0 (k + length (used b left i)) (t ++ map (primary b) (used b left i))

scan_records-found :
    (b : Bytes) (left i k : ℕ) (t : List Partition)
    → NoExt b left i
    → scan_records true b 0 left i (walk 0 0 k t) ≡ found b left i k t
unfolding scan_records found
scan_records-found b zero i k t h =
    let nothing : k ≡ k + 0 = omega arith in
    ap (λ n. walk 0 0 n t) nothing ∙ ap (walk 0 0 (k + 0)) (sym (append_nil t))
scan_records-found b (suc left) i k t (plain, h) = elim (Bool-cases (type_of b i == 0)) [
  | inl empty ↦
      passed true b 0 left i (walk 0 0 k t) (walk 0 0 k t) (record_empty b i k t empty)
      ∙ scan_records-found b left (i + 1) k t h
      ∙ ap (λ l. walk 0 0 (k + length l) (t ++ map (primary b) l))
          (sym (ap (λ p. if p then used b left (i + 1) else i ∷ used b left (i + 1)) empty))
  | inr full ↦
      let l = used b left (i + 1) in
      let count : k + 1 + length l ≡ k + suc (length l) = omega arith in
      passed true b 0 left i (walk 0 0 k t) (walk 0 0 (k + 1) (t ++ primary b i ∷ []))
        (record_used b i k t full plain)
      ∙ scan_records-found b left (i + 1) (k + 1) (t ++ primary b i ∷ []) h
      ∙ ap (λ n. walk 0 0 n ((t ++ primary b i ∷ []) ++ map (primary b) l)) count
      ∙ ap (walk 0 0 (k + suc (length l))) (append_one t (map (primary b) l) (primary b i))
      ∙ ap (λ l. walk 0 0 (k + length l) (t ++ map (primary b) l))
          (sym (ap (λ p. if p then l else i ∷ l) full))
]

next_round :
    (fuel : ℕ) (bdev_read_sect : ℕ → Option Bytes) (ptabsz : Option ℕ) (n : ℕ) (w w' : Walk)
    (b : Bytes)
    → bdev_read_sect w.sidx ≡ some b
    → scan_sector b ptabsz n w ≡ w'
    → read_loop (suc fuel) bdev_read_sect ptabsz n w
      ≡ after b ptabsz w' (read_loop fuel bdev_read_sect ptabsz (n + 1) w')
unfolding read_loop
next_round fuel bdev_read_sect ptabsz n w w' b e e' =
    rw (read_loop, e)
      (ap (λ w. after b ptabsz w (read_loop fuel bdev_read_sect ptabsz (n + 1) w)) e')

signed : (b : Bytes) → le16 b 510 ≡ bootsig → not (le16 b 510 == bootsig) ≡ false
signed b sig = let e : (le16 b 510 == bootsig) ≡ true = ground (arith, sig) in ap not e

-- Without an extended partition `read_partitions` finds the partitions of the master boot record in their order, with
-- the marks of a primary and of an active one, and writes all of them to the table, however small it is.
pub read_partitions-primary :
    (fuel : ℕ) (bdev_read_sect : ℕ → Option Bytes) (boot_drive_number ptabsz : ℕ) (b : Bytes)
    → bdev_read_sect 0 ≡ some b
    → le16 b 510 ≡ bootsig
    → NoExt b 4 0
    → 0 < ptabsz
    → read_partitions (suc fuel) bdev_read_sect boot_drive_number none ptabsz
      ≡ partitions (length (used b 4 0)) (map (primary b) (used b 4 0))
unfolding read_partitions mark_ebr num_rec goes_on scan_sector after found
read_partitions-primary fuel bdev_read_sect boot_drive_number ptabsz b e sig plain some_room =
    let l = used b 4 0 in
    let w = found b 4 0 0 [] in
    let table : (if ptabsz == 0 then none else some ptabsz) ≡ some ptabsz =
      ground (arith, some_room) in
    let count : 0 + length l ≡ length l = omega arith in
    ap (λ size. read_loop (suc fuel) bdev_read_sect size 0 (walk 0 0 0 [])) table
    ∙ next_round fuel bdev_read_sect (some ptabsz) 0 (walk 0 0 0 []) w b e
        (scan_records-found b 4 0 0 [] plain)
    ∙ third (not (le16 b 510 == bootsig)) false failed
        (read_loop fuel bdev_read_sect (some ptabsz) 1 w) (partitions w.nparts w.ptab)
        (signed b sig) refl
    ∙ ap (λ n. partitions n (map (primary b) l)) count

-- A record of a partition in an extended boot record, where partitions are only counted
record_counted :
    (b : Bytes) (n i s f k : ℕ) (t : List Partition)
    → (type_of b i == 0) ≡ false
    → is_ext (type_of b i) ≡ false
    → scan_record false b n i (walk s f k t) ≡ (walk s f (k + 1) t, false)
unfolding scan_record
record_counted b n i s f k t e e' = third (type_of b i == 0) (is_ext (type_of b i)) _ _ _ e e'

marked :
    (s f k : ℕ) (t : List Partition)
    → (s == 0) ≡ false
    → (f' : ℕ) × (mark_ebr (walk s f k t) ≡ walk s f' k t)
unfolding mark_ebr
marked s f k t e = elim (Bool-cases (f == 0)) [
  | inl first ↦ (s, rw (e, first) refl)
  | inr later ↦ (f, rw (e, later) refl)
]

module _ (bdev_read_sect : ℕ → Option Bytes) (b : Bytes) (s : ℕ) (reads : bdev_read_sect s ≡ some b)
    (behind_mbr : (s == 0) ≡ false) (used_0 : (type_of b 0 == 0) ≡ false)
    (used_1 : (type_of b 1 == 0) ≡ false) (plain : NoExt b 2 0) (sig : le16 b 510 ≡ bootsig) where
  ebr_stays :
      (n f k : ℕ) (t : List Partition)
      → (f' : ℕ) × (k' : ℕ) × (scan_sector b none n (walk s f k t) ≡ walk s f' k' t)
  unfolding scan_sector scan_records num_rec
  ebr_stays n f k t =
      let (f', e) = marked s f k t behind_mbr in
      let two : num_rec (walk s f' k t) ≡ 2 = rw behind_mbr refl in
      (
        f',
        k + 1 + 1,
        ap (λ w. scan_records false b n (num_rec w) 0 w) e
            ∙ ap (λ c. scan_records false b n c 0 (walk s f' k t)) two
            ∙ passed false b n 1 0 (walk s f' k t) (walk s f' (k + 1) t)
                (record_counted b n 0 s f' k t used_0 plain.0)
            ∙ passed false b n 0 1 (walk s f' (k + 1) t) (walk s f' (k + 1 + 1) t)
                (record_counted b n 1 s f' (k + 1) t used_1 plain.1.0),
      )

  -- A count of the partitions does not end at an extended boot record with two partitions: it is read again and
  -- again.
  pub read_loop_endless :
      (fuel n f k : ℕ) (t : List Partition)
      → read_loop fuel bdev_read_sect none n (walk s f k t) ≡ endless
  unfolding read_loop after goes_on
  read_loop_endless zero n f k t = refl
  read_loop_endless (suc fuel) n f k t =
      let (f', k', e) = ebr_stays n f k t in
      let further : ltb 0 s ≡ true = ground (arith, behind_mbr) in
      next_round fuel bdev_read_sect none n (walk s f k t) (walk s f' k' t) b reads e
      ∙ goes (not (le16 b 510 == bootsig)) (ltb 0 s) _ _ (signed b sig) further
      ∙ read_loop_endless fuel (n + 1) f' k' t
