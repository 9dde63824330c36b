-- ===== src/Fat/Dir/Listing.antt =====
-- A listing of a directory in fsfat.c: the entries of `parse_dir_entries` by the bytes of the directory, and
-- the calls of `readdir`.
use pcboot.Prelude.{
  ℕ, zero, suc, ◌+◌, ◌≤◌, ◌<◌, ◌≡◌, refl, sym, ap, ◌∙◌, true, false, List, [], ◌∷◌, Option, none,
  some, leb, ◌==◌, if◌then◌else◌, arith, length, get_elem?, Bool-cases, inl, inr, drop, ◌*◌, ◌⊎◌,
  ◌≢◌, bit_and, subst,
}
use pcboot.Fs.{fsnode_file, fsnode_dir}
use pcboot.Prelude.Bits.{bit, bit_and-pow}
use pcboot.Fat.{Bytes}
use pcboot.Fat.Dir.{
  text, dent_filename, is_listed, fs_dirent, FsDirent, FatDir, parse_loop, parse_dir_entries,
  rewinddir, readdir,
}

-- The pointer to the last entry in front of `i` that is none of a long name
abbrev pub prev_dent : Bytes → ℕ → ℕ
prev_dent ent zero = 0
prev_dent ent (suc i) = if ent (32 * i + 11) == 15 then prev_dent ent i else i + 1

-- The number of entries from `i` on in front of the one that ends the directory
abbrev pub used : Bytes → (left i : ℕ) → ℕ
used ent zero i = 0
used ent (suc left) i =
    let rest = used ent left (i + 1) in if ent (32 * i + 0) == 0 then 0 else suc rest

-- An entry that is left out: it is unused, a label, a piece of a long name, or has no name.
abbrev pub IsSkipped : Bytes → ℕ → Type 0
IsSkipped ent i =
    (ent (32 * i) ≡ 0xe5)
    ⊎ ((ent (32 * i + 11) ≡ 8)
        ⊎ ((ent (32 * i + 11) ≡ 15) ⊎ (length (dent_filename ent i (prev_dent ent i)) ≡ 0)))

-- An entry of a file or a directory, and what is listed for it
pub record IsListedAs (ent : Bytes) (i : ℕ) (e : FsDirent) : Type 0 where
  pub in_use : ent (32 * i) ≢ 0xe5
  pub no_label : ent (32 * i + 11) ≢ 8
  pub no_piece : ent (32 * i + 11) ≢ 15
  pub has_name : 0 < length (dent_filename ent i (prev_dent ent i))
  pub named : e.name ≡ text (dent_filename ent i (prev_dent ent i))
  pub at_index : e.data_index ≡ i
  pub of_type : e.type_of ≡ (if bit (ent (32 * i + 11)) 4 == 0 then fsnode_file else fsnode_dir)
  pub of_size :
      e.fsize
      ≡ ent (32 * i + 28)
        + 256 * ent (32 * i + 29)
        + 65536 * ent (32 * i + 30)
        + 16777216 * ent (32 * i + 31)

-- The list of the `n` entries from `i` on, in their order
abbrev pub Lists : Bytes → (n i : ℕ) → List FsDirent → Type 0
Lists ent zero i l = l ≡ []
Lists ent (suc n) i l =
    (IsSkipped ent i × Lists ent n (i + 1) l)
    ⊎ ((e : FsDirent) × (rest : List FsDirent) × (l ≡ e ∷ rest)
        × IsListedAs ent i e
        × Lists ent n (i + 1) rest)

is_listed-false :
    (ent : Bytes) (i : ℕ) → is_listed ent i (prev_dent ent i) ≡ false → IsSkipped ent i
is_listed-false ent i h =
    let at : 32 * i + 0 ≡ 32 * i = omega arith in
    let first : ent (32 * i + 0) ≡ ent (32 * i) = ap ent at in
    elim (Bool-cases (ent (32 * i + 0) == 0xe5)) [
      | inl e ↦ inl (sym first ∙ ground (arith, e))
      | inr n ↦ elim (Bool-cases (ent (32 * i + 11) == 8)) [
        | inl e ↦ inr (inl (ground (arith, e)))
        | inr m ↦ elim (Bool-cases (ent (32 * i + 11) == 15)) [
          | inl e ↦ inr (inr (inl (ground (arith, e))))
          | inr k ↦ inr (inr (inr (ground (arith, h, n, m, k))))
        ]
      ]
    ]

dir_bit : (a : ℕ) → (bit_and a 0x10 == 0) ≡ (bit a 4 == 0)
dir_bit a =
    let e : bit_and a 16 ≡ bit a 4 * 16 = bit_and-pow a 4 in ap (λ b. b == 0) e ∙ ground arith

is_listed-true :
    (ent : Bytes) (i : ℕ)
    → is_listed ent i (prev_dent ent i) ≡ true
    → IsListedAs ent i (fs_dirent ent i (prev_dent ent i))
unfolding fs_dirent
is_listed-true ent i h =
    let at : 32 * i + 0 ≡ 32 * i = omega arith in
    let first : ent (32 * i + 0) ≡ ent (32 * i) = ap ent at in
    record {
      in_use = λ e. absurd (ground (arith, h, first ∙ e));
      no_label = λ e. absurd (ground (arith, h, e));
      no_piece = λ e. absurd (ground (arith, h, e));
      has_name = ground (arith, h);
      named = refl;
      at_index = refl;
      of_type = ap (λ b. if b then fsnode_file else fsnode_dir) (dir_bit (ent (32 * i + 11)));
      of_size = omega arith;
    }

parse_loop-Lists :
    (ent : Bytes) (left i : ℕ)
    → Lists ent (used ent left i) i (parse_loop ent left i (prev_dent ent i))
unfolding parse_loop
parse_loop-Lists ent zero i = refl
parse_loop-Lists ent (suc left) i =
    let prev : prev_dent ent (suc i) ≡ prev_dent ent (i + 1) =
      ap (prev_dent ent) {x = suc i} (omega arith) in
    let next : Lists ent (used ent left (i + 1)) (i + 1)
        (parse_loop ent left (i + 1) (prev_dent ent (suc i))) =
      subst (λ p. Lists ent (used ent left (i + 1)) (i + 1) (parse_loop ent left (i + 1) p))
        (sym prev) (parse_loop-Lists ent left (i + 1)) in
    elim (Bool-cases (ent (32 * i + 0) == 0)) [
      | inl null ↦ rw null refl
      | inr more ↦ elim (Bool-cases (is_listed ent i (prev_dent ent i))) [
        | inl listed ↦
            rw (more, listed)
              (inr (fs_dirent ent i (prev_dent ent i), _, refl, is_listed-true ent i listed, next))
        | inr skipped ↦ rw (more, skipped) (inl (is_listed-false ent i skipped, next))
      ]
    ]

-- `parse_dir_entries` lists the entries in front of the one that ends the directory, in their order, but for the
-- unused ones, the labels, the pieces of long names and those without a name: each with its index, its size, its
-- type and its name, which is a long one from behind the last entry that is no piece, if there are pieces.
pub parse_dir_entries-Lists :
    (ent : Bytes) (max_nent : ℕ)
    → Lists ent (used ent max_nent 0) 0 (parse_dir_entries ent max_nent).fsent
unfolding parse_dir_entries
parse_dir_entries-Lists ent max_nent = parse_loop-Lists ent max_nent 0

-- Calls of `readdir` until one gives nothing
abbrev pub read_all : (fuel : ℕ) → FatDir → List FsDirent
read_all zero dir = []
read_all (suc fuel) dir = elim (readdir dir).0 [
  | none ↦ []
  | some d ↦ d ∷ read_all fuel (readdir dir).1
]

readdir-end : (dir : FatDir) → length dir.fsent ≤ dir.cur_ent → readdir dir ≡ (none, dir)
unfolding readdir
readdir-end dir h =
    let past : leb (length dir.fsent) dir.cur_ent ≡ true = ground (arith, h) in rw past refl

readdir-next :
    (dir : FatDir) (d : FsDirent)
    → dir.cur_ent < length dir.fsent
    → get_elem? dir.fsent dir.cur_ent ≡ some d
    → readdir dir ≡ (some d, record dir { cur_ent = dir.cur_ent + 1 })
unfolding readdir
readdir-next dir d h e =
    let more : leb (length dir.fsent) dir.cur_ent ≡ false = ground (arith, h) in
    rw more λ i. (e i, record dir { cur_ent = dir.cur_ent + 1 })

abbrev and_on : ℕ → Option FsDirent × FatDir → List FsDirent
and_on fuel r = elim r.0 [ none ↦ [] | some d ↦ d ∷ read_all fuel r.1 ]

drop-get_elem? :
    (l : List FsDirent) (n : ℕ)
    → n < length l
    → (d : FsDirent) × (get_elem? l n ≡ some d) × (drop n l ≡ d ∷ drop (n + 1) l)
drop-get_elem? [] n h = absurd (omega (arith, h))
drop-get_elem? (d ∷ l) zero h = (d, refl, refl)
drop-get_elem? (d ∷ l) (suc n) h =
    let (d', at_n, e) = drop-get_elem? l n (omega (arith, h)) in
    let next : n + 1 ≡ suc n = omega arith in
    let next' : suc (suc n) ≡ suc n + 1 = omega arith in
    (d', at_n, e ∙ ap (λ k. d' ∷ drop k l) next ∙ ap (λ k. d' ∷ drop k (d ∷ l)) next')

drop_all : (l : List FsDirent) (n : ℕ) → length l ≤ n → drop n l ≡ []
drop_all [] zero h = refl
drop_all [] (suc n) h = refl
drop_all (d ∷ l) zero h = absurd (omega (arith, h))
drop_all (d ∷ l) (suc n) h = drop_all l n (omega (arith, h))

read_all-drop :
    (fuel : ℕ) (dir : FatDir)
    → length dir.fsent < fuel + dir.cur_ent
    → read_all fuel dir ≡ drop dir.cur_ent dir.fsent
read_all-drop zero dir h = sym (drop_all dir.fsent dir.cur_ent (omega (arith, h)))
read_all-drop (suc fuel) dir h = elim (Bool-cases (leb (length dir.fsent) dir.cur_ent)) [
  | inl past ↦
      ap (and_on fuel) (readdir-end dir (ground (arith, past)))
      ∙ sym (drop_all dir.fsent dir.cur_ent (ground (arith, past)))
  | inr more ↦
      let inside : dir.cur_ent < length dir.fsent = ground (arith, more) in
      let (d, at_n, e) = drop-get_elem? dir.fsent dir.cur_ent inside in
      let dir' : FatDir = record dir { cur_ent = dir.cur_ent + 1 } in
      ap (and_on fuel) (readdir-next dir d inside at_n)
      ∙ ap (λ l. d ∷ l) (read_all-drop fuel dir' (omega (arith, h)))
      ∙ sym e
]

-- The calls of `readdir` behind a `rewinddir` give the entries in their order, and then nothing.
pub read_all-rewinddir :
    (dir : FatDir) → read_all (length dir.fsent + 1) (rewinddir dir) ≡ dir.fsent
unfolding rewinddir
read_all-rewinddir dir =
    read_all-drop (length dir.fsent + 1) (record dir { cur_ent = 0 }) (omega arith)
