-- ===== src/Fs/Path.antt =====
-- The loop that the file systems run over a path with `fs_path_next`, and the paths that a list of names has.
use pcboot.Prelude.{
  ℕ, zero, suc, ◌≤◌, ◌<◌, ◌≡◌, ◌≢◌, refl, sym, ap, ◌∙◌, true, false, List, [], ◌∷◌, ◌++◌, leb, ◌==◌,
  arith, length, take, map, replicate, length-append,
}
use pcboot.Fs.{sep, fs_path_skipsep, name_part, rest_part, fs_path_next}

-- The names of a path, by the loop `while(*path)`, on fuel
abbrev pub path_names : (fuel bufsz : ℕ) → List ℕ → List (List ℕ)
path_names zero bufsz s = []
path_names (suc fuel) bufsz [] = []
path_names (suc fuel) bufsz (c ∷ s) =
    (fs_path_next (c ∷ s) bufsz).0 ∷ path_names fuel bufsz (fs_path_next (c ∷ s) bufsz).1

-- No separator
abbrev pub IsPlain : List ℕ → Type 0
IsPlain [] = Unit
IsPlain (c ∷ s) = (c ≢ sep) × IsPlain s

abbrev pub seps : ℕ → List ℕ
seps n = replicate n sep

abbrev pub AreNames : ℕ → List (List ℕ × ℕ) → Type 0
AreNames bufsz [] = Unit
AreNames bufsz (n ∷ ns) = (0 < length n.0) × (length n.0 < bufsz) × IsPlain n.0 × AreNames bufsz ns

-- The names with a separator between them, and as many more behind each as its number says
abbrev behind : (k : ℕ) (ns : List (List ℕ × ℕ)) (rest : List ℕ) → List ℕ
behind k [] rest = seps k
behind k (m ∷ ns) rest = sep ∷ seps k ++ rest

abbrev pub spelled : List (List ℕ × ℕ) → List ℕ
spelled [] = []
spelled (n ∷ ns) = n.0 ++ behind n.1 ns (spelled ns)

skip-seps : (k : ℕ) (s : List ℕ) → fs_path_skipsep (seps k ++ s) ≡ fs_path_skipsep s
unfolding fs_path_skipsep
skip-seps zero s = refl
skip-seps (suc k) s = skip-seps k s

skip-plain : (n t : List ℕ) → 0 < length n → IsPlain n → fs_path_skipsep (n ++ t) ≡ n ++ t
unfolding fs_path_skipsep
skip-plain [] t h p = absurd (omega (arith, h))
skip-plain (c ∷ n) t h (ne, p) =
    let other : (c == sep) ≡ false = ground (arith, ne) in rw other refl

-- What may stand behind a name
abbrev IsTail : List ℕ → Type 0
IsTail [] = Unit
IsTail (c ∷ t) = c ≡ sep

name-tail : (n t : List ℕ) → IsPlain n → IsTail t → name_part (n ++ t) ≡ n
unfolding name_part
name-tail [] [] p e = refl
name-tail [] (c ∷ t) p e = let here : (c == sep) ≡ true = ground (arith, e) in rw here refl
name-tail (c ∷ n) t (ne, p) e =
    let other : (c == sep) ≡ false = ground (arith, ne) in rw (other, name-tail n t p e) refl

rest-tail : (n t : List ℕ) → IsPlain n → IsTail t → rest_part (n ++ t) ≡ t
unfolding rest_part
rest-tail [] [] p e = refl
rest-tail [] (c ∷ t) p e = let here : (c == sep) ≡ true = ground (arith, e) in rw here refl
rest-tail (c ∷ n) t (ne, p) e =
    let other : (c == sep) ≡ false = ground (arith, ne) in rw (other, rest-tail n t p e) refl

take_all : (n : List ℕ) → take (length n) n ≡ n
take_all [] = refl
take_all (c ∷ n) = ap (λ s. c ∷ s) (take_all n)

next-name :
    (bufsz : ℕ) (n t rest : List ℕ)
    → 0 < length n
    → length n < bufsz
    → IsPlain n
    → IsTail t
    → fs_path_skipsep t ≡ rest
    → fs_path_next (n ++ t) bufsz ≡ (n, rest)
unfolding fs_path_next
next-name bufsz n t rest h h' p tail e =
    let fits : leb bufsz (length n) ≡ false = ground (arith, h') in
    rw (skip-plain n t h p, name-tail n t p tail, rest-tail n t p tail, fits, take_all n, e) refl

behind-IsTail : (k : ℕ) (ns : List (List ℕ × ℕ)) (rest : List ℕ) → IsTail (behind k ns rest)
behind-IsTail zero [] rest = tt
behind-IsTail (suc k) [] rest = refl
behind-IsTail k (m ∷ ns) rest = refl

append-nil : (s : List ℕ) → s ++ [] ≡ s
append-nil [] = refl
append-nil (c ∷ s) = ap (λ t. c ∷ t) (append-nil s)

skip-behind :
    (bufsz k : ℕ) (ns : List (List ℕ × ℕ))
    → AreNames bufsz ns
    → fs_path_skipsep (behind k ns (spelled ns)) ≡ spelled ns
unfolding fs_path_skipsep
skip-behind bufsz k [] v = ap fs_path_skipsep (sym (append-nil (seps k))) ∙ skip-seps k []
skip-behind bufsz k (m ∷ ns) (h, h', p, v) =
    skip-seps k (spelled (m ∷ ns)) ∙ skip-plain m.0 (behind m.1 ns (spelled ns)) h p

one_name :
    (fuel bufsz : ℕ) (s name rest : List ℕ)
    → 0 < length s
    → fs_path_next s bufsz ≡ (name, rest)
    → path_names (suc fuel) bufsz s ≡ name ∷ path_names fuel bufsz rest
one_name fuel bufsz [] name rest h e = absurd (omega (arith, h))
one_name fuel bufsz (c ∷ s) name rest h e = ap (λ r. r.0 ∷ path_names fuel bufsz r.1) e

pub next-spelled :
    (bufsz : ℕ) (n : List ℕ × ℕ) (ns : List (List ℕ × ℕ))
    → AreNames bufsz (n ∷ ns)
    → fs_path_next (spelled (n ∷ ns)) bufsz ≡ (n.0, spelled ns)
next-spelled bufsz n ns (some_char, fits, p, v) =
    next-name bufsz n.0 (behind n.1 ns (spelled ns)) (spelled ns) some_char fits p
      (behind-IsTail n.1 ns (spelled ns)) (skip-behind bufsz n.1 ns v)

pub spelled-some :
    (bufsz : ℕ) (n : List ℕ × ℕ) (ns : List (List ℕ × ℕ))
    → AreNames bufsz (n ∷ ns)
    → 0 < length (spelled (n ∷ ns))
spelled-some bufsz n ns (some_char, fits, p, v) =
    omega (arith, some_char, length-append n.0 (behind n.1 ns (spelled ns)))

pub skip-spelled :
    (bufsz : ℕ) (ns : List (List ℕ × ℕ))
    → AreNames bufsz ns
    → fs_path_skipsep (sep ∷ spelled ns) ≡ spelled ns
unfolding fs_path_skipsep
skip-spelled bufsz [] v = refl
skip-spelled bufsz (n ∷ ns) (some_char, fits, p, v) =
    skip-plain n.0 (behind n.1 ns (spelled ns)) some_char p

-- The names come back from a path that spells them, however many separators stand between them and behind
-- the last one.
pub path_names-spelled :
    (fuel bufsz : ℕ) (ns : List (List ℕ × ℕ))
    → AreNames bufsz ns
    → length ns ≤ fuel
    → path_names fuel bufsz (spelled ns) ≡ map (λ n. n.0) ns
path_names-spelled zero bufsz [] v h = refl
path_names-spelled (suc fuel) bufsz [] v h = refl
path_names-spelled zero bufsz (n ∷ ns) v h = absurd (omega (arith, h))
path_names-spelled (suc fuel) bufsz (n ∷ ns) (some_char, fits, p, v) h =
    one_name fuel bufsz (spelled (n ∷ ns)) n.0 (spelled ns)
      (spelled-some bufsz n ns (some_char, fits, p, v))
      (next-spelled bufsz n ns (some_char, fits, p, v))
    ∙ ap (λ l. n.0 ∷ l) (path_names-spelled fuel bufsz ns v (omega (arith, h)))
