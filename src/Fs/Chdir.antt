-- ===== src/Fs/Chdir.antt =====
-- `fs_chdir` of fs.c: a change to a directory and back by `..`, and paths that are as long as their buffer.
use mathlib.Core.Option.{some-injective}
use pcboot.Prelude.{
  ℕ, ◌+◌, ◌<◌, ◌≡◌, ◌≢◌, ◌⊎◌, refl, sym, ap, ◌∙◌, true, false, List, [], ◌∷◌, ◌++◌, Option, none,
  some, ltb, leb, ◌==◌, arith, length, length-append, Bool-cases, inl, inr,
}
use pcboot.Prelude.Int.{ℤ, pos, negsuc}
use pcboot.Strings.{strcmp, first, is_zero}
use pcboot.Strings.Compare.{IsText, strcmp-eq}
use pcboot.Fs.{
  sep, dot, dot_dot, cwdpath_size, FsNode, Kind, fsnode_file, fsnode_dir, FsOperations, Front,
  with_state, fs_of, open_in, fs_open, fs_close, enter, enter_up, enter_down, go_up, go_down,
  fs_chdir, before_last, at_least_one, up_path, joined,
}
use pcboot.Fs.Path.{IsPlain}

before_last-plain : (s : List ℕ) → IsPlain s → before_last s ≡ none
unfolding before_last
before_last-plain [] p = refl
before_last-plain (c ∷ s) (ne, p) =
    let other : (c == sep) ≡ false = ground (arith, ne) in rw (before_last-plain s p, other) refl

before_last-sep : (p s : List ℕ) → IsPlain s → before_last (p ++ sep ∷ s) ≡ some p
unfolding before_last
before_last-sep [] s plain = rw (before_last-plain s plain) refl
before_last-sep (c ∷ p) s plain = rw (before_last-sep p s plain) refl

-- What `cwdpath` is: the root, or more than one character
abbrev pub IsCwd : List ℕ → Type 0
IsCwd p = (p ≡ sep ∷ []) ⊎ (1 < length p)

first-plain : (name : List ℕ) → 0 < length name → IsPlain name → (first name == sep) ≡ false
first-plain [] h p = absurd (omega (arith, h))
first-plain (c ∷ name) h (ne, p) = ground (arith, ne)

up_path-joined :
    (p name : List ℕ) → IsCwd p → 0 < length name → IsPlain name → up_path (joined p name) ≡ p
unfolding up_path joined at_least_one
up_path-joined p name (inl root) h plain =
    let relative = first-plain name h plain in
    rw (root, relative, before_last-sep [] name plain) refl
up_path-joined [] name (inr long) h plain = absurd (omega (arith, long))
up_path-joined (c ∷ p) name (inr long) h plain =
    let relative = first-plain name h plain in
    let more : ltb 1 (length (c ∷ p)) ≡ true = ground (arith, long) in
    rw (relative, more, before_last-sep (c ∷ p) name plain) refl

length-joined :
    (p name : List ℕ)
    → 1 < length p
    → 0 < length name
    → IsPlain name
    → length (joined p name) ≡ length p + 1 + length name
unfolding joined
length-joined p name long h plain =
    let relative = first-plain name h plain in
    let more : ltb 1 (length p) ≡ true = ground (arith, long) in
    rw (relative, more) (omega (arith, length-append p (sep ∷ name)))

joined-long :
    (p name : List ℕ) → IsCwd p → 0 < length name → IsPlain name → 1 < length (joined p name)
unfolding joined
joined-long p name (inl root) h plain =
    let relative = first-plain name h plain in rw (root, relative) (omega (arith, h))
joined-long p name (inr long) h plain = omega (arith, length-joined p name long h plain, long)

is_zero-pos : (z : ℤ) → is_zero z ≡ true → z ≡ pos 0
is_zero-pos (pos n) e = ap pos (ground (arith, e))
is_zero-pos (negsuc n) e = cc e

differs : (s t : List ℕ) → IsText s → IsText t → s ≢ t → is_zero (strcmp s t) ≡ false
differs s t h h' ne = elim (Bool-cases (is_zero (strcmp s t))) [
  | inl e ↦ absurd (ne ((strcmp-eq s t h h').0 (is_zero-pos (strcmp s t) e)))
  | inr e ↦ e
]

fails : negsuc 0 ≡ pos 0 → ⊥
fails e = cc e

dot-IsText : IsText dot
dot-IsText = (omega arith, omega arith, tt)

dot_dot-IsText : IsText dot_dot
dot_dot-IsText = (omega arith, omega arith, (omega arith, omega arith, tt))

dot_dot-ne : dot_dot ≢ dot
dot_dot-ne e = cc e

module _ {S : Type 0} (fsop : ℕ → FsOperations S) where
  open_in-cwdpath :
      (o : Option ℕ) (f : Front S) (path : List ℕ) (flags : ℕ)
      → (open_in fsop o f path flags).1.cwdpath ≡ f.cwdpath
  unfolding open_in with_state
  open_in-cwdpath none f path flags = refl
  open_in-cwdpath (some fs) f path flags = refl

  opened :
      (f : Front S) (path : List ℕ) (flags : ℕ) → (fs_open fsop f path flags).1.cwdpath ≡ f.cwdpath
  unfolding fs_open
  opened f path flags = open_in-cwdpath (fs_of fsop f path) f path flags

  close-cwdpath : (f : Front S) (node : Option FsNode) → (fs_close fsop f node).cwdpath ≡ f.cwdpath
  unfolding fs_close
  close-cwdpath f none = refl
  close-cwdpath f (some node) = refl

  abbrev done : ℤ → Front S → ℤ × Front S
  done z g = (z, g)

  no_success : {P : Type 0} (g f' : Front S) → some (done (negsuc 0) g) ≡ some (done (pos 0) f') → P
  no_success g f' e = absurd (fails (ap (λ r. r.0) (some-injective _ _ e)))

  enter_down-cwdpath :
      (path : List ℕ) (node : FsNode) (k : Kind) (f f' : Front S)
      → enter_down fsop path node k f ≡ some (pos 0, f')
      → f'.cwdpath ≡ joined f.cwdpath path
  unfolding enter_down enter
  enter_down-cwdpath path node fsnode_file f f' e = no_success (fs_close fsop f (some node)) f' e
  enter_down-cwdpath path node fsnode_dir f f' e =
      elim (Bool-cases (ltb cwdpath_size (length f.cwdpath + length path))) [
        | inl long ↦ cc (rw long at e)
        | inr fits ↦ sym (ap (λ r. r.1.cwdpath) (some-injective _ _ (rw fits at e)))
      ]

  down-cwdpath :
      (path : List ℕ) (node : Option FsNode) (f f' : Front S)
      → go_down fsop path node f ≡ some (pos 0, f')
      → f'.cwdpath ≡ joined f.cwdpath path
  unfolding go_down
  down-cwdpath path none f f' e = no_success f f' e
  down-cwdpath path (some node) f f' e = enter_down-cwdpath path node node.kind f f' e

  enter_up-cwdpath :
      (uppath : List ℕ) (node : FsNode) (k : Kind) (f f' : Front S)
      → enter_up fsop uppath node k f ≡ (pos 0, f')
      → f'.cwdpath ≡ uppath
  unfolding enter_up enter
  enter_up-cwdpath uppath node fsnode_file f f' e =
      no_success (fs_close fsop f (some node)) f' (ap some e)
  enter_up-cwdpath uppath node fsnode_dir f f' e = sym (ap (λ r. r.1.cwdpath) e)

  up-cwdpath :
      (uppath : List ℕ) (node : Option FsNode) (f f' : Front S)
      → go_up fsop uppath node f ≡ (pos 0, f')
      → f'.cwdpath ≡ uppath
  unfolding go_up
  up-cwdpath uppath none f f' e = no_success f f' (ap some e)
  up-cwdpath uppath (some node) f f' e = enter_up-cwdpath uppath node node.kind f f' e

  -- A relative path of one name, and the parent
  chdir-name :
      (f : Front S) (name : List ℕ)
      → 0 < length name
      → IsText name
      → name ≢ dot
      → name ≢ dot_dot
      → fs_chdir fsop f name ≡ go_down fsop name (fs_open fsop f name 0).0 (fs_open fsop f name 0).1
  unfolding fs_chdir
  chdir-name f name h t ne ne' =
      let some_char : (length name == 0) ≡ false = ground (arith, h) in
      let d = differs name dot t dot-IsText ne in
      let dd = differs name dot_dot t dot_dot-IsText ne' in rw (some_char, d, dd) refl

  chdir-dot_dot :
      (f : Front S)
      → 1 < length f.cwdpath
      → fs_chdir fsop f dot_dot
        ≡ some (
            go_up fsop
              (up_path f.cwdpath)
              (fs_open fsop f (up_path f.cwdpath) 0).0
              (fs_open fsop f (up_path f.cwdpath) 0).1)
  unfolding fs_chdir
  chdir-dot_dot f h =
      let above : leb (length f.cwdpath) 1 ≡ false = ground (arith, h) in
      let d = differs dot_dot dot dot_dot-IsText dot-IsText dot_dot-ne in
      let same : is_zero (strcmp dot_dot dot_dot) ≡ true =
        ap is_zero ((strcmp-eq dot_dot dot_dot dot_dot-IsText dot_dot-IsText).1 refl) in
      rw (d, same, above) refl

  -- A change to a directory by one name, and then to `..`, gives `cwdpath` back, if both succeed.
  pub fs_chdir-dot_dot :
      (f f' f'' : Front S) (name : List ℕ)
      → IsCwd f.cwdpath
      → 0 < length name
      → IsText name
      → IsPlain name
      → name ≢ dot
      → name ≢ dot_dot
      → fs_chdir fsop f name ≡ some (pos 0, f')
      → fs_chdir fsop f' dot_dot ≡ some (pos 0, f'')
      → f''.cwdpath ≡ f.cwdpath
  fs_chdir-dot_dot f f' f'' name cwd h t plain ne ne' down up =
      let r = fs_open fsop f name 0 in
      let at_name : f'.cwdpath ≡ joined f.cwdpath name =
        down-cwdpath name r.0 r.1 f' (sym (chdir-name f name h t ne ne') ∙ down)
        ∙ ap (λ p. joined p name) (opened f name 0) in
      let r' = fs_open fsop f' (up_path f'.cwdpath) 0 in
      let long : 1 < length f'.cwdpath =
        omega (arith, joined-long f.cwdpath name cwd h plain, ap length at_name) in
      up-cwdpath (up_path f'.cwdpath) r'.0 r'.1 f''
        (some-injective _ _ (sym (chdir-dot_dot f' long) ∙ up))
      ∙ ap up_path at_name
      ∙ up_path-joined f.cwdpath name cwd h plain

  -- A relative path that fills the 1024 bytes of `cwdpath` to the last one is accepted below the root, and the path
  -- with its separator and terminator is two bytes longer than the buffer.
  pub fs_chdir-overflows :
      (f f' : Front S) (name : List ℕ)
      → 1 < length f.cwdpath
      → 0 < length name
      → IsText name
      → IsPlain name
      → name ≢ dot
      → name ≢ dot_dot
      → length f.cwdpath + length name ≡ cwdpath_size
      → fs_chdir fsop f name ≡ some (pos 0, f')
      → length f'.cwdpath + 1 ≡ cwdpath_size + 2
  fs_chdir-overflows f f' name long h t plain ne ne' full down =
      let r = fs_open fsop f name 0 in
      let at_name : f'.cwdpath ≡ joined f.cwdpath name =
        down-cwdpath name r.0 r.1 f' (sym (chdir-name f name h t ne ne') ∙ down)
        ∙ ap (λ p. joined p name) (opened f name 0) in
      omega (arith, ap length at_name, length-joined f.cwdpath name long h plain, full)
