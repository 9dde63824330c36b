-- ===== src/Fs/Tests.antt =====
-- Paths, and changes of directory in a file system in which every path is a directory.
use pcboot.Prelude.{
  ℕ, zero, suc, ◌+◌, ◌≡◌, refl, List, [], ◌∷◌, none, some, arith, length, replicate, inr,
}
use pcboot.Prelude.Int.{pos, negsuc, ◌-ℤ◌}
use pcboot.Strings.{strcmp}
use pcboot.Strings.Compare.{IsText}
use pcboot.Fs.{
  FsNode, fsnode_dir, FsOperations, Front, with_state, fs_of, fs_open, fs_close, open_in, enter,
  enter_up, enter_down, go_up, go_down, fs_chdir, before_last, at_least_one, up_path, joined,
}
use pcboot.Fs.Path.{IsPlain, path_names, path_names-spelled}
use pcboot.Fs.Chdir.{fs_chdir-dot_dot, fs_chdir-overflows}

-- usr//bin/
path_names-spelled_example :
    path_names 2 196 (117 ∷ 115 ∷ 114 ∷ 47 ∷ 47 ∷ 98 ∷ 105 ∷ 110 ∷ 47 ∷ [])
    ≡ (117 ∷ 115 ∷ 114 ∷ []) ∷ (98 ∷ 105 ∷ 110 ∷ []) ∷ []
path_names-spelled_example =
    path_names-spelled 2 196 ((117 ∷ 115 ∷ 114 ∷ [], 1) ∷ (98 ∷ 105 ∷ 110 ∷ [], 1) ∷ [])
      (
        omega arith,
        omega arith,
        (
          λ e. absurd (omega (arith, e)),
          (λ e. absurd (omega (arith, e)), (λ e. absurd (omega (arith, e)), tt)),
        ),
        (
          omega arith,
          omega arith,
          (
            λ e. absurd (omega (arith, e)),
            (λ e. absurd (omega (arith, e)), (λ e. absurd (omega (arith, e)), tt)),
          ),
          tt,
        ),
      )
      (omega arith)

abbrev dir_node : FsNode
dir_node = record { fs = 0; kind = fsnode_dir; data_index = 0 }

abbrev directories : ℕ → FsOperations (Unit {0})
directories fs = record {
  open_path = λ s fs path flags. (some dir_node, s);
  close = λ s node. s;
  fsize = λ s node. negsuc 0;
  seek = λ s node offs whence. (negsuc 0, s);
  tell = λ s node. negsuc 0;
  read = λ s node sz. (none, s);
  write = λ s node buf. (negsuc 0, s);
  rewinddir = λ s node. (pos 0, s);
  readdir = λ s node. (none, s);
  rename = λ s node name. (pos 0, s);
  remove = λ s node. (negsuc 0, s);
}

abbrev front : List ℕ → Front (Unit {0})
front cwdpath = record { rootfs = 0; cwdnode = some dir_node; cwdpath = cwdpath; state = tt }

letters-IsText : (n : ℕ) → IsText (replicate n 98)
letters-IsText zero = tt
letters-IsText (suc n) = (omega arith, omega arith, letters-IsText n)

letters-IsPlain : (n : ℕ) → IsPlain (replicate n 98)
letters-IsPlain zero = tt
letters-IsPlain (suc n) = (λ e. absurd (omega (arith, e)), letters-IsPlain n)

-- From /a to b and back
fs_chdir-dot_dot_example : (front (47 ∷ 97 ∷ [])).cwdpath ≡ 47 ∷ 97 ∷ []
unfolding fs_chdir fs_open fs_of open_in with_state go_up go_down enter_up enter_down enter fs_close
    joined up_path before_last at_least_one strcmp ◌-ℤ◌
fs_chdir-dot_dot_example =
    fs_chdir-dot_dot directories (front (47 ∷ 97 ∷ [])) (front (47 ∷ 97 ∷ 47 ∷ 98 ∷ []))
      (front (47 ∷ 97 ∷ [])) (replicate 1 98) (inr (omega arith)) (omega arith) (letters-IsText 1)
      (letters-IsPlain 1) (λ e. cc e) (λ e. cc e) refl refl

-- From /a to a name of 1022 letters
fs_chdir-overflows_run : length (front (47 ∷ 97 ∷ 47 ∷ replicate 1022 98)).cwdpath + 1 ≡ 1026
unfolding fs_chdir fs_open fs_of open_in with_state go_down enter_down enter fs_close joined strcmp
    ◌-ℤ◌
fs_chdir-overflows_run =
    fs_chdir-overflows directories (front (47 ∷ 97 ∷ [])) (front (47 ∷ 97 ∷ 47 ∷ replicate 1022 98))
      (replicate 1022 98) (omega arith) (omega arith) (letters-IsText 1022) (letters-IsPlain 1022)
      (λ e. cc e) (λ e. cc e) refl refl
