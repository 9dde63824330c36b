-- ===== src/Keyb/Tests.antt =====
-- Runs of keyb.c, and the theorems there.
use pcboot.Prelude.{◌≡◌, refl, false, [], ◌∷◌, none, some, arith}
use pcboot.Keyb.{Keyb, key_of, kbintr, reboots, kb_isdown, kb_any, the_key}
use pcboot.Keyb.Decode.{decode, happen_all, interrupts, seen, seen_option, interrupts-happen_all}
use pcboot.Keyb.Repeat.{kb_isdown-interrupts}

abbrev idle : Keyb
idle = record {
  keys = record { buffer = λ i. 0; ridx = 0; widx = 0 };
  num_pressed = 0;
  keystate = λ key. 0;
  ext = false;
}

-- `a` is pressed and released, and then the upward arrow is pressed.
interrupts-happen_all_example :
    seen_option (interrupts (0x1e ∷ 0x9e ∷ 0xe0 ∷ 0x48 ∷ []) idle)
    ≡ happen_all (decode false (0x1e ∷ 0x9e ∷ 0xe0 ∷ 0x48 ∷ [])) (seen idle)
interrupts-happen_all_example =
    interrupts-happen_all (0x1e ∷ 0x9e ∷ 0xe0 ∷ 0x48 ∷ []) idle
      (omega arith, (omega arith, (omega arith, (omega arith, tt)))) (omega arith, omega arith)

-- Control, alt and delete.
three_keys : interrupts (0x1d ∷ 0x38 ∷ 0xe0 ∷ 0x53 ∷ []) idle ≡ none
unfolding kbintr reboots key_of
three_keys = refl

-- `a` comes three times, and is released.
kb_isdown-interrupts_run :
    (k : Keyb) × (interrupts (0x1e ∷ 0x1e ∷ 0x1e ∷ 0x9e ∷ []) idle ≡ some k)
    × (kb_isdown kb_any k ≡ 2)
    × (kb_isdown (the_key (key_of false 0x1e)) k ≡ 0)
unfolding key_of
kb_isdown-interrupts_run =
    kb_isdown-interrupts 0x1e (omega arith) (omega arith) refl 2 idle refl refl (omega arith)
