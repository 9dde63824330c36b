-- ===== src/Keyb/Repeat.antt =====
-- The count of pressed keys in keyb.c, where the keyboard repeats a code while a key is held.
use pcboot.Prelude.{
  ℕ, zero, suc, ◌+◌, ◌-◌, ◌^◌, ◌%◌, ◌<◌, ◌≡◌, ◌≢◌, refl, ap, ◌∙◌, true, false, List, [], ◌∷◌, ◌++◌,
  none, some, ltb, ◌==◌, if◌then◌else◌, arith, bit_and, replicate,
}
use pcboot.Prelude.Bits.{bit_and-mask}
use pcboot.Ring.{push}
use pcboot.Keyb.{Keyb, buf_mask, key_of, reboots, kbintr, kb_del, kb_any, the_key, kb_isdown}
use pcboot.Keyb.Decode.{interrupts, top_bit}

interrupts-kbintr :
    (c : ℕ) (cs : List ℕ) (k k' : Keyb)
    → kbintr c k ≡ some k'
    → interrupts (c ∷ cs) k ≡ interrupts cs k'
interrupts-kbintr c cs k k' e = ap (λ o. elim o [ none ↦ none | some k' ↦ interrupts cs k' ]) e

module _ (c : ℕ) (code : c < 128) (no_prefix : c ≢ 0x60)
    (other : (key_of false c == kb_del) ≡ false) where
  one_press :
      (k : Keyb)
      → k.ext ≡ false
      → k.num_pressed + 1 < 2 ^ 32
      → (k' : Keyb) × (kbintr c k ≡ some k')
        × (k'.num_pressed ≡ k.num_pressed + 1)
        × (k'.ext ≡ false)
  unfolding kbintr reboots
  one_press k plain few =
      let plain_code : (c == 0xe0) ≡ false = ground arith in
      let down : ltb c 128 ≡ true = ground arith in
      let fits : (k.num_pressed + 1) % 2 ^ 32 ≡ k.num_pressed + 1 = omega arith in
      (
        record {
          keys = push buf_mask (key_of false c) k.keys;
          num_pressed = (k.num_pressed + 1) % 2 ^ 32;
          keystate = λ x. if x == key_of false c then 1 else k.keystate x;
          ext = false;
        },
        rw (plain_code, top_bit c (omega arith), down, plain, other) refl,
        fits,
        refl,
      )

  abbrev released : Keyb → Keyb
  released k = record k {
    num_pressed = k.num_pressed - 1;
    ext = false;
    keystate = λ x. if x == key_of false c then 0 else k.keystate x;
  }

  one_release :
      (k : Keyb) → k.ext ≡ false → 0 < k.num_pressed → kbintr (c + 128) k ≡ some (released k)
  unfolding kbintr
  one_release k plain some_down =
      let plain_code : (c + 128 == 0xe0) ≡ false = ground (arith, no_prefix) in
      let up : ltb (c + 128) 128 ≡ false = ground arith in
      let down : ltb 0 k.num_pressed ≡ true = ground arith in
      let same : bit_and (c + 128) 0x7f ≡ c = bit_and-mask 7 (c + 128) ∙ omega arith in
      rw (plain_code, top_bit (c + 128) (omega arith), up, down, same, plain) refl

  presses :
      (n : ℕ) (cs : List ℕ) (k : Keyb)
      → k.ext ≡ false
      → k.num_pressed + n < 2 ^ 32
      → (k' : Keyb) × (interrupts (replicate n c ++ cs) k ≡ interrupts cs k')
        × (k'.num_pressed ≡ k.num_pressed + n)
        × (k'.ext ≡ false)
  presses zero cs k plain few = (k, refl, omega arith, plain)
  presses (suc n) cs k plain few =
      let (k₁, e₁, count₁, plain₁) = one_press k plain (omega arith) in
      let (k₂, e₂, count₂, plain₂) = presses n cs k₁ plain₁ (omega (arith, count₁)) in
      (
        k₂,
        interrupts-kbintr c (replicate n c ++ cs) k k₁ e₁ ∙ e₂,
        omega (arith, count₁, count₂),
        plain₂,
      )

  -- From a state with no key counted and no prefix seen: a code below 128, other than 0x60 and that of
  -- KB_DEL, that comes `n + 1` times before its release leaves `kb_isdown` of any key at `n`, though
  -- the key is up.
  pub kb_isdown-interrupts :
      (n : ℕ) (k : Keyb)
      → k.ext ≡ false
      → k.num_pressed ≡ 0
      → n + 1 < 2 ^ 32
      → (k' : Keyb) × (interrupts (replicate (suc n) c ++ ((c + 128) ∷ [])) k ≡ some k')
        × (kb_isdown kb_any k' ≡ n)
        × (kb_isdown (the_key (key_of false c)) k' ≡ 0)
  unfolding kb_isdown kbintr
  kb_isdown-interrupts n k plain none_down few =
      let (k₁, e, count, plain₁) =
        presses (suc n) ((c + 128) ∷ []) k plain (omega (arith, none_down)) in
      (
        released k₁,
        e
            ∙ interrupts-kbintr (c + 128) [] k₁ (released k₁)
                (one_release k₁ plain₁ (omega (arith, count))),
        omega (arith, count, none_down),
        ground arith,
      )
