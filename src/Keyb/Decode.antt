-- ===== src/Keyb/Decode.antt =====
-- The interrupt of keyb.c on a sequence of codes, against the key presses and releases that the codes
-- stand for.
use pcboot.Prelude.{
  ℕ, ◌%◌, ◌<◌, ◌≡◌, refl, sym, ap, ◌∙◌, Bool, true, false, not, ◌&&◌, ◌||◌, List, [], ◌∷◌, Option,
  none, some, ltb, ◌==◌, if◌then◌else◌, arith, Bool-cases, inl, inr, bit_and,
}
use pcboot.Prelude.Bits.{bit_and-mask}
use pcboot.Prelude.Table.{agree, agree-eq}
use pcboot.Ring.Contents.{IsValid, contents, queue_push}
use pcboot.Ring.Queue.{push-Refines}
use pcboot.Keyb.{Keyb, key_of, reboots, kbintr, kb_del, kb_lalt, kb_ralt, kb_lctrl, kb_rctrl}

pub data Event : Type 0 where
  press release : ℕ → Event

-- The code 0xe0 says that the next one is of the other table. Codes from 128 on are of releases.
pub decode : (ext : Bool) → List ℕ → List Event
decode ext [] = []
decode ext (c ∷ cs) =
    let rest = decode false cs in
    let more = decode true cs in
    if c == 0xe0
    then more
    else if ltb c 128
    then press (key_of ext c) ∷ rest
    else release (key_of ext (c % 128)) ∷ rest

-- What a program sees of the keyboard: which keys are down, and the keys that it has not read yet.
pub record Keys : Type 0 where
  pub down : ℕ → ℕ
  pub unread : List ℕ

abbrev pub held : (ℕ → ℕ) → ℕ → Bool
held down key = not (down key == 0)

-- Delete with control and alt is a reboot, which is `none`.
abbrev pub happen : Event → Keys → Option Keys
happen (press key) s =
    if key == kb_del
      && (held s.down kb_lalt || held s.down kb_ralt)
      && (held s.down kb_lctrl || held s.down kb_rctrl)
    then none
    else some (record {
      down = λ x. if x == key then 1 else s.down x;
      unread = queue_push 64 key s.unread;
    })
happen (release key) s = some (record s { down = λ x. if x == key then 0 else s.down x })

pub happen_all : List Event → Keys → Option Keys
happen_all [] s = some s
happen_all (e ∷ es) s = elim (happen e s) [ none ↦ none | some s' ↦ happen_all es s' ]

abbrev pub interrupts : List ℕ → Keyb → Option Keyb
interrupts [] k = some k
interrupts (c ∷ cs) k = elim (kbintr c k) [ none ↦ none | some k' ↦ interrupts cs k' ]

abbrev pub seen : Keyb → Keys
seen k = record { down = k.keystate; unread = contents 64 k.keys }

abbrev pub seen_option : Option Keyb → Option Keys
seen_option none = none
seen_option (some k) = some (seen k)

abbrev pub Bytes : List ℕ → Type 0
Bytes [] = Unit
Bytes (c ∷ cs) = (c < 256) × Bytes cs

top_bit_table :
    agree 256 (λ c. if bit_and c 0x80 == 0 then 1 else 0) (λ c. if ltb c 128 then 1 else 0) ≡ true
unfolding agree
top_bit_table = refl

pub top_bit : (c : ℕ) → c < 256 → (bit_and c 0x80 == 0) ≡ ltb c 128
top_bit c h = ground (arith, agree-eq 256 _ _ top_bit_table c h)

-- What one interrupt does: it ends a prefix, or it is one event.
abbrev Does : ℕ → Keyb → Option Keyb → Type 0
Does c k none =
    ((e : Event) × (happen e (seen k) ≡ none)
      × ((cs : List ℕ) → decode k.ext (c ∷ cs) ≡ e ∷ decode false cs))
Does c k (some k') =
    IsValid 64 k'.keys
    × ((cs : List ℕ)
        → happen_all (decode k.ext (c ∷ cs)) (seen k) ≡ happen_all (decode k'.ext cs) (seen k'))

decode_prefix :
    (ext : Bool) (c : ℕ) (cs : List ℕ) → (c == 0xe0) ≡ true → decode ext (c ∷ cs) ≡ decode true cs
unfolding decode
decode_prefix ext c cs e = rw e refl

decode_down :
    (ext : Bool) (c : ℕ) (cs : List ℕ)
    → (c == 0xe0) ≡ false
    → ltb c 128 ≡ true
    → decode ext (c ∷ cs) ≡ press (key_of ext c) ∷ decode false cs
unfolding decode
decode_down ext c cs e e' = rw (e, e') refl

decode_up :
    (ext : Bool) (c : ℕ) (cs : List ℕ)
    → (c == 0xe0) ≡ false
    → ltb c 128 ≡ false
    → decode ext (c ∷ cs) ≡ release (key_of ext (c % 128)) ∷ decode false cs
unfolding decode
decode_up ext c cs e e' = rw (e, e') refl

press_kept :
    (key : ℕ) (k : Keyb)
    → reboots key k ≡ false
    → happen (press key) (seen k)
      ≡ some (record {
        down = λ x. if x == key then 1 else k.keystate x;
        unread = queue_push 64 key (contents 64 k.keys);
      })
unfolding reboots
press_kept key k stays = rw stays refl

kbintr-Does : (c : ℕ) (k : Keyb) → c < 256 → IsValid 64 k.keys → Does c k (kbintr c k)
unfolding kbintr happen_all reboots
kbintr-Does c k h v = elim (Bool-cases (c == 0xe0)) [
  | inl prefix ↦
      rw prefix (v, λ cs. ap (λ es. happen_all es (seen k)) (decode_prefix k.ext c cs prefix))
  | inr code ↦ elim (Bool-cases (ltb c 128)) [
    | inl down ↦ elim (Bool-cases (reboots (key_of k.ext c) k)) [
      | inl boot ↦
          rw (code, top_bit c h, down, boot)
            (press (key_of k.ext c), rw boot refl, λ cs. decode_down k.ext c cs code down)
      | inr stays ↦
          let key = key_of k.ext c in
          let (same, valid) = push-Refines 6 k.keys v (omega arith) key in
          rw (code, top_bit c h, down, stays)
            (
              valid,
              λ cs.
                  ap (λ es. happen_all es (seen k)) (decode_down k.ext c cs code down)
                  ∙ ap (λ o. elim o [ none ↦ none | some s ↦ happen_all (decode false cs) s ])
                      (press_kept key k stays)
                  ∙ ap
                      (λ l.
                        happen_all (decode false cs)
                          (record { down = λ x. if x == key then 1 else k.keystate x; unread = l }))
                      (sym same),
            )
    ]
    | inr up ↦
        rw (code, top_bit c h, up, bit_and-mask 7 c)
          (v, λ cs. ap (λ es. happen_all es (seen k)) (decode_up k.ext c cs code up))
  ]
]

-- For any bytes of the keyboard, from a state whose indices are inside the buffer, the interrupts do
-- what the presses and releases do that the bytes stand for: the same keys are down, the buffer holds
-- the last 63 keys at most in their order, and the machine reboots at the same place.
pub interrupts-happen_all :
    (cs : List ℕ) (k : Keyb)
    → Bytes cs
    → IsValid 64 k.keys
    → seen_option (interrupts cs k) ≡ happen_all (decode k.ext cs) (seen k)
unfolding happen_all decode
interrupts-happen_all [] k b v = refl
interrupts-happen_all (c ∷ cs) k (h, b) v =
    go (kbintr c k) (kbintr-Does c k h v) λ k' v'. interrupts-happen_all cs k' b v'
  where
    go :
        (o : Option Keyb)
        → Does c k o
        → ((k' : Keyb)
            → IsValid 64 k'.keys
            → seen_option (interrupts cs k') ≡ happen_all (decode k'.ext cs) (seen k'))
        → seen_option (elim o [ none ↦ none | some k' ↦ interrupts cs k' ])
          ≡ happen_all (decode k.ext (c ∷ cs)) (seen k)
    go none (e, stops, is) rest = sym (
        ap (λ es. happen_all es (seen k)) (is cs)
        ∙ ap (λ o. elim o [ none ↦ none | some s ↦ happen_all (decode false cs) s ]) stops)
    go (some k') (valid, is) rest = rest k' valid ∙ sym (is cs)
