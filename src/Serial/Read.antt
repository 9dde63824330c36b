-- ===== src/Serial/Read.antt =====
-- The bytes of a port in serial.c as a queue.
use pcboot.Prelude.{
  ℕ, zero, suc, ◌+◌, ◌<◌, ◌≡◌, refl, sym, ap, ◌∙◌, Bool, true, false, List, [], ◌∷◌, ◌++◌, Option,
  none, some, ◌==◌, if◌then◌else◌, arith, length, length-append, Bool-cases, inl, inr,
}
use pcboot.Ring.{Ring, push, pop}
use pcboot.Ring.Contents.{IsValid, contents, queue_push}
use pcboot.Ring.Queue.{Popped, push-Refines, pop-Popped}
use pcboot.Serial.{
  Port, inbuf_mask, Got, waits, no_byte, byte, ser_getc, ser_read, Line, received, receive,
}

abbrev pub queue : Port → List ℕ
queue p = contents 256 p.inbuf

-- The bytes before the first 0xff, up to a count, and the ones that are left. The 0xff is gone.
pub upto : ℕ → List ℕ → List ℕ × List ℕ
upto zero l = ([], l)
upto (suc n) [] = ([], [])
upto (suc n) (c ∷ l) = let rest = upto n l in if c == 0xff then ([], l) else (c ∷ rest.0, rest.1)

-- What `ser_read` does of a port that does not block.
abbrev pub Reads : ℕ → Port → List ℕ × Bool × Port → Type 0
Reads count p r =
    let (bytes, returns, p') = r in
    (returns ≡ true)
    × (bytes ≡ (upto count (queue p)).0)
    × (queue p' ≡ (upto count (queue p)).1)
    × IsValid 256 p'.inbuf

-- A read of a port that does not block returns, with the bytes of the queue in order, up to the count
-- and up to the first byte 0xff, which reads as -1 and is lost. The others stay in the queue.
pub ser_read-Reads :
    (count : ℕ) (p : Port)
    → IsValid 256 p.inbuf
    → p.blocking ≡ false
    → Reads count p (ser_read count p)
unfolding ser_read ser_getc upto
ser_read-Reads zero p v nonblocking = (refl, refl, refl, v)
ser_read-Reads (suc n) p v nonblocking =
    go (pop inbuf_mask p.inbuf) (pop-Popped 8 p.inbuf v (omega arith))
      λ p' v' b. ser_read-Reads n p' v' b
  where
    go :
        (o : Option (ℕ × Ring))
        → Popped 256 p.inbuf o
        → ((p' : Port) → IsValid 256 p'.inbuf → p'.blocking ≡ false → Reads n p' (ser_read n p'))
        → Reads (suc n) p (
            let (got, p') : Got × Port = elim o [
              | none ↦ ((if p.blocking then waits else no_byte), p)
              | some (c, inbuf) ↦
                  ((if c == 0xff then no_byte else byte c), record p { inbuf = inbuf })
            ] in
            let rest = ser_read n p' in
            elim got [
              | waits ↦ ([], false, p')
              | no_byte ↦ ([], true, p')
              | byte c ↦ (c ∷ rest.0, rest.1, rest.2)
            ])
    go none empty rest = rw (nonblocking, empty) (refl, refl, refl, v)
    go (some (c, inbuf)) (e, v') rest =
        let p' : Port = record p { inbuf = inbuf } in
        let (returns, bytes, left, v'') = rest p' v' nonblocking in
        elim (Bool-cases (c == 0xff)) [
          | inl lost ↦ rw (e, lost) (refl, refl, refl, v')
          | inr kept ↦ rw (e, kept) (returns, ap (λ l. c ∷ l) bytes, left, v'')
        ]

abbrev pub all_received : List ℕ → List Line
all_received [] = []
all_received (c ∷ cs) = received c ∷ all_received cs

abbrev pub push_all : List ℕ → List ℕ → List ℕ
push_all [] l = l
push_all (c ∷ cs) l = push_all cs (queue_push 256 c l)

receive_lem :
    (cs : List ℕ) (p : Port)
    → IsValid 256 p.inbuf
    → (p' : Port) × (receive (all_received cs) p ≡ some p')
      × (queue p' ≡ push_all cs (queue p))
      × IsValid 256 p'.inbuf
      × (p'.blocking ≡ p.blocking)
unfolding receive
receive_lem [] p v = (p, refl, refl, v, refl)
receive_lem (c ∷ cs) p v =
    let (e, v') = push-Refines 8 p.inbuf v (omega arith) c in
    let (p', done, q, valid, b) =
      receive_lem cs (record p { inbuf = push inbuf_mask c p.inbuf }) v' in
    (p', done, q ∙ ap (push_all cs) e, valid, b)

append-nil : (l : List ℕ) → l ++ [] ≡ l
append-nil [] = refl
append-nil (c ∷ l) = ap (λ l. c ∷ l) (append-nil l)

append-append : (l m n : List ℕ) → (l ++ m) ++ n ≡ l ++ (m ++ n)
append-append [] m n = refl
append-append (c ∷ l) m n = ap (λ l. c ∷ l) (append-append l m n)

abbrev pub NoLost : List ℕ → Type 0
NoLost [] = Unit
NoLost (c ∷ cs) = (c < 0xff) × NoLost cs

push_all-append : (cs l : List ℕ) → length l + length cs < 256 → push_all cs l ≡ l ++ cs
push_all-append [] l h = sym (append-nil l)
push_all-append (c ∷ cs) l h =
    let room : (length l + 1 == 256) ≡ false = ground arith in
    rw room (
      push_all-append cs (l ++ (c ∷ [])) (omega (arith, length-append l (c ∷ [])))
      ∙ append-append l (c ∷ []) cs)

upto-NoLost : (cs : List ℕ) → NoLost cs → upto (length cs) cs ≡ (cs, [])
unfolding upto
upto-NoLost [] h = refl
upto-NoLost (c ∷ cs) (h, hs) =
    let other : (c == 0xff) ≡ false = ground arith in rw (other, upto-NoLost cs hs) refl

-- Up to 255 bytes, none of which is 0xff, that an empty port receives are what a read of that many
-- bytes gives, and the port is empty again.
pub ser_read-receive :
    (cs : List ℕ) (p : Port)
    → IsValid 256 p.inbuf
    → p.blocking ≡ false
    → queue p ≡ []
    → length cs < 256
    → NoLost cs
    → (p' : Port) × (receive (all_received cs) p ≡ some p')
      × (let (bytes, returns, p'') = ser_read (length cs) p' in
          (bytes ≡ cs) × (returns ≡ true) × (queue p'' ≡ []))
ser_read-receive cs p v nonblocking empty few none_lost =
    let (p', done, q, valid, b) = receive_lem cs p v in
    let all : queue p' ≡ cs = q ∙ ap (push_all cs) empty ∙ push_all-append cs [] (omega arith) in
    let got : upto (length cs) (queue p') ≡ (cs, []) =
      ap (upto (length cs)) all ∙ upto-NoLost cs none_lost in
    let (returns, bytes, left, _) = ser_read-Reads (length cs) p' valid (b ∙ nonblocking) in
    (p', done, (bytes ∙ ap (λ x. x.0) got, returns, left ∙ ap (λ x. x.1) got))
