-- ===== src/Ring/Queue.antt =====
-- The ring buffers refine queues that hold up to 2 ^ w - 1 entries.
use mathlib.Core.Path.{subst}
use pcboot.Prelude.{
  ℕ, suc, ◌-◌, ◌^◌, ◌≤◌, ◌≡◌, refl, sym, ap, ◌∙◌, List, [], ◌∷◌, Option, none, some, ◌==◌,
  if◌then◌else◌, arith, Bool-cases, inl, inr,
}
use pcboot.Ring.{Ring, push, pop, putback}
use pcboot.Ring.Contents.{
  IsValid, contents, contents-count, count, follow, queue_push, queue_putback, advance-follow,
  push_full, push_room, putback_full, putback_room, back,
}

-- What a read does: nothing if the queue is empty, and it takes the oldest entry otherwise.
abbrev pub Popped : ℕ → Ring → Option (ℕ × Ring) → Type 0
Popped size r none = contents size r ≡ []
Popped size r (some (x, r')) = (contents size r ≡ x ∷ contents size r') × IsValid size r'

-- Whatever is done, the ring stays valid, and is the queue after the abstract operation.
abbrev pub Refines : ℕ → Ring → List ℕ → Type 0
Refines size r l = (contents size r ≡ l) × IsValid size r

module _ (w : ℕ) (r : Ring) (v : IsValid (2 ^ w) r) (room : 2 ≤ 2 ^ w) where
  abbrev size : ℕ
  size = 2 ^ w

  -- In a valid ring of at least two places, a write puts an entry at the end of the queue, and drops
  -- the oldest one if the queue was full. The ring stays valid.
  pub push-Refines :
      (key : ℕ) → Refines size (push (size - 1) key r) (queue_push size key (contents size r))
  unfolding push
  push-Refines key =
      let (lo, hi) = v in
      let at_r = advance-follow w r.ridx lo in
      let at_w = advance-follow w r.widx hi in
      elim (Bool-cases (follow size r.widx == r.ridx)) [
        | inl full ↦
            rw (at_w, full, at_r)
              (push_full size r v room key (ground arith), (ground arith, ground arith))
        | inr some_left ↦
            rw (at_w, some_left)
              (
                push_room size r v room key (λ e. absurd (ground (arith, e, some_left))),
                (ground arith, ground arith),
              )
      ]

  -- An entry that is put back comes first in the queue, in place of the oldest one if the queue was
  -- full. The ring stays valid.
  pub putback-Refines :
      (key : ℕ) → Refines size (putback (size - 1) key r) (queue_putback size key (contents size r))
  unfolding putback
  putback-Refines key =
      let (lo, hi) = v in
      let at_b = advance-follow w (back size r v room) (ground arith) in
      elim (Bool-cases (back size r v room == r.widx)) [
        | inl full ↦
            let again : follow size (back size r v room) ≡ r.ridx = ground arith in
            let e : putback (size - 1) key r
                ≡ record r { buffer = λ x. if x == r.ridx then key else r.buffer x } =
              rw (full, at_b, again) refl in
            subst (λ x. Refines size x (queue_putback size key (contents size r))) (sym e)
              (putback_full size r v room key (ground arith), v)
        | inr some_left ↦
            let b = back size r v room in
            let e : putback (size - 1) key r
                ≡ record r { buffer = λ x. if x == b then key else r.buffer x; ridx = b } =
              rw some_left refl in
            subst (λ x. Refines size x (queue_putback size key (contents size r))) (sym e)
              (
                putback_room size r v room key (λ e. absurd (ground (arith, e, some_left))),
                (ground arith, hi),
              )
      ]

  -- A read gives the oldest entry, and leaves a valid ring with the others, or it gives none, and the
  -- queue is empty.
  pub pop-Popped : Popped size r (pop (size - 1) r)
  unfolding pop
  pop-Popped =
      let (lo, hi) = v in
      let at_r = advance-follow w r.ridx lo in
      elim (Bool-cases (r.ridx == r.widx)) [
        | inl empty ↦ rw empty (contents-count size 0 r (ground arith))
        | inr some_left ↦
            let n = count size r - 1 in
            let was : count size r ≡ suc n = ground (arith, some_left) in
            let now : count size (record r { ridx = follow size r.ridx }) ≡ n =
              ground (arith, some_left) in
            rw (some_left, at_r)
              (
                contents-count size (suc n) r was
                    ∙ ap (λ l. r.buffer r.ridx ∷ l)
                        (sym (contents-count size n (record r { ridx = follow size r.ridx }) now)),
                (ground arith, hi),
              )
      ]
