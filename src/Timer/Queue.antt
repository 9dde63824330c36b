-- ===== src/Timer/Queue.antt =====
-- What the alarms of timer.c promise, by absolute times: a list of pairs of the ticks that are left
-- until an alarm is due and its function, in the order in which they are called.
use pcboot.Prelude.{ℕ, ◌-◌, List, [], ◌∷◌, ltb, leb, ◌==◌, if◌then◌else◌}

abbrev pub Due : Type 0
Due = List (ℕ × ℕ)

-- The alarms that are not yet due after `n` more ticks, and what they still have to wait.
unfoldable pub elapse : ℕ → Due → Due
elapse n [] = []
elapse n ((d, f) ∷ q) = if leb d n then elapse n q else (d - n, f) ∷ elapse n q

-- The functions that are called within `n` ticks.
unfoldable pub expired : ℕ → Due → List ℕ
expired n [] = []
expired n ((d, f) ∷ q) = if leb d n then f ∷ expired n q else expired n q

-- Before the first alarm that is due no earlier.
unfoldable pub insert_before : ℕ → ℕ → Due → Due
insert_before t f [] = (t, f) ∷ []
insert_before t f ((d, g) ∷ q) =
    if ltb d t then (d, g) ∷ insert_before t f q else (t, f) ∷ (d, g) ∷ q

-- A new alarm goes behind a first one that is due at the same tick.
unfoldable pub insert : ℕ → ℕ → Due → Due
unfolding insert_before
insert t f [] = (t, f) ∷ []
insert t f ((d, g) ∷ q) = if ltb t d then (t, f) ∷ (d, g) ∷ q else (d, g) ∷ insert_before t f q

-- Drops the first alarm with the function.
unfoldable pub cancel : ℕ → Due → Due
cancel f [] = []
cancel f ((d, g) ∷ q) = if g == f then q else (d, g) ∷ cancel f q

-- What a client does with the timer.
pub data Op : Type 0 where
  alarm : ℕ → ℕ → Op
  cancel_of : ℕ → Op
  tick : Op

-- The functions that are called in the course of the operations. An alarm of zero ticks is ignored.
unfoldable pub run : Due → List Op → List (List ℕ)
unfolding insert cancel elapse expired
run q [] = []
run q (alarm t f ∷ ops) = [] ∷ run (if leb t 0 then q else insert t f q) ops
run q (cancel_of f ∷ ops) = [] ∷ run (cancel f q) ops
run q (tick ∷ ops) = expired 1 q ∷ run (elapse 1 q) ops
