-- ===== src/Timer/Bounds.antt =====
-- When the alarms of timer.c are called, and that none of its sums overflows an `int`.
use pcboot.Prelude.{
  ℕ, zero, suc, ◌+◌, ◌-◌, ◌≤◌, ◌<◌, max, ◌≡◌, refl, sym, true, List, [], ◌∷◌, ◌++◌, some, arith,
}
use pcboot.Timer.{
  Event, Timer, msec_to_ticks, shorten, insert_after, insert_event, set_alarm, lengthen,
  remove_event, cancel_alarm, expire, handle_events, timer_handler,
}
use pcboot.Timer.Queue.{Due, elapse, expired}
use pcboot.Timer.Refine.{
  due, alarms, Pending, IsPending, elapse-later, expired-later, timer_handler_refines,
}

-- In the order of time, from `t` on.
abbrev pub Ordered : ℕ → Due → Type 0
Ordered t [] = Unit
Ordered t ((d, f) ∷ q) = (t ≤ d) × Ordered d q

due-Ordered : (t : ℕ) (es : List Event) → Ordered t (due t es)
due-Ordered t [] = tt
due-Ordered t (e ∷ es) = (omega arith, due-Ordered (t + e.dt) es)

-- All alarms that are due in `n` ticks or later.
expired-none : (n t : ℕ) (q : Due) → Ordered t q → n < t → expired n q ≡ []
unfolding expired
expired-none n t [] o h = refl
expired-none n t ((d, f) ∷ q) o h = ground (arith, expired-none n d q o.1)

expired-elapse :
    (n t : ℕ) (q : Due) → Ordered t q → expired (suc n) q ≡ expired n q ++ expired 1 (elapse n q)
unfolding expired elapse
expired-elapse n t [] o = refl
expired-elapse n t ((d, f) ∷ q) o = ground (arith, expired-elapse n d q o.1, expired-none n d q o.1)

elapse-elapse : (n : ℕ) (q : Due) → elapse 1 (elapse n q) ≡ elapse (suc n) q
unfolding elapse
elapse-elapse n [] = refl
elapse-elapse n ((d, f) ∷ q) = ground (arith, elapse-elapse n q)

-- `n` timer interrupts, with no other call between them: the functions called, and the timer then.
abbrev pub ticks : ℕ → Timer → List ℕ × Timer
ticks zero t = ([], t)
ticks (suc n) t =
    let before = ticks n t in let last = timer_handler before.1 in (before.0 ++ last.0, last.1)

none_yet :
    (es : List Event) → Pending es → (expired 0 (due 0 es) ≡ []) × (elapse 0 (due 0 es) ≡ due 0 es)
unfolding expired elapse
none_yet [] p = (refl, refl)
none_yet (e ∷ es) p =
    (ground (arith, expired-later 0 (0 + e.dt) es), ground (arith, elapse-later 0 (0 + e.dt) es))

-- Within `n` interrupts exactly the alarms of at most `n` ticks are called, each once and in the
-- order of time, and the others stay with `n` ticks fewer.
pub ticks-expired :
    (n : ℕ) (t : Timer)
    → IsPending t
    → ((ticks n t).0 ≡ expired n (alarms t))
      × (alarms (ticks n t).1 ≡ elapse n (alarms t))
      × IsPending (ticks n t).1
ticks-expired zero t p = let (called, left) = none_yet t.evlist p in (sym called, sym left, p)
ticks-expired (suc n) t p =
    let (called, left, p') = ticks-expired n t p in
    let (called', left', p'') = timer_handler_refines (ticks n t).1 p' in
    (
      cc (expired-elapse n 0 (alarms t) (due-Ordered 0 t.evlist)),
      cc (elapse-elapse n (alarms t)),
      p'',
    )

-- The ticks until the last alarm.
abbrev pub total : List Event → ℕ
total [] = 0
total (e ∷ es) = e.dt + total es

total-insert_after :
    (n f tsum : ℕ) (es : List Event)
    → tsum ≤ n
    → tsum + total (insert_after n f tsum es) ≡ max n (tsum + total es)
unfolding insert_after shorten
total-insert_after n f tsum [] h = ground arith
total-insert_after n f tsum (e ∷ es) h = ground (arith, total-insert_after n f (tsum + e.dt) es)

total-remove_event : (f : ℕ) (es : List Event) → total (remove_event f es) ≤ total es
unfolding remove_event lengthen
total-remove_event f [] = omega arith
total-remove_event f (e ∷ []) = ground arith
total-remove_event f (e ∷ e' ∷ es) = ground (arith, total-remove_event f (e' ∷ es))

total-expire : (es : List Event) → total (expire es).1 ≤ total es
unfolding expire
total-expire [] = omega arith
total-expire (e ∷ es) = ground (arith, total-expire es)

total-insert_event : (n f : ℕ) (es : List Event) → total (insert_event n f es) ≡ max n (total es)
unfolding insert_event shorten
total-insert_event n f [] = omega arith
total-insert_event n f (e ∷ es) = ground (arith, total-insert_after n f e.dt es)

total-handle_events : (es : List Event) → total (handle_events es).1 ≤ total es
unfolding handle_events
total-handle_events [] = omega arith
total-handle_events (e ∷ es) = omega (arith, total-expire (record e { dt = e.dt - 1 } ∷ es))

-- The longest alarm: `2 ^ 32 - 1` milliseconds' worth of the product, over 1000.
abbrev pub max_ticks : ℕ
max_ticks = 4294967

-- Each operation keeps the ticks until the last alarm below `max_ticks`, so that none of the sums
-- `tsum + node->next->dt`, which are at most that, overflows an `int`.
pub total-le-max_ticks :
    (msec f : ℕ) (t : Timer) {t' : Timer}
    → total t.evlist ≤ max_ticks
    → set_alarm true msec f t ≡ some t'
    → (total t'.evlist ≤ max_ticks)
      × (total (cancel_alarm f t).evlist ≤ max_ticks)
      × (total (timer_handler t).1.evlist ≤ max_ticks)
unfolding set_alarm cancel_alarm timer_handler
total-le-max_ticks msec f t h e = (
  ground (arith, total-insert_event (msec_to_ticks msec) f t.evlist),
  omega (arith, total-remove_event f t.evlist),
  omega (arith, total-handle_events t.evlist),
)
