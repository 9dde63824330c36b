-- ===== src/Timer/Refine.antt =====
-- The delta list of timer.c against the absolute times of `Queue`.
use pcboot.Prelude.{
  ℕ, suc, ◌+◌, ◌-◌, ◌≤◌, ◌<◌, ◌≡◌, refl, ap, ◌∙◌, true, List, [], ◌∷◌, some, leb, if◌then◌else◌,
  arith, Bool-cases, inl, inr,
}
use pcboot.Timer.{
  Event, Timer, msec_to_ticks, insert_after, insert_event, set_alarm, lengthen, remove_event,
  cancel_alarm, expire, handle_events, timer_handler, run,
}
use pcboot.Timer.Queue
use pcboot.Timer.Queue.{Due, elapse, expired, insert_before, Op, alarm, cancel_of, tick}

-- The absolute times of the events behind the time `t`.
abbrev pub due : ℕ → List Event → Due
due t [] = []
due t (e ∷ es) = (t + e.dt, e.func) ∷ due (t + e.dt) es

abbrev pub alarms : Timer → Due
alarms t = due 0 t.evlist

-- Between two ticks the first event has at least one tick left.
abbrev pub Pending : List Event → Type 0
Pending [] = Unit
Pending (e ∷ es) = 0 < e.dt

abbrev pub IsPending : Timer → Type 0
IsPending t = Pending t.evlist

due-start : {s t : ℕ} (es : List Event) → s ≡ t → due s es ≡ due t es
due-start es e = ap (λ k. due k es) e

due-insert_after :
    (ticks f tsum : ℕ) (es : List Event)
    → tsum ≤ ticks
    → due tsum (insert_after ticks f tsum es) ≡ insert_before ticks f (due tsum es)
unfolding insert_after insert_before
due-insert_after ticks f tsum [] h = ground arith
due-insert_after ticks f tsum (e ∷ es) h = ground (
  arith,
  due-insert_after ticks f (tsum + e.dt) es,
  due-start {s = tsum + (ticks - tsum) + (e.dt - (ticks - tsum))} {t = tsum + e.dt} es,
)

due-insert_event :
    (ticks f : ℕ) (es : List Event)
    → due 0 (insert_event ticks f es) ≡ Queue.insert ticks f (due 0 es)
unfolding insert_event Queue.insert
due-insert_event ticks f [] = ground arith
due-insert_event ticks f (e ∷ es) = ground (
  arith,
  due-insert_after ticks f e.dt es,
  due-start {s = 0 + e.dt} {t = e.dt} es,
  due-start {s = 0 + ticks + (e.dt - ticks)} {t = e.dt} es,
)

due-lengthen : (n t : ℕ) (es : List Event) → due t (lengthen n es) ≡ due (t + n) es
unfolding lengthen
due-lengthen n t [] = refl
due-lengthen n t (e ∷ es) = ground (arith, due-start {s = t + (e.dt + n)} {t = t + n + e.dt} es)

due-remove_event :
    (f t : ℕ) (es : List Event) → due t (remove_event f es) ≡ Queue.cancel f (due t es)
unfolding remove_event Queue.cancel
due-remove_event f t [] = refl
due-remove_event f t (e ∷ es) =
    ground (arith, due-lengthen e.dt t es, due-remove_event f (t + e.dt) es)

-- Behind the time `n` nothing is due within `n` ticks.
pub elapse-later : (n t : ℕ) (es : List Event) → n < t → elapse n (due t es) ≡ due (t - n) es
unfolding elapse
elapse-later n t [] h = refl
elapse-later n t (e ∷ es) h =
    ground (arith, elapse-later n (t + e.dt) es, due-start {s = t + e.dt - n} {t = t - n + e.dt} es)

pub expired-later : (n t : ℕ) (es : List Event) → n < t → expired n (due t es) ≡ []
unfolding expired
expired-later n t [] h = refl
expired-later n t (e ∷ es) h = ground (arith, expired-later n (t + e.dt) es)

elapse-shift : (n t : ℕ) (es : List Event) → elapse (suc n) (due (suc t) es) ≡ elapse n (due t es)
unfolding elapse
elapse-shift n t [] = refl
elapse-shift n t (e ∷ es) =
    ground
      (arith, elapse-shift n (t + e.dt) es, due-start {s = suc t + e.dt} {t = suc (t + e.dt)} es)

expired-shift :
    (n t : ℕ) (es : List Event) → expired (suc n) (due (suc t) es) ≡ expired n (due t es)
unfolding expired
expired-shift n t [] = refl
expired-shift n t (e ∷ es) =
    ground
      (arith, expired-shift n (t + e.dt) es, due-start {s = suc t + e.dt} {t = suc (t + e.dt)} es)

expire-due : (es : List Event) → due 0 (expire es).1 ≡ elapse 0 (due 0 es)
unfolding expire elapse
expire-due [] = refl
expire-due (e ∷ es) = ground (
  arith,
  expire-due es,
  elapse-later 0 (0 + e.dt) es,
  due-start {s = 0 + e.dt} {t = 0} es,
  due-start {s = 0 + e.dt - 0} {t = 0 + e.dt} es,
)

expire-called : (es : List Event) → (expire es).0 ≡ expired 0 (due 0 es)
unfolding expire expired
expire-called [] = refl
expire-called (e ∷ es) =
    ground
      (arith, expire-called es, expired-later 0 (0 + e.dt) es, due-start {s = 0 + e.dt} {t = 0} es)

expire-Pending : (es : List Event) → Pending (expire es).1
unfolding expire
expire-Pending [] = tt
expire-Pending (e ∷ es) = ground (arith, expire-Pending es)

handle_events-due :
    (es : List Event) → Pending es → due 0 (handle_events es).1 ≡ elapse 1 (due 0 es)
unfolding handle_events elapse
handle_events-due [] p = refl
handle_events-due (e ∷ es) p = ground (
  arith,
  expire-due (record e { dt = e.dt - 1 } ∷ es),
  elapse-shift 0 (e.dt - 1) es,
  due-start {s = 0 + (e.dt - 1)} {t = e.dt - 1} es,
  due-start {s = 0 + e.dt} {t = suc (e.dt - 1)} es,
)

handle_events-called : (es : List Event) → Pending es → (handle_events es).0 ≡ expired 1 (due 0 es)
unfolding handle_events expired
handle_events-called [] p = refl
handle_events-called (e ∷ es) p = ground (
  arith,
  expire-called (record e { dt = e.dt - 1 } ∷ es),
  expired-shift 0 (e.dt - 1) es,
  due-start {s = 0 + (e.dt - 1)} {t = e.dt - 1} es,
  due-start {s = 0 + e.dt} {t = suc (e.dt - 1)} es,
)

handle_events-Pending : (es : List Event) → Pending (handle_events es).1
unfolding handle_events
handle_events-Pending [] = tt
handle_events-Pending (e ∷ es) = expire-Pending (record e { dt = e.dt - 1 } ∷ es)

insert_event-Pending :
    (ticks f : ℕ) (es : List Event) → 0 < ticks → Pending es → Pending (insert_event ticks f es)
unfolding insert_event
insert_event-Pending ticks f [] h p = h
insert_event-Pending ticks f (e ∷ es) h p = ground arith

remove_event-Pending : (f : ℕ) (es : List Event) → Pending es → Pending (remove_event f es)
unfolding remove_event lengthen
remove_event-Pending f [] p = tt
remove_event-Pending f (e ∷ []) p = ground arith
remove_event-Pending f (e ∷ e' ∷ es) p = ground arith

-- `set_alarm`, where `malloc` gives a node, puts an alarm of `msec_to_ticks msec` ticks among the
-- others in the order of time, and none if that is 0. The times of the other alarms, the tick
-- counter and the interrupt flag stay, and the first event has a tick left.
pub set_alarm_refines :
    (msec f : ℕ) (t : Timer)
    → IsPending t
    → (t' : Timer) × (set_alarm true msec f t ≡ some t')
      × (alarms t' ≡ (
          if leb (msec_to_ticks msec) 0
          then alarms t
          else Queue.insert (msec_to_ticks msec) f (alarms t)))
      × (t'.nticks ≡ t.nticks)
      × (t'.enabled ≡ t.enabled)
      × IsPending t'
unfolding set_alarm
set_alarm_refines msec f t p = elim (Bool-cases (leb (msec_to_ticks msec) 0)) [
  | inl none_left ↦ (t, rw none_left, rw none_left, refl, refl, p)
  | inr some_left ↦ (
    record t { evlist = insert_event (msec_to_ticks msec) f t.evlist },
    rw some_left,
    rw some_left (due-insert_event (msec_to_ticks msec) f t.evlist),
    refl,
    refl,
    insert_event-Pending (msec_to_ticks msec) f t.evlist (ground arith) p,
  )
]

-- `cancel_alarm` drops the first alarm with the function, and the times of the others stay.
pub cancel_alarm_refines :
    (f : ℕ) (t : Timer)
    → IsPending t
    → (alarms (cancel_alarm f t) ≡ Queue.cancel f (alarms t)) × IsPending (cancel_alarm f t)
unfolding cancel_alarm
cancel_alarm_refines f t p = (due-remove_event f 0 t.evlist, remove_event-Pending f t.evlist p)

-- A tick calls what is due at it, in order, and brings the other alarms one tick nearer.
pub timer_handler_refines :
    (t : Timer)
    → IsPending t
    → ((timer_handler t).0 ≡ expired 1 (alarms t))
      × (alarms (timer_handler t).1 ≡ elapse 1 (alarms t))
      × IsPending (timer_handler t).1
unfolding timer_handler
timer_handler_refines t p =
    (handle_events-called t.evlist p, handle_events-due t.evlist p, handle_events-Pending t.evlist)

-- The operations as `Queue` has them, in ticks.
abbrev pub in_ticks : List Op → List Op
in_ticks [] = []
in_ticks (alarm msec f ∷ ops) = alarm (msec_to_ticks msec) f ∷ in_ticks ops
in_ticks (cancel_of f ∷ ops) = cancel_of f ∷ in_ticks ops
in_ticks (tick ∷ ops) = tick ∷ in_ticks ops

-- No sequence of calls and ticks tells the delta list from the queue of absolute times: each calls
-- the same functions at the same ticks in the same order, while `malloc` gives nodes.
pub run_refines :
    (ops : List Op) (t : Timer) → IsPending t → run t ops ≡ Queue.run (alarms t) (in_ticks ops)
unfolding run Queue.run
run_refines [] t p = refl
run_refines (alarm msec f ∷ ops) t p =
    let (t', set, at, n, i, p') = set_alarm_refines msec f t p in
    rw (set, run)
      (ap (λ l. [] ∷ l) (run_refines ops t' p' ∙ ap (λ q. Queue.run q (in_ticks ops)) at))
run_refines (cancel_of f ∷ ops) t p =
    let (at, p') = cancel_alarm_refines f t p in
    ap (λ l. [] ∷ l)
      (run_refines ops (cancel_alarm f t) p' ∙ ap (λ q. Queue.run q (in_ticks ops)) at)
run_refines (tick ∷ ops) t p =
    let (called, at, p') = timer_handler_refines t p in
    rw (run_refines ops (timer_handler t).1 p', called, at)
