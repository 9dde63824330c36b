-- ===== src/Timer.antt =====
-- src/timer.c: the system tick and the alarms that hang on it.
-- A `struct timer_event` holds the ticks from the event before it, `evlist` is the list from the
-- first event on, and a function pointer is a number. Every subtraction on `dt` stands behind a test
-- that keeps it from going below 0, except for `evlist->dt--` at 0, where the event is dropped at
-- once, as it is at 0. `enabled` is the interrupt flag of the processor.
pub mod Queue
pub mod Refine
pub mod Bounds
mod Tests
use pcboot.Prelude.{
  ℕ, zero, suc, ◌+◌, ◌-◌, ◌*◌, ◌/◌, ◌%◌, ◌^◌, Bool, true, false, List, [], ◌∷◌, Option, none, some,
  ltb, leb, ◌==◌, if◌then◌else◌, bit_and,
}
use Queue.{Op, alarm, cancel_of, tick}

pub record Event : Type 0 where
  pub dt : ℕ
  pub func : ℕ

pub record Timer : Type 0 where
  pub nticks : ℕ
  pub evlist : List Event
  pub enabled : Bool

abbrev pub tick_freq_hz : ℕ
tick_freq_hz = 250

abbrev osc_freq_hz : ℕ
osc_freq_hz = 1193182

abbrev div_round : ℕ → ℕ → ℕ
div_round a b = a / b + a % b / (b / 2)

-- `unsigned long` arithmetic wraps at 32 bits.
abbrev pub msec_to_ticks : ℕ → ℕ
msec_to_ticks ms = ms * tick_freq_hz % 2 ^ 32 / 1000

-- The bytes that `init_timer` writes, each with its port: the command, then the reload count.
pub init_timer : List (ℕ × ℕ)
init_timer =
    let reload_count = div_round osc_freq_hz tick_freq_hz in
    (0x36, 0x43)
    ∷ (bit_and reload_count 0xff, 0x40)
    ∷ (bit_and (reload_count / 2 ^ 8) 0xff, 0x40)
    ∷ []

-- The first event gives the ticks of one that is put before it back.
shorten : ℕ → List Event → List Event
shorten n [] = []
shorten n (e ∷ es) = record e { dt = e.dt - n } ∷ es

-- The walk of `set_alarm` behind a node at the time `tsum`, and the link and the fix-up that follow.
insert_after : ℕ → ℕ → ℕ → List Event → List Event
unfolding shorten
insert_after ticks func tsum [] = record { dt = ticks - tsum; func = func } ∷ []
insert_after ticks func tsum (next ∷ es) =
    if ltb (tsum + next.dt) ticks
    then next ∷ insert_after ticks func (tsum + next.dt) es
    else record { dt = ticks - tsum; func = func } ∷ shorten (ticks - tsum) (next ∷ es)

insert_event : ℕ → ℕ → List Event → List Event
unfolding shorten insert_after
insert_event ticks func [] = record { dt = ticks; func = func } ∷ []
insert_event ticks func (e ∷ es) =
    if ltb ticks e.dt
    then record { dt = ticks; func = func } ∷ shorten ticks (e ∷ es)
    else e ∷ insert_after ticks func e.dt es

-- `allocated` says whether `malloc` gave a node; without one the kernel panics, which is `none`.
pub set_alarm : (allocated : Bool) → ℕ → ℕ → Timer → Option Timer
unfolding insert_event
set_alarm allocated msec func t =
    let ticks = msec_to_ticks msec in
    if leb ticks 0
    then some t
    else if allocated
    then (let iflag = t.enabled in
        let off = record t { enabled = false } in
        let put = record off { evlist = insert_event ticks func t.evlist } in
        some (record put { enabled = iflag }))
    else none

-- The ticks of a cancelled event go to the one behind it.
lengthen : ℕ → List Event → List Event
lengthen n [] = []
lengthen n (e ∷ es) = record e { dt = e.dt + n } ∷ es

remove_event : ℕ → List Event → List Event
unfolding lengthen
remove_event func [] = []
remove_event func (ev ∷ es) =
    if ev.func == func then lengthen ev.dt es else ev ∷ remove_event func es

pub cancel_alarm : ℕ → Timer → Timer
unfolding remove_event
cancel_alarm func t =
    let iflag = t.enabled in
    let off = record t { enabled = false } in
    let cut = record off { evlist = remove_event func t.evlist } in record cut { enabled = iflag }

-- The loop of `timer_handler`: the functions that it calls, in order, and the events that stay.
expire : List Event → List ℕ × List Event
expire [] = ([], [])
expire (ev ∷ es) =
    let rest = expire es in if leb ev.dt 0 then (ev.func ∷ rest.0, rest.1) else ([], ev ∷ es)

handle_events : List Event → List ℕ × List Event
unfolding expire
handle_events [] = ([], [])
handle_events (ev ∷ es) = expire (record ev { dt = ev.dt - 1 } ∷ es)

-- The functions that are called do not use the alarms.
pub timer_handler : Timer → List ℕ × Timer
unfolding handle_events
timer_handler t =
    let (called, left) = handle_events t.evlist in
    (called, record t { nticks = (t.nticks + 1) % 2 ^ 32; evlist = left })

-- A sequence of calls, with the functions that each calls. It stops at a panic. An `alarm` gives
-- milliseconds here.
pub run : Timer → List Op → List (List ℕ)
run t [] = []
run t (alarm msec func ∷ ops) = elim (set_alarm true msec func t) [
  | none ↦ []
  | some t' ↦ [] ∷ run t' ops
]
run t (cancel_of func ∷ ops) = [] ∷ run (cancel_alarm func t) ops
run t (tick ∷ ops) = let (called, t') = timer_handler t in called ∷ run t' ops
