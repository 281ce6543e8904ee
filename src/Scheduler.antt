-- ===== src/Scheduler.antt =====
-- The scheduler of src/kernel/Processes/Scheduling/scheduler.c: control blocks at their addresses, linked both ways, and
-- the four globals. Of `tcb_t` it has the fields that the scheduler reads or writes. The two blocks of saved
-- registers, which it copies and never looks into, are one value each. Printing, the end-of-interrupt writes and `cli` are left out.
mod Links
mod Scan
mod Requeue
mod Choice
mod Picked
mod Switch
mod Fair
mod Lists
mod Exit
mod Tests
use icarus.Prelude.{
  ℕ, zero, suc, ◌+◌, ◌-◌, ◌%◌, ◌^◌, Bool, true, false, not, leb, ltb, ◌==◌, if◌then◌else◌, Option,
  none, some,
}

pub data ThreadState : Type 0 where
  thread_new thread_ready thread_running thread_waiting thread_terminated thread_denied :
      ThreadState

pub data InterruptSrc : Type 0 where
  int_tmr int_kbd int_gen : InterruptSrc

-- `cpu_regs`, as the two parts that a switch copies
pub record CpuRegs : Type 0 where
  pub gpo : ℕ
  pub psp : ℕ

pub record Tcb : Type 0 where
  pub registers : CpuRegs
  pub state : ThreadState
  pub priority : ℕ
  pub active_priority : ℕ
  pub page_table : ℕ
  pub next : Option ℕ
  pub prev : Option ℕ

abbrev pub Tcbs : Type 0
Tcbs = ℕ → Tcb

pub record SchedulerState : Type 0 where
  pub tcbs : Tcbs
  pub top_tcb : Option ℕ
  pub last_tcb : Option ℕ
  pub running_tcb : ℕ
  pub thread_count : ℕ

abbrev pub uint16_max : ℕ
uint16_max = 65535

unfoldable pub update : Tcbs → ℕ → Tcb → Tcbs
update t at v a = if at == a then v else t a

abbrev pub set_next : Tcbs → ℕ → Option ℕ → Tcbs
set_next t at n = update t at (record (t at) { next = n })

abbrev pub set_prev : Tcbs → ℕ → Option ℕ → Tcbs
set_prev t at p = update t at (record (t at) { prev = p })

abbrev pub is_ready : ThreadState → Bool
is_ready thread_ready = true
is_ready _ = false

-- also what `saturating_sub16` does for 1
abbrev pub saturating_dec16 : ℕ → ℕ
saturating_dec16 a = if leb 1 a then a - 1 else 0

abbrev pub lower : Tcb → Tcb
lower b = record b { active_priority = saturating_dec16 b.active_priority }

-- One round of the search: the control blocks, the best so far and its priority. Every ready thread
-- is lowered; it is the best from then on if its priority was below.
unfoldable pub look : Tcbs → (active best : ℕ) → (max_priority : ℕ) → Tcbs × ℕ × ℕ
unfolding update
look t active best max_priority =
    if not (is_ready (t active).state)
    then (t, best, max_priority)
    else if leb max_priority (t active).active_priority
    then (update t active (lower (t active)), best, max_priority)
    else (update t active (lower (t active)), active, (lower (t active)).active_priority)

-- The search; it ends at the end of the list, and within the fuel.
unfoldable pub search_from :
    (fuel : ℕ) → Tcbs → Option ℕ → (best max_priority : ℕ) → Option (Tcbs × ℕ × ℕ)
unfolding look
search_from fuel t none best max_priority = some (t, best, max_priority)
search_from zero t (some active) best max_priority = none
search_from (suc fuel) t (some active) best max_priority =
    let (t', best', max') = look t active best max_priority in
    search_from fuel t' (t' active).next best' max'

-- What choosing a thread ends in: a thread; the loop that waits for an interrupt; the use of a null pointer; or a list that
-- the fuel does not reach the end of.
pub data Pick : Type 0 where
  picked : ℕ → SchedulerState → Pick
  waits : SchedulerState → Pick
  null_used : Pick
  endless : Pick

-- `scheduler_pick_next_thread` and `scheduler_add_thread` put a thread behind the last in the same way.
abbrev pub append_behind : SchedulerState → Option ℕ → (tcb : ℕ) → Option SchedulerState
append_behind s none tcb = none
append_behind s (some last) tcb = some (record s {
  tcbs = set_next (set_prev (set_next s.tcbs last (some tcb)) tcb (some last)) tcb none;
  last_tcb = some tcb;
})

abbrev pub put_last : SchedulerState → (tcb : ℕ) → Pick
put_last s tcb = elim (append_behind s s.last_tcb tcb) [
  | none ↦ null_used
  | some s' ↦ picked tcb s'
]

-- the three places that the thread can have in the list
unfoldable pub requeue : SchedulerState → (tcb : ℕ) → (prev next : Option ℕ) → Pick
unfolding update
requeue s tcb none none = null_used
requeue s tcb none (some n) =
    put_last (record s { top_tcb = some n; tcbs = set_prev s.tcbs n none }) tcb
requeue s tcb (some p) none = picked tcb s
requeue s tcb (some p) (some n) =
    put_last (record s { tcbs = set_prev (set_next s.tcbs p (some n)) n (some p) }) tcb

-- no thread is ready: on a timer interrupt the last thread goes on
unfoldable pub fall_back : SchedulerState → InterruptSrc → Option ℕ → Pick
unfolding update
fall_back s int_tmr none = null_used
fall_back s int_tmr (some last) = picked last (record s {
  tcbs =
      update s.tcbs last
        (record (s.tcbs last) { active_priority = ((s.tcbs last).priority + 1) % 2 ^ 16 });
})
fall_back s _ last = waits s

abbrev pub chosen : Tcb → Tcb
chosen b = record b { active_priority = (b.priority + 1) % 2 ^ 16; state = thread_running }

-- the end of `scheduler_pick_next_thread`, after the search
unfoldable pub take_best : SchedulerState → InterruptSrc → (best max_priority : ℕ) → Pick
unfolding update requeue fall_back
take_best s src best max_priority =
    let t = update s.tcbs best (chosen (s.tcbs best)) in
    if max_priority == uint16_max
    then fall_back s src s.last_tcb
    else requeue (record s { tcbs = t }) best (t best).prev (t best).next

abbrev pub address : Option ℕ → ℕ
address none = 0
address (some a) = a

-- With no thread at all `best` is a null pointer, which is not used then; 0 stands for it.
unfoldable pub scheduler_pick_next_thread : (fuel : ℕ) → SchedulerState → InterruptSrc → Pick
unfolding search_from take_best
scheduler_pick_next_thread fuel s src =
    elim (search_from fuel s.tcbs s.top_tcb (address s.top_tcb) uint16_max) [
      | none ↦ endless
      | some (t, best, max_priority) ↦ take_best (record s { tcbs = t }) src best max_priority
    ]

-- what `write_cr3` and `_switch_threads` are called with
pub record Loaded : Type 0 where
  pub page_table : ℕ
  pub registers : CpuRegs

-- `context_switch`, for the address of the dummy thread
unfoldable pub context_switch :
    (dummy_tcb : ℕ) → SchedulerState → (next_tcb : ℕ) → (frame : CpuRegs) → SchedulerState × Loaded
unfolding update
context_switch dummy_tcb s next_tcb frame =
    let saved = update s.tcbs s.running_tcb (record (s.tcbs s.running_tcb) { registers = frame }) in
    let stopped =
      if s.running_tcb == dummy_tcb
      then saved
      else update saved s.running_tcb (record (saved s.running_tcb) { state = thread_ready }) in
    let t = update stopped next_tcb (record (stopped next_tcb) { state = thread_running }) in
    (
      record s { tcbs = t; running_tcb = next_tcb },
      record { page_table = (t next_tcb).page_table; registers = (t next_tcb).registers },
    )

-- the first list: the thread given, and the dummy, which is never ready
unfoldable pub scheduler_init : (dummy_tcb : ℕ) → SchedulerState → (tcb : ℕ) → SchedulerState
unfolding update
scheduler_init dummy_tcb s tcb =
    let denied = update s.tcbs dummy_tcb (record (s.tcbs dummy_tcb) {
      state = thread_denied;
      priority = 0;
      next = none;
      prev = some tcb;
    }) in
    let t =
      update denied tcb
        (record (denied tcb) { next = some dummy_tcb; prev = none; state = thread_ready }) in
    record s {
      tcbs = t;
      running_tcb = dummy_tcb;
      last_tcb = some dummy_tcb;
      top_tcb = some tcb;
      thread_count = (s.thread_count + 1) % 2 ^ 64;
    }

unfoldable pub scheduler_add_thread : SchedulerState → (tcb : ℕ) → Option SchedulerState
unfolding update
scheduler_add_thread s tcb = elim (append_behind s s.last_tcb tcb) [
  | none ↦ none
  | some s' ↦ some (record s' { thread_count = (s'.thread_count + 1) % 2 ^ 64 })
]

-- `schedule`: what it ends in if a thread is picked
unfoldable pub schedule :
    (fuel dummy_tcb : ℕ)
    → SchedulerState
    → (frame : CpuRegs) → InterruptSrc
    → Option (SchedulerState × Loaded)
unfolding scheduler_pick_next_thread context_switch
schedule fuel dummy_tcb s frame src = elim (scheduler_pick_next_thread fuel s src) [
  | picked next s' ↦ some (context_switch dummy_tcb s' next frame)
  | waits s' ↦ none
  | null_used ↦ none
  | endless ↦ none
]
