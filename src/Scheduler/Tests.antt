-- ===== src/Scheduler/Tests.antt =====
-- Witnesses for src/kernel/Processes/Scheduling/scheduler.c: the list that `scheduler_init` sets up, with the dummy at address 1 and
-- a thread at address 2.
use icarus.Prelude.{ℕ, ◌≡◌, refl, arith, none, some, List, [], ◌∷◌, ◌==◌, if◌then◌else◌}
use icarus.Scheduler.{
  CpuRegs, Tcb, SchedulerState, InterruptSrc, int_tmr, int_kbd, thread_new, thread_running, picked,
  update, scheduler_init, scheduler_pick_next_thread, context_switch,
}
use icarus.Scheduler.Exit.{thread_exit, thread_exit-ExitOf}
use icarus.Scheduler.Links.{IsList}
use icarus.Scheduler.Switch.{switches, context_switch_resumes}
use icarus.Scheduler.Fair.{Runs, position, schedule-Runs}
use icarus.Scheduler.Lists.{
  Added, scheduler_init-IsList, scheduler_add_thread-Added, scheduler_pick_next_thread-last,
}

abbrev zero_regs : CpuRegs
zero_regs = record { gpo = 0; psp = 0 }

abbrev new_tcb : Tcb
new_tcb = record {
  registers = zero_regs;
  state = thread_new;
  priority = 4;
  active_priority = 4;
  page_table = 0;
  next = none;
  prev = none;
}

abbrev at_start : SchedulerState
at_start = record {
  tcbs = λ a. new_tcb;
  top_tcb = none;
  last_tcb = none;
  running_tcb = 0;
  thread_count = 0;
}

abbrev initial : SchedulerState
initial = scheduler_init 1 at_start 2

initial-IsList : IsList initial (2 ∷ 1 ∷ [])
initial-IsList = (scheduler_init-IsList 1 at_start 2 (omega arith)).0

-- five interrupts: 4 for the priority, 0 for the place, and one more
abbrev five : List (CpuRegs × InterruptSrc)
five =
    (zero_regs, int_tmr)
    ∷ (zero_regs, int_kbd)
    ∷ (zero_regs, int_tmr)
    ∷ (zero_regs, int_tmr)
    ∷ (zero_regs, int_tmr)
    ∷ []

schedule-Runs_example : Runs 2 1 2 five initial
unfolding scheduler_init update position
schedule-Runs_example =
    schedule-Runs 2 1 2 five initial (2 ∷ 1 ∷ []) initial-IsList (omega arith) (omega arith) refl
      refl (omega arith) (omega arith)

abbrev regs : ℕ → CpuRegs
regs n = record { gpo = n; psp = n }

context_switch_resumes_example :
    let away = (context_switch 1 initial 2 (regs 7)).0 in
    (context_switch 1 (switches 1 away ((3, regs 8) ∷ (2, regs 9) ∷ [])) 1 (regs 5)).1.registers
    ≡ regs 7
unfolding scheduler_init
context_switch_resumes_example =
    context_switch_resumes 1 initial 2 (regs 7) (regs 5) ((3, regs 8) ∷ (2, regs 9) ∷ [])
      (omega arith) (omega arith, (omega arith, tt))

scheduler_add_thread-Added_example : Added initial (2 ∷ 1 ∷ []) 3
scheduler_add_thread-Added_example =
    scheduler_add_thread-Added initial (2 ∷ 1 ∷ []) 1 3 initial-IsList refl refl

-- a list whose only thread runs, and a new thread that has no memory yet
abbrev new_last : SchedulerState
new_last = record {
  tcbs = λ a.
      if a == 1
      then record new_tcb { state = thread_running; next = some 2 }
      else if a == 2
      then record new_tcb { prev = some 1 }
      else new_tcb;
  top_tcb = some 1;
  last_tcb = some 2;
  running_tcb = 1;
  thread_count = 2;
}

scheduler_pick_next_thread-last_example :
    (s' : SchedulerState) × (scheduler_pick_next_thread 2 new_last int_tmr ≡ picked 2 s')
    × ((s'.tcbs 2).state ≡ thread_new)
    × IsList s' (1 ∷ 2 ∷ [])
scheduler_pick_next_thread-last_example =
    scheduler_pick_next_thread-last new_last (1 ∷ 2 ∷ []) 2 2
      (record {
        top = refl;
        last = refl;
        linked = (refl, refl, (refl, refl, tt));
        distinct = (refl, (refl, tt));
      })
      (omega arith) refl (λ a inside. ground arith)

abbrev three_threads : SchedulerState
three_threads = record {
  tcbs = λ a.
      if a == 1
      then record new_tcb { state = thread_running; next = some 2 }
      else if a == 2
      then record new_tcb { prev = some 1; next = some 3 }
      else record new_tcb { prev = some 2 };
  top_tcb = some 1;
  last_tcb = some 3;
  running_tcb = 1;
  thread_count = 3;
}

thread_exit-ExitOf_example :
    (s' : SchedulerState) × (thread_exit three_threads 2 ≡ some s')
    × IsList s' (1 ∷ 3 ∷ [])
    × (s'.thread_count ≡ 3)
thread_exit-ExitOf_example = thread_exit-ExitOf three_threads (1 ∷ []) 2 (3 ∷ []) (record {
  top = refl;
  last = refl;
  linked = (refl, refl, (refl, refl, (refl, refl, tt)));
  distinct = (refl, (refl, (refl, tt)));
})
