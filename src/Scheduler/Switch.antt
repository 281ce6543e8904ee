-- ===== src/Scheduler/Switch.antt =====
-- `context_switch` of src/kernel/Processes/Scheduling/scheduler.c: what it saves, loads and leaves alone.
use icarus.Prelude.{
  ℕ, ◌≡◌, ◌≢◌, refl, sym, ◌∙◌, arith, true, false, ◌==◌, if◌then◌else◌, List, [], ◌∷◌,
}
use icarus.Scheduler.{
  CpuRegs, thread_ready, thread_running, SchedulerState, is_ready, update, context_switch,
}
use icarus.Scheduler.Links.{SameLinks}

-- what the scheduler's list depends on
pub record Switched (s : SchedulerState) (next : ℕ) (s' : SchedulerState) : Type 0 where
  pub links : SameLinks s.tcbs s'.tcbs
  pub top : s'.top_tcb ≡ s.top_tcb
  pub last : s'.last_tcb ≡ s.last_tcb
  pub running : s'.running_tcb ≡ next
  pub priority : (a : ℕ) → (s'.tcbs a).active_priority ≡ (s.tcbs a).active_priority
  pub ready :
      (a : ℕ)
      → (next == a) ≡ false
      → is_ready (s.tcbs a).state ≡ true
      → is_ready (s'.tcbs a).state ≡ true

pub context_switch-Switched :
    (dummy_tcb : ℕ) (s : SchedulerState) (next : ℕ) (frame : CpuRegs)
    → Switched s next (context_switch dummy_tcb s next frame).0
unfolding context_switch update
context_switch-Switched dummy_tcb s next frame = record {
  links = λ a. (ground arith, ground arith);
  top = refl;
  last = refl;
  running = refl;
  priority = λ a. ground arith;
  ready = λ a ne r. ground arith;
}

-- A switch to another thread: the interrupted thread keeps the frame as its registers and is ready, unless it is the
-- dummy, whose state stays; the next thread runs, and its page table and registers are what is loaded; no other control
-- block changes.
pub context_switch_lem :
    (dummy_tcb : ℕ) (s : SchedulerState) (next : ℕ) (frame : CpuRegs)
    → s.running_tcb ≢ next
    → let (s', loaded) = context_switch dummy_tcb s next frame in
      let old = s.running_tcb in
      (loaded.registers ≡ (s.tcbs next).registers)
      × (loaded.page_table ≡ (s.tcbs next).page_table)
      × ((s'.tcbs old).registers ≡ frame)
      × ((s'.tcbs old).state ≡ (if old == dummy_tcb then (s.tcbs old).state else thread_ready))
      × (s'.tcbs next ≡ record (s.tcbs next) { state = thread_running })
      × (s'.running_tcb ≡ next)
      × ((a : ℕ) → a ≢ old → a ≢ next → s'.tcbs a ≡ s.tcbs a)
unfolding context_switch update
context_switch_lem dummy_tcb s next frame ne = (
  ground arith,
  ground arith,
  ground arith,
  ground arith,
  ground arith,
  refl,
  λ a p q. ground arith,
)

-- successive switches, each with its frame
unfoldable pub switches : (dummy_tcb : ℕ) → SchedulerState → List (ℕ × CpuRegs) → SchedulerState
unfolding context_switch
switches dummy_tcb s [] = s
switches dummy_tcb s ((next, frame) ∷ more) =
    switches dummy_tcb (context_switch dummy_tcb s next frame).0 more

abbrev pub NoneTo : ℕ → List (ℕ × CpuRegs) → Type 0
NoneTo a [] = Unit
NoneTo a ((next, frame) ∷ more) = (next ≢ a) × NoneTo a more

-- the parts that a resumed thread needs
switch_loads :
    (dummy_tcb : ℕ) (s : SchedulerState) (next : ℕ) (frame : CpuRegs)
    → s.running_tcb ≢ next
    → (context_switch dummy_tcb s next frame).1.registers ≡ (s.tcbs next).registers
unfolding context_switch update
switch_loads dummy_tcb s next frame ne = ground arith

switch_saves :
    (dummy_tcb : ℕ) (s : SchedulerState) (next : ℕ) (frame : CpuRegs)
    → s.running_tcb ≢ next
    → ((context_switch dummy_tcb s next frame).0.tcbs s.running_tcb).registers ≡ frame
unfolding context_switch update
switch_saves dummy_tcb s next frame ne = ground arith

switch_keeps :
    (dummy_tcb : ℕ) (s : SchedulerState) (next a : ℕ) (frame : CpuRegs)
    → s.running_tcb ≢ a
    → next ≢ a
    → ((context_switch dummy_tcb s next frame).0.tcbs a).registers ≡ (s.tcbs a).registers
unfolding context_switch update
switch_keeps dummy_tcb s next a frame ne ne' = ground arith

resumes :
    (dummy_tcb : ℕ) (s : SchedulerState) (a : ℕ) (kept frame : CpuRegs)
    (between : List (ℕ × CpuRegs))
    → (s.tcbs a).registers ≡ kept
    → s.running_tcb ≢ a
    → NoneTo a between
    → (context_switch dummy_tcb (switches dummy_tcb s between) a frame).1.registers ≡ kept
unfolding switches
resumes dummy_tcb s a kept frame [] saved ne none_to = switch_loads dummy_tcb s a frame ne ∙ saved
resumes dummy_tcb s a kept frame ((next, f) ∷ more) saved ne none_to =
    resumes dummy_tcb (context_switch dummy_tcb s next f).0 a kept frame more
      (switch_keeps dummy_tcb s next a f ne none_to.0 ∙ saved)
      (λ e. none_to.0 (sym (context_switch-Switched dummy_tcb s next f).running ∙ e)) none_to.1

-- A thread goes on where it was interrupted: after a switch away from it with some frame, any switches between other
-- threads, and a switch back, what is loaded is that frame.
pub context_switch_resumes :
    (dummy_tcb : ℕ) (s : SchedulerState) (next : ℕ) (interrupted frame : CpuRegs)
    (between : List (ℕ × CpuRegs))
    → next ≢ s.running_tcb
    → NoneTo s.running_tcb between
    → let away = (context_switch dummy_tcb s next interrupted).0 in
      (context_switch dummy_tcb (switches dummy_tcb away between) s.running_tcb frame).1.registers
      ≡ interrupted
context_switch_resumes dummy_tcb s next interrupted frame between ne none_to =
    resumes dummy_tcb (context_switch dummy_tcb s next interrupted).0 s.running_tcb interrupted
      frame between (switch_saves dummy_tcb s next interrupted (λ e. ne (sym e)))
      (λ e. ne (sym (context_switch-Switched dummy_tcb s next interrupted).running ∙ e)) none_to
