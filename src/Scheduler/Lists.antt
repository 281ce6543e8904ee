-- ===== src/Scheduler/Lists.antt =====
-- The list of src/kernel/Processes/Scheduling/scheduler.c when it is set up, when a thread is added, and when no thread of
-- it is ready.
use icarus.Prelude.{
  mem, ℕ, ◌+◌, ◌%◌, ◌^◌, ◌≤◌, ◌≡◌, ◌≢◌, refl, sym, ap, ◌∙◌, inl, inr, arith, true, false, List, [],
  ◌∷◌, ◌++◌, none, some, length,
}
use icarus.Scheduler.{
  Tcb, SchedulerState, InterruptSrc, int_tmr, thread_denied, thread_ready, is_ready, uint16_max,
  picked, update, search_from, take_best, fall_back, scheduler_pick_next_thread, scheduler_init,
  scheduler_add_thread, address, append_behind,
}
use icarus.Scheduler.Links.{last_or, IsList, Seg-same, update-at, mem-last}
use icarus.Scheduler.Scan.{decay, search_from-choose}
use icarus.Scheduler.Requeue.{body, append_behind-Relinked}
use icarus.Scheduler.Choice.{choose-Preferred}
use icarus.Scheduler.Picked.{pick-step, Decayed-links, update-links, mem-middle}

-- `scheduler_init` for a thread other than the dummy makes the list of the two; the thread is ready, the dummy denied, and it is the
-- running one.
pub scheduler_init-IsList :
    (dummy_tcb : ℕ) (s : SchedulerState) (tcb : ℕ)
    → tcb ≢ dummy_tcb
    → let s' = scheduler_init dummy_tcb s tcb in
      IsList s' (tcb ∷ dummy_tcb ∷ [])
      × ((s'.tcbs tcb).state ≡ thread_ready)
      × ((s'.tcbs dummy_tcb).state ≡ thread_denied)
      × (s'.running_tcb ≡ dummy_tcb)
unfolding scheduler_init update
scheduler_init-IsList dummy_tcb s tcb ne = (
  record {
    top = refl;
    last = refl;
    linked = (ground arith, ground arith, (ground arith, ground arith, tt));
    distinct = (ground arith, (refl, tt));
  },
  ground arith,
  ground arith,
  refl,
)

-- what adding a thread does
pub record Added (s : SchedulerState) (ids : List ℕ) (tcb : ℕ) : Type 0 where
  pub state : SchedulerState
  pub is_added : scheduler_add_thread s tcb ≡ some state
  pub list : IsList state (ids ++ tcb ∷ [])
  pub body : (a : ℕ) → body (state.tcbs a) ≡ body (s.tcbs a)
  pub running : state.running_tcb ≡ s.running_tcb
  pub count : state.thread_count ≡ (s.thread_count + 1) % 2 ^ 64

add-step :
    (s : SchedulerState) (tcb : ℕ) (s' : SchedulerState)
    → append_behind s s.last_tcb tcb ≡ some s'
    → scheduler_add_thread s tcb
      ≡ some (record s' { thread_count = (s'.thread_count + 1) % 2 ^ 64 })
unfolding scheduler_add_thread
add-step s tcb s' e = rw (e, scheduler_add_thread) refl

-- A thread that is not in the list, which has a last thread, is added behind it. No null pointer is used; apart from links,
-- the control blocks stay as they are, so the thread keeps the state that it has; and the count goes up by one, modulo 2^64.
pub scheduler_add_thread-Added :
    (s : SchedulerState) (ids : List ℕ) (last tcb : ℕ)
    → IsList s ids
    → last_or none ids ≡ some last
    → mem tcb ids ≡ false
    → Added s ids tcb
scheduler_add_thread-Added s ids last tcb h is_last out =
    let (s', e, r) = append_behind-Relinked s ids last tcb h is_last out in
    record {
      state = record s' { thread_count = (s'.thread_count + 1) % 2 ^ 64 };
      is_added = add-step s tcb s' e;
      list = record {
        top = r.list.top;
        last = r.list.last;
        linked = r.list.linked;
        distinct = r.list.distinct;
      };
      body = r.body;
      running = r.running;
      count = ap (λ n. (n + 1) % 2 ^ 64) r.count;
    }

take-fall_back :
    (s : SchedulerState) (src : InterruptSrc) (best : ℕ)
    → take_best s src best uint16_max ≡ fall_back s src s.last_tcb
unfolding take_best
take-fall_back s src best = refl

fall_back-last :
    (s : SchedulerState) (l : ℕ)
    → s.last_tcb ≡ some l
    → fall_back s int_tmr s.last_tcb ≡ fall_back s int_tmr (some l)
fall_back-last s l e = rw e refl

-- If no thread of the list is ready, a timer interrupt picks the last one, whatever its state is; it keeps
-- that state. The fuel is not below the length of the list.
pub scheduler_pick_next_thread-last :
    (s : SchedulerState) (ids : List ℕ) (fuel l : ℕ)
    → IsList s ids
    → length ids ≤ fuel
    → last_or none ids ≡ some l
    → ((a : ℕ) → mem a ids ≡ true → is_ready (s.tcbs a).state ≡ false)
    → (s' : SchedulerState) × (scheduler_pick_next_thread fuel s int_tmr ≡ picked l s')
      × ((s'.tcbs l).state ≡ (s.tcbs l).state)
      × IsList s' ids
unfolding fall_back
scheduler_pick_next_thread-last s ids fuel l h enough is_last none_ready =
    let (t, found, d) =
      search_from-choose ids fuel s.tcbs none (address s.top_tcb) uint16_max enough h.distinct
        h.linked in
    let found' = ap (λ n. search_from fuel s.tcbs n (address s.top_tcb) uint16_max) h.top ∙ found in
    elim (choose-Preferred s.tcbs ids (address s.top_tcb) uint16_max) [
      | inr p ↦ absurd (
          clash
            (sym (none_ready p.tcb (rw p.parts (mem-middle p.before p.tcb p.after))) ∙ p.was_ready))
      | inl kept ↦
          let found'' = found' ∙ ap (λ (q : ℕ × ℕ). some (t, q.0, q.1)) kept.0 in
          let v : Tcb = record (t l) { active_priority = ((t l).priority + 1) % 2 ^ 16 } in
          (
            record s { tcbs = update t l v },
            pick-step fuel s int_tmr t (address s.top_tcb) uint16_max found''
                ∙ take-fall_back (record s { tcbs = t }) int_tmr (address s.top_tcb)
                ∙ fall_back-last (record s { tcbs = t }) l (h.last ∙ is_last),
            ap (λ (b : Tcb). b.state) (update-at t l v)
                ∙ ap (λ (b : Tcb). b.state) (d.inside l (mem_last ids is_last))
                ∙ idle (s.tcbs l) (none_ready l (mem_last ids is_last)),
            record {
              top = h.top;
              last = h.last;
              linked =
                  Seg-same t (update t l v) none ids none (update-links t l v refl refl)
                    (Seg-same s.tcbs t none ids none (Decayed-links s.tcbs ids t d) h.linked);
              distinct = h.distinct;
            },
          )
    ]
  where
    clash : false ≡ true → ⊥
    clash e = cc

    idle : (b : Tcb) → is_ready b.state ≡ false → (decay b).state ≡ b.state
    idle b e = rw e refl

    mem_last : (ids : List ℕ) → last_or none ids ≡ some l → mem l ids ≡ true
    mem_last [] e = absurd (none_is_some e)
      where
        none_is_some : {a : ℕ} → none ≡ some a → ⊥
        none_is_some e = cc
    mem_last (x ∷ xs) e = mem-last none x xs l e
