-- ===== src/Scheduler/Fair.antt =====
-- Repeated calls of `schedule` in src/kernel/Processes/Scheduling/scheduler.c: no ready thread waits for ever.
use icarus.Prelude.{
  mem, ℕ, suc, ◌+◌, ◌≤◌, ◌<◌, ◌≡◌, ◌≢◌, refl, sym, ap, ◌∙◌, ◌⊎◌, inl, inr, arith, Bool, true, false,
  ◌||◌, ◌==◌, if◌then◌else◌, List, [], ◌∷◌, ◌++◌, none, some, Bool-cases, ==_iff, length,
  length-append,
}
use icarus.Scheduler.{
  CpuRegs, ThreadState, Tcb, SchedulerState, InterruptSrc, is_ready, lower, saturating_dec16,
  uint16_max, Pick, picked, Loaded, context_switch, scheduler_pick_next_thread, schedule,
}
use icarus.Scheduler.Links.{or_false, ==_sym, IsList, Seg-same, mem-++}
use icarus.Scheduler.Scan.{decay}
use icarus.Scheduler.Requeue.{body}
use icarus.Scheduler.Picked.{Picks, scheduler_pick_next_thread-Picks}
use icarus.Scheduler.Switch.{Switched, context_switch-Switched}

-- the place of a thread in a list
unfoldable pub position : ℕ → List ℕ → ℕ
position d [] = 0
position d (x ∷ xs) = if d == x then 0 else suc (position d xs)

-- `d` is switched to by one of the interrupts, each with its frame
abbrev pub Runs : (fuel dummy_tcb d : ℕ) → List (CpuRegs × InterruptSrc) → SchedulerState → Type 0
Runs fuel dummy_tcb d [] s = ⊥
Runs fuel dummy_tcb d ((frame, src) ∷ more) s =
    (s' : SchedulerState) × (loaded : Loaded) × (schedule fuel dummy_tcb s frame src
      ≡ some (s', loaded))
    × ((s'.running_tcb ≡ d) ⊎ Runs fuel dummy_tcb d more s')

position-snoc : (d : ℕ) (ys : List ℕ) (c : ℕ) → position d (ys ++ c ∷ []) ≤ suc (position d ys)
unfolding position
position-snoc d [] c = ground arith
position-snoc d (y ∷ ys) c = ground (arith, position-snoc d ys c)

position-inside :
    (d : ℕ) (ys : List ℕ) (c : ℕ) → mem d ys ≡ true → position d (ys ++ c ∷ []) ≡ position d ys
unfolding position
position-inside d [] c inside = absurd (clash inside)
  where
    clash : false ≡ true → ⊥
    clash e = cc
position-inside d (y ∷ ys) c inside = elim (Bool-cases (d == y)) [
  | inl e ↦ rw e refl
  | inr e ↦ rw (e, position-inside d ys c (sym (rw e refl) ∙ inside)) refl
]

-- a thread that stays behind when another goes to the end comes no later, and sooner if the other stood before it
position-moved :
    (d : ℕ) (xs : List ℕ) (c : ℕ) (ys : List ℕ)
    → (d == c) ≡ false
    → position d ((xs ++ ys) ++ c ∷ []) ≤ position d (xs ++ c ∷ ys)
unfolding position
position-moved d [] c ys ne = rw ne (position-snoc d ys c)
position-moved d (x ∷ xs) c ys ne = ground (arith, position-moved d xs c ys ne)

position-closer :
    (d : ℕ) (xs : List ℕ) (c : ℕ) (ys : List ℕ)
    → (d == c) ≡ false
    → mem d xs ≡ false
    → mem d ys ≡ true
    → position d ((xs ++ ys) ++ c ∷ []) < position d (xs ++ c ∷ ys)
unfolding position
position-closer d [] c ys ne out inside = rw ne (omega (arith, position-inside d ys c inside))
position-closer d (x ∷ xs) c ys ne out inside =
    let (ne_x, out') = or_false (d == x) (mem d xs) out in
    rw ne_x (omega (arith, position-closer d xs c ys ne out' inside))

-- the same threads, in the new order
mem-moved :
    (d : ℕ) (xs : List ℕ) (c : ℕ) (ys : List ℕ)
    → (d == c) ≡ false
    → (mem d ((xs ++ ys) ++ c ∷ []) ≡ mem d xs || mem d ys)
      × (mem d (xs ++ c ∷ ys) ≡ mem d xs || mem d ys)
mem-moved d xs c ys ne = (
  rw (mem-++ d (xs ++ ys) (c ∷ []), mem-++ d xs ys, ne) (or_nothing (mem d xs || mem d ys)),
  rw (mem-++ d xs (c ∷ ys), ne) refl,
)
  where
    or_nothing : (b : Bool) → (b || (false || false)) ≡ b
    or_nothing true = refl
    or_nothing false = refl

length-moved :
    (xs : List ℕ) (c : ℕ) (ys : List ℕ) → length ((xs ++ ys) ++ c ∷ []) ≡ length (xs ++ c ∷ ys)
length-moved xs c ys =
    omega (arith, length-append (xs ++ ys) (c ∷ []), length-append xs ys, length-append xs (c ∷ ys))

-- a thread of the list that waits for its turn
record Waits (s : SchedulerState) (ids : List ℕ) (d : ℕ) : Type 0 where
  list : IsList s ids
  two : 2 ≤ length ids
  inside : mem d ids ≡ true
  was_ready : is_ready (s.tcbs d).state ≡ true
  below : (s.tcbs d).active_priority < uint16_max

abbrev turns : SchedulerState → List ℕ → ℕ → ℕ
turns s ids d = (s.tcbs d).active_priority + position d ids

-- the control block of a waiting thread after a pick
module _ (s : SchedulerState) (ids : List ℕ) (d : ℕ) (w : Waits s ids d) (out : Pick)
    (p : Picks s ids out) (ne : (d == p.preferred.tcb) ≡ false) where
  decayed : body (p.state.tcbs d) ≡ body (lower (s.tcbs d))
  decayed = p.decays d (differs ne) w.inside ∙ lowered (s.tcbs d) w.was_ready
    where
      differs : {a b : ℕ} → (a == b) ≡ false → a ≢ b
      differs ne = ground arith

      lowered : (b : Tcb) → is_ready b.state ≡ true → body (decay b) ≡ body (lower b)
      lowered b r = rw r refl

  abbrev moved : List ℕ
  moved = (p.preferred.before ++ p.preferred.after) ++ p.preferred.tcb ∷ []

  now_priority : (p.state.tcbs d).active_priority ≡ saturating_dec16 (s.tcbs d).active_priority
  now_priority = ap (λ (b : CpuRegs × ThreadState × ℕ × ℕ × ℕ). b.3) decayed

  in_parts : mem d p.preferred.before || mem d p.preferred.after ≡ true
  in_parts =
      let (_, parts) = mem-moved d p.preferred.before p.preferred.tcb p.preferred.after ne in
      sym parts ∙ ap (mem d) (sym p.preferred.parts) ∙ w.inside

  moved-Waits : Waits p.state moved d
  moved-Waits = record {
    list = p.list;
    two = omega (
      arith,
      w.two,
      length-moved p.preferred.before p.preferred.tcb p.preferred.after,
      ap length p.preferred.parts,
    );
    inside = (mem-moved d p.preferred.before p.preferred.tcb p.preferred.after ne).0 ∙ in_parts;
    was_ready = ap (λ (b : CpuRegs × ThreadState × ℕ × ℕ × ℕ). is_ready b.1) decayed ∙ w.was_ready;
    below = ground (arith, now_priority, w.below);
  }

  moved-turns : turns p.state moved d < turns s ids d
  moved-turns = elim (Bool-cases (mem d p.preferred.before)) [
    | inl e ↦
        let first = p.preferred.first d e w.was_ready in
        let no_later = position-moved d p.preferred.before p.preferred.tcb p.preferred.after ne in
        let same = ap (position d) p.preferred.parts in
        ground (arith, now_priority, first, no_later, same)
    | inr e ↦
        let inside : mem d p.preferred.after ≡ true = sym (rw e refl) ∙ in_parts in
        let closer =
          position-closer d p.preferred.before p.preferred.tcb p.preferred.after ne e inside in
        let same = ap (position d) p.preferred.parts in ground (arith, now_priority, closer, same)
  ]

Switched-Waits :
    (s s' : SchedulerState) (ids : List ℕ) (d next : ℕ)
    → Switched s next s'
    → (next == d) ≡ false
    → Waits s ids d
    → Waits s' ids d
Switched-Waits s s' ids d next c ne w = record {
  list = record {
    top = c.top ∙ w.list.top;
    last = c.last ∙ w.list.last;
    linked = Seg-same s.tcbs s'.tcbs none ids none c.links w.list.linked;
    distinct = w.list.distinct;
  };
  two = w.two;
  inside = w.inside;
  was_ready = c.ready d ne w.was_ready;
  below = omega (arith, c.priority d, w.below);
}

schedule-step :
    (fuel dummy_tcb : ℕ) (s : SchedulerState) (frame : CpuRegs) (src : InterruptSrc) (c : ℕ)
    (s' : SchedulerState)
    → scheduler_pick_next_thread fuel s src ≡ picked c s'
    → schedule fuel dummy_tcb s frame src ≡ some (context_switch dummy_tcb s' c frame)
unfolding schedule context_switch
schedule-step fuel dummy_tcb s frame src c s' e = rw (e, schedule) refl

Waits-Runs :
    (fuel dummy_tcb d : ℕ) (events : List (CpuRegs × InterruptSrc)) (s : SchedulerState)
    (ids : List ℕ)
    → Waits s ids d
    → length ids ≤ fuel
    → turns s ids d < length events
    → Runs fuel dummy_tcb d events s
Waits-Runs fuel dummy_tcb d [] s ids w enough lt = absurd (omega (arith, lt))
Waits-Runs fuel dummy_tcb d ((frame, src) ∷ more) s ids w enough lt =
    let p =
      scheduler_pick_next_thread-Picks s ids fuel src w.list enough w.two d w.inside w.was_ready
        w.below in
    let c : ℕ = p.preferred.tcb in
    let (s', loaded) = context_switch dummy_tcb p.state c frame in
    let switched = context_switch-Switched dummy_tcb p.state c frame in
    (
      s',
      loaded,
      schedule-step fuel dummy_tcb s frame src c p.state p.is_picked,
      elim (Bool-cases (d == c)) [
        | inl e ↦ inl (switched.running ∙ sym ((==_iff d c).0 e))
        | inr e ↦
            let ids' = moved s ids d w _ p e in
            let less = moved-turns s ids d w _ p e in
            inr (
              Waits-Runs fuel dummy_tcb d more s' ids'
                (Switched-Waits p.state s' ids' d c switched (==_sym d c e)
                  (moved-Waits s ids d w _ p e))
                (omega (
                  arith,
                  enough,
                  length-moved p.preferred.before c p.preferred.after,
                  ap length p.preferred.parts,
                ))
                (omega (arith, lt, less, switched.priority d)))
      ],
    )

-- No ready thread waits for ever. Let a thread of the list be ready, with an active priority below 65535, in a list of two threads at
-- least. Then it is switched to by one of the calls of `schedule`, if there are more of them than its active priority and
-- its place in the list add up to, whatever the interrupts and their frames, and if the fuel of each search is not below the length
-- of the list; none of these calls waits or uses a null pointer before.
pub schedule-Runs :
    (fuel dummy_tcb d : ℕ) (events : List (CpuRegs × InterruptSrc)) (s : SchedulerState)
    (ids : List ℕ)
    → IsList s ids
    → length ids ≤ fuel
    → 2 ≤ length ids
    → mem d ids ≡ true
    → is_ready (s.tcbs d).state ≡ true
    → (s.tcbs d).active_priority < uint16_max
    → (s.tcbs d).active_priority + position d ids < length events
    → Runs fuel dummy_tcb d events s
schedule-Runs fuel dummy_tcb d events s ids h enough two inside ready below lt =
    Waits-Runs fuel dummy_tcb d events s ids
      (record { list = h; two = two; inside = inside; was_ready = ready; below = below }) enough lt
