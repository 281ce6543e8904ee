-- ===== src/Scheduler/Picked.antt =====
-- The whole of `scheduler_pick_next_thread` in src/kernel/Processes/Scheduling/scheduler.c, beside what it means on the list.
use icarus.Prelude.{
  mem, ℕ, ◌≤◌, ◌<◌, ◌≡◌, ◌≢◌, refl, sym, ap, ◌∙◌, inl, inr, arith, true, false, ◌==◌, List, [], ◌∷◌,
  ◌++◌, none, some, Bool-cases, ==_iff, length,
}
use mathlib.Core.Path.{subst}
use icarus.Scheduler.{
  Tcb, Tcbs, SchedulerState, InterruptSrc, is_ready, uint16_max, chosen, update, Pick, picked,
  search_from, take_best, requeue, address, scheduler_pick_next_thread,
}
use icarus.Scheduler.Links.{
  last_or, IsList, SameLinks, Seg-same, update-at, update-other, mem-apart,
}
use icarus.Scheduler.Scan.{decay, Decayed, search_from-choose, decay-links}
use icarus.Scheduler.Requeue.{body, requeue-Relinked, last_or-some}
use icarus.Scheduler.Choice.{Preferred, choose-Preferred}

-- A thread that is preferred is picked and moved to the end of the list. It runs, with its own priority and one
-- more; the other threads of the list decay; nothing else changes.
pub record Picks (s : SchedulerState) (ids : List ℕ) (out : Pick) : Type 0 where
  pub state : SchedulerState
  pub best : ℕ × ℕ
  pub preferred : Preferred s.tcbs ids uint16_max best
  pub is_picked : out ≡ picked preferred.tcb state
  pub list : IsList state ((preferred.before ++ preferred.after) ++ preferred.tcb ∷ [])
  pub runs : body (state.tcbs preferred.tcb) ≡ body (chosen (s.tcbs preferred.tcb))
  pub decays :
      (a : ℕ) → a ≢ preferred.tcb → mem a ids ≡ true → body (state.tcbs a) ≡ body (decay (s.tcbs a))
  pub others : (a : ℕ) → mem a ids ≡ false → body (state.tcbs a) ≡ body (s.tcbs a)
  pub running : state.running_tcb ≡ s.running_tcb
  pub count : state.thread_count ≡ s.thread_count

pub pick-step :
    (fuel : ℕ) (s : SchedulerState) (src : InterruptSrc) (t : Tcbs) (best m : ℕ)
    → search_from fuel s.tcbs s.top_tcb (address s.top_tcb) uint16_max ≡ some (t, best, m)
    → scheduler_pick_next_thread fuel s src ≡ take_best (record s { tcbs = t }) src best m
unfolding scheduler_pick_next_thread
pick-step fuel s src t best m e = rw (e, scheduler_pick_next_thread) refl

take-step :
    (s : SchedulerState) (src : InterruptSrc) (best m : ℕ)
    → (m == uint16_max) ≡ false
    → let t = update s.tcbs best (chosen (s.tcbs best)) in
      take_best s src best m ≡ requeue (record s { tcbs = t }) best (t best).prev (t best).next
unfolding take_best
take-step s src best m e = rw e refl

pub Decayed-links : (t : Tcbs) (ids : List ℕ) (t' : Tcbs) → Decayed t ids t' → SameLinks t t'
Decayed-links t ids t' d a = elim (Bool-cases (mem a ids)) [
  | inl e ↦ rw (d.inside a e) (decay-links (t a))
  | inr e ↦ rw (d.outside a e) (refl, refl)
]

pub update-links :
    (t : Tcbs) (at : ℕ) (v : Tcb)
    → (v.prev ≡ (t at).prev)
    → (v.next ≡ (t at).next)
    → SameLinks t (update t at v)
update-links t at v p n a = elim (Bool-cases (at == a)) [
  | inl e ↦ rw (sym ((==_iff at a).0 e), update-at t at v) (p, n)
  | inr e ↦ rw (update-other t at a v e) (refl, refl)
]

chosen-decay : (b : Tcb) → body (chosen (decay b)) ≡ body (chosen b)
chosen-decay b = elim (Bool-cases (is_ready b.state)) [ inl e ↦ rw e refl | inr e ↦ rw e refl ]

not_alone :
    (xs : List ℕ) (c : ℕ) (ys : List ℕ)
    → 2 ≤ length (xs ++ c ∷ ys)
    → (l : ℕ) × (last_or none (xs ++ ys) ≡ some l)
not_alone [] c [] two = absurd (omega (arith, two))
not_alone [] c (y ∷ ys) two = last_or-some none y ys
not_alone (x ∷ xs) c ys two = last_or-some none x (xs ++ ys)

pub mem-middle : (xs : List ℕ) (c : ℕ) (ys : List ℕ) → mem c (xs ++ c ∷ ys) ≡ true
mem-middle [] c ys = let e : (c == c) ≡ true = ground arith in rw e refl
mem-middle (x ∷ xs) c ys = elim (Bool-cases (c == x)) [
  | inl e ↦ rw e refl
  | inr e ↦ rw e (mem-middle xs c ys)
]

module _ (s : SchedulerState) (ids : List ℕ) (fuel : ℕ) (src : InterruptSrc) (h : IsList s ids)
    (enough : length ids ≤ fuel) (two : 2 ≤ length ids) where
  -- after the search
  module _ (best m : ℕ) (p : Preferred s.tcbs ids uint16_max (best, m)) (t : Tcbs)
      (d : Decayed s.tcbs ids t)
      (found : search_from fuel s.tcbs s.top_tcb (address s.top_tcb) uint16_max
        ≡ some (t, best, m)) where
    abbrev now : Tcbs
    now = update t p.tcb (chosen (t p.tcb))

    now-IsList : IsList (record s { tcbs = now }) ids
    now-IsList = record {
      top = h.top;
      last = h.last;
      linked =
          Seg-same t now none ids none (update-links t p.tcb (chosen (t p.tcb)) refl refl)
            (Seg-same s.tcbs t none ids none (Decayed-links s.tcbs ids t d) h.linked);
      distinct = h.distinct;
    }

    is_member : mem p.tcb ids ≡ true
    is_member = rw p.parts (mem-middle p.before p.tcb p.after)

    runs_requeue :
        scheduler_pick_next_thread fuel s src
        ≡ requeue (record s { tcbs = now }) p.tcb (now p.tcb).prev (now p.tcb).next
    runs_requeue =
        let small : (m == uint16_max) ≡ false = ground (arith, p.max_priority, p.below) in
        pick-step fuel s src t best m found
        ∙ take-step (record s { tcbs = t }) src best m small
        ∙ rw p.best refl

    found-Picks : Picks s ids (scheduler_pick_next_thread fuel s src)
    found-Picks =
        let (l, is_last) =
          not_alone p.before p.tcb p.after (subst (λ z. 2 ≤ length z) p.parts two) in
        let (s', e, r) =
          requeue-Relinked (record s { tcbs = now }) p.before p.tcb p.after l
            (subst (IsList (record s { tcbs = now })) p.parts now-IsList) is_last in
        record {
          state = s';
          best = (best, m);
          preferred = p;
          is_picked = runs_requeue ∙ e;
          list = r.list;
          runs =
              r.body p.tcb
              ∙ ap body (update-at t p.tcb (chosen (t p.tcb)))
              ∙ ap (λ b. body (chosen b)) (d.inside p.tcb is_member)
              ∙ chosen-decay (s.tcbs p.tcb);
          decays = λ a ne inside.
              r.body a
              ∙ ap body
                  (update-other t p.tcb a (chosen (t p.tcb)) (differs ne) ∙ d.inside a inside);
          others = λ a out.
              r.body a
              ∙ ap body
                  (update-other t p.tcb a (chosen (t p.tcb)) (mem-not a out) ∙ d.outside a out);
          running = r.running;
          count = r.count;
        }
      where
        differs : {a b : ℕ} → a ≢ b → (b == a) ≡ false
        differs ne = ground arith

        mem-not : (a : ℕ) → mem a ids ≡ false → (p.tcb == a) ≡ false
        mem-not a out = mem-apart a p.tcb ids out is_member

  pub scheduler_pick_next_thread-Picks :
      (a : ℕ)
      → mem a ids ≡ true
      → is_ready (s.tcbs a).state ≡ true
      → (s.tcbs a).active_priority < uint16_max
      → Picks s ids (scheduler_pick_next_thread fuel s src)
  scheduler_pick_next_thread-Picks a inside ready below =
      let (t, found, d) =
        search_from-choose ids fuel s.tcbs none (address s.top_tcb) uint16_max enough h.distinct
          h.linked in
      let found' =
        ap (λ n. search_from fuel s.tcbs n (address s.top_tcb) uint16_max) h.top ∙ found in
      elim (choose-Preferred s.tcbs ids (address s.top_tcb) uint16_max) [
        | inl kept ↦ absurd (omega (arith, kept.1 a inside ready))
        | inr p ↦ found-Picks _ _ p t d found'
      ]
