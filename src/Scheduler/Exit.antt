-- ===== src/Scheduler/Exit.antt =====
-- `thread_exit` of src/kernel/Processes/thread.c on the list of the scheduler.
use icarus.Prelude.{
  mem, ℕ, ◌≡◌, refl, sym, ◌∙◌, arith, Bool, true, false, ◌==◌, Option, none, some, List, [], ◌∷◌,
  ◌++◌,
}
use icarus.Scheduler.{Tcbs, SchedulerState, thread_terminated, update, set_next, set_prev}
use icarus.Scheduler.Links.{
  last_or-++, IsList, SameLinks, Seg-join, Seg-split, Seg-same, Seg-other, Seg-set_prev,
  Seg-set_next, mem-last,
}
use icarus.Scheduler.Requeue.{Distinct-parts, last_or-some}

abbrev pub terminated : Tcbs → (thread : ℕ) → Tcbs
terminated t thread = update t thread (record (t thread) { state = thread_terminated })

-- the two writes; `none` is one through a null pointer
abbrev pub unlink : SchedulerState → (next prev : Option ℕ) → Option SchedulerState
unlink s none prev = none
unlink s (some n) none = none
unlink s (some n) (some p) =
    some (record s { tcbs = set_next (set_prev s.tcbs n (some p)) p (some n) })

-- The memory of the thread is then freed; neither the ends of the list nor the count of threads
-- are looked at.
unfoldable pub thread_exit : SchedulerState → (thread : ℕ) → Option SchedulerState
unfolding update
thread_exit s thread =
    let s' : SchedulerState = record s { tcbs = terminated s.tcbs thread } in
    unlink s' (s'.tcbs thread).next (s'.tcbs thread).prev

terminated-SameLinks : (t : Tcbs) (thread : ℕ) → SameLinks t (terminated t thread)
unfolding update
terminated-SameLinks t thread a = ground arith

-- how `thread_exit` ends for a thread between `xs` and `ys`
abbrev pub ExitOf : SchedulerState → (xs ys : List ℕ) → Option SchedulerState → Type 0
ExitOf s [] ys out = out ≡ none
ExitOf s (x ∷ xs) [] out = out ≡ none
ExitOf s (x ∷ xs) (y ∷ ys) out =
    (s' : SchedulerState) × (out ≡ some s')
    × IsList s' ((x ∷ xs) ++ y ∷ ys)
    × (s'.thread_count ≡ s.thread_count)

exit_by :
    (s : SchedulerState) (c : ℕ) {n p : Option ℕ}
    → (s.tcbs c).next ≡ n
    → (s.tcbs c).prev ≡ p
    → thread_exit s c ≡ unlink (record s { tcbs = terminated s.tcbs c }) n p
unfolding thread_exit
exit_by s c next prev =
    let same = terminated-SameLinks s.tcbs c c in rw (same.1 ∙ next, same.0 ∙ prev) refl

-- For every thread of a list that is linked as the scheduler wants it: if it is the first or the
-- last, thread_exit writes through a null pointer; otherwise the list is afterwards the other
-- threads in their order, linked both ways with the same ends, and the count of threads is as
-- before.
pub thread_exit-ExitOf :
    (s : SchedulerState) (xs : List ℕ) (c : ℕ) (ys : List ℕ)
    → IsList s (xs ++ c ∷ ys)
    → ExitOf s xs ys (thread_exit s c)
thread_exit-ExitOf s [] c [] h = exit_by s c h.linked.1 h.linked.0
thread_exit-ExitOf s [] c (n ∷ ys) h = exit_by s c h.linked.1 h.linked.0
thread_exit-ExitOf s (x ∷ xs) c [] h =
    let (before, (prev, next, tail)) = Seg-split s.tcbs none (x ∷ xs) (c ∷ []) none h.linked in
    exit_by s c next prev
thread_exit-ExitOf s (x ∷ xs) c (n ∷ ys) h =
    let t0 = terminated s.tcbs c in
    let linked =
      Seg-same s.tcbs t0 none ((x ∷ xs) ++ c ∷ n ∷ ys) none (terminated-SameLinks s.tcbs c)
        h.linked in
    let (before, here) = Seg-split s.tcbs none (x ∷ xs) (c ∷ n ∷ ys) none h.linked in
    let (before0, here0) = Seg-split t0 none (x ∷ xs) (c ∷ n ∷ ys) none linked in
    let (p, is_p) = last_or-some none x xs in
    let (dx, dy, dxy, out, out_ys, apart) = Distinct-parts (x ∷ xs) c (n ∷ ys) h.distinct in
    let t1 : Tcbs = set_prev t0 n (some p) in
    let t2 : Tcbs = set_next t1 p (some n) in
    let n_out : mem n (x ∷ xs) ≡ false = apart n (first n ys) in
    let p_out : mem p (n ∷ ys) ≡ false =
      not_both (mem p (n ∷ ys)) (mem p (x ∷ xs)) (apart p) (mem-last none x xs p is_p) in
    (
      record s { tcbs = t2 },
      exit_by s c here.1 (here.0 ∙ is_p),
      record {
        top = h.top;
        last =
            h.last
            ∙ last_or-++ none (x ∷ xs) (c ∷ n ∷ ys)
            ∙ sym (last_or-++ none (x ∷ xs) (n ∷ ys));
        linked =
            Seg-join t2 none (x ∷ xs) (n ∷ ys) none
              (Seg-set_next t1 none (x ∷ xs) (some c) (some n) p dx is_p (
                Seg-other t0 none (x ∷ xs) (some c) n (record (t0 n) { prev = some p }) n_out
                  before0))
              (rw is_p (
                Seg-other t1 (some p) (n ∷ ys) none p (record (t1 p) { next = some n }) p_out
                  (Seg-set_prev t0 (some c) (some p) n ys none dy.0 here0.2)));
        distinct = dxy;
      },
      refl,
    )
  where
    first : (n : ℕ) (ys : List ℕ) → mem n (n ∷ ys) ≡ true
    first n ys = let e : (n == n) ≡ true = ground arith in rw e refl

    clash : false ≡ true → ⊥
    clash e = cc

    not_both : (a b : Bool) → (a ≡ true → b ≡ false) → b ≡ true → a ≡ false
    not_both false b f e = refl
    not_both true b f e = absurd (clash (sym (f refl) ∙ e))
