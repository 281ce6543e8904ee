-- ===== src/Scheduler/Requeue.antt =====
-- How src/kernel/Processes/Scheduling/scheduler.c moves a thread to the end of its list, or puts a new one there.
use icarus.Prelude.{
  mem, ℕ, ◌≡◌, refl, sym, ap, ◌∙◌, inl, inr, arith, Bool, true, false, ◌==◌, List, [], ◌∷◌, ◌++◌,
  Option, none, some, Bool-cases, ==_iff,
}
use mathlib.Core.Path.{subst}
use mathlib.Core.List.{append-nil}
use icarus.Scheduler.{
  CpuRegs, ThreadState, Tcb, Tcbs, SchedulerState, update, set_next, set_prev, append_behind,
  put_last, requeue, picked,
}
use icarus.Scheduler.Links.{
  Distinct, head_or, last_or, IsList, Seg-join, Seg-split, Seg-other, Seg-set_prev, Seg-set_next,
  update-at, update-other, or_false, ==_sym, mem-++, mem-apart, mem-last, head_or-++, last_or-++,
}

-- all of a control block but its links
abbrev pub body : Tcb → CpuRegs × ThreadState × ℕ × ℕ × ℕ
body b = (b.registers, b.state, b.priority, b.active_priority, b.page_table)

abbrev pub SameBody : Tcbs → Tcbs → Type 0
SameBody t t' = (a : ℕ) → body (t' a) ≡ body (t a)

-- The list of `s'` is `ids`, and only links and the ends of the list differ from `s`.
pub record Relinked (s : SchedulerState) (ids : List ℕ) (s' : SchedulerState) : Type 0 where
  pub list : IsList s' ids
  pub body : SameBody s.tcbs s'.tcbs
  pub running : s'.running_tcb ≡ s.running_tcb
  pub count : s'.thread_count ≡ s.thread_count

update-body : (t : Tcbs) (at : ℕ) (v : Tcb) → body v ≡ body (t at) → SameBody t (update t at v)
update-body t at v e a = elim (Bool-cases (at == a)) [
  | inl h ↦ rw (sym ((==_iff at a).0 h), update-at t at v) e
  | inr h ↦ rw (update-other t at a v h) refl
]

head_or-nonempty :
    (ids : List ℕ) (l : ℕ) (n n' : Option ℕ)
    → last_or none ids ≡ some l
    → head_or ids n ≡ head_or ids n'
head_or-nonempty [] l n n' e = absurd (none_is_some e)
  where
    none_is_some : {a : ℕ} → none ≡ some a → ⊥
    none_is_some e = cc
head_or-nonempty (x ∷ xs) l n n' e = refl

Distinct-snoc : (ids : List ℕ) (c : ℕ) → Distinct ids → mem c ids ≡ false → Distinct (ids ++ c ∷ [])
Distinct-snoc [] c d out = (refl, tt)
Distinct-snoc (x ∷ xs) c d out =
    let (ne, out') = or_false (c == x) (mem c xs) out in
    (rw (mem-++ x xs (c ∷ []), d.0, ==_sym c x ne) refl, Distinct-snoc xs c d.1 out')

-- A thread that is not in the list is put behind its last one.
pub append_behind-Relinked :
    (s : SchedulerState) (ids : List ℕ) (l c : ℕ)
    → IsList s ids
    → last_or none ids ≡ some l
    → mem c ids ≡ false
    → (s' : SchedulerState) × (append_behind s s.last_tcb c ≡ some s')
      × Relinked s (ids ++ c ∷ []) s'
append_behind-Relinked s ids l c h is_last out =
    let e = h.last ∙ is_last in
    let t1 : Tcbs = set_next s.tcbs l (some c) in
    let t2 : Tcbs = set_prev t1 c (some l) in
    let t3 : Tcbs = set_next t2 c none in
    let now = update-at t2 c (record (t2 c) { next = none }) in
    let then_ = update-at t1 c (record (t1 c) { prev = some l }) in
    (
      record s { tcbs = t3; last_tcb = some c },
      rw e refl,
      record {
        list = record {
          top =
              h.top
              ∙ head_or-nonempty ids l none (some c) is_last
              ∙ sym (head_or-++ ids (c ∷ []) none);
          last = sym (last_or-++ none ids (c ∷ []));
          linked =
              Seg-join t3 none ids (c ∷ []) none
                (Seg-other t2 none ids (some c) c (record (t2 c) { next = none }) out
                  (Seg-other t1 none ids (some c) c (record (t1 c) { prev = some l }) out
                    (Seg-set_next s.tcbs none ids none (some c) l h.distinct is_last h.linked)))
                (
                  ap (λ (b : Tcb). b.prev) now ∙ ap (λ (b : Tcb). b.prev) then_ ∙ sym is_last,
                  ap (λ (b : Tcb). b.next) now,
                  tt,
                );
          distinct = Distinct-snoc ids c h.distinct out;
        };
        body = λ a.
            update-body t2 c (record (t2 c) { next = none }) refl a
            ∙ update-body t1 c (record (t1 c) { prev = some l }) refl a
            ∙ update-body s.tcbs l (record (s.tcbs l) { next = some c }) refl a;
        running = refl;
        count = refl;
      },
    )

-- the parts of a list around one of its threads
pub Distinct-parts :
    (xs : List ℕ) (c : ℕ) (ys : List ℕ)
    → Distinct (xs ++ c ∷ ys)
    → Distinct xs
      × Distinct ys
      × Distinct (xs ++ ys)
      × (mem c (xs ++ ys) ≡ false)
      × (mem c ys ≡ false)
      × ((x : ℕ) → mem x ys ≡ true → mem x xs ≡ false)
Distinct-parts [] c ys d = (tt, d.1, d.1, d.0, d.0, λ x e. refl)
Distinct-parts (a ∷ xs) c ys d =
    let (dx, dy, dxy, out, out_ys, apart) = Distinct-parts xs c ys d.1 in
    let (a_xs, a_more) = or_false (mem a xs) (mem a (c ∷ ys)) (sym (mem-++ a xs (c ∷ ys)) ∙ d.0) in
    let (a_c, a_ys) = or_false (a == c) (mem a ys) a_more in
    (
      (a_xs, dx),
      dy,
      (rw (mem-++ a xs ys, a_xs, a_ys) refl, dxy),
      rw (==_sym a c a_c, out) refl,
      out_ys,
      λ x e. rw (mem-apart a x ys a_ys e, apart x e) refl,
    )

pub last_or-some : (p : Option ℕ) (x : ℕ) (xs : List ℕ) → (l : ℕ) × (last_or p (x ∷ xs) ≡ some l)
last_or-some p x [] = (x, refl)
last_or-some p x (y ∷ ys) = last_or-some (some x) y ys

-- the first step, the thread taken out, and the second
put_last-Relinked :
    (s s1 : SchedulerState) (ids : List ℕ) (l c : ℕ)
    → Relinked s ids s1
    → last_or none ids ≡ some l
    → mem c ids ≡ false
    → (s' : SchedulerState) × (put_last s1 c ≡ picked c s') × Relinked s (ids ++ c ∷ []) s'
put_last-Relinked s s1 ids l c h is_last out =
    let (s', e, r) = append_behind-Relinked s1 ids l c h.list is_last out in
    (
      s',
      rw (e, put_last) refl,
      record {
        list = r.list;
        body = λ a. r.body a ∙ h.body a;
        running = r.running ∙ h.running;
        count = r.count ∙ h.count;
      },
    )

-- A thread of the list is moved to its end, if it is not alone.
pub requeue-Relinked :
    (s : SchedulerState) (xs : List ℕ) (c : ℕ) (ys : List ℕ) (l : ℕ)
    → IsList s (xs ++ c ∷ ys)
    → last_or none (xs ++ ys) ≡ some l
    → (s' : SchedulerState) × (requeue s c (s.tcbs c).prev (s.tcbs c).next ≡ picked c s')
      × Relinked s ((xs ++ ys) ++ c ∷ []) s'
unfolding requeue
requeue-Relinked s [] c [] l h is_last = absurd (none_is_some is_last)
  where
    none_is_some : {a : ℕ} → none ≡ some a → ⊥
    none_is_some e = cc
requeue-Relinked s [] c (n ∷ ys) l h is_last =
    let (prev, next, more) = h.linked in
    let (dx, dy, dxy, out, out_ys, apart) = Distinct-parts [] c (n ∷ ys) h.distinct in
    let s1 : SchedulerState = record s { top_tcb = some n; tcbs = set_prev s.tcbs n none } in
    let r : Relinked s (n ∷ ys) s1 = record {
      list = record {
        top = refl;
        last = h.last;
        linked = Seg-set_prev s.tcbs (some c) none n ys none dy.0 more;
        distinct = dy;
      };
      body = update-body s.tcbs n (record (s.tcbs n) { prev = none }) refl;
      running = refl;
      count = refl;
    } in
    let (s', e, r') = put_last-Relinked s s1 (n ∷ ys) l c r is_last out in
    (s', rw (prev, next) e, r')
requeue-Relinked s (x ∷ xs) c [] l h is_last =
    let (before, (prev, next, tail)) = Seg-split s.tcbs none (x ∷ xs) (c ∷ []) none h.linked in
    let (p, is_p) = last_or-some none x xs in
    (
      s,
      rw (prev ∙ is_p, next) refl,
      record {
        list = subst (λ z. IsList s (z ++ c ∷ [])) (sym (append-nil (x ∷ xs))) h;
        body = λ a. refl;
        running = refl;
        count = refl;
      },
    )
requeue-Relinked s (x ∷ xs) c (n ∷ ys) l h is_last =
    let (before, here) = Seg-split s.tcbs none (x ∷ xs) (c ∷ n ∷ ys) none h.linked in
    let (p, is_p) = last_or-some none x xs in
    let (dx, dy, dxy, out, out_ys, apart) = Distinct-parts (x ∷ xs) c (n ∷ ys) h.distinct in
    let t1 : Tcbs = set_next s.tcbs p (some n) in
    let s1 : SchedulerState = record s { tcbs = set_prev t1 n (some p) } in
    let n_out : mem n (x ∷ xs) ≡ false = apart n (first n ys) in
    let p_out : mem p (n ∷ ys) ≡ false =
      not_both (mem p (n ∷ ys)) (mem p (x ∷ xs)) (apart p) (mem-last none x xs p is_p) in
    let r : Relinked s ((x ∷ xs) ++ n ∷ ys) s1 = record {
      list = record {
        top = h.top;
        last =
            h.last
            ∙ last_or-++ none (x ∷ xs) (c ∷ n ∷ ys)
            ∙ sym (last_or-++ none (x ∷ xs) (n ∷ ys));
        linked =
            Seg-join s1.tcbs none (x ∷ xs) (n ∷ ys) none
              (Seg-other t1 none (x ∷ xs) (some n) n (record (t1 n) { prev = some p }) n_out
                (Seg-set_next s.tcbs none (x ∷ xs) (some c) (some n) p dx is_p before))
              (rw is_p (
                Seg-set_prev t1 (some c) (some p) n ys none dy.0 (
                  Seg-other s.tcbs (some c) (n ∷ ys) none p (record (s.tcbs p) { next = some n })
                    p_out here.2)));
        distinct = dxy;
      };
      body = λ a.
          update-body t1 n (record (t1 n) { prev = some p }) refl a
          ∙ update-body s.tcbs p (record (s.tcbs p) { next = some n }) refl a;
      running = refl;
      count = refl;
    } in
    let (s', e, r') = put_last-Relinked s s1 ((x ∷ xs) ++ n ∷ ys) l c r is_last out in
    (s', rw (here.0 ∙ is_p, here.1) e, r')
  where
    first : (n : ℕ) (ys : List ℕ) → mem n (n ∷ ys) ≡ true
    first n ys = let e : (n == n) ≡ true = ground arith in rw e refl

    not_both : (a b : Bool) → (a ≡ true → b ≡ false) → b ≡ true → a ≡ false
    not_both false b f e = refl
    not_both true b f e = absurd (clash (sym e ∙ f refl))
      where
        clash : true ≡ false → ⊥
        clash e = cc
