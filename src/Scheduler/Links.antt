-- ===== src/Scheduler/Links.antt =====
-- The doubly linked list of src/kernel/Processes/Scheduling/scheduler.c: what its links are for a list of threads, and
-- what a change of one link does.
use icarus.Prelude.{
  ℕ, ◌≡◌, refl, sym, ap, ◌∙◌, inl, inr, arith, Bool, true, false, ◌||◌, ◌==◌, List, [], ◌∷◌, ◌++◌,
  Option, none, some, Bool-cases, ==_iff, some_inj, mem,
}
use icarus.Scheduler.{Tcb, Tcbs, SchedulerState, update, set_next, set_prev}

abbrev pub Distinct : List ℕ → Type 0
Distinct [] = Unit
Distinct (x ∷ xs) = (mem x xs ≡ false) × Distinct xs

-- the first of a list, and what follows it if it is empty; the last, likewise
abbrev pub head_or : List ℕ → Option ℕ → Option ℕ
head_or [] n = n
head_or (x ∷ xs) n = some x

abbrev pub last_or : Option ℕ → List ℕ → Option ℕ
last_or p [] = p
last_or p (x ∷ xs) = last_or (some x) xs

-- the threads `ids` are linked to one another, after `p` and before `n`
abbrev pub Seg : Tcbs → Option ℕ → List ℕ → Option ℕ → Type 0
Seg t p [] n = Unit
Seg t p (x ∷ xs) n = ((t x).prev ≡ p) × ((t x).next ≡ head_or xs n) × Seg t (some x) xs n

-- The list of the scheduler consists of `ids`.
pub record IsList (s : SchedulerState) (ids : List ℕ) : Type 0 where
  pub top : s.top_tcb ≡ head_or ids none
  pub last : s.last_tcb ≡ last_or none ids
  pub linked : Seg s.tcbs none ids none
  pub distinct : Distinct ids

-- the two links of all threads are the same
abbrev pub SameLinks : Tcbs → Tcbs → Type 0
SameLinks t t' = (a : ℕ) → ((t' a).prev ≡ (t a).prev) × ((t' a).next ≡ (t a).next)

pub update-at : (t : Tcbs) (at : ℕ) (v : Tcb) → update t at v at ≡ v
unfolding update
update-at t at v = ground arith

pub update-other : (t : Tcbs) (at a : ℕ) (v : Tcb) → (at == a) ≡ false → update t at v a ≡ t a
unfolding update
update-other t at a v e = rw e refl

pub ==_sym : (a b : ℕ) → (a == b) ≡ false → (b == a) ≡ false
==_sym a b e = ground arith

pub mem-++ : (x : ℕ) (xs ys : List ℕ) → mem x (xs ++ ys) ≡ mem x xs || mem x ys
mem-++ x [] ys = refl
mem-++ x (y ∷ xs) ys = elim (Bool-cases (x == y)) [
  | inl e ↦ rw e refl
  | inr e ↦ rw e (mem-++ x xs ys)
]

pub or_false : (a b : Bool) → (a || b) ≡ false → (a ≡ false) × (b ≡ false)
or_false false false e = (refl, refl)
or_false false true e = (refl, e)
or_false true b e = absurd (true_is_false e)
  where
    true_is_false : true ≡ false → ⊥
    true_is_false e = cc

pub head_or-++ : (xs ys : List ℕ) (n : Option ℕ) → head_or (xs ++ ys) n ≡ head_or xs (head_or ys n)
head_or-++ [] ys n = refl
head_or-++ (x ∷ xs) ys n = refl

pub last_or-++ : (p : Option ℕ) (xs ys : List ℕ) → last_or p (xs ++ ys) ≡ last_or (last_or p xs) ys
last_or-++ p [] ys = refl
last_or-++ p (x ∷ xs) ys = last_or-++ (some x) xs ys

pub Seg-join :
    (t : Tcbs) (p : Option ℕ) (xs ys : List ℕ) (n : Option ℕ)
    → Seg t p xs (head_or ys n)
    → Seg t (last_or p xs) ys n
    → Seg t p (xs ++ ys) n
Seg-join t p [] ys n h k = k
Seg-join t p (x ∷ xs) ys n h k =
    (h.0, h.1 ∙ sym (head_or-++ xs ys n), Seg-join t (some x) xs ys n h.2 k)

pub Seg-split :
    (t : Tcbs) (p : Option ℕ) (xs ys : List ℕ) (n : Option ℕ)
    → Seg t p (xs ++ ys) n
    → Seg t p xs (head_or ys n) × Seg t (last_or p xs) ys n
Seg-split t p [] ys n h = (tt, h)
Seg-split t p (x ∷ xs) ys n h =
    let (a, b) = Seg-split t (some x) xs ys n h.2 in ((h.0, h.1 ∙ head_or-++ xs ys n, a), b)

pub Seg-same :
    (t t' : Tcbs) (p : Option ℕ) (ids : List ℕ) (n : Option ℕ)
    → SameLinks t t'
    → Seg t p ids n
    → Seg t' p ids n
Seg-same t t' p [] n same h = tt
Seg-same t t' p (x ∷ xs) n same h =
    ((same x).0 ∙ h.0, (same x).1 ∙ h.1, Seg-same t t' (some x) xs n same h.2)

-- a change outside a segment
pub Seg-other :
    (t : Tcbs) (p : Option ℕ) (ids : List ℕ) (n : Option ℕ) (at : ℕ) (v : Tcb)
    → mem at ids ≡ false
    → Seg t p ids n
    → Seg (update t at v) p ids n
Seg-other t p [] n at v out h = tt
Seg-other t p (x ∷ xs) n at v out h =
    let (ne, out') = or_false (at == x) (mem at xs) out in
    let e = update-other t at x v ne in
    (
      ap (λ (b : Tcb). b.prev) e ∙ h.0,
      ap (λ (b : Tcb). b.next) e ∙ h.1,
      Seg-other t (some x) xs n at v out' h.2,
    )

-- the link to what precedes a segment
pub Seg-set_prev :
    (t : Tcbs) (p p' : Option ℕ) (x : ℕ) (xs : List ℕ) (n : Option ℕ)
    → mem x xs ≡ false
    → Seg t p (x ∷ xs) n
    → Seg (set_prev t x p') p' (x ∷ xs) n
Seg-set_prev t p p' x xs n out h =
    let e = update-at t x (record (t x) { prev = p' }) in
    (
      ap (λ (b : Tcb). b.prev) e,
      ap (λ (b : Tcb). b.next) e ∙ h.1,
      Seg-other t (some x) xs n x (record (t x) { prev = p' }) out h.2,
    )

pub mem-apart : (x a : ℕ) (ids : List ℕ) → mem x ids ≡ false → mem a ids ≡ true → (a == x) ≡ false
mem-apart x a ids out inside = elim (Bool-cases (a == x)) [
  | inl e ↦ absurd (clash (sym out ∙ ap (λ b. mem b ids) (sym ((==_iff a x).0 e)) ∙ inside))
  | inr e ↦ e
]
  where
    clash : false ≡ true → ⊥
    clash e = cc

pub mem-last :
    (p : Option ℕ) (x : ℕ) (xs : List ℕ) (last : ℕ)
    → last_or p (x ∷ xs) ≡ some last
    → mem last (x ∷ xs) ≡ true
mem-last p x [] last e = rw (==_refl (sym (some_inj e))) refl
  where
    ==_refl : {a b : ℕ} → a ≡ b → (a == b) ≡ true
    ==_refl e = ground arith
mem-last p x (y ∷ ys) last e = elim (Bool-cases (last == x)) [
  | inl h ↦ rw h refl
  | inr h ↦ rw h (mem-last (some x) y ys last e)
]

-- the link from the last of a segment to what follows
pub Seg-set_next :
    (t : Tcbs) (p : Option ℕ) (ids : List ℕ) (n n' : Option ℕ) (last : ℕ)
    → Distinct ids
    → last_or none ids ≡ some last
    → Seg t p ids n
    → Seg (set_next t last n') p ids n'
Seg-set_next t p [] n n' last d is_last h = tt
Seg-set_next t p (x ∷ []) n n' last d is_last h = rw (sym (some_inj is_last)) (
    let e = update-at t x (record (t x) { next = n' }) in
    (ap (λ (b : Tcb). b.prev) e ∙ h.0, ap (λ (b : Tcb). b.next) e, tt))
Seg-set_next t p (x ∷ y ∷ ys) n n' last d is_last h =
    let ne = mem-apart x last (y ∷ ys) d.0 (mem-last none y ys last is_last) in
    let e = update-other t last x (record (t last) { next = n' }) ne in
    (
      ap (λ (b : Tcb). b.prev) e ∙ h.0,
      ap (λ (b : Tcb). b.next) e ∙ h.1,
      Seg-set_next t (some x) (y ∷ ys) n n' last d.1 is_last h.2,
    )
