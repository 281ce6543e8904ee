-- ===== src/Scheduler/Choice.antt =====
-- The thread that `scheduler_pick_next_thread` of src/kernel/Processes/Scheduling/scheduler.c picks, and the list after it.
use icarus.Prelude.{
  mem, ℕ, ◌+◌, ◌≤◌, ◌<◌, ◌≡◌, refl, sym, ap, ◌∙◌, ◌⊎◌, inl, inr, arith, true, false, ◌==◌, List, [],
  ◌∷◌, ◌++◌, Bool-cases, ==_iff, ltb, ltb→lt, ltb→ge, ◌&&◌,
}
use mathlib.Core.Path.{subst}
use icarus.Scheduler.{Tcb, Tcbs, is_ready, saturating_dec16}
use icarus.Scheduler.Scan.{choose}

-- The search prefers one thread of the list: it is ready, its priority was below that of every ready thread before it
-- and at most one above that of any ready thread.
pub record Preferred (t : Tcbs) (ids : List ℕ) (m : ℕ) (out : ℕ × ℕ) : Type 0 where
  pub before : List ℕ
  pub tcb : ℕ
  pub after : List ℕ
  pub parts : ids ≡ before ++ tcb ∷ after
  pub best : out.0 ≡ tcb
  pub max_priority : out.1 ≡ saturating_dec16 (t tcb).active_priority
  pub was_ready : is_ready (t tcb).state ≡ true
  pub below : (t tcb).active_priority < m
  pub first :
      (a : ℕ)
      → mem a before ≡ true
      → is_ready (t a).state ≡ true
      → (t tcb).active_priority < (t a).active_priority
  pub least :
      (a : ℕ)
      → mem a ids ≡ true
      → is_ready (t a).state ≡ true
      → (t tcb).active_priority ≤ (t a).active_priority + 1

-- no thread of the list is ready with a priority below `m`
abbrev pub NoneBelow : Tcbs → List ℕ → ℕ → Type 0
NoneBelow t ids m =
    (a : ℕ) → mem a ids ≡ true → is_ready (t a).state ≡ true → m ≤ (t a).active_priority

mem-cons : (a x : ℕ) (xs : List ℕ) → mem a (x ∷ xs) ≡ true → (a ≡ x) ⊎ (mem a xs ≡ true)
mem-cons a x xs e = elim (Bool-cases (a == x)) [
  | inl h ↦ inl ((==_iff a x).0 h)
  | inr h ↦ inr (sym (rw h refl) ∙ e)
]

-- the two outcomes of a comparison at a ready thread
not_below :
    (b : Tcb) (m : ℕ)
    → is_ready b.state && ltb b.active_priority m ≡ false
    → is_ready b.state ≡ true
    → m ≤ b.active_priority
not_below b m worse r = ltb→ge b.active_priority m (sym (rw r refl) ∙ worse)

is_below :
    (b : Tcb) (m : ℕ)
    → is_ready b.state && ltb b.active_priority m ≡ true
    → (is_ready b.state ≡ true) × (b.active_priority < m)
is_below b m better = elim (Bool-cases (is_ready b.state)) [
  | inl r ↦ (r, ltb→lt b.active_priority m (sym (rw r refl) ∙ better))
  | inr r ↦ absurd (clash (sym (rw r refl) ∙ better))
]
  where
    clash : false ≡ true → ⊥
    clash e = cc

module _ (t : Tcbs) (x : ℕ) (xs : List ℕ) (m : ℕ) where
  skip_Preferred :
      is_ready (t x).state && ltb (t x).active_priority m ≡ false
      → (out : ℕ × ℕ) → Preferred t xs m out
      → Preferred t (x ∷ xs) m out
  skip_Preferred worse out p = record {
    before = x ∷ p.before;
    tcb = p.tcb;
    after = p.after;
    parts = ap (λ l. x ∷ l) p.parts;
    best = p.best;
    max_priority = p.max_priority;
    was_ready = p.was_ready;
    below = p.below;
    first = λ a e r. elim (mem-cons a x p.before e) [
      | inl here ↦ omega (arith, p.below, at_head a here r)
      | inr later ↦ p.first a later r
    ];
    least = λ a e r. elim (mem-cons a x xs e) [
      | inl here ↦ omega (arith, p.below, at_head a here r)
      | inr later ↦ p.least a later r
    ];
  }
    where
      at_head : (a : ℕ) → a ≡ x → is_ready (t a).state ≡ true → m ≤ (t a).active_priority
      at_head a here r =
          not_below (t a) m
            (subst (λ z. is_ready (t z).state && ltb (t z).active_priority m ≡ false) (sym here)
              worse)
            r

  module _ (was_ready : is_ready (t x).state ≡ true) (below : (t x).active_priority < m) where
    take_Preferred :
        NoneBelow t xs (saturating_dec16 (t x).active_priority)
        → Preferred t (x ∷ xs) m (x, saturating_dec16 (t x).active_priority)
    take_Preferred none_below = record {
      before = [];
      tcb = x;
      after = xs;
      parts = refl;
      best = refl;
      max_priority = refl;
      was_ready = was_ready;
      below = below;
      first = λ a e r. absurd (clash e);
      least = λ a e r. elim (mem-cons a x xs e) [
        | inl here ↦
            subst (λ z. (t x).active_priority ≤ (t z).active_priority + 1) (sym here) (omega arith)
        | inr later ↦ ground (arith, none_below a later r)
      ];
    }
      where
        clash : false ≡ true → ⊥
        clash e = cc

    pass_Preferred :
        (out : ℕ × ℕ)
        → Preferred t xs (saturating_dec16 (t x).active_priority) out
        → Preferred t (x ∷ xs) m out
    pass_Preferred out p = record {
      before = x ∷ p.before;
      tcb = p.tcb;
      after = p.after;
      parts = ap (λ l. x ∷ l) p.parts;
      best = p.best;
      max_priority = p.max_priority;
      was_ready = p.was_ready;
      below = ground (arith, p.below);
      first = λ a e r. elim (mem-cons a x p.before e) [
        | inl here ↦
            subst (λ z. (t p.tcb).active_priority < (t z).active_priority) (sym here)
              (ground (arith, p.below))
        | inr later ↦ p.first a later r
      ];
      least = λ a e r. elim (mem-cons a x xs e) [
        | inl here ↦
            subst (λ z. (t p.tcb).active_priority ≤ (t z).active_priority + 1) (sym here)
              (ground (arith, p.below))
        | inr later ↦ p.least a later r
      ];
    }

-- The search keeps what it has, and no thread of the list is ready and below it, or it prefers one.
pub choose-Preferred :
    (t : Tcbs) (ids : List ℕ) (best m : ℕ)
    → ((choose t ids best m ≡ (best, m)) × NoneBelow t ids m)
      ⊎ Preferred t ids m (choose t ids best m)
unfolding choose
choose-Preferred t [] best m = inl (refl, λ a e. absurd (clash e))
  where
    clash : false ≡ true → ⊥
    clash e = cc
choose-Preferred t (x ∷ xs) best m =
    elim (Bool-cases (is_ready (t x).state && ltb (t x).active_priority m)) [
      | inl better ↦
          let (r, lt) = is_below (t x) m better in
          rw better (elim (choose-Preferred t xs x (saturating_dec16 (t x).active_priority)) [
            | inl kept ↦
                inr (
                  subst (Preferred t (x ∷ xs) m) (sym kept.0) (take_Preferred t x xs m r lt kept.1))
            | inr p ↦ inr (pass_Preferred t x xs m r lt _ p)
          ])
      | inr worse ↦ rw worse (elim (choose-Preferred t xs best m) [
        | inl kept ↦ inl (
          kept.0,
          λ a e r. elim (mem-cons a x xs e) [
            | inl here ↦
                not_below (t a) m
                  (subst (λ z. is_ready (t z).state && ltb (t z).active_priority m ≡ false)
                    (sym here) worse)
                  r
            | inr later ↦ kept.1 a later r
          ],
        )
        | inr p ↦ inr (skip_Preferred t x xs m worse _ p)
      ])
    ]
