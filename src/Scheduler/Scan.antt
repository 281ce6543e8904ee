-- ===== src/Scheduler/Scan.antt =====
-- The search of `scheduler_pick_next_thread` in src/kernel/Processes/Scheduling/scheduler.c: the loop over the links, as a
-- function of the list.
use icarus.Prelude.{
  mem, ℕ, zero, suc, ◌≤◌, ◌≡◌, refl, sym, ap, ◌∙◌, inl, inr, arith, true, false, ◌&&◌, ◌==◌, leb,
  ltb, if◌then◌else◌, List, [], ◌∷◌, length, Option, none, some, Bool-cases, ==_iff,
}
use icarus.Scheduler.{Tcb, Tcbs, is_ready, saturating_dec16, lower, look, search_from}
use icarus.Scheduler.Links.{
  Distinct, head_or, Seg, SameLinks, Seg-same, update-at, update-other, or_false, ==_sym, mem-apart,
}

-- what the search does to each thread
abbrev pub decay : Tcb → Tcb
decay b = if is_ready b.state then lower b else b

abbrev pub prefer : Tcb → (a best max_priority : ℕ) → ℕ × ℕ
prefer b a best max_priority =
    if is_ready b.state && ltb b.active_priority max_priority
    then (a, saturating_dec16 b.active_priority)
    else (best, max_priority)

-- the search on a list of threads
unfoldable pub choose : Tcbs → List ℕ → (best max_priority : ℕ) → ℕ × ℕ
choose t [] best max_priority = (best, max_priority)
choose t (a ∷ xs) best max_priority =
    let (best', max') = prefer (t a) a best max_priority in choose t xs best' max'

-- the threads of the list have decayed, and no other has changed
pub record Decayed (t : Tcbs) (ids : List ℕ) (t' : Tcbs) : Type 0 where
  pub inside : (a : ℕ) → mem a ids ≡ true → t' a ≡ decay (t a)
  pub outside : (a : ℕ) → mem a ids ≡ false → t' a ≡ t a

-- one round
record Looked (t : Tcbs) (a best max_priority : ℕ) (out : Tcbs × ℕ × ℕ) : Type 0 where
  here : out.0 a ≡ decay (t a)
  other : (b : ℕ) → (a == b) ≡ false → out.0 b ≡ t b
  best_is : out.1 ≡ (prefer (t a) a best max_priority).0
  max_is : out.2 ≡ (prefer (t a) a best max_priority).1

look-Looked :
    (t : Tcbs) (a best max_priority : ℕ) → Looked t a best max_priority (look t a best max_priority)
unfolding look
look-Looked t a best m = elim (Bool-cases (is_ready (t a).state)) [
  | inr idle ↦ rw idle (record {
    here = rw idle refl;
    other = λ b e. refl;
    best_is = rw idle refl;
    max_is = rw idle refl;
  })
  | inl ready ↦ elim (Bool-cases (leb m (t a).active_priority)) [
    | inl above ↦
        let below : ltb (t a).active_priority m ≡ false = ground (arith, above) in
        rw (ready, above)
          (record {
            here = rw ready (update-at t a (lower (t a)));
            other = λ b e. update-other t a b (lower (t a)) e;
            best_is = rw (ready, below) refl;
            max_is = rw (ready, below) refl;
          })
    | inr under ↦
        let below : ltb (t a).active_priority m ≡ true = ground (arith, under) in
        rw (ready, under)
          (record {
            here = rw ready (update-at t a (lower (t a)));
            other = λ b e. update-other t a b (lower (t a)) e;
            best_is = rw (ready, below) refl;
            max_is = rw (ready, below) refl;
          })
  ]
]

pub decay-links : (b : Tcb) → ((decay b).prev ≡ b.prev) × ((decay b).next ≡ b.next)
decay-links b = elim (Bool-cases (is_ready b.state)) [
  | inl e ↦ rw e (refl, refl)
  | inr e ↦ rw e (refl, refl)
]

Looked-links :
    (t : Tcbs) (a best m : ℕ) (out : Tcbs × ℕ × ℕ) → Looked t a best m out → SameLinks t out.0
Looked-links t a best m out l b = elim (Bool-cases (a == b)) [
  | inr e ↦ rw (l.other b e) (refl, refl)
  | inl e ↦ rw (sym ((==_iff a b).0 e), l.here) (decay-links (t a))
]

choose-cong :
    (t t' : Tcbs) (ids : List ℕ) (best m : ℕ)
    → ((a : ℕ) → mem a ids ≡ true → t' a ≡ t a)
    → choose t' ids best m ≡ choose t ids best m
unfolding choose
choose-cong t t' [] best m same = refl
choose-cong t t' (a ∷ xs) best m same = rw (same a (here a xs)) (
    choose-cong t t' xs (prefer (t a) a best m).0 (prefer (t a) a best m).1
      (λ b inside. same b (later b a xs inside)))
  where
    here : (a : ℕ) (xs : List ℕ) → mem a (a ∷ xs) ≡ true
    here a xs = let e : (a == a) ≡ true = ground arith in rw e refl

    later : (b a : ℕ) (xs : List ℕ) → mem b xs ≡ true → mem b (a ∷ xs) ≡ true
    later b a xs e = elim (Bool-cases (b == a)) [ inl h ↦ rw h refl | inr h ↦ rw h e ]

mem-not : (x a : ℕ) (ids : List ℕ) → mem x ids ≡ false → mem a ids ≡ true → (x == a) ≡ false
mem-not x a ids out inside = ==_sym a x (mem-apart x a ids out inside)

Decayed-more :
    (t t' t'' : Tcbs) (x : ℕ) (xs : List ℕ)
    → mem x xs ≡ false
    → t' x ≡ decay (t x)
    → ((b : ℕ) → (x == b) ≡ false → t' b ≡ t b)
    → Decayed t' xs t''
    → Decayed t (x ∷ xs) t''
Decayed-more t t' t'' x xs out at other d = record {
  inside = λ a m. elim (Bool-cases (a == x)) [
    | inl e ↦ rw ((==_iff a x).0 e) (d.outside x out ∙ at)
    | inr e ↦
        let inside : mem a xs ≡ true = sym (rw e refl) ∙ m in
        d.inside a inside ∙ ap decay (other a (==_sym a x e))
  ];
  outside = λ a m.
      let (ne, m') = or_false (a == x) (mem a xs) m in d.outside a m' ∙ other a (==_sym a x ne);
}

-- The search over the links of a list ends, with any fuel that is not below its length: it comes to what `choose`
-- comes to, and each thread of the list has decayed.
pub search_from-choose :
    (ids : List ℕ) (fuel : ℕ) (t : Tcbs) (p : Option ℕ) (best m : ℕ)
    → length ids ≤ fuel
    → Distinct ids
    → Seg t p ids none
    → (t' : Tcbs) × (search_from fuel t (head_or ids none) best m
        ≡ some (t', (choose t ids best m).0, (choose t ids best m).1))
      × Decayed t ids t'
unfolding search_from choose
search_from-choose [] fuel t p best m le d h =
    (t, refl, record { inside = λ a e. absurd (clash e); outside = λ a e. refl })
  where
    clash : false ≡ true → ⊥
    clash e = cc
search_from-choose (x ∷ xs) zero t p best m le d h = absurd (omega (arith, le))
search_from-choose (x ∷ xs) (suc fuel) t p best m le d h =
    let out : Tcbs × ℕ × ℕ = look t x best m in
    let l = look-Looked t x best m in
    let links = Looked-links t x best m out l in
    let (t', found, dec) =
      search_from-choose xs fuel out.0 (some x) out.1 out.2 (omega (arith, le)) d.1
        (Seg-same t out.0 (some x) xs none links h.2) in
    let same : choose out.0 xs out.1 out.2 ≡ choose t (x ∷ xs) best m =
      choose-cong t out.0 xs out.1 out.2 (λ a inside. l.other a (mem-not x a xs d.0 inside))
      ∙ rw (l.best_is, l.max_is) refl in
    (
      t',
      ap (λ n. search_from fuel out.0 n out.1 out.2) ((links x).1 ∙ h.1)
          ∙ found
          ∙ ap (λ (q : ℕ × ℕ). some (t', q.0, q.1)) same,
      Decayed-more t out.0 t' x xs d.0 l.here l.other dec,
    )
