-- ===== src/MemMap/Pages/Held.antt =====
-- The pages that `ialloc_frames` of src/kernel/Memory/PMM/mem_map.c has taken from a map.
use icarus.Prelude.{
  ℕ, zero, suc, ◌+◌, ◌%◌, ◌≡◌, ◌≢◌, refl, sym, ap, ◌∙◌, inl, inr, arith, Bool, true, false, ◌&&◌,
  ◌||◌, leb, ltb, ◌==◌, if◌then◌else◌, none, some, some_inj, Option-cases, Bool-cases, List, [],
  ◌∷◌,
}
use mathlib.Core.Path.{subst}
use icarus.MemMap.Defs.{MemMap}
use icarus.MemMap.Layout.{used, Within}
use icarus.MemMap.Alloc.{frame_alloc_failed, page_type_to_size, map_alloc_frame}
use icarus.MemMap.Alloc.Sound.{IsReady, Reserved, map_alloc_frame_contiguous_outcome}
use icarus.MemMap.Pages.{take_pages}

abbrev pub in_page : (x addr : ℕ) → Bool
in_page x addr = leb addr x && ltb x (addr + 4096)

abbrev pub in_pages : (x : ℕ) → List ℕ → Bool
in_pages x [] = false
in_pages x (addr ∷ addrs) = in_page x addr || in_pages x addrs

-- the pages lie in regions of `m'`, were free in `m`, and none of them overlaps another
abbrev pub AllHeld : List ℕ → (m m' : MemMap) → Type 0
AllHeld [] m m' = Unit
AllHeld (addr ∷ addrs) m m' =
    (addr % 4096 ≡ 0)
    × Within addr (addr + 4096) m'.regions
    × ((x : ℕ) → in_page x addr ≡ true → used m x ≡ 0)
    × ((x : ℕ) → in_page x addr ≡ true → in_pages x addrs ≡ false)
    × AllHeld addrs m m'

-- what taking pages has done to a map
pub record Took (m : MemMap) (addrs : List ℕ) (m' : MemMap) : Type 0 where
  pub ready : IsReady m'
  pub kept : (x y : ℕ) → Within x y m.regions → Within x y m'.regions
  pub now_used : (x : ℕ) → used m' x ≡ (if in_pages x addrs then 1 else used m x)
  pub held : AllHeld addrs m m'

-- a page that was free later was free before
AllHeld-before :
    (addrs : List ℕ) (m m1 m' : MemMap)
    → ((x : ℕ) → used m1 x ≡ 0 → used m x ≡ 0)
    → AllHeld addrs m1 m'
    → AllHeld addrs m m'
AllHeld-before [] m m1 m' free h = tt
AllHeld-before (addr ∷ addrs) m m1 m' free h =
    (h.0, h.1, λ x e. free x (h.2 x e), h.3, AllHeld-before addrs m m1 m' free h.4)

-- pages that were free when another was taken do not overlap it
AllHeld-apart :
    (addrs : List ℕ) (m1 m' : MemMap) (x : ℕ)
    → used m1 x ≡ 1
    → AllHeld addrs m1 m'
    → in_pages x addrs ≡ false
AllHeld-apart [] m1 m' x u h = refl
AllHeld-apart (addr ∷ addrs) m1 m' x u h = elim (Bool-cases (in_page x addr)) [
  | inl e ↦ absurd (omega (arith, u, h.2 x e))
  | inr e ↦ rw e (AllHeld-apart addrs m1 m' x u h.4)
]

-- one page in front of those that are taken after it
Took-cons :
    (m : MemMap) (out : ℕ × MemMap) (addrs : List ℕ) (m' : MemMap)
    → Reserved 1 m out
    → Took out.1 addrs m'
    → Took m (out.0 ∷ addrs) m'
Took-cons m out addrs m' r t = record {
  ready = t.ready;
  kept = λ x y w. t.kept x y (r.kept x y w);
  now_used = λ x. elim (Bool-cases (in_page x out.0)) [
    | inl e ↦
        let u : used out.1 x ≡ 1 = taken x e in
        rw e (t.now_used x ∙ rw (AllHeld-apart addrs out.1 m' x u t.held) u)
    | inr e ↦
        rw e (t.now_used x ∙ ap (λ n. if in_pages x addrs then 1 else n) (r.now_used x ∙ rw e refl))
  ];
  held = (
    r.start_aligned,
    t.kept out.0 (out.0 + 4096) r.inside,
    λ x e. free x e,
    λ x e. AllHeld-apart addrs out.1 m' x (taken x e) t.held,
    AllHeld-before addrs m out.1 m' (λ x e. ground (arith, r.now_used x, e)) t.held,
  );
}
  where
    taken : (x : ℕ) → in_page x out.0 ≡ true → used out.1 x ≡ 1
    taken x e = r.now_used x ∙ rw e refl

    free : (x : ℕ) → in_page x out.0 ≡ true → used m x ≡ 0
    free x e = r.was_free x (ground (arith, e)) (ground (arith, e))

-- a call for one page of the default size
pub map_alloc_frame-Reserved :
    (m : MemMap)
    → IsReady m
    → (map_alloc_frame m 0).0 ≢ frame_alloc_failed
    → IsReady (map_alloc_frame m 0).1 × Reserved 1 m (map_alloc_frame m 0)
unfolding map_alloc_frame page_type_to_size
map_alloc_frame-Reserved m ready got =
    let (ready', outcome) = map_alloc_frame_contiguous_outcome m 1 ready (omega arith) in
    elim outcome [ inl r ↦ (ready', r) | inr (failed, _, _) ↦ absurd (got failed) ]

pub take_pages-Took :
    (n : ℕ) (m : MemMap) (addrs : List ℕ)
    → IsReady m
    → (take_pages n m 0).0 ≡ some addrs
    → Took m addrs (take_pages n m 0).1
unfolding take_pages
take_pages-Took zero m addrs ready e =
    subst (λ l. Took m l m) (some_inj e)
      (record { ready = ready; kept = λ x y w. w; now_used = λ x. refl; held = tt })
take_pages-Took (suc n) m addrs ready e =
    elim (Bool-cases ((map_alloc_frame m 0).0 == frame_alloc_failed)) [
      | inl none_left ↦ absurd (none_is_some (sym (rw none_left refl) ∙ e))
      | inr got ↦ elim (Option-cases (take_pages n (map_alloc_frame m 0).1 0).0) [
        | inl k ↦ absurd (none_is_some (sym (rw (got, k) refl) ∙ e))
        | inr k ↦
            let ok : (map_alloc_frame m 0).0 ≢ frame_alloc_failed = differs got in
            let t =
              take_pages-Took n (map_alloc_frame m 0).1 k.0 (map_alloc_frame-Reserved m ready ok).0
                k.1 in
            let is_list : (map_alloc_frame m 0).0 ∷ k.0 ≡ addrs =
              some_inj (sym (rw (got, k.1) refl) ∙ e) in
            rw got (
              subst (λ l. Took m l (take_pages n (map_alloc_frame m 0).1 0).1) is_list
                (Took-cons m (map_alloc_frame m 0) k.0 (take_pages n (map_alloc_frame m 0).1 0).1
                  (map_alloc_frame-Reserved m ready ok).1 t))
      ]
    ]
  where
    none_is_some : {l : List ℕ} → none ≡ some l → ⊥
    none_is_some e = cc

    differs : {a b : ℕ} → (a == b) ≡ false → a ≢ b
    differs h = ground arith

pub Took-first :
    (m : MemMap) (addrs : List ℕ) (m' : MemMap)
    → IsReady m
    → (map_alloc_frame m 0).0 ≢ frame_alloc_failed
    → Took (map_alloc_frame m 0).1 addrs m'
    → Took m ((map_alloc_frame m 0).0 ∷ addrs) m'
Took-first m addrs m' ready got t =
    Took-cons m (map_alloc_frame m 0) addrs m' (map_alloc_frame-Reserved m ready got).1 t
