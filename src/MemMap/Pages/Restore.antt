-- ===== src/MemMap/Pages/Restore.antt =====
-- Giving pages back with `idealloc_frames` of src/kernel/Memory/PMM/mem_map.c.
use icarus.Prelude.{
  ℕ, ◌+◌, ◌-◌, ◌^◌, ◌<◌, ◌≡◌, ◌≢◌, refl, sym, ◌∙◌, inl, inr, arith, false, ◌||◌, ltb, if◌then◌else◌,
  none, some, some_inj, Option-cases, Bool-cases, List, [], ◌∷◌,
}
use mathlib.Core.Path.{subst}
use icarus.Prelude.Align.{align_down, align_down_lem}
use icarus.BitMap.{Status, ok}
use icarus.MemMap.Defs.{MemMap, MemRegion, map_dealloc_frame, default_page_size}
use icarus.MemMap.Layout.{used, Within, Laid, IsLaid, limit, bits_end}
use icarus.MemMap.Ranges.{Marked, map_dealloc_frame-Marked}
use icarus.MemMap.Alloc.{frame_alloc_failed, page_type_to_size, map_alloc_frame}
use icarus.MemMap.Alloc.Sound.{IsReady}
use icarus.MemMap.Pages.{StructPage, take_pages, give_pages, ialloc_frames, idealloc_frames}
use icarus.MemMap.Pages.Held.{
  in_page, in_pages, AllHeld, Took, take_pages-Took, map_alloc_frame-Reserved,
}

Within-fits :
    (lo b size s e : ℕ) (rs : List MemRegion) → Laid lo b size rs → Within s e rs → e < 2 ^ 64
Within-fits lo b size s e [] h w = absurd w
Within-fits lo b size s e (r ∷ rs) h (inl w) = omega (arith, w.1, h.0.end_fits)
Within-fits lo b size s e (r ∷ rs) h (inr w) =
    Within-fits (limit r) (bits_end b r) size s e rs h.1 w

-- The pages `addrs` are all that `m'` uses more than `m`.
record Holding (m : MemMap) (addrs : List ℕ) (m' : MemMap) : Type 0 where
  laid : IsLaid m'
  now_used : (x : ℕ) → used m' x ≡ (if in_pages x addrs then 1 else used m x)
  held : AllHeld addrs m m'

AllHeld-after :
    (addrs : List ℕ) (m m' m'' : MemMap)
    → ((x y : ℕ) → Within x y m'.regions → Within x y m''.regions)
    → AllHeld addrs m m'
    → AllHeld addrs m m''
AllHeld-after [] m m' m'' kept h = tt
AllHeld-after (addr ∷ addrs) m m' m'' kept h =
    (h.0, kept addr (addr + 4096) h.1, h.2, h.3, AllHeld-after addrs m m' m'' kept h.4)

-- one page given back
module _ (m : MemMap) (addr : ℕ) (addrs : List ℕ) (m' : MemMap)
    (h : Holding m (addr ∷ addrs) m') where
  marked : Marked 0 addr (addr + 4096) m' (map_dealloc_frame m' (align_down addr 4096) 4096)
  marked =
      let fits =
        Within-fits 0 0 m'.bitmap.size addr (addr + 4096) m'.regions h.laid.laid h.held.1 in
      let same : align_down addr 4096 ≡ addr =
        align_down_lem 12 addr (omega arith) (omega (arith, fits)) ∙ omega (arith, h.held.0) in
      rw same (map_dealloc_frame-Marked m' addr 1 h.laid h.held.0 (omega arith) h.held.1)

  given : (map_dealloc_frame m' (align_down addr 4096) 4096).0 ≡ ok
  given = marked.status

  given-Holding : Holding m addrs (map_dealloc_frame m' (align_down addr 4096) 4096).1
  given-Holding = record {
    laid = marked.laid;
    now_used = λ x. marked.frames x ∙ elim (Bool-cases (in_page x addr)) [
      | inl e ↦ rw (e, h.held.3 x e) (sym (h.held.2 x e))
      | inr e ↦ rw e (h.now_used x ∙ rw e refl)
    ];
    held =
        AllHeld-after addrs m m' (map_dealloc_frame m' (align_down addr 4096) 4096).1 marked.inside
          h.held.4;
  }

-- all of them given back
record Given (m m' : MemMap) (out : Status × MemMap) : Type 0 where
  status : out.0 ≡ ok
  holding : Holding m [] out.1
  kept : (x y : ℕ) → Within x y m'.regions → Within x y out.1.regions

give-step :
    (addr : ℕ) (addrs : List ℕ) (m' : MemMap)
    → (map_dealloc_frame m' (align_down addr 4096) 4096).0 ≡ ok
    → give_pages (addr ∷ addrs) 4096 m'
      ≡ give_pages addrs 4096 (map_dealloc_frame m' (align_down addr 4096) 4096).1
unfolding give_pages
give-step addr addrs m' e = rw (e, give_pages) refl

give_pages-Given :
    (m : MemMap) (addrs : List ℕ) (m' : MemMap)
    → Holding m addrs m'
    → Given m m' (give_pages addrs 4096 m')
unfolding give_pages
give_pages-Given m [] m' h = record { status = refl; holding = h; kept = λ x y w. w }
give_pages-Given m (addr ∷ addrs) m' h =
    let g =
      give_pages-Given m addrs (map_dealloc_frame m' (align_down addr 4096) 4096).1
        (given-Holding m addr addrs m' h) in
    subst (Given m m') (sym (give-step addr addrs m' (given m addr addrs m' h))) (record {
      status = g.status;
      holding = g.holding;
      kept = λ x y w. g.kept x y ((marked m addr addrs m' h).inside x y w);
    })

idealloc-step :
    (m' : MemMap) (l : StructPage)
    → (give_pages l.others l.page_size m').0 ≡ ok
    → idealloc_frames m' l ≡ (
      ok,
      (map_dealloc_frame
          (give_pages l.others l.page_size m').1
          (align_down l.first default_page_size)
          l.page_size).1,
    )
unfolding idealloc_frames
idealloc-step m' l e = rw (e, idealloc_frames) refl

module _ (m : MemMap) (count : ℕ) (ready : IsReady m)
    (got : (map_alloc_frame m 0).0 ≢ frame_alloc_failed) where
  abbrev first : ℕ
  first = (map_alloc_frame m 0).0

  abbrev second : MemMap
  second = (map_alloc_frame m 0).1

  -- the pages behind the first given back, and then the first
  restored :
      (others : List ℕ) (m' : MemMap)
      → Took second others m'
      → let l : StructPage = record {
        page_count = count;
        page_size = 4096;
        first = first;
        others = others;
      } in
        ((idealloc_frames m' l).0 ≡ ok) × ((x : ℕ) → used (idealloc_frames m' l).1 x ≡ used m x)
  restored others m' t =
      let l : StructPage = record {
        page_count = count;
        page_size = 4096;
        first = first;
        others = others;
      } in
      let g =
        give_pages-Given second others m'
          (record { laid = t.ready.layout; now_used = t.now_used; held = t.held }) in
      let c : MemMap = (give_pages others 4096 m').1 in
      let r = (map_alloc_frame-Reserved m ready got).1 in
      let h : Holding m (first ∷ []) c = record {
        laid = g.holding.laid;
        now_used = λ x. g.holding.now_used x ∙ r.now_used x ∙ one x;
        held = (
          r.start_aligned,
          g.kept first (first + 4096) (t.kept first (first + 4096) r.inside),
          λ x e. r.was_free x (ground (arith, e)) (ground (arith, e)),
          λ x e. refl,
          tt,
        );
      } in
      let done = given-Holding m first [] c h in
      rw (idealloc-step m' l g.status) (refl, λ x. done.now_used x)
    where
      one :
          (x : ℕ)
          → (if in_page x first then 1 else used m x)
            ≡ (if in_page x first || false then 1 else used m x)
      one x = elim (Bool-cases (in_page x first)) [ inl e ↦ rw e refl | inr e ↦ rw e refl ]

  -- Pages of 4 KiB that `ialloc_frames` lists, on a ready map and with a first page that is not FRAME_ALLOC_FAILED, can be given back by `idealloc_frames`:
  -- that returns 0, and every address is used exactly if it was used before the two calls.
  pub idealloc_frames-ialloc_frames :
      (l : StructPage)
      → (ialloc_frames m count 0).0 ≡ some l
      → ((idealloc_frames (ialloc_frames m count 0).1 l).0 ≡ ok)
        × ((x : ℕ) → used (idealloc_frames (ialloc_frames m count 0).1 l).1 x ≡ used m x)
  unfolding ialloc_frames page_type_to_size
  idealloc_frames-ialloc_frames l e = elim (Bool-cases (ltb 510 count)) [
    | inl many ↦ absurd (none_is_some (sym (rw many refl) ∙ e))
    | inr few ↦ elim (Option-cases (take_pages (count - 1) second 0).0) [
      | inl k ↦ absurd (none_is_some (sym (rw (few, k) refl) ∙ e))
      | inr k ↦
          let is_list = some_inj (sym (rw (few, k.1) refl) ∙ e) in
          let m' : MemMap = (take_pages (count - 1) second 0).1 in
          let t =
            take_pages-Took (count - 1) second k.0 (map_alloc_frame-Reserved m ready got).0 k.1 in
          rw few (
            subst
              (λ p.
                ((idealloc_frames m' p).0 ≡ ok)
                × ((x : ℕ) → used (idealloc_frames m' p).1 x ≡ used m x))
              is_list (restored k.0 m' t))
    ]
  ]
    where
      none_is_some : {p : StructPage} → none ≡ some p → ⊥
      none_is_some e = cc
