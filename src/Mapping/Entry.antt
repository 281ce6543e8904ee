-- ===== src/Mapping/Entry.antt =====
-- One entry of the boot loader's table, as the loop in src/kernel/Memory/memory_mapping.c takes it.
use icarus.Prelude.{
  ℕ, ◌+◌, ◌-◌, ◌*◌, ◌/◌, ◌%◌, ◌^◌, ◌≤◌, ◌<◌, ◌≡◌, refl, sym, ◌∙◌, ap, ap₂, arith, Bool, true, false,
  ltb, lt→ltb, ◌==◌, if◌then◌else◌, Option, some, List, [], ◌∷◌, ◌++◌, length, length-append,
  Bool-cases, inl, inr,
}
use mathlib.Core.Path.{subst}
use mathlib.Core.List.{append-nil}
use icarus.Prelude.Words.{add64}
use icarus.Prelude.Align.{align_up, align_down, align_up_lem, align_down_lem}
use icarus.MemMap.Defs.{MemRegion, MemMap, with_region, new_region, memmap_register_region}
use icarus.MemMap.Layout.{limit, frame_count, bits_end, Laid, IsLaid}
use icarus.MemMap.Register.{map_end, memmap_register_region-IsLaid}
use icarus.Mapping.{MmapEntry, raise_size, register_entry}

-- the first and the last address of a region, and of what an entry gives away in whole pages
abbrev pub span : MemRegion → ℕ × ℕ
span r = (r.start_addr, limit r)

abbrev pub spans : List MemRegion → List (ℕ × ℕ)
spans [] = []
spans (r ∷ rs) = span r ∷ spans rs

abbrev pub first_page : MmapEntry → ℕ
first_page e = (e.addr + 4095) / 4096 * 4096

abbrev pub last_page : MmapEntry → ℕ
last_page e = (e.addr + e.len) / 4096 * 4096

abbrev pub is_usable : MmapEntry → Bool
is_usable e = if e.type == 1 then ltb (first_page e) (last_page e) else false

abbrev pub usable : List MmapEntry → List (ℕ × ℕ)
usable [] = []
usable (e ∷ es) =
    let rest = usable es in if is_usable e then (first_page e, last_page e) ∷ rest else rest

-- a map that more regions can be registered in, from the address `lo` on
pub record IsReady (lo : ℕ) (m : MemMap) : Type 0 where
  pub laid : IsLaid m
  pub top : map_end 0 m.regions ≤ lo
  pub bits : m.bitmap.size ≤ length m.regions * (2 ^ 40 + 64)

-- entries below 2 ^ 52, the usable ones in ascending order and apart
abbrev pub Ascending : (lo : ℕ) → List MmapEntry → Type 0
Ascending lo [] = Unit
Ascending lo (e ∷ es) =
    (e.addr + e.len < 2 ^ 52)
    × (if is_usable e then (lo ≤ first_page e) × Ascending (last_page e) es else Ascending lo es)

abbrev pub end_of : (lo : ℕ) → List MmapEntry → ℕ
end_of lo [] = lo
end_of lo (e ∷ es) = end_of (if is_usable e then last_page e else lo) es

spans-append : (qs rs : List MemRegion) → spans (qs ++ rs) ≡ spans qs ++ spans rs
spans-append [] rs = refl
spans-append (q ∷ qs) rs = ap (λ (l : List (ℕ × ℕ)). span q ∷ l) (spans-append qs rs)

map_end-append :
    (lo : ℕ) (rs : List MemRegion) (r : MemRegion) → map_end lo (rs ++ (r ∷ [])) ≡ limit r
map_end-append lo [] r = refl
map_end-append lo (q ∷ rs) r = map_end-append (limit q) rs r

Laid-last :
    (lo b size : ℕ) (rs : List MemRegion) (r : MemRegion)
    → Laid lo b size (rs ++ (r ∷ []))
    → (size ≡ r.bitmap_start_addr + r.qword_count * 64)
      × (r.qword_count ≡ (frame_count r + 63) / 64)
Laid-last lo b size [] r h = (omega (arith, h.0.begins, h.1), h.0.qwords)
Laid-last lo b size (q ∷ rs) r h = Laid-last (limit q) (bits_end b q) size rs r h.1

raise_size-IsReady : (lo t : ℕ) (m : MemMap) → IsReady lo m → IsReady lo (raise_size t m)
raise_size-IsReady lo t m h = elim (Bool-cases (ltb m.mem_size t)) [
  | inl above ↦ rw above (record {
    laid = record { laid = h.laid.laid; cells = h.laid.cells; small = h.laid.small };
    top = h.top;
    bits = h.bits;
  })
  | inr below ↦ rw below h
]

raise_size-regions : (t : ℕ) (m : MemMap) → (raise_size t m).regions ≡ m.regions
raise_size-regions t m = ground arith

-- what is registered, one entry at a time
pub record Entered (lo : ℕ) (new : List (ℕ × ℕ)) (m : MemMap) (out : Option MemMap) : Type 0 where
  pub after : MemMap
  pub found : out ≡ some after
  pub ready : IsReady lo after
  pub regions : spans after.regions ≡ spans m.regions ++ new
  pub count : length after.regions ≡ length m.regions + length new

register-Entered :
    (lo start end : ℕ) (m : MemMap)
    → IsReady lo m
    → length m.regions < 32
    → lo ≤ start
    → start % 4096 ≡ 0
    → end % 4096 ≡ 0
    → start < end
    → end < 2 ^ 52
    → Entered end ((start, end) ∷ []) m (memmap_register_region m start end)
register-Entered lo start end m h few above s_al e_al lt small =
    let room : m.bitmap.size + (end - start) / 4096 + 2 ^ 34 < 2 ^ 64 =
      omega (arith, h.bits, few) in
    let r = new_region m start end in
    let (found, laid, regions, low, high, bits, frames, bytes) =
      memmap_register_region-IsLaid m start end h.laid s_al e_al (omega (arith, h.top, above)) lt
        room (omega (arith, small)) in
    let count = ap length regions ∙ length-append m.regions (r ∷ []) in
    let last =
      Laid-last 0 0 (with_region m r).bitmap.size m.regions r
        (subst (Laid 0 0 (with_region m r).bitmap.size) regions laid.laid) in
    record {
      after = with_region m r;
      found = found ∙ rw (lt→ltb _ _ few) refl;
      ready = record {
        laid = laid;
        top = omega (arith, ap (map_end 0) regions ∙ map_end-append 0 m.regions r, high);
        bits = omega (arith, last.0, last.1, bits, h.bits, high, low, small, count);
      };
      regions =
          ap spans regions
          ∙ spans-append m.regions (r ∷ [])
          ∙ ap₂ (λ (a b : ℕ). spans m.regions ++ ((a, b) ∷ [])) low high;
      count = count;
    }

register_entry_by :
    (e : MmapEntry) (m : MemMap)
    → e.addr + e.len < 2 ^ 52
    → let m' = raise_size (e.addr + e.len) m in
      register_entry e m
      ≡ (if is_usable e then memmap_register_region m' (first_page e) (last_page e) else some m')
unfolding register_entry
register_entry_by e m small =
    let top : add64 e.addr e.len ≡ e.addr + e.len = omega (arith, small) in
    let up : align_up e.addr 4096 ≡ first_page e =
      align_up_lem 12 e.addr (omega arith) (omega arith) (omega (arith, small)) ∙ omega arith in
    let down : align_down (e.addr + e.len) 4096 ≡ last_page e =
      align_down_lem 12 (e.addr + e.len) (omega arith) (omega (arith, small)) in
    elim (Bool-cases (e.type == 1)) [
      | inl free ↦ rw (top, up, down, free) refl
      | inr other ↦ rw (top, up, down, other) refl
    ]

-- an entry that is registered, and one that only raises the size
after_raise :
    (lo top : ℕ) (new : List (ℕ × ℕ)) (m : MemMap) (out : Option MemMap)
    → Entered lo new (raise_size top m) out
    → Entered lo new m out
after_raise lo top new m out d = record {
  after = d.after;
  found = d.found;
  ready = d.ready;
  regions = d.regions ∙ ap (λ (rs : List MemRegion). spans rs ++ new) (raise_size-regions top m);
  count = d.count ∙ ap (λ (rs : List MemRegion). length rs + length new) (raise_size-regions top m);
}

no_region : (lo : ℕ) (m : MemMap) → IsReady lo m → Entered lo [] m (some m)
no_region lo m h = record {
  after = m;
  found = refl;
  ready = h;
  regions = sym (append-nil (spans m.regions));
  count = omega arith;
}

pub entry-usable :
    (lo : ℕ) (e : MmapEntry) (m : MemMap)
    → IsReady lo m
    → e.addr + e.len < 2 ^ 52
    → is_usable e ≡ true
    → lo ≤ first_page e
    → length m.regions < 32
    → Entered (last_page e) ((first_page e, last_page e) ∷ []) m (register_entry e m)
entry-usable lo e m h small use_it above few =
    let top = e.addr + e.len in
    let same = raise_size-regions top m in
    subst (Entered (last_page e) ((first_page e, last_page e) ∷ []) m)
      (sym (register_entry_by e m small ∙ rw use_it refl))
      (after_raise (last_page e) top _ m _ (
        register-Entered lo (first_page e) (last_page e) (raise_size top m)
          (raise_size-IsReady lo top m h) (subst (λ rs. length rs < 32) (sym same) few) above
          (omega arith) (omega arith) (usable_lt e use_it) (omega (arith, small))))
  where
    usable_lt : (e : MmapEntry) → is_usable e ≡ true → first_page e < last_page e
    usable_lt e h = ground arith

pub entry-unusable :
    (lo : ℕ) (e : MmapEntry) (m : MemMap)
    → IsReady lo m
    → e.addr + e.len < 2 ^ 52
    → is_usable e ≡ false
    → Entered lo [] m (register_entry e m)
entry-unusable lo e m h small not_it =
    let top = e.addr + e.len in
    subst (Entered lo [] m) (sym (register_entry_by e m small ∙ rw not_it refl))
      (after_raise lo top [] m _ (no_region lo (raise_size top m) (raise_size-IsReady lo top m h)))
