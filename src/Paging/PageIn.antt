-- ===== src/Paging/PageIn.antt =====
-- `page_in` and `walk_table` of src/kernel/Memory/paging.c: an address that has been paged in is found.
use icarus.Prelude.{
  ℕ, ◌+◌, ◌*◌, ◌/◌, ◌%◌, ◌^◌, ◌≤◌, ◌<◌, ◌≡◌, refl, sym, ap, ◌∙◌, inl, inr, arith, List, [], ◌∷◌,
  Bool-cases, true, false, ◌==◌,
}
use mathlib.Core.Path.{subst}
use icarus.BitMap.{Status, ok}
use icarus.MemMap.Layout.{used}
use icarus.Paging.{
  Entry, Tables, Space, entry_at, next_table, table_addr, write_entry, with_table, huge_leaf,
  small_leaf, map_leaf, page_in_pt, page_in_pd, page_in_pdpt, page_in, walk_pt, walk_pd, walk_pdpt,
  walk_table, huge_ps, super_ps, va_pml4_index, va_pdpt_index, va_pd_index, va_pt_index,
}
use icarus.Paging.Frames.{IsLow}
use icarus.Paging.Route.{IsTable, Also, Route, AllIndices, entry_at-apart}
use icarus.Paging.Route.Open.{
  with_table-Opened, write_entry-at, write_entry-other, table_addr-ppn_of,
}

-- What a level of `page_in` has done: the walk from there finds the page, and no table above has changed.
record Mapped (seen : ℕ → Type 0) (s : Space) (walk : Tables → ℕ) (phys : ℕ) (out : Status × Space)
    : Type 0 where
  walks : walk out.1.tables ≡ phys / 4096 * 4096
  same :
      (other k : ℕ)
      → seen other
      → other % 4096 ≡ 0
      → other + 4096 ≤ 2 ^ 64
      → k < 512
      → out.1.tables (entry_at other k) ≡ s.tables (entry_at other k)

-- the two leaves, read back
small_leaf-reads :
    (e : Entry) (phys permissions : ℕ)
    → phys < 2 ^ 31
    → (((small_leaf e phys permissions).present == 0) ≡ false)
      × (table_addr (small_leaf e phys permissions) ≡ phys / 4096 * 4096)
unfolding small_leaf
small_leaf-reads e phys permissions lt =
    (refl, table_addr-ppn_of (small_leaf e phys permissions) phys refl lt)

huge_leaf-reads :
    (e : Entry) (phys permissions : ℕ)
    → phys < 2 ^ 31
    → (((huge_leaf e phys permissions).present == 0) ≡ false)
      × (((huge_leaf e phys permissions).huge == 1) ≡ true)
      × (table_addr (huge_leaf e phys permissions) ≡ phys / 4096 * 4096)
unfolding huge_leaf
huge_leaf-reads e phys permissions lt =
    (refl, refl, table_addr-ppn_of (huge_leaf e phys permissions) phys refl lt)

-- a leaf in one table leaves the tables above alone
leaf_same :
    (seen : ℕ → Type 0) (s : Space) (table i : ℕ) (e : Entry)
    → IsTable seen s.frames table
    → i < 512
    → (other k : ℕ) → seen other
    → other % 4096 ≡ 0
    → other + 4096 ≤ 2 ^ 64
    → k < 512
    → write_entry s.tables (entry_at table i) e (entry_at other k) ≡ s.tables (entry_at other k)
leaf_same seen s table i e t il other k old al fits kl =
    write_entry-other s.tables (entry_at table i) (entry_at other k) e (
      entry_at-apart table other i k t.aligned al t.fits fits il kl
        (λ same. t.fresh (subst seen (sym same) old)))

-- an upper level: what the next one did, read from here
record Carried (seen : ℕ → Type 0) (s : Space) (table i : ℕ) (walk : Tables → ℕ → ℕ) (phys : ℕ)
    (out : Status × Space) : Type 0 where
  present : ((out.1.tables (entry_at table i)).present == 0) ≡ false
  plain : ((out.1.tables (entry_at table i)).huge == 1) ≡ false
  walks : walk out.1.tables (next_table out.1.tables table i) ≡ phys / 4096 * 4096
  same :
      (other k : ℕ)
      → seen other
      → other % 4096 ≡ 0
      → other + 4096 ≤ 2 ^ 64
      → k < 512
      → out.1.tables (entry_at other k) ≡ s.tables (entry_at other k)

module _ (is : List ℕ) (seen : ℕ → Type 0) (s : Space) (table i phys permissions : ℕ)
    (low : IsLow s.frames) (p : Route (i ∷ is) seen s.tables s.frames table)
    (seen_used : (r : ℕ) → seen r → used s.frames r ≡ 1) (all : AllIndices is)
    (walk : Tables → ℕ → ℕ) (next_level : Space → ℕ → Status × Space)
    (below : (s' : Space)
      → IsLow s'.frames
      → (t : ℕ) → Route is (Also seen table) s'.tables s'.frames t
      → ((r : ℕ) → Also seen table r → used s'.frames r ≡ 1)
      → (next_level s' t).0 ≡ ok
      → Mapped (Also seen table) s' (λ tables. walk tables t) phys (next_level s' t)) where
  carry :
      (with_table s (entry_at table i) permissions next_level).0 ≡ ok
      → Carried seen s table i walk phys (with_table s (entry_at table i) permissions next_level)
  carry done =
      let (s', runs, o) =
        with_table-Opened is seen s table i permissions low p next_level seen_used all done in
      let now_used : (r : ℕ) → Also seen table r → used s'.frames r ≡ 1 = λ r w. elim w [
        | inl e ↦ subst (λ a. used s'.frames a ≡ 1) (sym e) (o.still_used table p.0.in_use)
        | inr old ↦ o.still_used r (seen_used r old)
      ] in
      let m =
        below s' o.is_low (next_table s'.tables table i) o.path now_used
          (ap (λ (x : Status × Space). x.0) (sym runs) ∙ done) in
      let kept = m.same table i (inl refl) p.0.aligned p.0.fits p.1 in
      rw runs (record {
        present = rw kept o.present;
        plain = rw kept (not_one o.plain);
        walks = rw kept m.walks;
        same = λ other k old al fits lt.
            m.same other k (inr old) al fits lt
            ∙ o.same other k
                (record {
                  aligned = al;
                  fits = fits;
                  in_use = seen_used other old;
                  fresh = λ e. p.0.fresh (subst seen e old);
                })
                lt;
      })
    where
      not_one : {n : ℕ} → n ≡ 0 → (n == 1) ≡ false
      not_one e = rw e refl

-- what a walk reads at each level
walk_pt-leaf :
    (t : Tables) (table virt : ℕ) (e : Entry)
    → t (entry_at table (va_pt_index virt)) ≡ e
    → (e.present == 0) ≡ false
    → walk_pt t table virt ≡ table_addr e
unfolding walk_pt
walk_pt-leaf t table virt e here there = rw (here, there) refl

walk_pd-leaf :
    (t : Tables) (table virt : ℕ) (e : Entry)
    → t (entry_at table (va_pd_index virt)) ≡ e
    → (e.present == 0) ≡ false
    → (e.huge == 1) ≡ true
    → walk_pd t table virt ≡ table_addr e
unfolding walk_pd
walk_pd-leaf t table virt e here there huge = rw (here, there, huge) refl

walk_pdpt-leaf :
    (t : Tables) (table virt : ℕ) (e : Entry)
    → t (entry_at table (va_pdpt_index virt)) ≡ e
    → (e.present == 0) ≡ false
    → (e.huge == 1) ≡ true
    → walk_pdpt t table virt ≡ table_addr e
unfolding walk_pdpt
walk_pdpt-leaf t table virt e here there huge = rw (here, there, huge) refl

abbrev TablesAbove : (ℕ → Type 0) → Space → Type 0
TablesAbove seen s = (r : ℕ) → seen r → used s.frames r ≡ 1

module _ (virt phys page_size permissions : ℕ) (lt : phys < 2 ^ 31) where
  page_in_pt-Mapped :
      (seen : ℕ → Type 0) (s : Space) (table : ℕ)
      → Route [] seen s.tables s.frames table
      → Mapped seen s
          (λ tables. walk_pt tables table virt)
          phys
          (page_in_pt virt phys page_size permissions s table)
  unfolding page_in_pt map_leaf walk_pt
  page_in_pt-Mapped seen s table p =
      let at : ℕ = entry_at table (va_pt_index virt) in
      let e : Entry = small_leaf (s.tables at) phys permissions in
      let (there, addr) = small_leaf-reads (s.tables at) phys permissions lt in
      record {
        walks =
            walk_pt-leaf (write_entry s.tables at e) table virt e (write_entry-at s.tables at e)
              there
            ∙ addr;
        same = leaf_same seen s table (va_pt_index virt) e p (omega arith);
      }

  page_in_pd-Mapped :
      (seen : ℕ → Type 0) (s : Space) (table : ℕ)
      → IsLow s.frames
      → Route (va_pd_index virt ∷ []) seen s.tables s.frames table
      → TablesAbove seen s
      → (page_in_pd virt phys page_size permissions s table).0 ≡ ok
      → Mapped seen s
          (λ tables. walk_pd tables table virt)
          phys
          (page_in_pd virt phys page_size permissions s table)
  unfolding page_in_pd map_leaf walk_pd
  page_in_pd-Mapped seen s table low p above done =
      let at : ℕ = entry_at table (va_pd_index virt) in
      let e : Entry = huge_leaf (s.tables at) phys permissions in
      let (there, huge, addr) = huge_leaf-reads (s.tables at) phys permissions lt in
      elim (Bool-cases (page_size == huge_ps)) [
        | inl is_huge ↦ rw is_huge (record {
          walks =
              walk_pd-leaf (write_entry s.tables at e) table virt e (write_entry-at s.tables at e)
                there huge
              ∙ addr;
          same = leaf_same seen s table (va_pd_index virt) e p.0 p.1;
        })
        | inr small ↦
            let c =
              carry [] seen s table (va_pd_index virt) phys permissions low p above tt
                (λ tables t. walk_pt tables t virt) (page_in_pt virt phys page_size permissions)
                (λ s' low' t p' above' ok'. page_in_pt-Mapped (Also seen table) s' t p')
                (rw small at done) in
            rw small (record { walks = rw (c.present, c.plain) c.walks; same = c.same })
      ]

  page_in_pdpt-Mapped :
      (seen : ℕ → Type 0) (s : Space) (table : ℕ)
      → IsLow s.frames
      → Route (va_pdpt_index virt ∷ va_pd_index virt ∷ []) seen s.tables s.frames table
      → TablesAbove seen s
      → (page_in_pdpt virt phys page_size permissions s table).0 ≡ ok
      → Mapped seen s
          (λ tables. walk_pdpt tables table virt)
          phys
          (page_in_pdpt virt phys page_size permissions s table)
  unfolding page_in_pdpt map_leaf walk_pdpt
  page_in_pdpt-Mapped seen s table low p above done =
      let at : ℕ = entry_at table (va_pdpt_index virt) in
      let e : Entry = huge_leaf (s.tables at) phys permissions in
      let (there, huge, addr) = huge_leaf-reads (s.tables at) phys permissions lt in
      elim (Bool-cases (page_size == super_ps)) [
        | inl is_super ↦ rw is_super (record {
          walks =
              walk_pdpt-leaf (write_entry s.tables at e) table virt e (write_entry-at s.tables at e)
                there huge
              ∙ addr;
          same = leaf_same seen s table (va_pdpt_index virt) e p.0 p.1;
        })
        | inr smaller ↦
            let c =
              carry (va_pd_index virt ∷ []) seen s table (va_pdpt_index virt) phys permissions low p
                above (omega arith, tt) (λ tables t. walk_pd tables t virt)
                (page_in_pd virt phys page_size permissions)
                (λ s' low' t p' above' ok'.
                  page_in_pd-Mapped (Also seen table) s' t low' p' above' ok')
                (rw smaller at done) in
            rw smaller (record { walks = rw (c.present, c.plain) c.walks; same = c.same })
      ]

-- Paging in and walking: if `page_in` succeeds, then walking the same tables for the same address gives the physical
-- page that was asked for, whichever of the three page sizes it was. The frames are of a map fit for allocation whose free frames lie
-- below 2 GiB, the physical address lies there as well, and the tables that are there on the way to the address
-- are on pages of their own, in use, with no huge page among them.
pub walk_table-page_in :
    (s : Space) (pml4 virt phys page_size permissions : ℕ)
    → IsLow s.frames
    → Route
        (va_pml4_index virt ∷ va_pdpt_index virt ∷ va_pd_index virt ∷ [])
        (λ _. ⊥)
        s.tables
        s.frames
        pml4
    → phys < 2 ^ 31
    → (page_in s pml4 virt phys page_size permissions).0 ≡ ok
    → walk_table (page_in s pml4 virt phys page_size permissions).1.tables pml4 virt
      ≡ phys / 4096 * 4096
unfolding page_in walk_table
walk_table-page_in s pml4 virt phys page_size permissions low p lt done =
    let c =
      carry (va_pdpt_index virt ∷ va_pd_index virt ∷ []) (λ _. ⊥) s pml4 (va_pml4_index virt) phys
        permissions low p (λ r none. absurd none) (omega arith, (omega arith, tt))
        (λ tables t. walk_pdpt tables t virt) (page_in_pdpt virt phys page_size permissions)
        (λ s' low' t p' above' ok'.
          page_in_pdpt-Mapped virt phys page_size permissions lt (Also (λ _. ⊥) pml4) s' t low' p'
            above' ok')
        done in
    rw c.present c.walks
