-- ===== src/Mapping/Regions.antt =====
-- The regions that src/kernel/Memory/memory_mapping.c makes of the boot loader's table.
use icarus.Prelude.{
  ℕ, zero, suc, ◌+◌, ◌≤◌, ◌<◌, ◌≡◌, refl, sym, ◌∙◌, ap, arith, true, false, ltb, lt→ltb,
  if◌then◌else◌, some, List, [], ◌∷◌, ◌++◌, length, length-append, Bool-cases, inl, inr,
}
use mathlib.Core.Path.{subst}
use mathlib.Core.List.{append-nil, append_assoc}
use icarus.BitMap.{Bytes}
use icarus.MemMap.Defs.{MemMap}
use icarus.Mapping.{MmapEntry, entry_of, register_entry, Registered, done, register_entries}
use icarus.Mapping.Entry.{
  spans, usable, is_usable, first_page, last_page, IsReady, Ascending, end_of, Entered,
  entry-usable, entry-unusable,
}

-- the entries that the loop reads from `p` on
abbrev pub TableAt : Bytes → (entry_size end : ℕ) → List MmapEntry → (p : ℕ) → Type 0
TableAt memory entry_size end [] p = end ≤ p
TableAt memory entry_size end (e ∷ es) p =
    (p < end) × (entry_of memory p ≡ e) × TableAt memory entry_size end es (p + entry_size)

pub record RegisteredBy (lo : ℕ) (es : List MmapEntry) (m : MemMap) (out : Registered)
    : Type 0 where
  pub after : MemMap
  pub found : out ≡ done after
  pub ready : IsReady (end_of lo es) after
  pub regions : spans after.regions ≡ spans m.regions ++ usable es

register_entries_more :
    (rounds : ℕ) (memory : Bytes) (entry_size end p : ℕ) (m m' : MemMap)
    → p < end
    → register_entry (entry_of memory p) m ≡ some m'
    → register_entries (suc rounds) memory entry_size end p m
      ≡ register_entries rounds memory entry_size end (p + entry_size) m'
unfolding register_entries
register_entries_more rounds memory entry_size end p m m' lt e =
    rw (lt→ltb _ _ lt, register_entries, e) refl

register_entries_done :
    (rounds : ℕ) (memory : Bytes) (entry_size end p : ℕ) (m : MemMap)
    → end ≤ p
    → register_entries (suc rounds) memory entry_size end p m ≡ done m
unfolding register_entries
register_entries_done rounds memory entry_size end p m le =
    let e : ltb p end ≡ false = ground arith in rw e refl

-- one entry and the rest
registered_more :
    (rounds : ℕ) (memory : Bytes) (entry_size end p lo next : ℕ) (e : MmapEntry)
    (es : List MmapEntry) (m : MemMap) (new : List (ℕ × ℕ))
    → p < end
    → entry_of memory p ≡ e
    → Entered next new m (register_entry e m)
    → (if is_usable e then last_page e else lo) ≡ next
    → new ++ usable es ≡ usable (e ∷ es)
    → length m.regions + length (usable (e ∷ es)) ≤ 32
    → ((m' : MemMap)
        → IsReady next m'
        → length m'.regions + length (usable es) ≤ 32
        → RegisteredBy next es m'
            (register_entries rounds memory entry_size end (p + entry_size) m'))
    → RegisteredBy lo (e ∷ es) m (register_entries (suc rounds) memory entry_size end p m)
registered_more rounds memory entry_size end p lo next e es m new lt is d ends both few rest =
    let sizes = sym (length-append new (usable es)) ∙ ap length both in
    let r = rest d.after d.ready (omega (arith, d.count, few, sizes)) in
    record {
      after = r.after;
      found =
          register_entries_more rounds memory entry_size end p m d.after lt
            (ap (λ (x : MmapEntry). register_entry x m) is ∙ d.found)
          ∙ r.found;
      ready = subst (λ at. IsReady (end_of at es) r.after) (sym ends) r.ready;
      regions =
          r.regions
          ∙ ap (λ (l : List (ℕ × ℕ)). l ++ usable es) d.regions
          ∙ append_assoc (spans m.regions) new (usable es)
          ∙ ap (λ (l : List (ℕ × ℕ)). spans m.regions ++ l) both;
    }

-- For a table of entries that lie below 2 ^ 52, the usable ones in ascending order and apart, a
-- map that is ready for them with at most 32 regions in the end, and more rounds than entries:
-- the loop of handle_mb2_mmap ends with a map that is laid out as the allocator wants it, whose
-- regions are those before and one for each entry of type 1 with a whole page, from its first
-- whole page to its last, in the order of the table.
pub register_entries-RegisteredBy :
    (rounds : ℕ) (memory : Bytes) (entry_size end p lo : ℕ) (es : List MmapEntry) (m : MemMap)
    → TableAt memory entry_size end es p
    → Ascending lo es
    → IsReady lo m
    → length m.regions + length (usable es) ≤ 32
    → length es < rounds
    → RegisteredBy lo es m (register_entries rounds memory entry_size end p m)
register_entries-RegisteredBy zero memory entry_size end p lo es m table up h few lt = elim lt [ ]
register_entries-RegisteredBy (suc rounds) memory entry_size end p lo [] m table up h few lt =
    record {
      after = m;
      found = register_entries_done rounds memory entry_size end p m table;
      ready = h;
      regions = sym (append-nil (spans m.regions));
    }
register_entries-RegisteredBy (suc rounds) memory entry_size end p lo (e ∷ es) m table up h few lt =
    elim (Bool-cases (is_usable e)) [
      | inl use_it ↦
          let rest_up =
            subst
              (λ b. if b then (lo ≤ first_page e) × Ascending (last_page e) es else Ascending lo es)
              use_it up.1 in
          registered_more rounds memory entry_size end p lo (last_page e) e es m
            ((first_page e, last_page e) ∷ []) table.0 table.1
            (entry-usable lo e m h up.0 use_it rest_up.0 (room e es m use_it few)) (rw use_it refl)
            (rw use_it refl) few
            (λ m' h' few'.
              register_entries-RegisteredBy rounds memory entry_size end (p + entry_size)
                (last_page e) es m' table.2 rest_up.1 h' few' (omega (arith, lt)))
      | inr not_it ↦
          registered_more rounds memory entry_size end p lo lo e es m [] table.0 table.1
            (entry-unusable lo e m h up.0 not_it) (rw not_it refl) (rw not_it refl) few
            (λ m' h' few'.
              register_entries-RegisteredBy rounds memory entry_size end (p + entry_size) lo es m'
                table.2
                (subst
                  (λ b.
                    if b then (lo ≤ first_page e) × Ascending (last_page e) es else Ascending lo es)
                  not_it up.1)
                h' few' (omega (arith, lt)))
    ]
  where
    room :
        (e : MmapEntry) (es : List MmapEntry) (m : MemMap)
        → is_usable e ≡ true
        → length m.regions + length (usable (e ∷ es)) ≤ 32
        → length m.regions < 32
    room e es m h few = ground arith
