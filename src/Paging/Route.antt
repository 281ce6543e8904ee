-- ===== src/Paging/Route.antt =====
-- The tables on the way to a virtual address, as src/kernel/Memory/paging.c follows them, and what an upper level of
-- `page_in` does to them.
pub mod Open
use icarus.Prelude.{
  ℕ, ◌+◌, ◌*◌, ◌/◌, ◌%◌, ◌^◌, ◌≤◌, ◌<◌, ◌≡◌, ◌≢◌, refl, sym, ◌∙◌, ◌⊎◌, inl, inr, arith, List, [],
  ◌∷◌,
}
use mathlib.Core.Path.{subst}
use icarus.MemMap.Defs.{MemMap}
use icarus.MemMap.Layout.{used}
use icarus.Paging.{Tables, entry_at, next_table, zero_entry}

-- a table lies on a page in use, and is none of the tables `seen`
pub record IsTable (seen : ℕ → Type 0) (m : MemMap) (table : ℕ) : Type 0 where
  pub aligned : table % 4096 ≡ 0
  pub fits : table + 4096 ≤ 2 ^ 64
  pub in_use : used m table ≡ 1
  pub fresh : seen table → ⊥

abbrev pub Also : (ℕ → Type 0) → ℕ → ℕ → Type 0
Also seen table other = (other ≡ table) ⊎ seen other

-- From `table` on, the entries at the indices lead through tables on pages of their own, as far as they are present;
-- none of them is a huge page.
abbrev pub Route : List ℕ → (ℕ → Type 0) → Tables → MemMap → ℕ → Type 0
Route [] seen t m table = IsTable seen m table
Route (i ∷ is) seen t m table =
    IsTable seen m table
    × (i < 512)
    × ((t (entry_at table i)).huge ≡ 0)
    × ((t (entry_at table i)).present ≢ 0 → Route is (Also seen table) t m (next_table t table i))

abbrev pub AllIndices : List ℕ → Type 0
AllIndices [] = Unit
AllIndices (i ∷ is) = (i < 512) × AllIndices is

pub Route-IsTable :
    (is : List ℕ) (seen : ℕ → Type 0) (t : Tables) (m : MemMap) (table : ℕ)
    → Route is seen t m table
    → IsTable seen m table
Route-IsTable [] seen t m table p = p
Route-IsTable (i ∷ is) seen t m table p = p.0

-- two entries of tables on different pages
pub entry_at-apart :
    (a b i j : ℕ)
    → a % 4096 ≡ 0
    → b % 4096 ≡ 0
    → a + 4096 ≤ 2 ^ 64
    → b + 4096 ≤ 2 ^ 64
    → i < 512
    → j < 512
    → a ≢ b
    → entry_at a i ≢ entry_at b j
entry_at-apart a b i j al bl af bf il jl ne e = absurd (ne (omega arith))

-- A path survives a change of the entries outside its tables.
pub Route-cong :
    (is : List ℕ) (seen : ℕ → Type 0) (t t' : Tables) (m m' : MemMap) (table : ℕ)
    → ((a : ℕ) → used m a ≡ 1 → used m' a ≡ 1)
    → ((other k : ℕ)
        → IsTable seen m other
        → k < 512
        → t' (entry_at other k) ≡ t (entry_at other k))
    → Route is seen t m table
    → Route is seen t' m' table
Route-cong [] seen t t' m m' table still same p = record {
  aligned = p.aligned;
  fits = p.fits;
  in_use = still table p.in_use;
  fresh = p.fresh;
}
Route-cong (i ∷ is) seen t t' m m' table still same p =
    let e = same table i p.0 p.1 in
    (
      record {
        aligned = p.0.aligned;
        fits = p.0.fits;
        in_use = still table p.0.in_use;
        fresh = p.0.fresh;
      },
      p.1,
      rw e p.2,
      λ there. rw e (
          Route-cong is (Also seen table) t t' m m' (next_table t table i) still
            (λ other k is_table lt.
              same other k
                (record {
                  aligned = is_table.aligned;
                  fits = is_table.fits;
                  in_use = is_table.in_use;
                  fresh = λ s. is_table.fresh (inr s);
                })
                lt)
            (p.3 (rw e at there))),
    )

-- an empty table leads nowhere
pub Route-empty :
    (is : List ℕ) (seen : ℕ → Type 0) (t : Tables) (m : MemMap) (table : ℕ)
    → AllIndices is
    → IsTable seen m table
    → ((k : ℕ) → k < 512 → t (entry_at table k) ≡ zero_entry)
    → Route is seen t m table
Route-empty [] seen t m table all h empty = h
Route-empty (i ∷ is) seen t m table all h empty =
    let e = empty i all.0 in (h, all.0, rw e refl, λ there. absurd (there (rw e refl)))
