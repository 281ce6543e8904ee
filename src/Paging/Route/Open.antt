-- ===== src/Paging/Route/Open.antt =====
-- An upper level of `page_in` in src/kernel/Memory/paging.c: the table below is there afterwards.
use icarus.Prelude.{
  ap, ℕ, ◌+◌, ◌*◌, ◌/◌, ◌%◌, ◌^◌, ◌≤◌, ◌<◌, ◌≡◌, ◌≢◌, refl, sym, ◌∙◌, inl, inr, arith, List, ◌∷◌,
  Bool-cases, true, false, ==_iff, ltb, leb, ◌==◌, ◌&&◌,
}
use mathlib.Core.Path.{subst}
use icarus.BitMap.{Status, ok, failed}
use icarus.MemMap.Defs.{MemMap}
use icarus.MemMap.Layout.{used}
use icarus.MemMap.Alloc.{frame_alloc_failed, ialloc_kframe}
use icarus.Paging.{
  Entry, Tables, Space, entry_at, next_table, zero_entry, table_addr, write_entry, clear_table,
  ensure_table, with_table, apply_upper_perms, ppn_of,
}
use icarus.Paging.Frames.{IsLow, Granted, ialloc_kframe-Granted}
use icarus.Paging.Route.{IsTable, Also, Route, Route-cong, Route-empty, AllIndices, entry_at-apart}

pub table_addr-ppn_of :
    (e : Entry) (a : ℕ) → e.page_ppn ≡ ppn_of a → a < 2 ^ 31 → table_addr e ≡ a / 4096 * 4096
unfolding table_addr ppn_of
table_addr-ppn_of e a ppn lt = ground (arith, ppn)

-- What an upper level has done when it goes on: the entry at `at` leads to `next`, from which the rest of the path
-- goes on, and entries of other tables in use are as they were.
pub record Opened (is : List ℕ) (seen : ℕ → Type 0) (s : Space) (table i : ℕ) (s' : Space)
    : Type 0 where
  pub is_low : IsLow s'.frames
  pub path : Route is (Also seen table) s'.tables s'.frames (next_table s'.tables table i)
  pub still_used : (a : ℕ) → used s.frames a ≡ 1 → used s'.frames a ≡ 1
  pub present : ((s'.tables (entry_at table i)).present == 0) ≡ false
  pub plain : (s'.tables (entry_at table i)).huge ≡ 0
  pub same :
      (other k : ℕ)
      → IsTable (λ r. r ≡ table) s.frames other
      → k < 512
      → s'.tables (entry_at other k) ≡ s.tables (entry_at other k)

pub write_entry-at : (t : Tables) (at : ℕ) (e : Entry) → write_entry t at e at ≡ e
unfolding write_entry
write_entry-at t at e = ground arith

pub write_entry-other : (t : Tables) (at a : ℕ) (e : Entry) → at ≢ a → write_entry t at e a ≡ t a
unfolding write_entry
write_entry-other t at a e ne = ground arith

-- permissions leave the rest of an entry alone
upper_perms :
    (e : Entry) (permissions : ℕ)
    → ((apply_upper_perms e permissions).present ≡ e.present)
      × ((apply_upper_perms e permissions).huge ≡ e.huge)
      × (table_addr (apply_upper_perms e permissions) ≡ table_addr e)
unfolding apply_upper_perms table_addr
upper_perms e permissions = (refl, refl, refl)

module _ (is : List ℕ) (seen : ℕ → Type 0) (s : Space) (table i permissions : ℕ)
    (low : IsLow s.frames) (p : Route (i ∷ is) seen s.tables s.frames table) where
  -- the table was there
  Opened-there :
      (s.tables (entry_at table i)).present ≢ 0
      → let e = apply_upper_perms (s.tables (entry_at table i)) permissions in
        Opened is seen s table i (record s { tables = write_entry s.tables (entry_at table i) e })
  Opened-there there =
      let at : ℕ = entry_at table i in
      let e : Entry = apply_upper_perms (s.tables at) permissions in
      let (here, kept, addr) = upper_perms (s.tables at) permissions in
      let now = write_entry-at s.tables at e in
      record {
        is_low = low;
        path =
            rw (now, addr)
              (Route-cong is (Also seen table) s.tables (write_entry s.tables at e) s.frames
                s.frames (next_table s.tables table i) (λ a u. u)
                (λ other k is_table lt. write_entry-other s.tables at (entry_at other k) e (
                  entry_at-apart table other i k p.0.aligned is_table.aligned p.0.fits is_table.fits
                    p.1 lt (λ same. is_table.fresh (inl (sym same)))))
                (p.3 there));
        still_used = λ a u. u;
        present = rw (now, here) (not_zero there);
        plain = rw (now, kept) p.2;
        same = λ other k is_table lt. write_entry-other s.tables at (entry_at other k) e (
            entry_at-apart table other i k p.0.aligned is_table.aligned p.0.fits is_table.fits p.1
              lt (λ same. is_table.fresh (sym same)));
      }
    where
      not_zero : {n : ℕ} → n ≢ 0 → (n == 0) ≡ false
      not_zero ne = ground arith

  -- a table that has been allocated for it, at a frame that was free
  module _ (seen_used : (r : ℕ) → seen r → used s.frames r ≡ 1) (all : AllIndices is) (frame : ℕ)
      (frames' : MemMap) (g : Granted s.frames (frame, frames'))
      (absent : (s.tables (entry_at table i)).present ≡ 0) where
    abbrev linked : Tables
    linked =
        let cleared = clear_table s.tables frame in
        write_entry cleared (entry_at table i)
          (record (cleared (entry_at table i)) { page_ppn = ppn_of frame; present = 1 })

    apart : table ≢ frame
    apart e =
        absurd (omega (arith, p.0.in_use, subst (λ a. used s.frames a ≡ 0) (sym e) g.was_free))

    frame-IsTable : IsTable (Also seen table) frames' frame
    frame-IsTable = record {
      aligned = g.aligned;
      fits = omega (arith, g.below);
      in_use = g.now_used;
      fresh = λ w. elim w [
        | inl e ↦ apart (sym e)
        | inr old ↦ absurd (omega (arith, g.was_free, seen_used frame old))
      ];
    }

    cleared_other :
        (other k : ℕ)
        → other % 4096 ≡ 0
        → other + 4096 ≤ 2 ^ 64
        → k < 512
        → other ≢ frame
        → clear_table s.tables frame (entry_at other k) ≡ s.tables (entry_at other k)
    unfolding clear_table
    cleared_other other k al fits lt ne =
        let out : leb frame (entry_at other k) && ltb (entry_at other k) (frame + 4096) ≡ false =
          ground (arith, g.aligned, g.below) in
        rw out refl

    cleared_frame : (k : ℕ) → k < 512 → clear_table s.tables frame (entry_at frame k) ≡ zero_entry
    unfolding clear_table
    cleared_frame k lt =
        let hit : leb frame (entry_at frame k) && ltb (entry_at frame k) (frame + 4096) ≡ true =
          ground (arith, g.aligned, g.below) in
        rw hit refl

    Opened-fresh :
        let e = apply_upper_perms (linked (entry_at table i)) permissions in
        Opened is seen s table i
          (record { tables = write_entry linked (entry_at table i) e; frames = frames' })
    Opened-fresh =
        let at : ℕ = entry_at table i in
        let cleared : Tables = clear_table s.tables frame in
        let first : Entry = record (cleared at) { page_ppn = ppn_of frame; present = 1 } in
        let e : Entry = apply_upper_perms (linked at) permissions in
        let was : linked at ≡ first = write_entry-at cleared at first in
        let (here, kept, addr) = upper_perms first permissions in
        let now : write_entry linked at e at ≡ apply_upper_perms first permissions =
          write_entry-at linked at e ∙ ap (λ (x : Entry). apply_upper_perms x permissions) was in
        let leads : next_table (write_entry linked at e) table i ≡ frame =
          ap table_addr now
          ∙ addr
          ∙ table_addr-ppn_of first frame refl g.below
          ∙ omega (arith, g.aligned) in
        let outside : (a : ℕ) → at ≢ a → write_entry linked at e a ≡ cleared a =
          λ a ne. write_entry-other linked at a e ne ∙ write_entry-other cleared at a first ne in
        record {
          is_low = g.is_low;
          path = rw leads (
              Route-empty is (Also seen table) (write_entry linked at e) frames' frame all
                frame-IsTable
                (λ k lt.
                  outside (entry_at frame k) (
                    entry_at-apart table frame i k p.0.aligned g.aligned p.0.fits frame-IsTable.fits
                      p.1 lt apart)
                  ∙ cleared_frame k lt));
          still_used = g.still_used;
          present = rw (now, here) refl;
          plain =
              rw (now, kept)
                (ap (λ (x : Entry). x.huge) (cleared_other table i p.0.aligned p.0.fits p.1 apart)
                  ∙ p.2);
          same = λ other k is_table lt.
              outside (entry_at other k) (
                entry_at-apart table other i k p.0.aligned is_table.aligned p.0.fits is_table.fits
                  p.1 lt (λ same. is_table.fresh (sym same)))
              ∙ cleared_other other k is_table.aligned is_table.fits lt (λ e. absurd (
                  omega
                    (arith, is_table.in_use, subst (λ a. used s.frames a ≡ 0) (sym e) g.was_free)));
        }

  ensure_there :
      ((s.tables (entry_at table i)).present == 0) ≡ false
      → ensure_table s (entry_at table i) ≡ (true, s)
  unfolding ensure_table
  ensure_there there = rw there refl

  ensure_failed :
      ((s.tables (entry_at table i)).present == 0) ≡ true
      → ((ialloc_kframe s.frames 1 4096).0 == frame_alloc_failed) ≡ true
      → (ensure_table s (entry_at table i)).0 ≡ false
  unfolding ensure_table
  ensure_failed absent none_left = rw (absent, none_left) refl

  ensure_fresh :
      ((s.tables (entry_at table i)).present == 0) ≡ true
      → ((ialloc_kframe s.frames 1 4096).0 == frame_alloc_failed) ≡ false
      → let (frame, frames') = ialloc_kframe s.frames 1 4096 in
        let cleared = clear_table s.tables frame in
        let first = record (cleared (entry_at table i)) { page_ppn = ppn_of frame; present = 1 } in
        ensure_table s (entry_at table i)
        ≡ (true, record { tables = write_entry cleared (entry_at table i) first; frames = frames' })
  unfolding ensure_table
  ensure_fresh absent got = rw (absent, got) refl

  goes_on :
      (next_level : Space → ℕ → Status × Space) (s' : Space)
      → ensure_table s (entry_at table i) ≡ (true, s')
      → let e = apply_upper_perms (s'.tables (entry_at table i)) permissions in
        let s'' = record s' { tables = write_entry s'.tables (entry_at table i) e } in
        with_table s (entry_at table i) permissions next_level
        ≡ next_level s'' (next_table s''.tables table i)
  unfolding with_table
  goes_on next_level s' e =
      let at : ℕ = entry_at table i in
      let perms : Entry = apply_upper_perms (s'.tables at) permissions in
      rw (e, write_entry-at s'.tables at perms) refl

  stops :
      (next_level : Space → ℕ → Status × Space)
      → (ensure_table s (entry_at table i)).0 ≡ false
      → (with_table s (entry_at table i) permissions next_level).0 ≡ failed
  unfolding with_table
  stops next_level e = rw e refl

  -- If an upper level comes to 0, the next level ran on a space that is opened.
  pub with_table-Opened :
      (next_level : Space → ℕ → Status × Space)
      → ((r : ℕ) → seen r → used s.frames r ≡ 1)
      → AllIndices is
      → (with_table s (entry_at table i) permissions next_level).0 ≡ ok
      → (s' : Space) × (with_table s (entry_at table i) permissions next_level
          ≡ next_level s' (next_table s'.tables table i))
        × Opened is seen s table i s'
  with_table-Opened next_level seen_used all done =
      elim (Bool-cases ((s.tables (entry_at table i)).present == 0)) [
        | inl absent ↦ elim (Bool-cases ((ialloc_kframe s.frames 1 4096).0 == frame_alloc_failed)) [
          | inl none_left ↦
              let e : failed ≡ ok =
                sym (stops next_level (ensure_failed absent none_left)) ∙ done in
              cc
          | inr got ↦
              let grant = ialloc_kframe-Granted s.frames 4096 low (differs got) in
              (
                _,
                goes_on next_level _ (ensure_fresh absent got),
                Opened-fresh seen_used all (ialloc_kframe s.frames 1 4096).0
                    (ialloc_kframe s.frames 1 4096).1 grant ((==_iff _ _).0 absent),
              )
        ]
        | inr there ↦ (_, goes_on next_level s (ensure_there there), Opened-there (differs there))
      ]
    where
      differs : {a b : ℕ} → (a == b) ≡ false → a ≢ b
      differs h = ground arith
