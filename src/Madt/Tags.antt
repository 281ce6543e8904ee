-- ===== src/Madt/Tags.antt =====
-- The tags of the table that src/kernel/Memory/DMA/ACPI/MADT.c reads: where they lie, and that there is an end of them.
use icarus.Prelude.{
  ℕ, zero, suc, ◌+◌, ◌≤◌, ◌<◌, ◌≡◌, refl, arith, true, false, some, List, [], ◌∷◌, length,
  Bool-cases, inl, inr,
}
use icarus.BitMap.{Bytes}
use icarus.Madt.{at_end, Counts, count_tag, count_from, MadtInfo, fill_tag, fill_from}

-- the addresses of the tags from `p` on
abbrev pub Tags : Bytes → (end p : ℕ) → List ℕ → Type 0
Tags memory end p [] = at_end memory end p ≡ true
Tags memory end p (a ∷ tags) =
    (a ≡ p) × (at_end memory end p ≡ false) × Tags memory end (p + memory (p + 1)) tags

-- what a tag that is read takes
tag_fits :
    (memory : Bytes) (end p : ℕ)
    → at_end memory end p ≡ false
    → (2 ≤ memory (p + 1)) × (p + memory (p + 1) ≤ end)
tag_fits memory end p e = (ground arith, ground arith)

find-Tags :
    (fuel : ℕ) (memory : Bytes) (end p : ℕ)
    → end < fuel + p
    → (tags : List ℕ) × Tags memory end p tags × (length tags ≤ fuel)
find-Tags zero memory end p lt = ([], ground arith, omega arith)
find-Tags (suc fuel) memory end p lt = elim (Bool-cases (at_end memory end p)) [
  | inl e ↦ ([], e, omega arith)
  | inr e ↦
      let (two, fits) = tag_fits memory end p e in
      let (tags, t, short) =
        find-Tags fuel memory end (p + memory (p + 1)) (omega (arith, lt, two)) in
      (p ∷ tags, (refl, e, t), omega (arith, short))
]

-- what the passes do to all tags
abbrev pub count_tags : Bytes → List ℕ → Counts → Counts
count_tags memory [] c = c
count_tags memory (p ∷ tags) c = count_tags memory tags (count_tag (memory p) c)

abbrev pub fill_tags : Bytes → List ℕ → MadtInfo → MadtInfo
fill_tags memory [] info = info
fill_tags memory (p ∷ tags) info = fill_tags memory tags (fill_tag memory p info)

pub count_from-Tags :
    (tags : List ℕ) (fuel : ℕ) (memory : Bytes) (end p : ℕ) (c : Counts)
    → Tags memory end p tags
    → length tags < fuel
    → count_from fuel memory end p c ≡ some (count_tags memory tags c)
unfolding count_from
count_from-Tags tags zero memory end p c t lt = absurd (omega (arith, lt))
count_from-Tags [] (suc fuel) memory end p c t lt = rw t refl
count_from-Tags (a ∷ tags) (suc fuel) memory end p c t lt =
    rw (t.1, t.0)
      (count_from-Tags tags fuel memory end (p + memory (p + 1)) (count_tag (memory p) c) t.2
        (omega (arith, lt)))

pub fill_from-Tags :
    (tags : List ℕ) (fuel : ℕ) (memory : Bytes) (end p : ℕ) (info : MadtInfo)
    → Tags memory end p tags
    → length tags < fuel
    → fill_from fuel memory end p info ≡ some (fill_tags memory tags info)
unfolding fill_from
fill_from-Tags tags zero memory end p info t lt = absurd (omega (arith, lt))
fill_from-Tags [] (suc fuel) memory end p info t lt = rw t refl
fill_from-Tags (a ∷ tags) (suc fuel) memory end p info t lt =
    rw (t.1, t.0)
      (fill_from-Tags tags fuel memory end (p + memory (p + 1)) (fill_tag memory p info) t.2
        (omega (arith, lt)))

-- Both passes end, whatever the bytes of the table are: they come to the end, or to a malformed tag, after the same tags.
-- The fuel is greater, by one, than some `n` that leads from `p` past `end`.
count_from-fill_from_end :
    (n : ℕ) (memory : Bytes) (end p : ℕ) (c : Counts) (info : MadtInfo)
    → end < n + p
    → (tags : List ℕ) × Tags memory end p tags
      × (count_from (suc n) memory end p c ≡ some (count_tags memory tags c))
      × (fill_from (suc n) memory end p info ≡ some (fill_tags memory tags info))
count_from-fill_from_end n memory end p c info lt =
    let (tags, t, short) = find-Tags n memory end p lt in
    (
      tags,
      t,
      count_from-Tags tags (suc n) memory end p c t (omega (arith, short)),
      fill_from-Tags tags (suc n) memory end p info t (omega (arith, short)),
    )
