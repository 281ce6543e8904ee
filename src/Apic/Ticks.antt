-- ===== src/Apic/Ticks.antt =====
-- The measurement of src/kernel/interrupts/APIC/APIC.c at a timer that runs.
use icarus.Prelude.{
  ℕ, zero, suc, ◌+◌, ◌-◌, ◌*◌, ◌/◌, ◌%◌, ◌^◌, ◌≤◌, ◌<◌, ◌≡◌, refl, ◌∙◌, ap, arith, Bool, true,
  false, some, ltb, ltb→lt, ltb→ge, Bool-cases, inl, inr, if◌then◌else◌,
}
use mathlib.Core.Path.{subst}
use native.Mathlib.Nat.{div-lt_iff_lt-mul}
use icarus.Apic.{Machine, lapic_read, lapic_write}
use icarus.Apic.Timer.{
  pm_timer_hz, wait, modulus, pm_raw, pm_read, elapsed_since, wait_pm, ticks_per_ms, finish,
  set_timer, lapic_timer_curcnt, lapic_timer_initcnt, lapic_lvt_timer, lapic_lvt_masked,
  lapic_timer_div, calibrate_lapic_ticks_per_ms,
}

-- the state behind a number of reads of the timer
unfoldable pub after_reads : {S : Type 0} → Machine S → (addr : ℕ) → Bool → (n : ℕ) → S → S
after_reads m addr is_mmio zero s = s
after_reads m addr is_mmio (suc n) s = after_reads m addr is_mmio n (pm_raw m addr is_mmio s).1

-- The timer of ACPI at an address, as documented: it shows its ticks as far as its width goes, and
-- it runs freely, so it never goes back, and some number of reads, its pace, takes a tick at
-- least. A read may well show no new tick. No read takes more than 2 ^ 23 ticks, more than two
-- seconds; a write's time counts to the next read.
pub record IsPmTimer {S : Type 0} (m : Machine S) (addr : ℕ) (is32 is_mmio : Bool) : Type 0 where
  pub ticks : S → ℕ
  pub shows :
      (s : S)
      → (pm_raw m addr is_mmio s).0 % modulus is32
        ≡ ticks (pm_raw m addr is_mmio s).1 % modulus is32
  pub steady : (s : S) → ticks s ≤ ticks (pm_raw m addr is_mmio s).1
  pub pace : ℕ
  pub runs : (s : S) → ticks s < ticks (after_reads m addr is_mmio pace s)
  pub soon : (s : S) → ticks (pm_raw m addr is_mmio s).1 ≤ ticks s + 2 ^ 23
  pub unmoved : (a v : ℕ) (s : S) → ticks (m.write32 a v s) ≡ ticks s

-- the ticks between two values of the timer, across its wrap
elapsed_since-ticks :
    (is32 : Bool) (t0 t : ℕ)
    → t0 ≤ t
    → t < t0 + 2 ^ 24
    → elapsed_since is32 (t0 % modulus is32) (t % modulus is32) ≡ t - t0
elapsed_since-ticks true t0 t le lt = omega (arith, le, lt)
elapsed_since-ticks false t0 t le lt = omega (arith, le, lt)

module _ {S : Type 0} (m : Machine S) (addr : ℕ) (is32 is_mmio : Bool)
    (timer : IsPmTimer m addr is32 is_mmio) where
  -- a read, as the loop sees it
  pm_read-ticks :
      (s : S)
      → (pm_read m addr is32 is_mmio s).0
        ≡ timer.ticks (pm_read m addr is32 is_mmio s).1 % modulus is32
  unfolding pm_read
  pm_read-ticks s = timer.shows s

  pm_read-moves :
      (s : S)
      → (timer.ticks s ≤ timer.ticks (pm_read m addr is32 is_mmio s).1)
        × (timer.ticks (pm_read m addr is32 is_mmio s).1 ≤ timer.ticks s + 2 ^ 23)
  unfolding pm_read
  pm_read-moves s = (timer.steady s, timer.soon s)

  -- the time that reads take
  from_now : (k : ℕ) (s : S) → timer.ticks s ≤ timer.ticks (after_reads m addr is_mmio k s)
  unfolding after_reads
  from_now zero s = omega arith
  from_now (suc k) s =
      let one = timer.steady s in
      let more = from_now k (pm_raw m addr is_mmio s).1 in omega (arith, one, more)

  after_reads-add :
      (n k : ℕ) (s : S)
      → after_reads m addr is_mmio (n + k) s
        ≡ after_reads m addr is_mmio k (after_reads m addr is_mmio n s)
  unfolding after_reads
  after_reads-add zero k s = let e : 0 + k ≡ k = omega arith in rw e refl
  after_reads-add (suc n) k s =
      let e : suc n + k ≡ suc (n + k) = omega arith in
      rw e (after_reads-add n k (pm_raw m addr is_mmio s).1)

  after_reads-later :
      (n k : ℕ) (s : S)
      → timer.ticks (after_reads m addr is_mmio n s)
        ≤ timer.ticks (after_reads m addr is_mmio (n + k) s)
  after_reads-later n k s = rw (after_reads-add n k s) (from_now k (after_reads m addr is_mmio n s))

  after_reads-ticks :
      (d : ℕ) (s : S)
      → timer.ticks s + d ≤ timer.ticks (after_reads m addr is_mmio (d * timer.pace) s)
  after_reads-ticks zero s = let now = from_now (0 * timer.pace) s in omega (arith, now)
  after_reads-ticks (suc d) s =
      let later = after_reads m addr is_mmio timer.pace s in
      let e : suc d * timer.pace ≡ timer.pace + d * timer.pace = omega arith in
      let split =
        ap (λ (n : ℕ). after_reads m addr is_mmio n s) e
        ∙ after_reads-add timer.pace (d * timer.pace) s in
      rw split (omega (arith, timer.runs s, after_reads-ticks d later))

  -- as many reads as wait and pace ask for, and more
  waited_out :
      (rounds : ℕ) (s : S)
      → wait * timer.pace ≤ rounds
      → timer.ticks s + wait ≤ timer.ticks (after_reads m addr is_mmio rounds s)
  waited_out rounds s le =
      let e : wait * timer.pace + (rounds - wait * timer.pace) ≡ rounds = omega (arith, le) in
      let more = after_reads-later (wait * timer.pace) (rounds - wait * timer.pace) s in
      subst (λ (n : ℕ). timer.ticks s + wait ≤ timer.ticks (after_reads m addr is_mmio n s)) e
        (omega (arith, more, after_reads-ticks wait s))

  -- the loop's result, for a start at `t0`
  record Waited (t0 start rounds : ℕ) (s : S) : Type 0 where
    elapsed : ℕ
    state : S
    found : wait_pm m rounds addr is32 is_mmio start s ≡ some (elapsed, state)
    true_time : timer.ticks state ≡ t0 + elapsed
    enough : wait ≤ elapsed
    in_time : elapsed < wait + 2 ^ 23

  -- one round, by the time since the start
  wait_pm_round :
      (t0 rounds : ℕ) (s : S)
      → t0 ≤ timer.ticks s
      → timer.ticks s < t0 + wait
      → let read = pm_read m addr is32 is_mmio s in
        wait_pm m (suc rounds) addr is32 is_mmio (t0 % modulus is32) s ≡ (
          if ltb (timer.ticks read.1 - t0) wait
          then wait_pm m rounds addr is32 is_mmio (t0 % modulus is32) read.1
          else some (timer.ticks read.1 - t0, read.1))
  unfolding wait_pm
  wait_pm_round t0 rounds s le lt =
      let read = pm_read m addr is32 is_mmio s in
      let moves = pm_read-moves s in
      let e =
        ap (elapsed_since is32 (t0 % modulus is32)) (pm_read-ticks s)
        ∙ elapsed_since-ticks is32 t0 (timer.ticks read.1) (omega (arith, le, moves.0))
            (omega (arith, lt, moves.1)) in
      rw e refl

  wait_pm-Waited :
      (t0 rounds : ℕ) (s : S)
      → t0 ≤ timer.ticks s
      → timer.ticks s < t0 + wait
      → t0 + wait ≤ timer.ticks (after_reads m addr is_mmio rounds s)
      → Waited t0 (t0 % modulus is32) rounds s
  unfolding after_reads pm_read
  wait_pm-Waited t0 zero s le lt enough = absurd (omega (arith, lt, enough))
  wait_pm-Waited t0 (suc rounds) s le lt enough =
      let read = pm_read m addr is32 is_mmio s in
      let moves = pm_read-moves s in
      let round = wait_pm_round t0 rounds s le lt in
      elim (Bool-cases (ltb (timer.ticks read.1 - t0) wait)) [
        | inl early ↦
            let rest =
              wait_pm-Waited t0 rounds read.1 (omega (arith, le, moves.0))
                (omega (arith, ltb→lt _ _ early, le, moves.0)) enough in
            record {
              elapsed = rest.elapsed;
              state = rest.state;
              found = round ∙ rw early refl ∙ rest.found;
              true_time = rest.true_time;
              enough = rest.enough;
              in_time = rest.in_time;
            }
        | inr late ↦ record {
          elapsed = timer.ticks read.1 - t0;
          state = read.1;
          found = round ∙ rw late refl;
          true_time = omega (arith, le, moves.0);
          enough = ltb→ge _ _ late;
          in_time = omega (arith, lt, moves.1, le);
        }
      ]

  -- no step of the arithmetic wraps
  ticks_per_ms-exact :
      (cur elapsed : ℕ)
      → wait ≤ elapsed
      → elapsed < wait + 2 ^ 23
      → ticks_per_ms cur elapsed ≡ (2 ^ 32 - 1 - cur) * pm_timer_hz / (elapsed * 1000)
  ticks_per_ms-exact cur elapsed enough lt =
      let top : (2 ^ 32 - 1 - cur) * pm_timer_hz % 2 ^ 64 ≡ (2 ^ 32 - 1 - cur) * pm_timer_hz =
        omega arith in
      let bottom : elapsed * 1000 % 2 ^ 64 ≡ elapsed * 1000 = omega (arith, lt) in
      let small : (2 ^ 32 - 1 - cur) * pm_timer_hz / (elapsed * 1000) < 2 ^ 32 =
        (div-lt_iff_lt-mul {k = elapsed * 1000} (omega (arith, enough))).1
          (omega (arith, enough)) in
      rw (top, bottom) (omega (arith, small))

  calibrate_behind :
      (rounds lapic : ℕ) (s : S) {elapsed : ℕ} {last : S}
      → wait_pm m rounds addr is32 is_mmio
          (set_timer m lapic addr is32 is_mmio s).0
          (set_timer m lapic addr is32 is_mmio s).1
        ≡ some (elapsed, last)
      → calibrate_lapic_ticks_per_ms m rounds lapic addr is32 is_mmio s
        ≡ some (finish m lapic elapsed last)
  unfolding calibrate_lapic_ticks_per_ms
  calibrate_behind rounds lapic s e = rw (e, calibrate_lapic_ticks_per_ms) refl

  pub record Calibrated (rounds lapic : ℕ) (s : S) : Type 0 where
    -- where the timer is first and last read
    pub first : S
    pub last : S
    pub elapsed : ℕ
    pub out : S
    pub found :
        calibrate_lapic_ticks_per_ms m rounds lapic addr is32 is_mmio s
        ≡ some (
          (2 ^ 32 - 1 - (lapic_read m lapic lapic_timer_curcnt last).0)
              * pm_timer_hz
              / (elapsed * 1000),
          out,
        )
    pub true_time : timer.ticks last ≡ timer.ticks first + elapsed
    pub enough : wait ≤ elapsed

  -- For a timer of ACPI that works as documented, of 24 or of 32 bits, at a port or in memory:
  -- the loop of calibrate_lapic_ticks_per_ms ends within 35,795 rounds for each read of the timer's
  -- pace, the number of reads that take a tick at least. The result is what the
  -- local timer has run down times 3,579,545 over 1,000 times the ticks that truly passed between
  -- the first and the last read, at least 35,795, whether or not the timer wrapped in between,
  -- and no step of the arithmetic on uint64_t and uint32_t wraps.
  pub calibrate-Calibrated :
      (rounds lapic : ℕ) (s : S) → wait * timer.pace ≤ rounds → Calibrated rounds lapic s
  unfolding lapic_write
  calibrate-Calibrated rounds lapic s le =
      let set =
        (m.write32 (lapic + lapic_lvt_timer) lapic_lvt_masked
          (m.write32 (lapic + lapic_timer_div) 3 s)) in
      let first = (pm_read m addr is32 is_mmio set).1 in
      let running = m.write32 (lapic + lapic_timer_initcnt) 0xFFFFFFFF first in
      let still = timer.unmoved (lapic + lapic_timer_initcnt) 0xFFFFFFFF first in
      let w =
        wait_pm-Waited (timer.ticks first) rounds running (omega (arith, still))
          (omega (arith, still)) (omega (arith, still, waited_out rounds running le)) in
      record {
        first = first;
        last = w.state;
        elapsed = w.elapsed;
        out = (finish m lapic w.elapsed w.state).1;
        found =
            calibrate_behind rounds lapic s (
              ap (λ (start : ℕ). wait_pm m rounds addr is32 is_mmio start running)
                (pm_read-ticks set)
              ∙ w.found)
            ∙ ap (λ (t : ℕ). some (t, (finish m lapic w.elapsed w.state).1))
                (ticks_per_ms-exact (lapic_read m lapic lapic_timer_curcnt w.state).0 w.elapsed
                  w.enough w.in_time);
        true_time = w.true_time;
        enough = w.enough;
      }
