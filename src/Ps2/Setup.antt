-- ===== src/Ps2/Setup.antt =====
-- What the parts of `ps2_controller_init` of src/kernel/Drivers/PS2/PS2_Controller.c say to the
-- controller.
use icarus.Prelude.{
  ℕ, ◌%◌, ◌^◌, ◌≡◌, refl, arith, bit_and, bit_or, Bool, true, false, ◌&&◌, ◌==◌, if◌then◌else◌,
  Option, none, List, [], ◌∷◌, Bool-cases, inl, inr,
}
use icarus.Prelude.Bits.{testbit}
use mathlib.Core.Path.{subst}
use icarus.Ps2.{Bus, pure, ◌>>◌, write_ps2_bcommand, write_ps2_2bcommand, ps2_reset_dev}
use icarus.Ps2.Init.{
  to_byte, config_command, is_byte, self_test, look_at, find_channels, test_ports, enable_ports,
  reset_ports,
}
use icarus.Ps2.Talk.{
  Does, both-Does, at_most-Does, nothing-Does, hear, bytes, Talk, write_ps2_bcommand-Does,
  write_ps2_bcommand_ret-Does, write_ps2_2bcommand-Does, flush_out_buff-Does,
}
use icarus.Ps2.Devices.{addressed, ps2_reset_dev-ResetBy}

-- a step that is taken if the test holds
abbrev pub when : Bool → (Talk → Talk) → Talk → Talk
when test F = if test then F else (λ t. t)

abbrev pub opening : (flushed : ℕ) → (config self : Option ℕ) → Talk → Talk
opening flushed config self t =
    (0xAA, bytes self) ∷ (0x60, []) ∷ (0x20, bytes config) ∷ (0xA7, flushed ∷ []) ∷ (0xAD, []) ∷ t

-- bit 5 of the configuration, read with the second port on, is clear
abbrev pub is_dual : Option ℕ → Bool
is_dual config = testbit (to_byte config) 5 == 0

abbrev pub looking : (config : Option ℕ) → Talk → Talk
looking config t =
    when (is_dual config) (λ u. (0x60, []) ∷ (0xA7, []) ∷ u)
      ((0x20, bytes config) ∷ (0xA8, []) ∷ (0x60, []) ∷ t)

abbrev pub found_config : Option ℕ → ℕ
found_config config = if is_dual config then bit_and (to_byte config) 0xDC else to_byte config

abbrev pub testing : (dual : Bool) → (first second : Option ℕ) → Talk → Talk
testing dual first second t = when dual (λ u. (0xA9, bytes second) ∷ u) ((0xAB, bytes first) ∷ t)

module _ (port1_ok port2_ok : Bool) where
  abbrev pub enabling : (flushed : ℕ) → Talk → Talk
  enabling flushed t =
      (0x60, flushed ∷ [])
      ∷ when port2_ok (λ u. (0xA8, []) ∷ u) (when port1_ok (λ u. (0xAE, []) ∷ u) t)

  -- the interrupts of the working ports on
  abbrev pub with_irqs : (conf : ℕ) → ℕ
  with_irqs conf =
      let conf1 = if port1_ok then bit_or conf 1 else conf in
      if port2_ok then bit_or conf1 2 else conf1

  abbrev pub resetting : (first second : List ℕ) → Talk → Talk
  resetting first second t =
      when port2_ok (λ u. hear second (addressed 2 u))
        (when port1_ok (λ u. hear first (addressed 1 u)) t)

-- the configuration's command
config-Does :
    (conf : ℕ) (b : Bus)
    → Does (λ t. (0x60, []) ∷ t) 100002 b (write_ps2_2bcommand (config_command conf) b).1
config-Does conf b =
    let e : config_command conf % 2 ^ 8 ≡ 0x60 = omega arith in
    subst (λ c. Does (λ t. (c, []) ∷ t) 100002 b (write_ps2_2bcommand (config_command conf) b).1) e
      (write_ps2_2bcommand-Does (config_command conf) b)

pub record Opened (b : Bus) (out : (ℕ × Option ℕ) × Bus) : Type 0 where
  pub flushed : ℕ
  pub config : Option ℕ
  pub does : Does (opening flushed config out.0.1) 400009 b out.1

pub self_test-Opened : (b : Bus) → Opened b (self_test b)
unfolding self_test
self_test-Opened b = record {
  flushed = _;
  config = _;
  does = at_most-Does (omega arith) (
      both-Does (write_ps2_bcommand-Does 0xAD b) (
        both-Does (write_ps2_bcommand-Does 0xA7 _) (
          both-Does (flush_out_buff-Does _) (
            both-Does (write_ps2_bcommand_ret-Does 0x20 _)
              (both-Does (config-Does _ _) (write_ps2_bcommand_ret-Does 0xAA _))))));
}

record LookedAt (conf : ℕ) (b : Bus) (out : (ℕ × Bool) × Bus) : Type 0 where
  does : Does (when (testbit conf 5 == 0) (λ u. (0x60, []) ∷ (0xA7, []) ∷ u)) 100003 b out.1
  value : out.0 ≡ ((if testbit conf 5 == 0 then bit_and conf 0xDC else conf), testbit conf 5 == 0)

look_at-LookedAt : (conf : ℕ) (b : Bus) → LookedAt conf b (look_at conf b)
look_at-LookedAt conf b = elim (Bool-cases (testbit conf 5 == 0)) [
  | inl second ↦ rw second (record {
    does = rw second (both-Does (write_ps2_bcommand-Does 0xA7 b) (config-Does _ _));
    value = rw second refl;
  })
  | inr only ↦ rw only (record {
    does = rw only (at_most-Does (omega arith) (nothing-Does b));
    value = rw only refl;
  })
]

pub record Found (b : Bus) (out : (ℕ × Bool) × Bus) : Type 0 where
  pub config : Option ℕ
  pub does : Does (looking config) 300008 b out.1
  pub value : out.0 ≡ (found_config config, is_dual config)

pub find_channels-Found : (conf : ℕ) (b : Bus) → Found b (find_channels conf b)
unfolding find_channels
find_channels-Found conf b = record {
  config = _;
  does = at_most-Does (omega arith) (
      both-Does (config-Does conf b) (
        both-Does (write_ps2_bcommand-Does 0xA8 _)
          (both-Does (write_ps2_bcommand_ret-Does 0x20 _) (look_at-LookedAt _ _).does)));
  value = (look_at-LookedAt _ _).value;
}

pub record Tested (dual : Bool) (b : Bus) (out : (Option ℕ × Option ℕ) × Bus) : Type 0 where
  pub second : Option ℕ
  pub does : Does (testing dual out.0.0 second) 200004 b out.1
  pub value : is_byte out.0.1 0 ≡ (dual && is_byte second 0)

pub test_ports-Tested : (dual : Bool) (b : Bus) → Tested dual b (test_ports dual b)
unfolding test_ports
test_ports-Tested true b = record {
  second = _;
  does = both-Does (write_ps2_bcommand_ret-Does 0xAB b) (write_ps2_bcommand_ret-Does 0xA9 _);
  value = refl;
}
test_ports-Tested false b = record {
  second = none;
  does = at_most-Does (omega arith) (write_ps2_bcommand_ret-Does 0xAB b);
  value = refl;
}

enable_one :
    (ok : Bool) (c : ℕ) (b : Bus)
    → Does
        (when ok (λ u. (c % 2 ^ 8, []) ∷ u))
        1
        b
        ((if ok then write_ps2_bcommand c else pure tt) b).1
enable_one true c b = write_ps2_bcommand-Does c b
enable_one false c b = at_most-Does (omega arith) (nothing-Does b)

pub record Enabled (ok1 ok2 : Bool) (conf : ℕ) (b : Bus) (out : ℕ × Bus) : Type 0 where
  pub flushed : ℕ
  pub does : Does (enabling ok1 ok2 flushed) 100005 b out.1
  pub value : out.0 ≡ with_irqs ok1 ok2 conf

pub enable_ports-Enabled :
    (ok1 ok2 : Bool) (conf : ℕ) (b : Bus) → Enabled ok1 ok2 conf b (enable_ports ok1 ok2 conf b)
unfolding enable_ports
enable_ports-Enabled ok1 ok2 conf b = record {
  flushed = _;
  does =
      both-Does (enable_one ok1 0xAE b)
        (both-Does (enable_one ok2 0xA8 _) (both-Does (config-Does _ _) (flush_out_buff-Does _)));
  value = refl;
}

record ResetOne (ok : Bool) (port : ℕ) (b b' : Bus) : Type 0 where
  heard : List ℕ
  does : Does (when ok (λ u. hear heard (addressed port u))) 400005 b b'

reset_one :
    (ok : Bool) (port : ℕ) (b : Bus)
    → ResetOne ok port b ((if ok then ps2_reset_dev port >> pure tt else pure tt) b).1
reset_one true port b =
    let d = ps2_reset_dev-ResetBy port b in record { heard = d.heard; does = d.does }
reset_one false port b = record { heard = []; does = at_most-Does (omega arith) (nothing-Does b) }

pub record WereReset (ok1 ok2 : Bool) (b b' : Bus) : Type 0 where
  pub first : List ℕ
  pub second : List ℕ
  pub does : Does (resetting ok1 ok2 first second) 800010 b b'

pub reset_ports-WereReset :
    (ok1 ok2 : Bool) (b : Bus) → WereReset ok1 ok2 b (reset_ports ok1 ok2 b).1
unfolding reset_ports
reset_ports-WereReset ok1 ok2 b = record {
  first = _;
  second = _;
  does = both-Does (reset_one ok1 1 b).does (reset_one ok2 2 _).does;
}
