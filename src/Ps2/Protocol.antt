-- ===== src/Ps2/Protocol.antt =====
-- The whole `ps2_controller_init` of src/kernel/Drivers/PS2/PS2_Controller.c against the protocol
-- that it keeps with the controller.
use icarus.Prelude.{
  ℕ, ◌≡◌, refl, arith, Bool, true, false, ◌&&◌, ◌||◌, if◌then◌else◌, Option, List, [], Bool-cases,
  inl, inr,
}
use icarus.Ps2.{Bus}
use icarus.Ps2.Init.{
  Ps2Info, is_byte, self_test, find_channels, test_ports, enable_ports, start_ports, if_any, set_up,
  ps2_controller_init,
}
use icarus.Ps2.Talk.{Does, both-Does, at_most-Does, Talk}
use icarus.Ps2.Setup.{
  opening, is_dual, looking, found_config, testing, enabling, with_irqs, resetting,
  self_test-Opened, find_channels-Found, test_ports-Tested, enable_ports-Enabled,
  reset_ports-WereReset,
}

-- what the controller and the devices answer in the course of the routine
pub record Answers : Type 0 where
  pub flushed : ℕ
  pub config : Option ℕ
  pub self : Option ℕ
  pub config_again : Option ℕ
  pub first_port : Option ℕ
  pub second_port : Option ℕ
  pub flushed_again : ℕ
  pub first_device : List ℕ
  pub second_device : List ℕ

module _ (a : Answers) where
  abbrev pub port1_works : Bool
  port1_works = is_byte a.first_port 0

  abbrev pub port2_works : Bool
  port2_works = is_dual a.config_again && is_byte a.second_port 0

  abbrev pub check_up : Talk → Talk
  check_up t =
      testing (is_dual a.config_again) a.first_port a.second_port
        (looking a.config_again (opening a.flushed a.config a.self t))

  -- all that is said, by how far the routine comes
  abbrev pub protocol : Talk → Talk
  protocol =
      if is_byte a.self 0x55
      then if port1_works || port2_works
        then (λ t.
            resetting port1_works port2_works a.first_device a.second_device
              (enabling port1_works port2_works a.flushed_again (check_up t)))
        else check_up
      else opening a.flushed a.config a.self

  -- the result, and the global
  abbrev pub outcome : Ps2Info → Bool × Ps2Info
  outcome info =
      if is_byte a.self 0x55
      then if port1_works || port2_works
        then (
          true,
          record {
            exists = true;
            enabled = true;
            is_dual_channel = is_dual a.config_again;
            config = with_irqs port1_works port2_works (found_config a.config_again);
          },
        )
        else (false, info)
      else (false, info)

pub record Follows (info : Ps2Info) (b : Bus) (out : (Bool × Ps2Info) × Bus) : Type 0 where
  pub answers : Answers
  pub does : Does (protocol answers) 2000000 b out.1
  pub value : out.0 ≡ outcome answers info

record Started (ok1 ok2 dual : Bool) (conf : ℕ) (b : Bus) (out : (Bool × Ps2Info) × Bus)
    : Type 0 where
  flushed : ℕ
  first : List ℕ
  second : List ℕ
  does : Does (λ t. resetting ok1 ok2 first second (enabling ok1 ok2 flushed t)) 900015 b out.1
  value : out.0 ≡ (
    true,
    record {
      exists = true;
      enabled = true;
      is_dual_channel = dual;
      config = with_irqs ok1 ok2 conf;
    },
  )

start_ports-Started :
    (ok1 ok2 dual : Bool) (conf : ℕ) (b : Bus)
    → Started ok1 ok2 dual conf b (start_ports ok1 ok2 dual conf b)
start_ports-Started ok1 ok2 dual conf b =
    let e = enable_ports-Enabled ok1 ok2 conf b in
    let r = reset_ports-WereReset ok1 ok2 (enable_ports ok1 ok2 conf b).1 in
    record {
      flushed = e.flushed;
      first = r.first;
      second = r.second;
      does = both-Does e.does r.does;
      value = rw e.value refl;
    }

-- behind the tests of the interfaces, with the answers so far
if_any-Follows :
    (a : Answers) (info : Ps2Info) (b b1 : Bus)
    → is_byte a.self 0x55 ≡ true
    → Does (check_up a) 1000000 b b1
    → Follows info b (
        if_any
          (port1_works a)
          (port2_works a)
          (is_dual a.config_again)
          (found_config a.config_again)
          info
          b1)
if_any-Follows a info b b1 pass checked = elim (Bool-cases (port1_works a || port2_works a)) [
  | inl some_port ↦
      let e =
        start_ports-Started (port1_works a) (port2_works a) (is_dual a.config_again)
          (found_config a.config_again) b1 in
      rw some_port (record {
        answers = record a {
          flushed_again = e.flushed;
          first_device = e.first;
          second_device = e.second;
        };
        does = rw (pass, some_port) (at_most-Does (omega arith) (both-Does checked e.does));
        value = rw (pass, some_port) e.value;
      })
  | inr no_port ↦ rw no_port (record {
    answers = a;
    does = rw (pass, no_port) (at_most-Does (omega arith) checked);
    value = rw (pass, no_port) refl;
  })
]

-- behind a self test that passes
set_up-Follows :
    (conf : ℕ) (info : Ps2Info) (b b1 : Bus) (flushed : ℕ) (config self : Option ℕ)
    → is_byte self 0x55 ≡ true
    → Does (opening flushed config self) 400009 b b1
    → Follows info b (set_up conf info b1)
set_up-Follows conf info b b1 flushed config self pass opened =
    let f = find_channels-Found conf b1 in
    let t = test_ports-Tested (is_dual f.config) (find_channels conf b1).1 in
    rw (f.value, t.value)
      (if_any-Follows
        (record {
          flushed = flushed;
          config = config;
          self = self;
          config_again = f.config;
          first_port = (test_ports (is_dual f.config) (find_channels conf b1).1).0.0;
          second_port = t.second;
          flushed_again = 0;
          first_device = [];
          second_device = [];
        })
        info b _ pass (at_most-Does (omega arith) (both-Does opened (both-Does f.does t.does))))

-- For every state of the ports, so for every controller: ps2_controller_init ends after at most
-- 2,000,000 accesses, and writes no byte to the data port but right behind a status that shows
-- room. What it says is the protocol above: both ports off, the configuration, the self test;
-- behind 0x55 the second port on and the configuration again, which tells whether there is a
-- second port, and the tests of the ports; behind a test that gives 0 the working ports on, the
-- configuration, and the resets. It gives 0 and fills ps2_info exactly if the self test gives
-- 0x55 and the test of a port 0, and else gives -1 and leaves ps2_info as it is. What the devices
-- answer to their resets decides nothing.
pub ps2_controller_init-Follows :
    (info : Ps2Info) (b : Bus) → Follows info b (ps2_controller_init info b)
unfolding ps2_controller_init
ps2_controller_init-Follows info b =
    let o = self_test-Opened b in
    elim (Bool-cases (is_byte (self_test b).0.1 0x55)) [
      | inl pass ↦ rw pass (set_up-Follows _ info b _ o.flushed o.config _ pass o.does)
      | inr fail ↦ rw fail (record {
        answers = record {
          flushed = o.flushed;
          config = o.config;
          self = (self_test b).0.1;
          config_again = o.config;
          first_port = o.config;
          second_port = o.config;
          flushed_again = 0;
          first_device = [];
          second_device = [];
        };
        does = rw fail (at_most-Does (omega arith) o.does);
        value = rw fail refl;
      })
    ]
