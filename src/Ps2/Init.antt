-- ===== src/Ps2/Init.antt =====
-- `ps2_controller_init` of src/kernel/Drivers/PS2/PS2_Controller.c, in the parts that its blank
-- lines make.
use icarus.Prelude.{
  ℕ, ◌+◌, ◌*◌, ◌%◌, ◌^◌, bit_and, bit_or, Bool, true, false, ◌||◌, ◌==◌, if◌then◌else◌, Option,
  none, some,
}
use icarus.Prelude.Bits.{testbit}
use icarus.Ps2.{
  Io, pure, ◌>>=◌, ◌>>◌, write_ps2_bcommand, write_ps2_bcommand_ret, write_ps2_2bcommand,
  flush_out_buff, ps2_reset_dev,
}

-- `PS2_info_t`
pub record Ps2Info : Type 0 where
  pub exists : Bool
  pub enabled : Bool
  pub is_dual_channel : Bool
  pub config : ℕ

-- an int as a uint8_t, where -1 becomes 0xFF
abbrev pub to_byte : Option ℕ → ℕ
to_byte none = 0xFF
to_byte (some v) = v % 2 ^ 8

-- `0x60 | (uint16_t) conf << 8`: the bits of the two are apart
abbrev pub config_command : (conf : ℕ) → ℕ
config_command conf = 0x60 + conf * 2 ^ 8

-- `== v` for an int that may be -1
abbrev pub is_byte : Option ℕ → ℕ → Bool
is_byte none v = false
is_byte (some w) v = w == v

-- `ps2_controller_init` up to its self test: both ports off, the configuration masked by `~(1 | 1
-- << 4 | 1 << 6)`
unfoldable pub self_test : Io (ℕ × Option ℕ)
self_test = do
  write_ps2_bcommand 0xAD
  write_ps2_bcommand 0xA7
  flush_out_buff
  answer ← write_ps2_bcommand_ret 0x20
  let conf = bit_and (to_byte answer) 0xAE
  write_ps2_2bcommand (config_command conf)
  result ← write_ps2_bcommand_ret 0xAA
  pure (conf, result)

-- bit 5 clear: a second channel, off again, its IRQs and its clock's bit masked by `~(1 | 1 << 1
-- | 1 << 5)`
abbrev pub second_off : (conf : ℕ) → Io (ℕ × Bool)
second_off conf = do
  write_ps2_bcommand 0xA7
  write_ps2_2bcommand (config_command (bit_and conf 0xDC))
  pure (bit_and conf 0xDC, true)

abbrev pub look_at : (conf : ℕ) → Io (ℕ × Bool)
look_at conf = if testbit conf 5 == 0 then second_off conf else pure (conf, false)

-- then the look for a second channel
unfoldable pub find_channels : (conf : ℕ) → Io (ℕ × Bool)
find_channels conf = do
  write_ps2_2bcommand (config_command conf)
  write_ps2_bcommand 0xA8
  answer ← write_ps2_bcommand_ret 0x20
  look_at (to_byte answer)

-- the test of the second port's interface, asked for if there is one
abbrev pub test_second : (dual : Bool) → Io (Option ℕ)
test_second dual = if dual then write_ps2_bcommand_ret 0xA9 else pure none

-- the tests of the interfaces
unfoldable pub test_ports : (dual : Bool) → Io (Option ℕ × Option ℕ)
test_ports dual = do
  first ← write_ps2_bcommand_ret 0xAB
  second ← test_second dual
  pure (first, second)

-- the working ports on, with their IRQs
unfoldable pub enable_ports : (port1_ok port2_ok : Bool) → (conf : ℕ) → Io ℕ
enable_ports port1_ok port2_ok conf = do
  if port1_ok then write_ps2_bcommand 0xAE else pure tt
  let conf1 = if port1_ok then bit_or conf 1 else conf
  if port2_ok then write_ps2_bcommand 0xA8 else pure tt
  let conf2 = if port2_ok then bit_or conf1 2 else conf1
  write_ps2_2bcommand (config_command conf2)
  flush_out_buff
  pure conf2

-- the devices of the working ports reset; what comes of it is kept nowhere
unfoldable pub reset_ports : (port1_ok port2_ok : Bool) → Io (Unit {0})
reset_ports port1_ok port2_ok = do
  if port1_ok then ps2_reset_dev 1 >> pure tt else pure tt
  if port2_ok then ps2_reset_dev 2 >> pure tt else pure tt

-- the rest, where a port works
abbrev pub start_ports : (port1_ok port2_ok dual : Bool) → (conf : ℕ) → Io (Bool × Ps2Info)
start_ports port1_ok port2_ok dual conf = do
  config ← enable_ports port1_ok port2_ok conf
  reset_ports port1_ok port2_ok
  pure (true, record { exists = true; enabled = true; is_dual_channel = dual; config = config })

abbrev pub if_any : (port1_ok port2_ok dual : Bool) → (conf : ℕ) → Ps2Info → Io (Bool × Ps2Info)
if_any port1_ok port2_ok dual conf info =
    if port1_ok || port2_ok then start_ports port1_ok port2_ok dual conf else pure (false, info)

-- behind a self test that passes
abbrev pub set_up : (conf : ℕ) → Ps2Info → Io (Bool × Ps2Info)
set_up conf info = do
  found ← find_channels conf
  tested ← test_ports found.1
  if_any (is_byte tested.0 0) (is_byte tested.1 0) found.1 found.0 info

-- `true` is 0 and `false` is -1; the global `ps2_info` goes in and comes out
unfoldable pub ps2_controller_init : Ps2Info → Io (Bool × Ps2Info)
ps2_controller_init info = do
  tested ← self_test
  if is_byte tested.1 0x55 then set_up tested.0 info else pure (false, info)
