-- ===== src/Ps2/Tests.antt =====
-- The theorems on src/kernel/Drivers/PS2/PS2_Controller.c, at a controller with two ports.
use icarus.Prelude.{ℕ, zero, suc, ◌≡◌, refl, true, false, List, [], ◌∷◌}
use icarus.Prelude.Bits.{testbit}
use icarus.Ps2.{
  Bus, ps2_reset_dev, write_ps2_bcommand_ret, poll_output, inportb, outportb, write_ps2_2bcommand,
  send_when_empty, flush_out_buff, write_ps2_bcommand,
}
use icarus.Ps2.Init.{
  Ps2Info, ps2_controller_init, self_test, test_ports, find_channels, enable_ports,
}
use icarus.Ps2.Devices.{ResetBy, ps2_reset_dev-ResetBy}
use icarus.Ps2.Protocol.{Follows, ps2_controller_init-Follows}

abbrev reply_at : List ℕ → ℕ → ℕ
reply_at [] i = 0
reply_at (v ∷ vs) zero = v
reply_at (v ∷ vs) (suc i) = reply_at vs i

abbrev no_info : Ps2Info
no_info = record { exists = false; enabled = false; is_dual_channel = false; config = 0 }

-- both ports pass their test, and the second device fails its own
abbrev two_ports : Bus
two_ports = record {
  replies = reply_at (
      0 ∷ 1 ∷ 3 ∷ 0 ∷ 1 ∷ 0x55 ∷ 0 ∷ 1 ∷ 3 ∷ 0 ∷ 1 ∷ 0 ∷ 1 ∷ 0 ∷ 0 ∷ 0 ∷ 0 ∷ 1 ∷ 0xFA ∷ 1 ∷ 0xAA ∷ 1
      ∷ 0 ∷ 0 ∷ 1 ∷ 0xFC ∷ []);
  reads = 0;
  log = [];
}

init_two_ports :
    (ps2_controller_init no_info two_ports).0
    ≡ (true, record { exists = true; enabled = true; is_dual_channel = true; config = 3 })
unfolding ps2_controller_init self_test write_ps2_bcommand_ret poll_output testbit inportb outportb
    write_ps2_2bcommand send_when_empty flush_out_buff write_ps2_bcommand test_ports find_channels
    enable_ports
init_two_ports = refl

ps2_controller_init-Follows_example :
    Follows no_info two_ports (ps2_controller_init no_info two_ports)
ps2_controller_init-Follows_example = ps2_controller_init-Follows no_info two_ports

abbrev keyboard_there : Bus
keyboard_there = record { replies = reply_at (0 ∷ 1 ∷ 0xAA ∷ 1 ∷ 0xFA ∷ []); reads = 0; log = [] }

ps2_reset_dev-ResetBy_example : ResetBy 2 keyboard_there (ps2_reset_dev 2 keyboard_there)
ps2_reset_dev-ResetBy_example = ps2_reset_dev-ResetBy 2 keyboard_there
