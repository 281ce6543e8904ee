-- ===== src/Ps2.antt =====
-- The driver of the PS/2 controller, src/kernel/Drivers/PS2/PS2_Controller.c. The ports are a
-- record of what every read will give and of what was read and written, so that any controller is
-- some such record.
mod Talk
mod Devices
pub mod Init
mod Setup
mod Protocol
mod Tests
use icarus.Prelude.{
  ℕ, zero, suc, ◌+◌, ◌*◌, ◌/◌, ◌%◌, ◌^◌, bit_and, bit_or, Bool, true, false, not, ◌&&◌, ◌||◌, ◌==◌,
  if◌then◌else◌, Option, none, some, List, ◌∷◌,
}
use icarus.Prelude.Bits.{testbit}

pub data Access : Type 0 where
  got put : (port value : ℕ) → Access

-- `log` has the last access first
pub record Bus : Type 0 where
  pub replies : ℕ → ℕ
  pub reads : ℕ
  pub log : List Access

abbrev pub Io : Type 0 → Type 0
Io A = Bus → A × Bus

abbrev pub pure : {A : Type 0} → A → Io A
pure a bus = (a, bus)

infixl 5 ◌>>=◌ ◌>>◌
abbrev pub ◌>>=◌ : {A B : Type 0} → Io A → (A → Io B) → Io B
◌>>=◌ m f bus = f (m bus).0 (m bus).1

abbrev pub ◌>>◌ : {A B : Type 0} → Io A → Io B → Io B
m >> k = m >>= λ _. k

unfoldable pub inportb : (port : ℕ) → Io ℕ
inportb port bus =
    let v = bus.replies bus.reads % 2 ^ 8 in
    (v, record bus { reads = bus.reads + 1; log = got port v ∷ bus.log })

-- the value is a uint8_t
unfoldable pub outportb : (port value : ℕ) → Io (Unit {0})
outportb port value bus = (tt, record bus { log = put port (value % 2 ^ 8) ∷ bus.log })

abbrev pub data_port : ℕ
data_port = 0x60

-- the status on reads, the commands on writes
abbrev pub command_port : ℕ
command_port = 0x64

abbrev pub timeout : ℕ
timeout = 100000

abbrev pub read_data : Io (Option ℕ)
read_data = do v ← inportb data_port; pure (some v)

-- the loops that wait for a byte, for so many more rounds; `none` is -1
unfoldable pub poll_output : (rounds : ℕ) → Io (Option ℕ)
poll_output zero bus = (none, bus)
poll_output (suc rounds) bus =
    let (status, polled) = inportb command_port bus in
    let more = poll_output rounds polled in if testbit status 0 == 1 then read_data polled else more

-- the loops that wait for room and write a byte; `false` is -1
unfoldable pub send_when_empty : (rounds value : ℕ) → Io Bool
send_when_empty zero value bus = (false, bus)
send_when_empty (suc rounds) value bus =
    let (status, polled) = inportb command_port bus in
    let more = send_when_empty rounds value polled in
    if testbit status 1 == 0 then (true, (outportb data_port value polled).1) else more

unfoldable pub write_ps2_bcommand : (command : ℕ) → Io (Unit {0})
write_ps2_bcommand command = outportb command_port command

unfoldable pub write_ps2_bcommand_ret : (command : ℕ) → Io (Option ℕ)
write_ps2_bcommand_ret command = outportb command_port command >> poll_output timeout

unfoldable pub write_ps2_2bcommand : (command : ℕ) → Io Bool
write_ps2_2bcommand command =
    outportb command_port command >> send_when_empty timeout (command / 2 ^ 8)

unfoldable pub write_ps2_2bcommand_ret : (command : ℕ) → Io (Option ℕ)
write_ps2_2bcommand_ret command = do
  done ← write_ps2_2bcommand command
  if done then poll_output timeout else pure none

unfoldable pub flush_out_buff : Io ℕ
flush_out_buff = inportb data_port

unfoldable pub ps2_read_timeout : Io (Option ℕ)
ps2_read_timeout = poll_output timeout

unfoldable pub ps2_write_timeout : (value : ℕ) → Io Bool
ps2_write_timeout value = send_when_empty timeout value

unfoldable pub ps2_send_dev : (port value : ℕ) → Io Bool
ps2_send_dev port value =
    if port == 2
    then write_ps2_bcommand 0xD4 >> ps2_write_timeout value
    else ps2_write_timeout value

-- 0, -1 and -2
pub data Reset : Type 0 where
  reset_ok test_failed nothing_there : Reset

-- the end of `ps2_reset_dev`, which reads the device's type and forgets it
abbrev pub read_pair : (r1 r2 : ℕ) → Io Reset
read_pair r1 r2 =
    if not (r1 == 0xFA && r2 == 0xAA || r1 == 0xAA && r2 == 0xFA)
    then pure test_failed
    else ps2_read_timeout >> pure reset_ok

abbrev pub second_byte : (r1 : ℕ) → Option ℕ → Io Reset
second_byte r1 none = pure nothing_there
second_byte r1 (some r2) = read_pair r1 r2

abbrev pub first_byte : Option ℕ → Io Reset
first_byte none = pure nothing_there
first_byte (some r1) = if r1 == 0xFC then pure test_failed else ps2_read_timeout >>= second_byte r1

unfoldable pub ps2_reset_dev : (port : ℕ) → Io Reset
ps2_reset_dev port = do
  sent ← ps2_send_dev port 0xFF
  if sent then ps2_read_timeout >>= first_byte else pure nothing_there
