-- ===== src/Acpi/Bars.antt =====
-- The base address registers of include/kernel/Memory/DMA/ACPI_helpers.h, written and read back.
use icarus.Prelude.{ℕ, ◌+◌, ◌*◌, ◌/◌, ◌%◌, ◌^◌, ◌≤◌, ◌<◌, ◌≡◌, false}
use icarus.Acpi.{Bar, bar_is_64bit, decode_phys_bar, encode_phys_bar}

-- a register pair of memory with addresses of 64 bits, and an address that is not 0
pub record IsWide (bar : Bar) : Type 0 where
  pub word : bar.low < 2 ^ 32
  pub upper : bar.high < 2 ^ 32
  pub in_memory : bar.low % 2 ≡ 0
  pub wide : bar.low / 2 % 4 ≡ 2
  pub placed : 16 ≤ bar.low

-- the address that a register pair holds
abbrev pub address_of : Bar → ℕ
address_of bar = bar.high * 2 ^ 32 + bar.low / 16 * 16

-- The register pair of a device with a region of `size` bytes, as the PCI bus documents it: a
-- write does not change the four bits of the flags, and an address that is a multiple of the
-- size is stored.
pub record IsBarRegister (write : (old new : Bar) → Bar) (size : ℕ) : Type 0 where
  pub flags : (old new : Bar) → (write old new).low % 16 ≡ old.low % 16
  pub words : (old new : Bar) → ((write old new).low < 2 ^ 32) × ((write old new).high < 2 ^ 32)
  pub stored :
      (old new : Bar)
      → new.low < 2 ^ 32
      → new.high < 2 ^ 32
      → address_of new % size ≡ 0
      → address_of (write old new) ≡ address_of new

record Encoded (v : ℕ) : Type 0 where
  low : (encode_phys_bar v).low < 2 ^ 32
  high : (encode_phys_bar v).high < 2 ^ 32
  address : address_of (encode_phys_bar v) ≡ v

pub record WrittenBack (bar : Bar) (v : ℕ) (written : Bar) : Type 0 where
  pub decoded : decode_phys_bar bar ≡ address_of bar
  pub read_back : decode_phys_bar written ≡ v
  pub not_wide : bar_is_64bit bar ≡ false
