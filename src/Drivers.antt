-- ===== src/Drivers.antt =====
-- What the drivers of the network cards share: the instructions that reach the hardware, the state
-- of the kernel that a driver changes, and the steps that their `setup_device` functions begin with.
pub mod E1000
pub mod Pcnet
mod Tests
use pine_os.Base.{Option, none, some, ℕ, ◌+◌, ◌*◌, ◌/◌, ◌%◌, ◌^◌, List, [], ◌∷◌, ◌++◌, get_or, ℤ}
use pine_os.CString.{Text}
use pine_os.Machine.{codes}
use pine_os.Memory.{Heap}
use pine_os.Ram.{Ram, put_bytes}
use pine_os.Pci.{Ports, PciDevice, Pci, pci_config_read_word, pci_config_write_dword}
use pine_os.Pci.Listing.{hex, hex2, hex4}

-- The instructions `outl` and `inl`, those for bytes and for 16-bit words, and reads and writes of
-- 32-bit registers in memory.
pub record Io (W : Type 0) : Type 0 where
  pub ports : Ports W
  pub outb : ℕ → ℕ → W → W
  pub outw : ℕ → ℕ → W → W
  pub inb : ℕ → W → ℕ × W
  pub inw : ℕ → W → ℕ × W
  pub write_register : ℕ → ℕ → W → W
  pub read_register : ℕ → W → ℕ × W

-- The hardware with the table of PCI devices and the console, the allocator, and the memory.
pub record Host (W : Type 0) : Type 0 where
  pub pci : Pci W
  pub heap : Heap
  pub ram : Ram

-- A search that prints: the device that was found, and the text.
abbrev pub Found : Type 0
Found = Option PciDevice × Text

-- `if (!device) { … }`
abbrev pub or_look : Found → Found → Found
or_look (some d, t) next = (some d, t)
or_look (none, t) (found, more) = (found, t ++ more)

-- `for (i = 7; i >= 0; i--) vga_putchar(hex[(n >> (i * 4)) & 0xF])`
abbrev pub hex8 : ℕ → Text
hex8 n = hex4 (n / 2 ^ 16) ++ hex4 n

-- The length as the drivers print it: no digits from 1000 on; `vga_putchar` takes a `char`.
abbrev pub three_digits : ℕ → Text
three_digits n = ((b'0' + n / 100) % 256) ∷ (b'0' + n / 10 % 10) ∷ (b'0' + n % 10) ∷ []

-- `pci_dev->bar[0]`
abbrev pub bar0 : PciDevice → ℕ
bar0 d = get_or d.bars 0 0

module _ {W : Type 0} where
  abbrev pub say : Text → Host W → Host W
  say t h = record h { pci = record h.pci { console = h.pci.console ++ t } }

  -- what an access to the hardware leaves
  abbrev pub on : Host W → W → Host W
  on h w = record h { pci = record h.pci { world = w } }

  -- The command register of the card, with the bits of `f` set.
  unfoldable pub enable : Io W → (ℕ → ℕ) → PciDevice → Host W → Host W
  enable io f d h =
      let (command, w) = pci_config_read_word io.ports d.bus d.device d.function 0x04 h.pci.world in
      on h (pci_config_write_dword io.ports d.bus d.device d.function 0x04 (f command) w)
