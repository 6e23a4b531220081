-- ===== src/Pci.antt =====
-- PCI configuration space and the table of devices, kernel/pci.c. The two 32-bit ports, and what is
-- behind them, are a parameter.
pub mod Listing
pub mod Search
pub mod Buses
pub mod Found
pub mod Ids
pub mod Spec
mod Tests
use pine_os.Base.{
  ℕ, zero, suc, ◌+◌, ◌-◌, ◌*◌, ◌/◌, ◌%◌, ◌^◌, Bool, true, false, ◌&&◌, Option, none, some, List, [],
  ◌∷◌, ◌++◌, leb, ◌==◌, if◌then◌else◌, length,
}
use pine_os.CString.{Text}
use pine_os.Machine.{codes}

-- `outl` and `inl`
pub record Ports (W : Type 0) : Type 0 where
  pub outl : ℕ → ℕ → W → W
  pub inl : ℕ → W → ℕ × W

-- `pci_device_t`; every entry of the table below `pci_device_count` is used.
pub record PciDevice : Type 0 where
  pub bus : ℕ
  pub device : ℕ
  pub function : ℕ
  pub vendor_id : ℕ
  pub device_id : ℕ
  pub class_code : ℕ
  pub subclass : ℕ
  pub interrupt_line : ℕ
  pub bars : List ℕ

-- The hardware, the used entries of the table, and the console.
pub record Pci (W : Type 0) : Type 0 where
  pub world : W
  pub devices : List PciDevice
  pub console : Text

abbrev pub max_pci_devices : ℕ
max_pci_devices = 64

-- The parts do not overlap, for a device below 32 and a function below 8.
unfoldable pub config_address : ℕ → ℕ → ℕ → ℕ → ℕ
config_address bus device function offset =
    2 ^ 31 + bus * 2 ^ 16 + device * 2 ^ 11 + function * 2 ^ 8 + offset / 4 * 4

-- What the loops go on with: whether the table was full, so that the scan returns.
pub record Scan (W : Type 0) : Type 0 where
  pub full : Bool
  pub table : List PciDevice
  pub world : W

module _ {W : Type 0} (ports : Ports W) where
  unfoldable pub pci_config_read_dword : ℕ → ℕ → ℕ → ℕ → W → ℕ × W
  pci_config_read_dword bus device function offset w =
      ports.inl 0xCFC (ports.outl 0xCF8 (config_address bus device function offset) w)

  unfoldable pub pci_config_read_word : ℕ → ℕ → ℕ → ℕ → W → ℕ × W
  pci_config_read_word bus device function offset w =
      let (dword, w') = pci_config_read_dword bus device function (offset / 4 * 4) w in
      (dword / 2 ^ (offset / 2 % 2 * 16) % 2 ^ 16, w')

  unfoldable pub pci_config_read_byte : ℕ → ℕ → ℕ → ℕ → W → ℕ × W
  pci_config_read_byte bus device function offset w =
      let (dword, w') = pci_config_read_dword bus device function (offset / 4 * 4) w in
      (dword / 2 ^ (offset % 4 * 8) % 2 ^ 8, w')

  unfoldable pub pci_config_write_dword : ℕ → ℕ → ℕ → ℕ → ℕ → W → W
  pci_config_write_dword bus device function offset value w =
      ports.outl 0xCFC value (ports.outl 0xCF8 (config_address bus device function offset) w)

  -- the loop over the base addresses, from `offset` on
  unfoldable pub read_bars : ℕ → ℕ → ℕ → ℕ → ℕ → W → List ℕ × W
  read_bars zero bus device function offset w = ([], w)
  read_bars (suc left) bus device function offset w =
      let (bar, w1) = pci_config_read_dword bus device function offset w in
      let (bars, w2) = read_bars left bus device function (offset + 4) w1 in (bar ∷ bars, w2)

  -- a new entry of the table
  unfoldable pub describe : ℕ → ℕ → ℕ → ℕ → W → PciDevice × W
  describe bus device function vendor_id w =
      let (device_id, w1) = pci_config_read_word bus device function 0x02 w in
      let (class_code, w2) = pci_config_read_byte bus device function 0x0B w1 in
      let (subclass, w3) = pci_config_read_byte bus device function 0x0A w2 in
      let (interrupt_line, w4) = pci_config_read_byte bus device function 0x3C w3 in
      let (bars, w5) = read_bars 6 bus device function 0x10 w4 in
      (
        record {
          bus = bus;
          device = device;
          function = function;
          vendor_id = vendor_id;
          device_id = device_id;
          class_code = class_code;
          subclass = subclass;
          interrupt_line = interrupt_line;
          bars = bars;
        },
        w5,
      )

  -- The loop over the functions 1 to 7, none of which ends it but a full table.
  unfoldable pub scan_others : ℕ → ℕ → ℕ → ℕ → List PciDevice → W → Scan W
  scan_others zero bus device function table w = record { full = false; table = table; world = w }
  scan_others (suc left) bus device function table w =
      let (vendor_id, w1) = pci_config_read_word bus device function 0x00 w in
      elim (vendor_id == 0xFFFF) [
        | true ↦ scan_others left bus device (function + 1) table w1
        | false ↦ elim (leb max_pci_devices (length table)) [
          | true ↦ record { full = true; table = table; world = w1 }
          | false ↦
              let (dev, w2) = describe bus device function vendor_id w1 in
              scan_others left bus device (function + 1) (table ++ (dev ∷ [])) w2
        ]
      ]

  -- The functions of a device: the first one decides whether there are others.
  unfoldable pub scan_device : ℕ → ℕ → List PciDevice → W → Scan W
  scan_device bus device table w =
      let (vendor_id, w1) = pci_config_read_word bus device 0 0x00 w in
      elim (vendor_id == 0xFFFF) [
        | true ↦ record { full = false; table = table; world = w1 }
        | false ↦ elim (leb max_pci_devices (length table)) [
          | true ↦ record { full = true; table = table; world = w1 }
          | false ↦
              let (dev, w2) = describe bus device 0 vendor_id w1 in
              let (header_type, w3) = pci_config_read_byte bus device 0 0x0E w2 in
              elim (header_type / 128 % 2 == 0) [
                | true ↦ record { full = false; table = table ++ (dev ∷ []); world = w3 }
                | false ↦ scan_others 7 bus device 1 (table ++ (dev ∷ [])) w3
              ]
        ]
      ]

  unfoldable pub scan_devices : ℕ → ℕ → ℕ → List PciDevice → W → Scan W
  scan_devices zero bus device table w = record { full = false; table = table; world = w }
  scan_devices (suc left) bus device table w =
      let r = scan_device bus device table w in
      elim r.full [ true ↦ r | false ↦ scan_devices left bus (device + 1) r.table r.world ]

  unfoldable pub scan_buses : ℕ → ℕ → List PciDevice → W → Scan W
  scan_buses zero bus table w = record { full = false; table = table; world = w }
  scan_buses (suc left) bus table w =
      let r = scan_devices 32 bus 0 table w in
      elim r.full [ true ↦ r | false ↦ scan_buses left (bus + 1) r.table r.world ]

  abbrev pub warning : Bool → Text
  warning full =
      if full then codes "Warning: Too many PCI devices, some may not be detected\n" else []

  unfoldable pub pci_scan_devices : Pci W → ℕ × Pci W
  pci_scan_devices s =
      let r = scan_buses 8 0 [] s.world in
      (
        length r.table,
        record s { world = r.world; devices = r.table; console = s.console ++ warning r.full },
      )

  unfoldable pub pci_init : Pci W → Pci W
  pci_init s =
      let (found, s') = pci_scan_devices (record s {
        devices = [];
        console = s.console ++ codes "Initializing PCI subsystem...\n";
      }) in
      record s' {
        console =
            s'.console
            ++ (codes "PCI scan complete. Found "
                ++ ((b'0' + found / 10) ∷ (b'0' + found % 10) ∷ codes " devices\n"));
      }
