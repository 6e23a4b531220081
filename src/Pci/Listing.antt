-- ===== src/Pci/Listing.antt =====
-- The table of PCI devices: the searches in it, and what is printed of it.
use pine_os.Base.{
  ℕ, ◌+◌, ◌-◌, ◌/◌, ◌%◌, ◌^◌, ◌&&◌, Option, none, some, List, [], ◌∷◌, ◌++◌, leb, ◌==◌,
  if◌then◌else◌,
}
use pine_os.CString.{Text}
use pine_os.Machine.{codes}
use pine_os.Pci.{PciDevice, Pci}

unfoldable pub find_id : ℕ → ℕ → List PciDevice → Option PciDevice
find_id vendor_id device_id [] = none
find_id vendor_id device_id (d ∷ l) =
    if d.vendor_id == vendor_id && d.device_id == device_id
    then some d
    else find_id vendor_id device_id l

unfoldable pub pci_find_device : {W : Type 0} → ℕ → ℕ → Pci W → Option PciDevice
pci_find_device vendor_id device_id s = find_id vendor_id device_id s.devices

unfoldable pub find_kind : ℕ → ℕ → List PciDevice → Option PciDevice
find_kind class_code subclass [] = none
find_kind class_code subclass (d ∷ l) =
    if d.class_code == class_code && d.subclass == subclass
    then some d
    else find_kind class_code subclass l

unfoldable pub pci_find_class : {W : Type 0} → ℕ → ℕ → Pci W → Option PciDevice
pci_find_class class_code subclass s = find_kind class_code subclass s.devices

-- `hex[n]`
abbrev pub hex : ℕ → ℕ
hex n = if leb n 9 then b'0' + n else b'A' + (n - 10)

abbrev pub hex2 : ℕ → Text
hex2 n = hex (n / 16 % 16) ∷ hex (n % 16) ∷ []

abbrev pub hex4 : ℕ → Text
hex4 n = hex (n / 2 ^ 12 % 16) ∷ hex (n / 2 ^ 8 % 16) ∷ hex2 n

-- two digits, of which the first is no digit for 100 and more; `vga_putchar` takes a `char`
abbrev two_digits : ℕ → Text
two_digits n = ((b'0' + n / 10) % 256) ∷ (b'0' + n % 10) ∷ []

unfoldable pub kind_name : ℕ → ℕ → Text
kind_name class_code subclass =
    if class_code == 0x02
    then (if subclass == 0x00
        then codes "Ethernet Controller"
        else if subclass == 0x80
        then codes "WiFi Controller"
        else codes "Network Controller")
    else codes "Unknown Device"

-- one line of `pci_list_devices`
unfoldable pub device_line : PciDevice → Text
device_line d =
    two_digits d.bus
    ++ (b' '
        ∷ (two_digits d.device
            ++ (b' '
                ∷ (b'0' + d.function)
                ∷ b' '
                ∷ (hex4 d.vendor_id
                    ++ (b' '
                        ∷ (hex4 d.device_id
                            ++ (b' '
                                ∷ (hex2 d.class_code
                                    ++ (b' '
                                        ∷ (hex2 d.subclass
                                            ++ (b' '
                                                ∷ (two_digits d.interrupt_line
                                                    ++ (b' '
                                                        ∷ (kind_name d.class_code d.subclass
                                                            ++ codes "\n"))))))))))))))

unfoldable pub device_lines : List PciDevice → Text
device_lines [] = []
device_lines (d ∷ l) = device_line d ++ device_lines l

unfoldable pub pci_list_devices : {W : Type 0} → Pci W → Pci W
pci_list_devices s = record s {
  console =
      s.console
      ++ (codes "PCI Devices:\n"
          ++ (codes "Bus Dev Fn Vendor Device Class Sub IRQ Description\n"
              ++ (codes "--- --- -- ------ ------ ----- --- --- -----------\n"
                  ++ device_lines s.devices)));
}
