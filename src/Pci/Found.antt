-- ===== src/Pci/Found.antt =====
-- What `pci_init` leaves in the table.
use pine_os.Base.{
  ℕ, zero, suc, ◌≡◌, ◌≤◌, refl, ap, ◌∙◌, sym, Bool, true, false, List, [], ◌∷◌, ◌++◌, length, take,
  arith,
}
use pine_os.Machine.{codes}
use pine_os.Pci.{Ports, PciDevice, Pci, scan_buses, pci_scan_devices, pci_init}
use pine_os.Pci.Spec.{IsConfig, buses_from}
use pine_os.Pci.Search.{Done}
use pine_os.Pci.Buses.{scan_buses-Ends}

take_all : (n : ℕ) (xs : List PciDevice) → length xs ≤ n → take n xs ≡ xs
take_all zero [] le = refl
take_all zero (x ∷ xs) le = absurd (omega arith)
take_all (suc n) [] le = refl
take_all (suc n) (x ∷ xs) le = ap (λ (l : List PciDevice). x ∷ l) (take_all n xs (omega arith))

from_empty : (f : Bool) (t found : List PciDevice) → Done f t [] found → t ≡ take 64 found
from_empty false t found (e, le) = e ∙ sym (take_all 64 found le)
from_empty true t found (e, lt) = e

module _ {W : Type 0} (ports : Ports W) (space : IsConfig ports) where
  pci_scan_devices-buses_from :
      (s : Pci W)
      → space.Settled s.world
      → (pci_scan_devices ports s).1.devices ≡ take 64 (buses_from space.conf 8 0)
  unfolding pci_scan_devices
  pci_scan_devices-buses_from s h =
      let r = scan_buses ports 8 0 [] s.world in
      from_empty r.full r.table (buses_from space.conf 8 0)
        (scan_buses-Ends ports space 8 0 [] s.world h (omega arith)).0

  -- After `pci_init` the table has exactly the functions that are present in the configuration space
  -- of the buses 0 to 7, in order, with the values that the space holds of each: function 0 of each
  -- device, and the others if its header is marked so; the first 64 of them, if there are more.
  pub pci_init-buses_from :
      (s : Pci W)
      → space.Settled s.world
      → (pci_init ports s).devices ≡ take 64 (buses_from space.conf 8 0)
  unfolding pci_init
  pci_init-buses_from s h =
      pci_scan_devices-buses_from
        (record s { devices = []; console = s.console ++ codes "Initializing PCI subsystem...\n" })
        h
