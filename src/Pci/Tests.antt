-- ===== src/Pci/Tests.antt =====
-- A machine with one network card.
use pine_os.Base.{ℕ, ◌+◌, ◌*◌, ◌^◌, ◌≡◌, refl, [], ◌∷◌, ◌==◌, if◌then◌else◌, take}
use pine_os.Pci.{
  Ports, Pci, PciDevice, config_address, pci_config_read_word, pci_config_read_dword, pci_init,
}
use pine_os.Pci.Spec.{IsConfig, buses_from}
use pine_os.Pci.Found.{pci_init-buses_from}

-- The card is device 3 of bus 0; elsewhere all bits are set.
abbrev space_of : ℕ → ℕ
space_of address =
    if address == 2 ^ 31 + 3 * 2 ^ 11
    then 0x100E_8086
    else if address == 2 ^ 31 + 3 * 2 ^ 11 + 8
    then 0x0200_0000
    else if address == 2 ^ 31 + 3 * 2 ^ 11 + 12
    then 0
    else 0xFFFF_FFFF

-- The state is the address that was written last.
abbrev one_card : Ports ℕ
one_card = record {
  outl = λ port value w. if port == 0xCF8 then value else w;
  inl = λ port w. (space_of w, w);
}

one_card-IsConfig : IsConfig one_card
one_card-IsConfig = record {
  conf = space_of;
  Settled = λ w. Unit {0};
  reads = λ w address h. (refl, tt);
}

abbrev cold : Pci ℕ
cold = record { world = 0; devices = []; console = [] }

card_there : (pci_config_read_word one_card 0 3 0 0 0).0 ≡ 0x8086
unfolding pci_config_read_word pci_config_read_dword config_address
card_there = refl

pci_init-buses_from_example : (pci_init one_card cold).devices ≡ take 64 (buses_from space_of 8 0)
unfolding one_card-IsConfig
pci_init-buses_from_example = pci_init-buses_from one_card one_card-IsConfig cold tt

abbrev card : PciDevice
card = record {
  bus = 0;
  device = 3;
  function = 0;
  vendor_id = 0x8086;
  device_id = 0x100E;
  class_code = 2;
  subclass = 0;
  interrupt_line = 11;
  bars = [];
}

abbrev listed : Pci ℕ
listed = record { world = 0; devices = card ∷ []; console = [] }
