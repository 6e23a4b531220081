-- ===== src/Drivers/Tests.antt =====
-- The drivers on hardware that answers 0 to every read, and does nothing else.
use pine_os.Base.{ℕ, ◌+◌, ◌*◌, ◌≡◌, refl, inl, true, [], ◌∷◌, arith, pos}
use pine_os.Memory.{memory_init, memory_alloc, best_fit, grant, claim_at, claim}
use pine_os.Memory.Run.{boot, Reach-IsValid}
use pine_os.Pci.{PciDevice}
use pine_os.Pci.Listing.{find_id, pci_find_device}
use pine_os.Drivers.{Io, Host, enable}
use pine_os.Drivers.E1000.{Card, cleared}
use pine_os.Drivers.E1000.Setup.{e1000_init}
use pine_os.Drivers.E1000.Room.{Failed, e1000_init-Failed}
use pine_os.Drivers.Pcnet
use pine_os.Drivers.Pcnet.{amd_pcnet_read_csr, amd_pcnet_send_packet, amd_pcnet_receive_packet}
use pine_os.Drivers.Pcnet.Setup.{
  fill_buffers, amd_pcnet_read_mac_address, amd_pcnet_setup_rings, wait_ready, go, after_rings,
  start, amd_pcnet_setup_device, set_up_found, amd_pcnet_detect_device, detected, amd_pcnet_init,
}
use pine_os.Drivers.Pcnet.Ready.{Ready, init, Reach-Ready}
use pine_os.Drivers.Pcnet.Packets.{Received, amd_pcnet_receive_packet-Received}

abbrev quiet : Io ℕ
quiet = record {
  ports = record { outl = λ _ _ w. w; inl = λ _ w. (0, w) };
  outb = λ _ _ w. w;
  outw = λ _ _ w. w;
  inb = λ _ w. (0, w);
  inw = λ _ w. (0, w);
  write_register = λ _ _ w. w;
  read_register = λ _ w. (0, w);
}

abbrev adapter : PciDevice
adapter = record {
  bus = 0;
  device = 3;
  function = 0;
  vendor_id = 0x8086;
  device_id = 0x100E;
  class_code = 2;
  subclass = 0;
  interrupt_line = 11;
  bars = 0xF000_0000 ∷ 0 ∷ 0 ∷ 0 ∷ 0 ∷ 0 ∷ [];
}

-- every byte is 1, so that every descriptor is done
abbrev here : Host ℕ
here = record {
  pci = record { world = 0; devices = adapter ∷ []; console = [] };
  heap = memory_init;
  ram = λ _. 1;
}

abbrev card : Card ℕ
card = record { dev = cleared; host = here }

e1000_init-Failed_example : Failed quiet (e1000_init quiet card)
e1000_init-Failed_example = e1000_init-Failed quiet card (Reach-IsValid boot)

-- a PCnet card that reports that it is ready, and a packet of 0x100 bytes
abbrev eager : Io ℕ
eager = record quiet {
  ports = record { outl = λ _ _ w. w; inl = λ _ w. (0x100, w) };
  inw = λ _ w. (0x500, w);
}

abbrev pcnet_adapter : PciDevice
pcnet_adapter = record adapter { vendor_id = 0x1022; device_id = 0x2000; bars = 0xC001 ∷ [] }

abbrev pcnet_card : Pcnet.Card ℕ
pcnet_card = record {
  dev = Pcnet.cleared;
  host = record here { pci = record here.pci { devices = pcnet_adapter ∷ [] } };
}

abbrev pcnet_running : Pcnet.Card ℕ
pcnet_running = record pcnet_card {
  dev = record Pcnet.cleared {
    rx_buffers = λ i. 0x4_0000 + 2048 * i;
    tx_buffers = λ i. 0x5_0000 + 2048 * i;
    initialized = true;
  };
}

pcnet_init_ok : (amd_pcnet_init eager pcnet_card).0 ≡ pos 0
unfolding amd_pcnet_init amd_pcnet_detect_device set_up_found amd_pcnet_setup_device start
    after_rings go detected amd_pcnet_setup_rings amd_pcnet_read_mac_address fill_buffers wait_ready
    amd_pcnet_read_csr pci_find_device find_id memory_alloc memory_init best_fit grant claim_at
    claim enable
pcnet_init_ok = refl

Reach-Ready_example : Ready (amd_pcnet_init eager pcnet_card).1.dev
Reach-Ready_example = Reach-Ready eager (init pcnet_card pcnet_init_ok)

amd_pcnet_receive_packet-Received_example :
    Received eager 0x2_0000 1500 pcnet_running
      (amd_pcnet_receive_packet eager 0x2_0000 1500 pcnet_running)
amd_pcnet_receive_packet-Received_example =
    amd_pcnet_receive_packet-Received eager 0x2_0000 1500 pcnet_running (inl (omega arith))
