-- ===== src/Pci/Spec.antt =====
-- What the scan should find, and that its reads see the configuration space.
use pine_os.Base.{
  ℕ, zero, suc, ◌+◌, ◌*◌, ◌/◌, ◌%◌, ◌^◌, ◌≡◌, refl, ap, ◌∙◌, Bool, List, [], ◌∷◌, ◌++◌, ◌==◌,
  if◌then◌else◌,
}
use pine_os.Pci.{
  Ports, PciDevice, config_address, pci_config_read_dword, pci_config_read_word,
  pci_config_read_byte, read_bars, describe,
}

-- A configuration space that reading does not change: `conf` gives the dword at an address.
pub record IsConfig {W : Type 0} (ports : Ports W) : Type 1 where
  pub conf : ℕ → ℕ
  pub Settled : W → Type 0
  pub reads :
      (w : W) (address : ℕ)
      → Settled w
      → ((ports.inl 0xCFC (ports.outl 0xCF8 address w)).0 ≡ conf address)
        × Settled (ports.inl 0xCFC (ports.outl 0xCF8 address w)).1

-- The values at an offset, and the device that stands at a place.
module _ (conf : ℕ → ℕ) where
  abbrev pub dword_at : ℕ → ℕ → ℕ → ℕ → ℕ
  dword_at bus device function offset = conf (config_address bus device function offset)

  abbrev pub word_at : ℕ → ℕ → ℕ → ℕ → ℕ
  word_at bus device function offset =
      dword_at bus device function (offset / 4 * 4) / 2 ^ (offset / 2 % 2 * 16) % 2 ^ 16

  abbrev pub byte_at : ℕ → ℕ → ℕ → ℕ → ℕ
  byte_at bus device function offset =
      dword_at bus device function (offset / 4 * 4) / 2 ^ (offset % 4 * 8) % 2 ^ 8

  abbrev pub bars_at : ℕ → ℕ → ℕ → ℕ → ℕ → List ℕ
  bars_at zero bus device function offset = []
  bars_at (suc left) bus device function offset =
      dword_at bus device function offset ∷ bars_at left bus device function (offset + 4)

  abbrev pub device_at : ℕ → ℕ → ℕ → PciDevice
  device_at bus device function = record {
    bus = bus;
    device = device;
    function = function;
    vendor_id = word_at bus device function 0x00;
    device_id = word_at bus device function 0x02;
    class_code = byte_at bus device function 0x0B;
    subclass = byte_at bus device function 0x0A;
    interrupt_line = byte_at bus device function 0x3C;
    bars = bars_at 6 bus device function 0x10;
  }

  -- a vendor of all ones: nothing is there
  abbrev pub is_absent : ℕ → ℕ → ℕ → Bool
  is_absent bus device function = word_at bus device function 0x00 == 0xFFFF

  abbrev pub is_single : ℕ → ℕ → Bool
  is_single bus device = byte_at bus device 0 0x0E / 128 % 2 == 0

  -- The functions that are there, from `function` on.
  abbrev pub others : ℕ → ℕ → ℕ → ℕ → List PciDevice
  others zero bus device function = []
  others (suc left) bus device function =
      let rest = others left bus device (function + 1) in
      if is_absent bus device function then rest else device_at bus device function ∷ rest

  -- Function 0 is there, or nothing counts; the others count if its header says so.
  abbrev pub functions : ℕ → ℕ → List PciDevice
  functions bus device =
      if is_absent bus device 0
      then []
      else device_at bus device 0 ∷ (if is_single bus device then [] else others 7 bus device 1)

  unfoldable pub devices_from : ℕ → ℕ → ℕ → List PciDevice
  devices_from zero bus device = []
  devices_from (suc left) bus device = functions bus device ++ devices_from left bus (device + 1)

  unfoldable pub buses_from : ℕ → ℕ → List PciDevice
  buses_from zero bus = []
  buses_from (suc left) bus = devices_from 32 bus 0 ++ buses_from left (bus + 1)

module _ {W : Type 0} (ports : Ports W) (space : IsConfig ports) where
  pub read_dword-conf :
      (b d f o : ℕ) (w : W)
      → space.Settled w
      → (w' : W) × (pci_config_read_dword ports b d f o w ≡ (dword_at space.conf b d f o, w'))
        × space.Settled w'
  unfolding pci_config_read_dword
  read_dword-conf b d f o w h =
      let r = ports.inl 0xCFC (ports.outl 0xCF8 (config_address b d f o) w) in
      let (e, h') = space.reads w (config_address b d f o) h in
      (r.1, ap (λ (v : ℕ). (v, r.1)) e, h')

  pub read_word-conf :
      (b d f o : ℕ) (w : W)
      → space.Settled w
      → (w' : W) × (pci_config_read_word ports b d f o w ≡ (word_at space.conf b d f o, w'))
        × space.Settled w'
  unfolding pci_config_read_word
  read_word-conf b d f o w h =
      let (w', e, h') = read_dword-conf b d f (o / 4 * 4) w h in
      (w', ap (λ (r : ℕ × W). (r.0 / 2 ^ (o / 2 % 2 * 16) % 2 ^ 16, r.1)) e, h')

  pub read_byte-conf :
      (b d f o : ℕ) (w : W)
      → space.Settled w
      → (w' : W) × (pci_config_read_byte ports b d f o w ≡ (byte_at space.conf b d f o, w'))
        × space.Settled w'
  unfolding pci_config_read_byte
  read_byte-conf b d f o w h =
      let (w', e, h') = read_dword-conf b d f (o / 4 * 4) w h in
      (w', ap (λ (r : ℕ × W). (r.0 / 2 ^ (o % 4 * 8) % 2 ^ 8, r.1)) e, h')

  read_bars-conf :
      (n b d f o : ℕ) (w : W)
      → space.Settled w
      → (w' : W) × (read_bars ports n b d f o w ≡ (bars_at space.conf n b d f o, w'))
        × space.Settled w'
  unfolding read_bars
  read_bars-conf zero b d f o w h = (w, refl, h)
  read_bars-conf (suc n) b d f o w h =
      let (w1, e, h1) = read_dword-conf b d f o w h in
      let (w2, e', h2) = read_bars-conf n b d f (o + 4) w1 h1 in
      (
        w2,
        ap (λ (r : ℕ × W). let (bars, w3) = read_bars ports n b d f (o + 4) r.1 in (r.0 ∷ bars, w3))
              e
            ∙ ap (λ (r : List ℕ × W). (dword_at space.conf b d f o ∷ r.0, r.1)) e',
        h2,
      )

  -- The entry for a function is made of what the configuration space holds of it.
  pub describe-device_at :
      (b d f : ℕ) (w : W)
      → space.Settled w
      → (w' : W) × (describe ports b d f (word_at space.conf b d f 0x00) w
          ≡ (device_at space.conf b d f, w'))
        × space.Settled w'
  unfolding describe
  describe-device_at b d f w h =
      let (w1, e1, h1) = read_word-conf b d f 0x02 w h in
      let (w2, e2, h2) = read_byte-conf b d f 0x0B w1 h1 in
      let (w3, e3, h3) = read_byte-conf b d f 0x0A w2 h2 in
      let (w4, e4, h4) = read_byte-conf b d f 0x3C w3 h3 in
      let (w5, e5, h5) = read_bars-conf 6 b d f 0x10 w4 h4 in (w5, rw (e1, e2, e3, e4, e5) refl, h5)
