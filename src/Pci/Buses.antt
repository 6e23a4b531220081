-- ===== src/Pci/Buses.antt =====
-- The loops of the scan over devices and buses.

use pine_os.Base.{
  ℕ, zero, suc, ◌+◌, ◌/◌, ◌%◌, ◌≡◌, ◌≤◌, inl, inr, ap, ◌∙◌, sym, subst, Bool, true, false, List, [],
  ◌∷◌, ◌++◌, leb, ◌==◌, if◌then◌else◌, length, Bool-cases,
}
use pine_os.Pci.{
  Ports, PciDevice, Scan, pci_config_read_word, pci_config_read_byte, describe, scan_others,
  scan_device, scan_devices, scan_buses,
}
use pine_os.Pci.Spec.{
  IsConfig, word_at, byte_at, is_absent, is_single, others, functions, devices_from, buses_from,
  read_word-conf, read_byte-conf, describe-device_at,
}
use pine_os.Pci.Search.{
  Done, Done-then, Done-stop, Done-full, Done-none, Ends, pick, stopped, going, entry, added, room,
  at_limit, scan_others-Ends,
}

module _ {W : Type 0} (ports : Ports W) (space : IsConfig ports) where
  abbrev device_after : Bool → ℕ → ℕ → List PciDevice → W → Scan W
  device_after single b d t w = elim single [
    | true ↦ going ports space t w
    | false ↦ scan_others ports 7 b d 1 t w
  ]

  device_step :
      (b d : ℕ) (t : List PciDevice) (w w1 w2 w3 : W)
      → pci_config_read_word ports b d 0 0x00 w ≡ (word_at space.conf b d 0 0x00, w1)
      → describe ports b d 0 (word_at space.conf b d 0 0x00) w1 ≡ (entry ports space b d 0, w2)
      → pci_config_read_byte ports b d 0 0x0E w2 ≡ (byte_at space.conf b d 0 0x0E, w3)
      → scan_device ports b d t w
        ≡ pick ports space
            (is_absent space.conf b d 0)
            (leb 64 (length t))
            (going ports space t w1)
            (stopped ports space t w1)
            (device_after (is_single space.conf b d) b d (t ++ (entry ports space b d 0 ∷ [])) w3)
  unfolding scan_device
  device_step b d t w w1 w2 w3 e1 e2 e3 =
      ap
        (λ (r : ℕ × W).
          pick ports space (r.0 == 0xFFFF) (leb 64 (length t)) (going ports space t r.1)
            (stopped ports space t r.1)
            (let (dev, w') = describe ports b d 0 r.0 r.1 in
              let (header, w'') = pci_config_read_byte ports b d 0 0x0E w' in
              device_after (header / 128 % 2 == 0) b d (t ++ (dev ∷ [])) w''))
        e1
      ∙ ap
          (λ (r : PciDevice × W).
            pick ports space (is_absent space.conf b d 0) (leb 64 (length t))
              (going ports space t w1) (stopped ports space t w1)
              (let (header, w'') = pci_config_read_byte ports b d 0 0x0E r.1 in
                device_after (header / 128 % 2 == 0) b d (t ++ (r.0 ∷ [])) w''))
          e2
      ∙ ap
          (λ (r : ℕ × W).
            pick ports space (is_absent space.conf b d 0) (leb 64 (length t))
              (going ports space t w1) (stopped ports space t w1)
              (device_after (r.0 / 128 % 2 == 0) b d (t ++ (entry ports space b d 0 ∷ [])) r.1))
          e3

  device_after-Ends :
      (single : Bool) (b d : ℕ) (t : List PciDevice) (w : W)
      → space.Settled w
      → length t ≤ 64
      → Ends ports space
          (device_after single b d t w)
          t
          (if single then [] else others space.conf 7 b d 1)
  device_after-Ends true b d t w h le = (Done-none t le, h)
  device_after-Ends false b d t w h le = scan_others-Ends ports space 7 b d 1 t w h le

  scan_device-Ends :
      (b d : ℕ) (t : List PciDevice) (w : W)
      → space.Settled w
      → length t ≤ 64
      → Ends ports space (scan_device ports b d t w) t (functions space.conf b d)
  scan_device-Ends b d t w h le =
      let (w1, e1, h1) = read_word-conf ports space b d 0 0x00 w h in
      let (w2, e2, h2) = describe-device_at ports space b d 0 w1 h1 in
      let (w3, e3, h3) = read_byte-conf ports space b d 0 0x0E w2 h2 in
      let dev = entry ports space b d 0 in
      let rest = if is_single space.conf b d then [] else others space.conf 7 b d 1 in
      subst (λ (r : Scan W). Ends ports space r t (functions space.conf b d))
        (sym (device_step b d t w w1 w2 w3 e1 e2 e3))
        (elim (Bool-cases (is_absent space.conf b d 0)) [
          | inl y ↦ rw y (Done-none t le, h1)
          | inr n ↦ elim (Bool-cases (leb 64 (length t))) [
            | inl y ↦ rw (n, y) (Done-full t rest dev (at_limit ports space t le y), h1)
            | inr m ↦
                let le' = room ports space t dev m in
                let there =
                  device_after-Ends (is_single space.conf b d) b d (t ++ (dev ∷ [])) w3 h3 le' in
                rw (n, m) (added ports space t rest dev _ le' there)
          ]
        ])

  -- One loop after another, as long as the table is not full.
  abbrev next : Scan W → (List PciDevice → W → Scan W) → Scan W
  next r k = elim r.full [ true ↦ r | false ↦ k r.table r.world ]

  next-Ends :
      (r : Scan W) (k : List PciDevice → W → Scan W) (t s1 s2 : List PciDevice)
      → Ends ports space r t s1
      → ((t' : List PciDevice) (w : W)
          → space.Settled w
          → length t' ≤ 64
          → Ends ports space (k t' w) t' s2)
      → Ends ports space (next r k) t (s1 ++ s2)
  next-Ends r k t s1 s2 (done, h) more = go r.full r.table r.world done h
    where
      go :
          (f : Bool) (t1 : List PciDevice) (w : W)
          → Done f t1 t s1
          → space.Settled w
          → Ends ports space (next (record { full = f; table = t1; world = w }) k) t (s1 ++ s2)
      go true t1 w done h = (Done-stop t1 t s1 s2 done, h)
      go false t1 w (e, le) h =
          let le' = subst (λ (l : List PciDevice). length l ≤ 64) (sym e) le in
          let (after, h') = more t1 w h le' in
          (Done-then (k t1 w).full (k t1 w).table t1 t s1 s2 (e, le) after, h')

  scan_devices-Ends :
      (left b d : ℕ) (t : List PciDevice) (w : W)
      → space.Settled w
      → length t ≤ 64
      → Ends ports space (scan_devices ports left b d t w) t (devices_from space.conf left b d)
  unfolding scan_devices devices_from
  scan_devices-Ends zero b d t w h le = (Done-none t le, h)
  scan_devices-Ends (suc left) b d t w h le =
      next-Ends (scan_device ports b d t w) (scan_devices ports left b (d + 1)) t
        (functions space.conf b d) (devices_from space.conf left b (d + 1))
        (scan_device-Ends b d t w h le)
        (λ t' w' h' le'. scan_devices-Ends left b (d + 1) t' w' h' le')

  pub scan_buses-Ends :
      (left b : ℕ) (t : List PciDevice) (w : W)
      → space.Settled w
      → length t ≤ 64
      → Ends ports space (scan_buses ports left b t w) t (buses_from space.conf left b)
  unfolding scan_buses buses_from
  scan_buses-Ends zero b t w h le = (Done-none t le, h)
  scan_buses-Ends (suc left) b t w h le =
      next-Ends (scan_devices ports 32 b 0 t w) (scan_buses ports left (b + 1)) t
        (devices_from space.conf 32 b 0) (buses_from space.conf left (b + 1))
        (scan_devices-Ends 32 b 0 t w h le)
        (λ t' w' h' le'. scan_buses-Ends left (b + 1) t' w' h' le')
