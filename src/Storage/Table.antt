-- ===== src/Storage/Table.antt =====
-- What the device table holds after `storage_init`.
use pine_os.Base.{
  ◌-◌, ◌≡◌, ◌<◌, ◌⊎◌, inl, inr, refl, ap, ◌∙◌, sym, Bool, true, false, none, some, List, [], ◌∷◌,
  ◌++◌, ◌==◌, ltb, length, pos, Bool-cases, subst, get_elem?, get_elem?-append, length-append,
  arith,
}
use pine_os.Machine.{codes}
use pine_os.CString.{Text}
use pine_os.Storage.{Bus, Device, Store}
use pine_os.Storage.Devices.{
  say, hdd0, vdisk0, add_device, usb_storage_init, storage_get_device, storage_get_device_count,
  ata_identified, ata_identify, ata_init, ata_detected, storage_detect_devices, storage_init,
}

module _ {W : Type 0} (bus : Bus W) where
  ata_identified-devices :
      (x : Bool × W) (s : Store W) → (ata_identified bus x s).1.devices ≡ s.devices
  unfolding ata_identified
  ata_identified-devices (false, w) s = refl
  ata_identified-devices (true, w) s = refl

  ata_identify-devices : (x : Bool × W) (s : Store W) → (ata_identify bus x s).1.devices ≡ s.devices
  unfolding ata_identify
  ata_identify-devices (false, w) s = refl
  ata_identify-devices (true, w) s =
      elim (Bool-cases ((bus.inb 0x1F7 (bus.outb 0x1F7 0xEC w)).0 == 0)) [
        | inl y ↦ rw y refl
        | inr n ↦ rw n (ata_identified-devices _ s)
      ]

  ata_init-devices : (s : Store W) → (ata_init bus s).1.devices ≡ s.devices
  unfolding ata_init
  ata_init-devices s = ata_identify-devices _ _

  add_device-devices :
      (label : Text) (dev : Device) (s : Store W)
      → length s.devices < 8
      → (add_device label dev s).devices ≡ s.devices ++ (dev ∷ [])
  unfolding add_device
  add_device-devices label dev s lt =
      let room : ltb (length s.devices) 8 ≡ true = ground arith in rw room refl

  ata_detected-devices :
      (x : Bool × Store W)
      → x.1.devices ≡ []
      → ((ata_detected bus x).devices ≡ hdd0 ∷ []) ⊎ ((ata_detected bus x).devices ≡ [])
  unfolding ata_detected
  ata_detected-devices (true, s) e = inl (
      add_device-devices (codes "Found ATA/IDE drive: ") hdd0
        (say (codes "ATA/IDE storage support initialized\n") s) (rw e (omega arith))
      ∙ ap (λ (l : List Device). l ++ (hdd0 ∷ [])) e)
  ata_detected-devices (false, s) e = inr e

  detected :
      (s : Store W) (before : List Device)
      → (ata_detected bus (ata_init bus (say (codes "Detecting storage devices...\n") s))).devices
        ≡ before
      → length before < 8
      → (storage_detect_devices bus s).1.devices ≡ before ++ (vdisk0 ∷ [])
  unfolding storage_detect_devices
  detected s before f lt =
      let s1 = ata_detected bus (ata_init bus (say (codes "Detecting storage devices...\n") s)) in
      add_device-devices (codes "Created virtual storage device: ") vdisk0
        (say (codes "USB storage support initialized\n") (usb_storage_init s1))
        (subst (λ (l : List Device). length l < 8) (sym f) lt)
      ∙ ap (λ (l : List Device). l ++ (vdisk0 ∷ [])) f

  table :
      (s : Store W) (l : List Device)
      → (storage_init bus s).devices ≡ l ++ (vdisk0 ∷ [])
      → (storage_get_device
            (pos (storage_get_device_count (storage_init bus s) - 1))
            (storage_init bus s)
          ≡ some vdisk0)
        × (storage_get_device
              (pos (storage_get_device_count (storage_init bus s)))
              (storage_init bus s)
            ≡ none)
  unfolding storage_get_device storage_get_device_count
  table s l e =
      let all = l ++ (vdisk0 ∷ []) in
      let size = length-append l (vdisk0 ∷ []) in
      (
        ap (λ (d : List Device). get_elem? d (length d - 1)) e
            ∙ get_elem?-append l (vdisk0 ∷ []) (length all - 1) 0 (omega arith),
        ap (λ (d : List Device). get_elem? d (length d)) e
            ∙ get_elem?-append l (vdisk0 ∷ []) (length all) 1 (omega arith),
      )

  -- Whatever stands behind the ports, the table has the virtual device after `storage_init`, as its
  -- last entry, with the disk before it or nothing; no entry is given for the index after it.
  pub storage_init-storage_get_device :
      (s : Store W)
      → (((storage_init bus s).devices ≡ hdd0 ∷ vdisk0 ∷ [])
          ⊎ ((storage_init bus s).devices ≡ vdisk0 ∷ []))
        × (storage_get_device
              (pos (storage_get_device_count (storage_init bus s) - 1))
              (storage_init bus s)
            ≡ some vdisk0)
        × (storage_get_device
              (pos (storage_get_device_count (storage_init bus s)))
              (storage_init bus s)
            ≡ none)
  unfolding storage_init
  storage_init-storage_get_device s =
      let s0 = say (codes "Storage subsystem initialized\n") (record s { devices = [] }) in
      elim (ata_detected-devices (ata_init bus (say (codes "Detecting storage devices...\n") s0))
        (ata_init-devices _)) [
          | inl e ↦
              let d = detected s0 (hdd0 ∷ []) e (omega arith) in
              let (p, q) = table s (hdd0 ∷ []) d in (inl d, p, q)
          | inr e ↦
              let d = detected s0 [] e (omega arith) in let (p, q) = table s [] d in (inr d, p, q)
        ]
