-- ===== src/Storage/Devices.antt =====
-- The device table of kernel/storage.c, and transfers of several sectors.
use pine_os.Base.{
  ℕ, zero, suc, ◌+◌, ◌*◌, ◌/◌, ◌%◌, ◌==◌, Bool, true, false, Option, none, some, [], ◌∷◌, ◌++◌, ltb,
  if◌then◌else◌, length, get_elem?, add32, drop, ℤ, pos, negsuc,
}
use pine_os.CString.{Text}
use pine_os.Machine.{codes}
use pine_os.Storage.{
  Bus, Driver, ata, usb, Device, Store, ata_wait_ready, ata_wait_drq, read_words, call_read,
  call_write,
}

abbrev pub say : {W : Type 0} → Text → Store W → Store W
say t s = record s { console = s.console ++ t }

abbrev pub max_devices : ℕ
max_devices = 8

-- the digits of a number, as the loops on `size_str` print them
unfoldable pub size_text : ℕ → ℕ → Text
size_text zero n = []
size_text (suc fuel) n =
    let high = size_text fuel (n / 10) in
    if ltb n 10 then (b'0' + n) ∷ [] else high ++ ((b'0' + n % 10) ∷ [])

abbrev pub size_kb : Device → ℕ
size_kb dev = dev.total_sectors * dev.sector_size / 1024

abbrev pub hdd0 : Device
hdd0 = record {
  kind = 2;
  sector_size = 512;
  total_sectors = 2048;
  name = codes "HDD0";
  read_sector = some ata;
  write_sector = some ata;
}

abbrev pub vdisk0 : Device
vdisk0 = record {
  kind = 3;
  sector_size = 512;
  total_sectors = 2048;
  name = codes "VDISK0";
  read_sector = some usb;
  write_sector = some usb;
}

-- A new entry, with what is printed of it, if the table has room.
unfoldable pub add_device : {W : Type 0} → Text → Device → Store W → Store W
add_device label dev s =
    if ltb (length s.devices) max_devices
    then say (label ++ (dev.name ++ (codes " (" ++ (size_text 10 (size_kb dev) ++ codes " KB)\n"))))
        (record s { devices = s.devices ++ (dev ∷ []) })
    else s

-- The table is in use up to `device_count`.
unfoldable pub storage_get_device : {W : Type 0} → ℤ → Store W → Option Device
storage_get_device (negsuc n) s = none
storage_get_device (pos n) s = get_elem? s.devices n

unfoldable pub storage_get_device_count : {W : Type 0} → Store W → ℕ
storage_get_device_count s = length s.devices

-- `usb_storage_init`, whose result is always 0
abbrev pub usb_storage_init : {W : Type 0} → Store W → Store W
usb_storage_init s = say (codes "USB storage driver loaded\n") s

module _ {W : Type 0} (bus : Bus W) where
  -- `IDENTIFY` has been answered: its data are read and dropped.
  unfoldable pub ata_identified : Bool × W → Store W → Bool × Store W
  ata_identified (false, w) s =
      (false, say (codes "ATA IDENTIFY failed\n") (record s { world = w }))
  ata_identified (true, w) s =
      let (bytes, w') = read_words bus 256 w in
      (true, say (codes "ATA/IDE controller initialized successfully\n") (record s { world = w' }))

  unfoldable pub ata_identify : Bool × W → Store W → Bool × Store W
  ata_identify (false, w) s = (false, say (codes "ATA drive not ready\n") (record s { world = w }))
  ata_identify (true, w) s =
      let (status, w') = bus.inb 0x1F7 (bus.outb 0x1F7 0xEC w) in
      if status == 0
      then (false, say (codes "No ATA drive detected\n") (record s { world = w' }))
      else ata_identified (ata_wait_drq bus w') s

  -- The result is whether there is a drive.
  unfoldable pub ata_init : Store W → Bool × Store W
  ata_init s =
      ata_identify (ata_wait_ready bus (bus.outb 0x1F6 0xA0 s.world))
        (say (codes "Initializing ATA/IDE controller...\n") s)

  unfoldable pub ata_detected : Bool × Store W → Store W
  ata_detected (true, s) =
      add_device (codes "Found ATA/IDE drive: ") hdd0
        (say (codes "ATA/IDE storage support initialized\n") s)
  ata_detected (false, s) = say (codes "ATA/IDE initialization failed - using fallback storage\n") s

  unfoldable pub storage_detect_devices : Store W → ℕ × Store W
  storage_detect_devices s =
      let s1 = ata_detected (ata_init (say (codes "Detecting storage devices...\n") s)) in
      let s2 = say (codes "USB storage support initialized\n") (usb_storage_init s1) in
      let s3 = add_device (codes "Created virtual storage device: ") vdisk0 s2 in
      (
        length s3.devices,
        say
            (codes "Storage detection complete. Found "
              ++ ((b'0' + length s3.devices) ∷ codes " device(s)\n"))
            s3,
      )

  unfoldable pub storage_init : Store W → Store W
  storage_init s =
      (storage_detect_devices
        (say (codes "Storage subsystem initialized\n") (record s { devices = [] }))).1

  -- The loop from `sector` on with the count that is left. On a failure the part of the buffer that
  -- has been filled is not in the result.
  unfoldable pub read_loop : Driver → Device → ℕ → ℕ → Store W → Option Text × Store W
  read_loop driver dev sector zero s = (some [], s)
  read_loop driver dev sector (suc left) s =
      let (r, s') = call_read bus driver dev sector s in
      elim r [
        | none ↦ (none, s')
        | some bytes ↦
            let (r', s'') = read_loop driver dev (add32 sector 1) left s' in
            elim r' [ none ↦ (none, s'') | some rest ↦ (some (bytes ++ rest), s'') ]
      ]

  unfoldable pub storage_read_sectors : Device → ℕ → ℕ → Store W → Option Text × Store W
  storage_read_sectors dev start count s = elim dev.read_sector [
    | none ↦ (none, s)
    | some driver ↦ read_loop driver dev start count s
  ]

  unfoldable pub write_loop : Driver → Device → ℕ → ℕ → Text → Store W → Bool × Store W
  write_loop driver dev sector zero bytes s = (true, s)
  write_loop driver dev sector (suc left) bytes s =
      let (r, s') = call_write bus driver dev sector bytes s in
      elim r [
        | false ↦ (false, s')
        | true ↦ write_loop driver dev (add32 sector 1) left (drop dev.sector_size bytes) s'
      ]

  unfoldable pub storage_write_sectors : Device → ℕ → ℕ → Text → Store W → Bool × Store W
  storage_write_sectors dev start count bytes s = elim dev.write_sector [
    | none ↦ (false, s)
    | some driver ↦ write_loop driver dev start count bytes s
  ]
