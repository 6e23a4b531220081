-- ===== src/Storage.antt =====
-- Block storage, kernel/storage.c: the ATA driver, the virtual device over it, transfers of several
-- sectors and the device table. The ports and what is behind them are a parameter.
pub mod Drive
pub mod Transfer
pub mod Steps
pub mod Sectors
pub mod Fallback
pub mod Table
pub mod Devices
mod Simulated
mod Conforms
mod Tests
use pine_os.Base.{
  ℕ, zero, suc, ◌+◌, ◌-◌, ◌*◌, ◌/◌, ◌%◌, ◌^◌, Bool, true, false, ◌&&◌, not, Option, none, some,
  List, [], ◌∷◌, ◌++◌, ltb, leb, ◌==◌, if◌then◌else◌, add32, get_or, take, drop,
}
use pine_os.CString.{Text}

-- `inb`, `outb`, `inw` and `outw` over the state of the hardware
pub record Bus (W : Type 0) : Type 0 where
  pub inb : ℕ → W → ℕ × W
  pub outb : ℕ → ℕ → W → W
  pub inw : ℕ → W → ℕ × W
  pub outw : ℕ → ℕ → W → W

-- The functions that `read_sector` and `write_sector` point to.
pub data Driver : Type 0 where
  ata : Driver
  usb : Driver

-- `storage_device_t`; `none` is the null pointer.
pub record Device : Type 0 where
  pub kind : ℕ
  pub sector_size : ℕ
  pub total_sectors : ℕ
  pub name : Text
  pub read_sector : Option Driver
  pub write_sector : Option Driver

-- the hardware, the bytes from `persistent_storage_buffer` on, the device table and the console
pub record Store (W : Type 0) : Type 0 where
  pub world : W
  pub backup : ℕ → ℕ
  pub devices : List Device
  pub console : Text

abbrev pub port_data : ℕ
port_data = 0x1F0

abbrev pub port_status : ℕ
port_status = 0x1F7

abbrev pub cmd_read : ℕ
cmd_read = 0x20

abbrev pub cmd_write : ℕ
cmd_write = 0x30

-- `status & ATA_STATUS_BSY`, and the bits RDY, DRQ and ERR
abbrev pub is_busy : ℕ → Bool
is_busy status = status / 128 % 2 == 1

abbrev pub is_ready : ℕ → Bool
is_ready status = not (is_busy status) && status / 64 % 2 == 1

abbrev pub has_data : ℕ → Bool
has_data status = not (is_busy status) && status / 8 % 2 == 1

abbrev pub has_error : ℕ → Bool
has_error status = status % 2 == 1

abbrev pub timeout : ℕ
timeout = 10000

module _ {W : Type 0} (bus : Bus W) where
  -- The polls that are left.
  unfoldable pub wait_ready : ℕ → W → Bool × W
  wait_ready zero w = (false, w)
  wait_ready (suc left) w =
      let (status, w') = bus.inb port_status w in
      let rest = wait_ready left w' in if is_ready status then (true, w') else rest

  unfoldable pub ata_wait_ready : W → Bool × W
  ata_wait_ready w = wait_ready timeout w

  unfoldable pub wait_drq : ℕ → W → Bool × W
  wait_drq zero w = (false, w)
  wait_drq (suc left) w =
      let (status, w') = bus.inb port_status w in
      let rest = wait_drq left w' in
      if has_data status then (true, w') else if has_error status then (false, w') else rest

  unfoldable pub ata_wait_drq : W → Bool × W
  ata_wait_drq w = wait_drq timeout w

  -- The sector count, the bytes of the sector's number, the drive, and the command.
  unfoldable pub ata_command : ℕ → ℕ → W → W
  ata_command sector cmd w =
      let w1 = bus.outb 0x1F2 1 w in
      let w2 = bus.outb 0x1F3 (sector % 256) w1 in
      let w3 = bus.outb 0x1F4 (sector / 2 ^ 8 % 256) w2 in
      let w4 = bus.outb 0x1F5 (sector / 2 ^ 16 % 256) w3 in
      let w5 = bus.outb 0x1F6 (0xE0 + sector / 2 ^ 24 % 16) w4 in bus.outb 0x1F7 cmd w5

  -- `buf[i] = inw(ATA_PRIMARY_DATA)`, on a buffer of bytes
  unfoldable pub read_words : ℕ → W → Text × W
  read_words zero w = ([], w)
  read_words (suc n) w =
      let (v, w') = bus.inw port_data w in
      let (rest, w'') = read_words n w' in (v % 256 ∷ v / 256 % 256 ∷ rest, w'')

  unfoldable pub write_words : ℕ → Text → W → W
  write_words zero bytes w = w
  write_words (suc n) bytes w =
      write_words n (drop 2 bytes)
        (bus.outw port_data (get_or bytes 0 0 + 256 * get_or bytes 1 0) w)

  abbrev pub words : ℕ
  words = 256

  unfoldable pub read_data : Bool × W → Option Text × W
  read_data (false, w) = (none, w)
  read_data (true, w) = let (bytes, w') = read_words words w in (some bytes, w')

  -- What the two `read_sector` functions share: `none` if the drive does not get ready.
  unfoldable pub read_from : ℕ → Bool × W → Option Text × W
  read_from sector (false, w) = (none, w)
  read_from sector (true, w) = read_data (ata_wait_drq (ata_command sector cmd_read w))

  unfoldable pub write_data : Text → Bool × W → Bool × W
  write_data bytes (false, w) = (false, w)
  write_data bytes (true, w) = ata_wait_ready (write_words words bytes w)

  unfoldable pub write_to : ℕ → Text → Bool × W → Bool × W
  write_to sector bytes (false, w) = (false, w)
  write_to sector bytes (true, w) = write_data bytes (ata_wait_drq (ata_command sector cmd_write w))

  -- The result is the sector, or `none` for -1, which leaves the buffer as it is.
  unfoldable pub ata_read_sector : Device → ℕ → Store W → Option Text × Store W
  ata_read_sector dev sector s =
      if leb dev.total_sectors sector
      then (none, s)
      else (let (r, w) = read_from sector (ata_wait_ready s.world) in (r, record s { world = w }))

  unfoldable pub ata_write_sector : Device → ℕ → Text → Store W → Bool × Store W
  ata_write_sector dev sector bytes s =
      if leb dev.total_sectors sector
      then (false, s)
      else (let (r, w) = write_to sector bytes (ata_wait_ready s.world) in
          (r, record s { world = w }))

-- `memory_copy(buffer, &persistent_storage_buffer[from], n)`
unfoldable pub read_backup : (ℕ → ℕ) → ℕ → ℕ → Text
read_backup backup from zero = []
read_backup backup from (suc n) = backup from ∷ read_backup backup (from + 1) n

-- `memory_copy(&persistent_storage_buffer[from], buffer, n)`
unfoldable pub write_backup : (ℕ → ℕ) → ℕ → ℕ → Text → ℕ → ℕ
write_backup backup from n bytes j =
    if leb from j && ltb j (from + n) then get_or bytes (j - from) 0 else backup j

-- The virtual device begins at this sector of the drive.
abbrev pub usb_base : ℕ
usb_base = 100

abbrev pub or_backup : Option Text → Text → Text
or_backup none bytes = bytes
or_backup (some bytes) old = bytes

module _ {W : Type 0} (bus : Bus W) where
  unfoldable pub usb_storage_read_sector : Device → ℕ → Store W → Option Text × Store W
  usb_storage_read_sector dev sector s =
      if leb dev.total_sectors sector
      then (none, s)
      else (let (r, w) = read_from bus (add32 sector usb_base) (ata_wait_ready bus s.world) in
          let saved = read_backup s.backup (sector * dev.sector_size) dev.sector_size in
          (some (or_backup r saved), record s { world = w }))

  -- Whether the drive takes the sector or not, it is copied to memory and the result is 0.
  unfoldable pub usb_storage_write_sector : Device → ℕ → Text → Store W → Bool × Store W
  usb_storage_write_sector dev sector bytes s =
      if leb dev.total_sectors sector
      then (false, s)
      else (let (r, w) = write_to bus (add32 sector usb_base) bytes (ata_wait_ready bus s.world) in
          (
            true,
            record s {
              world = w;
              backup = write_backup s.backup (sector * dev.sector_size) dev.sector_size bytes;
            },
          ))

  unfoldable pub call_read : Driver → Device → ℕ → Store W → Option Text × Store W
  call_read ata dev sector s = ata_read_sector bus dev sector s
  call_read usb dev sector s = usb_storage_read_sector dev sector s

  unfoldable pub call_write : Driver → Device → ℕ → Text → Store W → Bool × Store W
  call_write ata dev sector bytes s = ata_write_sector bus dev sector bytes s
  call_write usb dev sector bytes s = usb_storage_write_sector dev sector bytes s
