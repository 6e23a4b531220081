-- ===== src/Storage/Tests.antt =====
-- The disk and the virtual device over a simulated drive.
use pine_os.Base.{
  ◌≢◌, ℕ, ◌+◌, ◌-◌, ◌⊎◌, pos, ◌≡◌, refl, true, none, some, [], ◌∷◌, replicate, arith,
  length-replicate,
}
use pine_os.CString.{Text}
use pine_os.Storage.{
  ata_read_sector, Bus, usb, Store, usb_storage_read_sector, usb_storage_write_sector,
}
use pine_os.Storage.Table.{storage_init-storage_get_device}
use pine_os.Storage.Devices.{
  storage_init, storage_get_device, storage_get_device_count, hdd0, vdisk0, storage_read_sectors,
  storage_write_sectors,
}
use pine_os.Storage.Simulated.{Sim, idle, twice, sim}
use pine_os.Storage.Conforms.{sim-IsDrive, sim-Idle, AreBytes-replicate}
use pine_os.Storage.Steps.{IsSector, concat}
use pine_os.Storage.Sectors.{
  storage_read_sectors-storage_write_sectors, usb_storage_write_sector-ata_read_sector,
}
use pine_os.Storage.Fallback.{polled, usb_storage_read_sector-usb_storage_write_sector}

abbrev blank : Store Sim
blank = record {
  world = record {
    sectors = λ l. [];
    low = 0;
    mid = 0;
    high = 0;
    top = 0;
    mode = idle;
    rest = twice;
  };
  backup = λ i. 0;
  devices = [];
  console = [];
}

abbrev sector : Text
sector = replicate 512 7

sector-IsSector : IsSector sector
sector-IsSector = record {
  size = length-replicate {A = ℕ} 512 7;
  bytes = AreBytes-replicate 512 7 (omega arith);
}

storage_read_sectors-storage_write_sectors_example :
    (s' : Store Sim) × (s'' : Store Sim) × (storage_write_sectors sim vdisk0 7 2
        (concat (sector ∷ sector ∷ []))
        blank
      ≡ (true, s'))
    × (storage_read_sectors sim vdisk0 7 2 s' ≡ (some (concat (sector ∷ sector ∷ [])), s''))
    × (sim-IsDrive.disk s'.world 106 ≡ sim-IsDrive.disk blank.world 106)
storage_read_sectors-storage_write_sectors_example =
    storage_read_sectors-storage_write_sectors sim sim-IsDrive usb vdisk0 (sector ∷ sector ∷ []) 7
      106 blank refl refl refl (omega arith) (omega arith) (sector-IsSector, (sector-IsSector, tt))
      (sim-Idle blank.world) (λ i lo hi e. omega arith)

usb_storage_write_sector-ata_read_sector_example :
    (s' : Store Sim) × (s'' : Store Sim) × (usb_storage_write_sector sim vdisk0 7 sector blank
      ≡ (true, s'))
    × (ata_read_sector sim hdd0 107 s' ≡ (some sector, s''))
    × ((l : ℕ) → l ≢ 107 → sim-IsDrive.disk s'.world l ≡ sim-IsDrive.disk blank.world l)
usb_storage_write_sector-ata_read_sector_example =
    usb_storage_write_sector-ata_read_sector sim sim-IsDrive hdd0 vdisk0 7 sector blank
      (omega arith) (omega arith) (omega arith) (omega arith) sector-IsSector (sim-Idle blank.world)

-- ports with nothing behind them, which count the reads of the status
abbrev floating : Bus ℕ
floating = record {
  inb = λ p w. (0xff, w + 1);
  outb = λ p v w. w;
  inw = λ p w. (0xffff, w);
  outw = λ p v w. w;
}

abbrev bare : Store ℕ
bare = record { world = 0; backup = λ i. 0; devices = []; console = [] }

usb_storage_read_sector-usb_storage_write_sector_example :
    (s' : Store ℕ) × (s'' : Store ℕ) × (usb_storage_write_sector floating vdisk0 7 sector bare
      ≡ (true, s'))
    × (usb_storage_read_sector floating vdisk0 7 s' ≡ (some sector, s''))
    × (s'.world ≡ polled floating 10000 0)
    × (s''.world ≡ polled floating 10000 s'.world)
usb_storage_read_sector-usb_storage_write_sector_example =
    usb_storage_read_sector-usb_storage_write_sector floating (λ w. refl) vdisk0 7 sector bare
      (omega arith) (length-replicate {A = ℕ} 512 7)

storage_init-storage_get_device_example :
    (((storage_init sim blank).devices ≡ hdd0 ∷ vdisk0 ∷ [])
      ⊎ ((storage_init sim blank).devices ≡ vdisk0 ∷ []))
    × (storage_get_device
          (pos (storage_get_device_count (storage_init sim blank) - 1))
          (storage_init sim blank)
        ≡ some vdisk0)
    × (storage_get_device
          (pos (storage_get_device_count (storage_init sim blank)))
          (storage_init sim blank)
        ≡ none)
storage_init-storage_get_device_example = storage_init-storage_get_device sim blank
