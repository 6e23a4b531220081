-- ===== src/Storage/Sectors.antt =====
-- Several sectors that are written are read back, on either device of a drive.
use mathlib.Core.List.{append-nil}
use pine_os.Base.{
  ℕ, ◌+◌, ◌*◌, ◌%◌, ◌^◌, ◌≡◌, ◌≢◌, ◌≤◌, ◌<◌, refl, ap, ◌∙◌, sym, true, false, some, List, [], ◌∷◌,
  ◌++◌, leb, length, drop, add32, arith, drop-append,
}
use pine_os.CString.{Text}
use pine_os.Storage.{
  Bus, Driver, ata, usb, Device, Store, ata_wait_ready, write_backup, ata_read_sector,
  ata_write_sector, usb_storage_read_sector, usb_storage_write_sector, call_read, call_write,
}
use pine_os.Storage.Devices.{read_loop, storage_read_sectors, write_loop, storage_write_sectors}
use pine_os.Storage.Drive.{IsDrive, Same}
use pine_os.Storage.Transfer.{read_from-disk, write_to-disk}
use pine_os.Storage.Steps.{
  place, IsSector, AreSectors, concat, write_to-append, write_loop_step, read_loop_step,
  write_sectors_through, read_sectors_through,
}

module _ {W : Type 0} (bus : Bus W) (drive : IsDrive bus) where
  -- One sector, through either driver.
  call_read-disk :
      (driver : Driver) (dev : Device) (k : ℕ) (s : Store W)
      → drive.Idle s.world
      → k < dev.total_sectors
      → dev.total_sectors ≤ 2 ^ 27
      → (s' : Store W) × (call_read bus driver dev k s
          ≡ (some (drive.disk s.world (place driver k)), s'))
        × drive.Idle s'.world
        × Same bus drive s.world s'.world
  unfolding call_read ata_read_sector usb_storage_read_sector
  call_read-disk ata dev k s h lt le =
      let inside : leb dev.total_sectors k ≡ false = ground arith in
      let (w, r, i, same) = read_from-disk bus drive k s.world h (omega arith) in
      (record s { world = w }, rw (inside, r) refl, i, same)
  call_read-disk usb dev k s h lt le =
      let inside : leb dev.total_sectors k ≡ false = ground arith in
      let (w, r, i, same) = read_from-disk bus drive (place usb k) s.world h (omega arith) in
      (record s { world = w }, rw (inside, r) refl, i, same)

  call_write-disk :
      (driver : Driver) (dev : Device) (k : ℕ) (bytes more : Text) (s : Store W)
      → drive.Idle s.world
      → k < dev.total_sectors
      → dev.total_sectors ≤ 2 ^ 27
      → IsSector bytes
      → (s' : Store W) × (call_write bus driver dev k (bytes ++ more) s ≡ (true, s'))
        × drive.Idle s'.world
        × (drive.disk s'.world (place driver k) ≡ bytes)
        × ((l : ℕ) → l ≢ place driver k → drive.disk s'.world l ≡ drive.disk s.world l)
  unfolding call_write ata_write_sector usb_storage_write_sector
  call_write-disk ata dev k bytes more s h lt le ok =
      let inside : leb dev.total_sectors k ≡ false = ground arith in
      let (w, r, i, kept, same) =
        write_to-disk bus drive k bytes s.world h (omega arith) ok.size ok.bytes in
      let all = write_to-append bus k bytes more (ata_wait_ready bus s.world) ok.size in
      (record s { world = w }, rw (inside, all, r) refl, i, kept, same)
  call_write-disk usb dev k bytes more s h lt le ok =
      let inside : leb dev.total_sectors k ≡ false = ground arith in
      let at = place usb k in
      let (w, r, i, kept, same) =
        write_to-disk bus drive at bytes s.world h (omega arith) ok.size ok.bytes in
      let all = write_to-append bus at bytes more (ata_wait_ready bus s.world) ok.size in
      (
        record s {
          world = w;
          backup = write_backup s.backup (k * dev.sector_size) dev.sector_size (bytes ++ more);
        },
        rw (inside, all, r) refl,
        i,
        kept,
        same,
      )

  -- The sectors from `k` on hold these.
  abbrev pub Holds : Driver → ℕ → List Text → W → Type 0
  Holds driver k [] w = Unit {0}
  Holds driver k (x ∷ xs) w = (drive.disk w (place driver k) ≡ x) × Holds driver (k + 1) xs w

  -- A sector of the drive is none of `n` sectors from `k` on.
  abbrev pub Outside : Driver → ℕ → ℕ → ℕ → Type 0
  Outside driver k n l = (i : ℕ) → k ≤ i → i < k + n → l ≢ place driver i

  place_ne : (driver : Driver) (k i : ℕ) → i < 2 ^ 27 → k < i → place driver k ≢ place driver i
  place_ne ata k i small lt e = omega arith
  place_ne usb k i small lt e = omega arith

  write_loop-Holds :
      (driver : Driver) (dev : Device) (xs : List Text) (k : ℕ) (s : Store W)
      → dev.sector_size ≡ 512
      → dev.total_sectors ≤ 2 ^ 27
      → k + length xs ≤ dev.total_sectors
      → AreSectors xs
      → drive.Idle s.world
      → (s' : Store W) × (write_loop bus driver dev k (length xs) (concat xs) s ≡ (true, s'))
        × drive.Idle s'.world
        × Holds driver k xs s'.world
        × ((l : ℕ) → Outside driver k (length xs) l → drive.disk s'.world l ≡ drive.disk s.world l)
  write_loop-Holds driver dev [] k s size le fits ok h =
      (s, unfold write_loop in refl, h, tt, λ l out. refl)
  write_loop-Holds driver dev (x ∷ xs) k s size le fits (okx, ok) h =
      let (s1, r, h1, kept, same) =
        call_write-disk driver dev k x (concat xs) s h (omega arith) le okx in
      let next : (k + 1) % 2 ^ 32 ≡ k + 1 = omega arith in
      let rest : drop dev.sector_size (x ++ concat xs) ≡ concat xs =
        ap (λ (n : ℕ). drop n (x ++ concat xs)) (size ∙ sym okx.size) ∙ drop-append x (concat xs) in
      let (s2, r2, h2, kept2, same2) =
        write_loop-Holds driver dev xs (k + 1) s1 size le (omega arith) ok h1 in
      let apart : Outside driver (k + 1) (length xs) (place driver k) =
        λ i lo hi. place_ne driver k i (omega arith) (omega arith) in
      let go : write_loop bus driver dev (add32 k 1) (length xs)
            (drop dev.sector_size (x ++ concat xs)) s1
          ≡ (true, s2) =
        ap
          (λ (m : ℕ).
            write_loop bus driver dev m (length xs) (drop dev.sector_size (x ++ concat xs)) s1)
          next
        ∙ ap (λ (b : Text). write_loop bus driver dev (k + 1) (length xs) b s1) rest
        ∙ r2 in
      (
        s2,
        write_loop_step bus driver dev k (length xs) (x ++ concat xs) s s1 r ∙ go,
        h2,
        (same2 (place driver k) apart ∙ kept, kept2),
        λ l out.
            same2 l (λ i lo hi. out i (omega arith) (omega arith))
            ∙ same l (out k (omega arith) (omega arith)),
      )

  Holds-Same :
      (driver : Driver) (xs : List Text) (k : ℕ) (w w' : W)
      → Same bus drive w w'
      → Holds driver k xs w
      → Holds driver k xs w'
  Holds-Same driver [] k w w' same h = tt
  Holds-Same driver (x ∷ xs) k w w' same (e, h) =
      (same (place driver k) ∙ e, Holds-Same driver xs (k + 1) w w' same h)

  read_loop-Holds :
      (driver : Driver) (dev : Device) (xs : List Text) (k : ℕ) (s : Store W)
      → dev.total_sectors ≤ 2 ^ 27
      → k + length xs ≤ dev.total_sectors
      → drive.Idle s.world
      → Holds driver k xs s.world
      → (s' : Store W) × (read_loop bus driver dev k (length xs) s ≡ (some (concat xs), s'))
  read_loop-Holds driver dev [] k s le fits h hold = (s, unfold read_loop in refl)
  read_loop-Holds driver dev (x ∷ xs) k s le fits h (e, hold) =
      let (s1, r, h1, same) = call_read-disk driver dev k s h (omega arith) le in
      let next : (k + 1) % 2 ^ 32 ≡ k + 1 = omega arith in
      let (s2, r2) =
        read_loop-Holds driver dev xs (k + 1) s1 le (omega arith) h1
          (Holds-Same driver xs (k + 1) s.world s1.world same hold) in
      let first : call_read bus driver dev k s ≡ (some x, s1) =
        r ∙ ap (λ (t : Text). (some t, s1)) e in
      let go : read_loop bus driver dev (add32 k 1) (length xs) s1 ≡ (some (concat xs), s2) =
        ap (λ (m : ℕ). read_loop bus driver dev m (length xs) s1) next ∙ r2 in
      (s2, read_loop_step bus driver dev k (length xs) x (concat xs) s s1 s2 first go)

  -- Sectors that `storage_write_sectors` writes to a device, within its size, are what
  -- `storage_read_sectors` reads there, and a sector of the drive outside of them is as it was: for the
  -- disk and for the virtual device, with sectors of 512 bytes and at most 2^27 of them, over a drive
  -- that is idle, keeps to the protocol, and is busy for fewer than 10000 reads of its status before
  -- a command, before a sector's data and after it.
  pub storage_read_sectors-storage_write_sectors :
      (driver : Driver) (dev : Device) (xs : List Text) (start l : ℕ) (s : Store W)
      → dev.read_sector ≡ some driver
      → dev.write_sector ≡ some driver
      → dev.sector_size ≡ 512
      → dev.total_sectors ≤ 2 ^ 27
      → start + length xs ≤ dev.total_sectors
      → AreSectors xs
      → drive.Idle s.world
      → Outside driver start (length xs) l
      → (s' : Store W) × (s'' : Store W) × (storage_write_sectors bus dev start
            (length xs)
            (concat xs)
            s
          ≡ (true, s'))
        × (storage_read_sectors bus dev start (length xs) s' ≡ (some (concat xs), s''))
        × (drive.disk s'.world l ≡ drive.disk s.world l)
  storage_read_sectors-storage_write_sectors driver dev xs start l s er ew size le fits ok h out =
      let (s1, r, h1, hold, same) = write_loop-Holds driver dev xs start s size le fits ok h in
      let (s2, r2) = read_loop-Holds driver dev xs start s1 le fits h1 hold in
      (
        s1,
        s2,
        write_sectors_through bus driver dev start (length xs) (concat xs) s ew ∙ r,
        read_sectors_through bus driver dev start (length xs) s1 er ∙ r2,
        same l out,
      )

  -- Over a drive that is idle, keeps to the protocol, and is busy for fewer than 10000 reads of its
  -- status in each phase, the virtual device's sector `k` is the disk's sector `k + 100`, where both
  -- are within their devices of at most 2^27 sectors: a sector that is written to the one is read
  -- from the other, and no other sector of the drive changes.
  pub usb_storage_write_sector-ata_read_sector :
      (disk vdisk : Device) (k : ℕ) (bytes : Text) (s : Store W)
      → k < vdisk.total_sectors
      → k + 100 < disk.total_sectors
      → disk.total_sectors ≤ 2 ^ 27
      → vdisk.total_sectors ≤ 2 ^ 27
      → IsSector bytes
      → drive.Idle s.world
      → (s' : Store W) × (s'' : Store W) × (usb_storage_write_sector bus vdisk k bytes s
          ≡ (true, s'))
        × (ata_read_sector bus disk (k + 100) s' ≡ (some bytes, s''))
        × ((l : ℕ) → l ≢ k + 100 → drive.disk s'.world l ≡ drive.disk s.world l)
  usb_storage_write_sector-ata_read_sector disk vdisk k bytes s lt lt' le le' ok h =
      let (s1, r, h1, kept, same) = call_write-disk usb vdisk k bytes [] s h lt le' ok in
      let (s2, r2, h2, same2) = call_read-disk ata disk (k + 100) s1 h1 lt' le in
      let at : (k + 100) % 2 ^ 32 ≡ k + 100 = omega arith in
      let read : drive.disk s1.world (k + 100) ≡ bytes = ap (drive.disk s1.world) (sym at) ∙ kept in
      let wrote : usb_storage_write_sector bus vdisk k (bytes ++ []) s ≡ (true, s1) =
        unfold call_write in r in
      let got : ata_read_sector bus disk (k + 100) s1 ≡ (some (drive.disk s1.world (k + 100)), s2) =
        unfold call_read in r2 in
      (
        s1,
        s2,
        ap (λ (t : Text). usb_storage_write_sector bus vdisk k t s) (sym (append-nil bytes))
            ∙ wrote,
        got ∙ ap (λ (t : Text). (some t, s2)) read,
        λ l ne. same l (λ e. ne (e ∙ at)),
      )
