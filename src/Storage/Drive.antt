-- ===== src/Storage/Drive.antt =====
-- The ATA driver with a drive that keeps to the PIO protocol.
use pine_os.Base.{
  ℕ, zero, suc, ◌+◌, ◌*◌, ◌/◌, ◌%◌, ◌^◌, ◌≡◌, ◌≢◌, ◌<◌, refl, ◌∙◌, true, false, [], ◌∷◌, ◌++◌,
  length, arith,
}
use pine_os.CString.{Text}
use pine_os.Storage.{
  Bus, is_busy, is_ready, has_data, has_error, wait_ready, ata_wait_ready, wait_drq, ata_wait_drq,
}

-- A drive between commands, while it sends a sector, and while it takes one. `Sending bytes` has
-- these bytes left; `Storing lba bytes` has taken these bytes for that sector. In each phase the
-- drive may be busy: it reports BSY, and no error, for `pending` more reads of its status, which are
-- fewer than the 10000 that the driver waits for. After a command and after the last word it may be
-- busy again; between the words of a sector it is not. Commands and words come when it is not busy.
pub record IsDrive {W : Type 0} (bus : Bus W) : Type 1 where
  pub disk : W → ℕ → Text
  pub pending : W → ℕ
  pub Idle : W → Type 0
  pub Sending : Text → W → Type 0
  pub Storing : ℕ → Text → W → Type 0
  pub sector_length : (w : W) (l : ℕ) → length (disk w l) ≡ 512
  pub patient : (w : W) → pending w < 10000
  pub busy_status :
      (w : W) (n : ℕ)
      → pending w ≡ suc n
      → (is_busy (bus.inb 0x1F7 w).0 ≡ true)
        × (has_error (bus.inb 0x1F7 w).0 ≡ false)
        × (pending (bus.inb 0x1F7 w).1 ≡ n)
  pub still_free : (w : W) → pending w ≡ 0 → pending (bus.inb 0x1F7 w).1 ≡ 0
  -- A read of the status changes neither the phase nor the disk.
  pub status_disk : (w : W) (l : ℕ) → disk (bus.inb 0x1F7 w).1 l ≡ disk w l
  pub status_idle : (w : W) → Idle w → Idle (bus.inb 0x1F7 w).1
  pub status_sending : (w : W) (bytes : Text) → Sending bytes w → Sending bytes (bus.inb 0x1F7 w).1
  pub status_storing :
      (w : W) (lba : ℕ) (bytes : Text) → Storing lba bytes w → Storing lba bytes (bus.inb 0x1F7 w).1
  -- what the status is when the drive is not busy
  pub idle_ready : (w : W) → Idle w → pending w ≡ 0 → is_ready (bus.inb 0x1F7 w).0 ≡ true
  pub sending_drq :
      (w : W) (bytes : Text) → Sending bytes w → pending w ≡ 0 → has_data (bus.inb 0x1F7 w).0 ≡ true
  pub storing_drq :
      (w : W) (lba : ℕ) (bytes : Text)
      → Storing lba bytes w
      → pending w ≡ 0
      → has_data (bus.inb 0x1F7 w).0 ≡ true
  -- The command READ SECTORS for one sector, with the 28 bits of its number in four registers.
  pub read_command :
      (w : W) (low mid high top : ℕ)
      → Idle w
      → pending w ≡ 0
      → top < 16
      → (let w' = bus.outb 0x1F7 0x20 (
            bus.outb 0x1F6 (0xE0 + top) (
              bus.outb 0x1F5 high
                (bus.outb 0x1F4 mid (bus.outb 0x1F3 low (bus.outb 0x1F2 1 w))))) in
          Sending (disk w (low + 2 ^ 8 * mid + 2 ^ 16 * high + 2 ^ 24 * top)) w'
          × ((l : ℕ) → disk w' l ≡ disk w l))
  pub next_word :
      (w : W) (a b : ℕ) (bytes : Text)
      → Sending (a ∷ b ∷ bytes) w
      → pending w ≡ 0
      → ((bus.inw 0x1F0 w).0 % 256 ≡ a)
        × ((bus.inw 0x1F0 w).0 / 256 % 256 ≡ b)
        × Sending bytes (bus.inw 0x1F0 w).1
        × (0 < length bytes → pending (bus.inw 0x1F0 w).1 ≡ 0)
        × ((l : ℕ) → disk (bus.inw 0x1F0 w).1 l ≡ disk w l)
  pub sent : (w : W) → Sending [] w → Idle w
  -- The command WRITE SECTORS.
  pub write_command :
      (w : W) (low mid high top : ℕ)
      → Idle w
      → pending w ≡ 0
      → top < 16
      → (let w' = bus.outb 0x1F7 0x30 (
            bus.outb 0x1F6 (0xE0 + top) (
              bus.outb 0x1F5 high
                (bus.outb 0x1F4 mid (bus.outb 0x1F3 low (bus.outb 0x1F2 1 w))))) in
          Storing (low + 2 ^ 8 * mid + 2 ^ 16 * high + 2 ^ 24 * top) [] w'
          × ((l : ℕ) → disk w' l ≡ disk w l))
  pub take_word :
      (w : W) (lba v : ℕ) (bytes : Text)
      → Storing lba bytes w
      → pending w ≡ 0
      → length bytes < 512
      → Storing lba (bytes ++ (v % 256 ∷ v / 256 % 256 ∷ [])) (bus.outw 0x1F0 v w)
        × (length bytes + 2 < 512 → pending (bus.outw 0x1F0 v w) ≡ 0)
        × ((l : ℕ) → l ≢ lba → disk (bus.outw 0x1F0 v w) l ≡ disk w l)
  pub stored :
      (w : W) (lba : ℕ) (bytes : Text)
      → Storing lba bytes w
      → length bytes ≡ 512
      → Idle w × (disk w lba ≡ bytes)

module _ {W : Type 0} (bus : Bus W) (drive : IsDrive bus) where
  abbrev pub Same : W → W → Type 0
  Same w w' = (l : ℕ) → drive.disk w' l ≡ drive.disk w l

  -- A phase that reads of the status keep.
  abbrev pub Kept : (W → Type 0) → Type 0
  Kept P = (w : W) → P w → P (bus.inb 0x1F7 w).1

  -- A wait with more polls left than the drive is busy for ends when it is free.
  wait_ready-free :
      (n left : ℕ) (w : W)
      → drive.Idle w
      → drive.pending w ≡ n
      → n < left
      → (w' : W) × (wait_ready bus left w ≡ (true, w'))
        × drive.Idle w'
        × (drive.pending w' ≡ 0)
        × Same w w'
  unfolding wait_ready
  wait_ready-free n zero w h e lt = absurd (omega (arith, lt))
  wait_ready-free zero (suc left) w h e lt = (
    (bus.inb 0x1F7 w).1,
    rw (drive.idle_ready w h e) refl,
    drive.status_idle w h,
    drive.still_free w e,
    drive.status_disk w,
  )
  wait_ready-free (suc n) (suc left) w h e lt =
      let (b, _, e') = drive.busy_status w n e in
      let (w', r, i, z, same) =
        wait_ready-free n left (bus.inb 0x1F7 w).1 (drive.status_idle w h) e' (omega (arith, lt)) in
      (w', rw (b, r) refl, i, z, λ l. same l ∙ drive.status_disk w l)

  pub ready :
      (w : W)
      → drive.Idle w
      → (w' : W) × (ata_wait_ready bus w ≡ (true, w'))
        × drive.Idle w'
        × (drive.pending w' ≡ 0)
        × Same w w'
  unfolding ata_wait_ready
  ready w h = wait_ready-free (drive.pending w) 10000 w h refl (drive.patient w)

  module _ (P : W → Type 0) (kept : Kept P)
      (data_there : (w : W) → P w → drive.pending w ≡ 0 → has_data (bus.inb 0x1F7 w).0 ≡ true) where
    wait_drq-free :
        (n left : ℕ) (w : W)
        → P w
        → drive.pending w ≡ n
        → n < left
        → (w' : W) × (wait_drq bus left w ≡ (true, w')) × P w' × (drive.pending w' ≡ 0) × Same w w'
    unfolding wait_drq
    wait_drq-free n zero w h e lt = absurd (omega (arith, lt))
    wait_drq-free zero (suc left) w h e lt = (
      (bus.inb 0x1F7 w).1,
      rw (data_there w h e) refl,
      kept w h,
      drive.still_free w e,
      drive.status_disk w,
    )
    wait_drq-free (suc n) (suc left) w h e lt =
        let (b, q, e') = drive.busy_status w n e in
        let (w', r, i, z, same) =
          wait_drq-free n left (bus.inb 0x1F7 w).1 (kept w h) e' (omega (arith, lt)) in
        (w', rw (b, q, r) refl, i, z, λ l. same l ∙ drive.status_disk w l)

    pub drq :
        (w : W)
        → P w
        → (w' : W) × (ata_wait_drq bus w ≡ (true, w')) × P w' × (drive.pending w' ≡ 0) × Same w w'
    unfolding ata_wait_drq
    drq w h = wait_drq-free (drive.pending w) 10000 w h refl (drive.patient w)
