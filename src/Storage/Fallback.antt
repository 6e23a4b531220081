-- ===== src/Storage/Fallback.antt =====
-- The virtual device without a drive: its sectors are kept in memory.
use mathlib.Core.List.{append_assoc}
use pine_os.Base.{
  ℕ, zero, suc, ◌+◌, ◌-◌, ◌*◌, ◌≡◌, ◌<◌, refl, ap, ◌∙◌, sym, true, false, some, [], ◌∷◌, ◌++◌, ltb,
  leb, length, get_or, ap₂, arith, length-append,
}
use pine_os.CString.{Text}
use pine_os.Storage.{
  Bus, Device, Store, is_ready, wait_ready, ata_wait_ready, write_to, read_from, read_backup,
  write_backup, usb_storage_read_sector, usb_storage_write_sector,
}

get_or-append : (pre bytes : Text) (b i : ℕ) → i ≡ length pre → get_or (pre ++ (b ∷ bytes)) i 0 ≡ b
get_or-append [] bytes b zero e = refl
get_or-append [] bytes b (suc i) e = absurd (omega arith)
get_or-append (x ∷ pre) bytes b zero e = absurd (omega arith)
get_or-append (x ∷ pre) bytes b (suc i) e = get_or-append pre bytes b i (omega arith)

write_backup_at :
    (old : ℕ → ℕ) (from n : ℕ) (bytes : Text) (i : ℕ)
    → i < n
    → write_backup old from n bytes (from + i) ≡ get_or bytes i 0
unfolding write_backup
write_backup_at old from n bytes i lt =
    let low : leb from (from + i) ≡ true = ground arith in
    let high : ltb (from + i) (from + n) ≡ true = ground arith in
    let at : from + i - from ≡ i = omega arith in rw (low, high, at) refl

-- The bytes behind `pre`, of those that were written from `from` on.
read_backup-write_backup_from :
    (old : ℕ → ℕ) (from n : ℕ) (bytes pre : Text)
    → length pre + length bytes ≡ n
    → read_backup (write_backup old from n (pre ++ bytes)) (from + length pre) (length bytes)
      ≡ bytes
unfolding read_backup
read_backup-write_backup_from old from n [] pre e = refl
read_backup-write_backup_from old from n (b ∷ bytes) pre e =
    let mem = write_backup old from n (pre ++ (b ∷ bytes)) in
    let first : mem (from + length pre) ≡ b =
      write_backup_at old from n (pre ++ (b ∷ bytes)) (length pre) (omega arith)
      ∙ get_or-append pre bytes b (length pre) refl in
    let next = length-append pre (b ∷ []) in
    let more = read_backup-write_backup_from old from n bytes (pre ++ (b ∷ [])) (omega arith) in
    let at : from + length pre + 1 ≡ from + length (pre ++ (b ∷ [])) = omega arith in
    let rest : read_backup mem (from + length pre + 1) (length bytes) ≡ bytes =
      ap (λ (i : ℕ). read_backup mem i (length bytes)) at
      ∙ ap
          (λ (t : Text).
            read_backup (write_backup old from n t) (from + length (pre ++ (b ∷ [])))
              (length bytes))
          (sym (append_assoc pre (b ∷ []) bytes))
      ∙ more in
    ap₂ (λ (x : ℕ) (t : Text). x ∷ t) first rest

read_backup-write_backup :
    (old : ℕ → ℕ) (from n : ℕ) (bytes : Text)
    → length bytes ≡ n
    → read_backup (write_backup old from n bytes) from n ≡ bytes
read_backup-write_backup old from n bytes e =
    ap (λ (m : ℕ). read_backup (write_backup old from n bytes) from m) (sym e)
    ∙ ap (λ (i : ℕ). read_backup (write_backup old from n bytes) i (length bytes)) (omega arith)
    ∙ read_backup-write_backup_from old from n bytes [] (omega arith)

-- The drive's registers after so many reads of its status.
pub polled : {W : Type 0} → Bus W → ℕ → W → W
polled bus zero w = w
polled bus (suc n) w = polled bus n (bus.inb 0x1F7 w).1

module _ {W : Type 0} (bus : Bus W) (quiet : (w : W) → is_ready (bus.inb 0x1F7 w).0 ≡ false) where
  never : (n : ℕ) (w : W) → wait_ready bus n w ≡ (false, polled bus n w)
  unfolding wait_ready polled
  never zero w = refl
  never (suc n) w = rw (quiet w, never n (bus.inb 0x1F7 w).1) refl

  timed_out : (w : W) → ata_wait_ready bus w ≡ (false, polled bus 10000 w)
  unfolding ata_wait_ready
  timed_out w = never 10000 w

  -- Where the drive never reports that it is ready, a write and a read of a sector of the virtual
  -- device each poll its status exactly 10000 times and touch no other register, and the sector that
  -- was written is read back from memory.
  pub usb_storage_read_sector-usb_storage_write_sector :
      (dev : Device) (k : ℕ) (bytes : Text) (s : Store W)
      → k < dev.total_sectors
      → length bytes ≡ dev.sector_size
      → (s' : Store W) × (s'' : Store W) × (usb_storage_write_sector bus dev k bytes s ≡ (true, s'))
        × (usb_storage_read_sector bus dev k s' ≡ (some bytes, s''))
        × (s'.world ≡ polled bus 10000 s.world)
        × (s''.world ≡ polled bus 10000 s'.world)
  unfolding usb_storage_write_sector usb_storage_read_sector write_to read_from
  usb_storage_read_sector-usb_storage_write_sector dev k bytes s lt size =
      let inside : leb dev.total_sectors k ≡ false = ground arith in
      let w = polled bus 10000 s.world in
      let from = k * dev.sector_size in
      let kept = read_backup-write_backup s.backup from dev.sector_size bytes size in
      (
        record s { world = w; backup = write_backup s.backup from dev.sector_size bytes },
        record s {
          world = polled bus 10000 w;
          backup = write_backup s.backup from dev.sector_size bytes;
        },
        rw (inside, timed_out s.world) refl,
        rw (inside, timed_out w, kept) refl,
        refl,
        refl,
      )
