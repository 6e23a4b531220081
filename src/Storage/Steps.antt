-- ===== src/Storage/Steps.antt =====
-- Steps of a transfer of several sectors (kernel/storage.c): how a longer one is made of a first
-- sector and the rest.

use pine_os.Base.{
  ℕ, zero, suc, ◌+◌, ◌*◌, ◌≡◌, refl, ap, ◌∙◌, Bool, true, false, Option, none, some, List, [], ◌∷◌,
  ◌++◌, length, drop, add32, arith,
}
use pine_os.CString.{Text}
use pine_os.Netstack.Checksum.{AreBytes}
use pine_os.Storage.{
  Bus, Driver, ata, usb, Device, Store, ata_wait_ready, write_words, write_data, write_to, usb_base,
  call_read, call_write,
}
use pine_os.Storage.Devices.{read_loop, storage_read_sectors, write_loop, storage_write_sectors}

-- The sector of the drive that stands for sector `k` of a device.
abbrev pub place : Driver → ℕ → ℕ
place ata k = k
place usb k = add32 k usb_base

-- The contents of one sector.
pub record IsSector (t : Text) : Type 0 where
  pub size : length t ≡ 512
  pub bytes : AreBytes t

abbrev pub AreSectors : List Text → Type 0
AreSectors [] = Unit {0}
AreSectors (x ∷ xs) = IsSector x × AreSectors xs

abbrev pub concat : List Text → Text
concat [] = []
concat (x ∷ xs) = x ++ concat xs

module _ {W : Type 0} (bus : Bus W) where
  write_words-append :
      (n : ℕ) (bytes more : Text) (w : W)
      → length bytes ≡ 2 * n
      → write_words bus n (bytes ++ more) w ≡ write_words bus n bytes w
  unfolding write_words
  write_words-append zero bytes more w e = refl
  write_words-append (suc n) [] more w e = absurd (omega arith)
  write_words-append (suc n) (a ∷ []) more w e = absurd (omega arith)
  write_words-append (suc n) (a ∷ b ∷ bytes) more w e =
      write_words-append n bytes more (bus.outw 0x1F0 (a + 256 * b) w) (omega arith)

  write_data-append :
      (bytes more : Text) (x : Bool × W)
      → length bytes ≡ 512
      → write_data bus (bytes ++ more) x ≡ write_data bus bytes x
  unfolding write_data
  write_data-append bytes more (false, w) e = refl
  write_data-append bytes more (true, w) e =
      ap (ata_wait_ready bus) (write_words-append 256 bytes more w (omega arith))

  pub write_to-append :
      (sector : ℕ) (bytes more : Text) (x : Bool × W)
      → length bytes ≡ 512
      → write_to bus sector (bytes ++ more) x ≡ write_to bus sector bytes x
  unfolding write_to
  write_to-append sector bytes more (false, w) e = refl
  write_to-append sector bytes more (true, w) e = write_data-append bytes more _ e

  -- One round of each loop, and the calls through the function pointers.
  pub write_loop_step :
      (driver : Driver) (dev : Device) (k n : ℕ) (bytes : Text) (s s1 : Store W)
      → call_write bus driver dev k bytes s ≡ (true, s1)
      → write_loop bus driver dev k (suc n) bytes s
        ≡ write_loop bus driver dev (add32 k 1) n (drop dev.sector_size bytes) s1
  unfolding write_loop
  write_loop_step driver dev k n bytes s s1 e =
      ap
        (λ (x : Bool × Store W). elim x.0 [
          | false ↦ (false, x.1)
          | true ↦ write_loop bus driver dev (add32 k 1) n (drop dev.sector_size bytes) x.1
        ])
        e

  pub read_loop_step :
      (driver : Driver) (dev : Device) (k n : ℕ) (bytes rest : Text) (s s1 s2 : Store W)
      → call_read bus driver dev k s ≡ (some bytes, s1)
      → read_loop bus driver dev (add32 k 1) n s1 ≡ (some rest, s2)
      → read_loop bus driver dev k (suc n) s ≡ (some (bytes ++ rest), s2)
  unfolding read_loop
  read_loop_step driver dev k n bytes rest s s1 s2 e f =
      ap
        (λ (x : Option Text × Store W). elim x.0 [
          | none ↦ (none, x.1)
          | some b ↦
              let (r', s'') = read_loop bus driver dev (add32 k 1) n x.1 in
              elim r' [ none ↦ (none, s'') | some rest' ↦ (some (b ++ rest'), s'') ]
        ])
        e
      ∙ ap
          (λ (y : Option Text × Store W). elim y.0 [
            | none ↦ (none, y.1)
            | some rest' ↦ (some (bytes ++ rest'), y.1)
          ])
          f

  pub write_sectors_through :
      (driver : Driver) (dev : Device) (start n : ℕ) (bytes : Text) (s : Store W)
      → dev.write_sector ≡ some driver
      → storage_write_sectors bus dev start n bytes s ≡ write_loop bus driver dev start n bytes s
  unfolding storage_write_sectors
  write_sectors_through driver dev start n bytes s e =
      ap
        (λ (o : Option Driver). elim o [
          | none ↦ (false, s)
          | some f ↦ write_loop bus f dev start n bytes s
        ])
        e

  pub read_sectors_through :
      (driver : Driver) (dev : Device) (start n : ℕ) (s : Store W)
      → dev.read_sector ≡ some driver
      → storage_read_sectors bus dev start n s ≡ read_loop bus driver dev start n s
  unfolding storage_read_sectors
  read_sectors_through driver dev start n s e =
      ap
        (λ (o : Option Driver). elim o [
          | none ↦ (none, s)
          | some f ↦ read_loop bus f dev start n s
        ])
        e
