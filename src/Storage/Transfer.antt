-- ===== src/Storage/Transfer.antt =====
-- A sector over a drive that keeps to the PIO protocol: the words of `ata_read_sector` and of
-- `ata_write_sector`.
use pine_os.Base.{
  ℕ, zero, suc, ◌+◌, ◌*◌, ◌/◌, ◌%◌, ◌^◌, ◌≡◌, ◌≢◌, ◌<◌, refl, ap, ◌∙◌, sym, subst, true, some, [],
  ◌∷◌, ◌++◌, length, arith, length-append,
}
use mathlib.Core.List.{append_assoc, append-nil}
use pine_os.CString.{Text}
use pine_os.Netstack.Checksum.{AreBytes}
use pine_os.Storage.{
  Bus, cmd_read, cmd_write, ata_wait_ready, ata_command, read_words, write_words, read_data,
  read_from, write_data, write_to,
}
use pine_os.Storage.Drive.{IsDrive, Same, ready, drq}

-- the number of a sector, put together from the four registers
lba28 :
    (s : ℕ)
    → s < 2 ^ 28
    → s % 256 + 2 ^ 8 * (s / 2 ^ 8 % 256) + 2 ^ 16 * (s / 2 ^ 16 % 256) + 2 ^ 24 * (s / 2 ^ 24 % 16)
      ≡ s
lba28 s lt = omega arith

module _ {W : Type 0} (bus : Bus W) (drive : IsDrive bus) where
  receive :
      (n : ℕ) (bytes : Text) (w : W)
      → length bytes ≡ 2 * n
      → drive.Sending bytes w
      → (0 < length bytes → drive.pending w ≡ 0)
      → (w' : W) × (read_words bus n w ≡ (bytes, w')) × drive.Idle w' × Same bus drive w w'
  unfolding read_words
  receive zero [] w e h z = (w, refl, drive.sent w h, λ l. refl)
  receive zero (a ∷ bytes) w e h z = absurd (omega arith)
  receive (suc n) [] w e h z = absurd (omega arith)
  receive (suc n) (a ∷ []) w e h z = absurd (omega arith)
  receive (suc n) (a ∷ b ∷ bytes) w e h z =
      let (lo, hi, h', z', same) = drive.next_word w a b bytes h (z (omega arith)) in
      let w1 = (bus.inw 0x1F0 w).1 in
      let (w2, r, i, same') = receive n bytes w1 (omega arith) h' z' in
      (w2, rw (r, lo, hi) refl, i, λ l. same' l ∙ same l)

  -- A drive that is idle gives the sector that is asked for.
  pub read_from-disk :
      (s : ℕ) (w : W)
      → drive.Idle w
      → s < 2 ^ 28
      → (w' : W) × (read_from bus s (ata_wait_ready bus w) ≡ (some (drive.disk w s), w'))
        × drive.Idle w'
        × Same bus drive w w'
  unfolding read_from read_data ata_command
  read_from-disk s w h lt =
      let (w1, y, h1, z1, same1) = ready bus drive w h in
      let (c, same2) =
        drive.read_command w1 (s % 256) (s / 2 ^ 8 % 256) (s / 2 ^ 16 % 256) (s / 2 ^ 24 % 16) h1 z1
          (omega arith) in
      let w2 = ata_command bus s cmd_read w1 in
      let c' : drive.Sending (drive.disk w s) w2 =
        subst (λ (b : Text). drive.Sending b w2) (ap (drive.disk w1) (lba28 s lt) ∙ same1 s) c in
      let (w3, d, c2, z3, same3) =
        drq bus drive (drive.Sending (drive.disk w s))
          (λ v. drive.status_sending v (drive.disk w s)) (λ v. drive.sending_drq v (drive.disk w s))
          w2 c' in
      let (w4, r, i, same4) =
        receive 256 (drive.disk w s) w3 (omega (arith, drive.sector_length w s)) c2 (λ _. z3) in
      (w4, rw (y, d, r) refl, i, λ l. same4 l ∙ same3 l ∙ same2 l ∙ same1 l)

  store :
      (n : ℕ) (bytes acc : Text) (lba : ℕ) (w : W)
      → length bytes ≡ 2 * n
      → length acc + 2 * n ≡ 512
      → AreBytes bytes
      → drive.Storing lba acc w
      → (0 < n → drive.pending w ≡ 0)
      → drive.Storing lba (acc ++ bytes) (write_words bus n bytes w)
        × ((l : ℕ) → l ≢ lba → drive.disk (write_words bus n bytes w) l ≡ drive.disk w l)
  unfolding write_words
  store zero [] acc lba w e f h st z =
      (subst (λ (b : Text). drive.Storing lba b w) (sym (append-nil acc)) st, λ l ne. refl)
  store zero (a ∷ bytes) acc lba w e f h st z = absurd (omega arith)
  store (suc n) [] acc lba w e f h st z = absurd (omega arith)
  store (suc n) (a ∷ []) acc lba w e f h st z = absurd (omega arith)
  store (suc n) (a ∷ b ∷ bytes) acc lba w e f (ha, (hb, hs)) st z =
      let (st', z', same) =
        drive.take_word w lba (a + 256 * b) acc st (z (omega arith)) (omega arith) in
      let lo : (a + 256 * b) % 256 ≡ a = omega arith in
      let hi : (a + 256 * b) / 256 % 256 ≡ b = omega arith in
      let w1 = bus.outw 0x1F0 (a + 256 * b) w in
      let st1 : drive.Storing lba (acc ++ (a ∷ b ∷ [])) w1 = rw (lo, hi) at st' in
      let (st2, same') =
        store n bytes (acc ++ (a ∷ b ∷ [])) lba w1 (omega arith)
          (omega (arith, length-append acc (a ∷ b ∷ []))) hs st1 (λ q. z' (omega (arith, f, q))) in
      (
        subst (λ (t : Text). drive.Storing lba t (write_words bus n bytes w1))
            (append_assoc acc (a ∷ b ∷ []) bytes) st2,
        λ l ne. same' l ne ∙ same l ne,
      )

  -- A drive that is idle takes a sector, and keeps the others.
  pub write_to-disk :
      (s : ℕ) (bytes : Text) (w : W)
      → drive.Idle w
      → s < 2 ^ 28
      → length bytes ≡ 512
      → AreBytes bytes
      → (w' : W) × (write_to bus s bytes (ata_wait_ready bus w) ≡ (true, w'))
        × drive.Idle w'
        × (drive.disk w' s ≡ bytes)
        × ((l : ℕ) → l ≢ s → drive.disk w' l ≡ drive.disk w l)
  unfolding write_to write_data ata_command
  write_to-disk s bytes w h lt len hb =
      let (w1, y, h1, z1, same1) = ready bus drive w h in
      let (c, same2) =
        drive.write_command w1 (s % 256) (s / 2 ^ 8 % 256) (s / 2 ^ 16 % 256) (s / 2 ^ 24 % 16) h1
          z1 (omega arith) in
      let w2 = ata_command bus s cmd_write w1 in
      let c' : drive.Storing s [] w2 = subst (λ (l : ℕ). drive.Storing l [] w2) (lba28 s lt) c in
      let (w3, d, c2, z3, same3) =
        drq bus drive (drive.Storing s []) (λ v. drive.status_storing v s [])
          (λ v. drive.storing_drq v s []) w2 c' in
      let (c3, same4) = store 256 bytes [] s w3 len (omega arith) hb c2 (λ _. z3) in
      let w4 = write_words bus 256 bytes w3 in
      let (i, kept) = drive.stored w4 s bytes c3 len in
      let (w5, y5, i5, _, same5) = ready bus drive w4 i in
      (
        w5,
        rw (y, d, y5) refl,
        i5,
        same5 s ∙ kept,
        λ l ne. same5 l ∙ same4 l ne ∙ same3 l ∙ same2 l ∙ same1 l,
      )
