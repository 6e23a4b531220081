-- ===== src/Storage/Conforms.antt =====
-- The simulated drive keeps to the protocol.
use pine_os.Base.{
  ℕ, zero, suc, ◌+◌, ◌*◌, ◌/◌, ◌%◌, ◌^◌, ◌≡◌, ◌≢◌, ◌<◌, refl, ap, ◌∙◌, sym, subst, true, false, [],
  ◌∷◌, ◌++◌, ◌==◌, length, replicate, inl, inr, Bool-cases, arith, length-replicate, length-append,
}
use pine_os.CString.{Text}
use pine_os.Netstack.Checksum.{AreBytes}
use pine_os.Storage.{is_busy, is_ready, has_data, has_error}
use pine_os.Storage.Drive.{IsDrive}
use pine_os.Storage.Simulated.{
  Mode, Rest, count, status, polled, Sim, clamp, fit, contents, view, give, store, writing, sim,
  sending, storing, free, once, twice,
}

AreBytes-clamp : (t : Text) → AreBytes (clamp t)
AreBytes-clamp [] = tt
AreBytes-clamp (x ∷ t) = (omega arith, AreBytes-clamp t)

length-clamp : (t : Text) → length (clamp t) ≡ length t
length-clamp [] = refl
length-clamp (x ∷ t) = ap suc (length-clamp t)

clamp_bytes : (t : Text) → AreBytes t → clamp t ≡ t
clamp_bytes [] h = refl
clamp_bytes (x ∷ t) (h, hs) = let e : x % 256 ≡ x = omega arith in rw (e, clamp_bytes t hs) refl

pub AreBytes-replicate : (n b : ℕ) → b < 256 → AreBytes (replicate n b)
AreBytes-replicate zero b lt = tt
AreBytes-replicate (suc n) b lt = (lt, AreBytes-replicate n b lt)

abbrev pub zeroes : Text
zeroes = replicate 512 0

length-zeroes : length zeroes ≡ 512
length-zeroes = length-replicate {A = ℕ} 512 0

length-fit : (t : Text) → length (fit t) ≡ 512
length-fit t = elim (Bool-cases (length t == 512)) [
  | inl y ↦ rw y (length-clamp t ∙ ground arith)
  | inr n ↦ rw n length-zeroes
]

AreBytes-fit : (t : Text) → AreBytes (fit t)
AreBytes-fit t = elim (Bool-cases (length t == 512)) [
  | inl y ↦ rw y (AreBytes-clamp t)
  | inr n ↦ rw n (AreBytes-replicate 512 0 (omega arith))
]

fit_sector : (t : Text) → length t ≡ 512 → AreBytes t → fit t ≡ t
fit_sector t e h = let y : (length t == 512) ≡ true = ground arith in rw y (clamp_bytes t h)

pub Sending : Text → Sim → Type 0
Sending t w = (w.mode ≡ sending t) × AreBytes t

pub Storing : ℕ → Text → Sim → Type 0
Storing lba t w = (w.mode ≡ storing lba t) × AreBytes t

view_mode : (w : Sim) (m : Mode) (l : ℕ) → w.mode ≡ m → view w l ≡ fit (contents m w.sectors l)
view_mode w m l e = ap (λ (n : Mode). fit (contents n w.sectors l)) e

storing_empty : (lba : ℕ) (old : ℕ → Text) (l : ℕ) → contents (storing lba []) old l ≡ old l
storing_empty lba old l = elim (Bool-cases (l == lba)) [ inl y ↦ rw y refl | inr n ↦ rw n refl ]

storing_other :
    (lba : ℕ) (t : Text) (old : ℕ → Text) (l : ℕ) → l ≢ lba → contents (storing lba t) old l ≡ old l
storing_other lba t old l ne = let n : (l == lba) ≡ false = ground arith in rw n refl

storing_done :
    (lba : ℕ) (t : Text) (old : ℕ → Text) → length t ≡ 512 → contents (storing lba t) old lba ≡ t
storing_done lba t old e =
    let y : (lba == lba) ≡ true = ground arith in
    let z : (length t == 512) ≡ true = ground arith in rw (y, z) refl

AreBytes-append : (s t : Text) → AreBytes s → AreBytes t → AreBytes (s ++ t)
AreBytes-append [] t h k = k
AreBytes-append (x ∷ s) t (h, hs) k = (h, AreBytes-append s t hs k)

low_top : (n : ℕ) → n < 16 → (0xE0 + n) % 16 ≡ n
low_top n lt = omega arith

given :
    (m : Mode) (a b : ℕ) (t : Text) (old : ℕ → Text)
    → m ≡ sending (a ∷ b ∷ t)
    → a < 256
    → b < 256
    → ((give m).0 % 256 ≡ a)
      × ((give m).0 / 256 % 256 ≡ b)
      × ((give m).1 ≡ sending t)
      × ((l : ℕ) → contents (give m).1 old l ≡ contents m old l)
given m a b t old e ha hb =
    subst
      (λ (n : Mode).
        ((give n).0 % 256 ≡ a)
        × ((give n).0 / 256 % 256 ≡ b)
        × ((give n).1 ≡ sending t)
        × ((l : ℕ) → contents (give n).1 old l ≡ contents n old l))
      (sym e) (omega arith, omega arith, refl, λ l. refl)

taken :
    (m : Mode) (lba v : ℕ) (t : Text) (old : ℕ → Text)
    → m ≡ storing lba t
    → (store v m ≡ storing lba (t ++ (v % 256 ∷ v / 256 % 256 ∷ [])))
      × ((l : ℕ) → l ≢ lba → contents (store v m) old l ≡ contents m old l)
taken m lba v t old e =
    subst
      (λ (n : Mode).
        (store v n ≡ storing lba (t ++ (v % 256 ∷ v / 256 % 256 ∷ [])))
        × ((l : ℕ) → l ≢ lba → contents (store v n) old l ≡ contents n old l))
      (sym e)
      (
        refl,
        λ l ne.
            storing_other lba (t ++ (v % 256 ∷ v / 256 % 256 ∷ [])) old l ne
            ∙ sym (storing_other lba t old l ne),
      )

count_small : (r : Rest) → count r < 10000
count_small free = omega arith
count_small once = omega arith
count_small twice = omega arith

-- The status while the drive is busy, and when it is free.
polled_busy :
    (r : Rest) (n : ℕ)
    → count r ≡ suc n
    → (is_busy (status r) ≡ true) × (has_error (status r) ≡ false) × (count (polled r) ≡ n)
polled_busy free n e = absurd (omega (arith, e))
polled_busy once n e = (refl, refl, omega (arith, e))
polled_busy twice n e = (refl, refl, omega (arith, e))

polled_free : (r : Rest) → count r ≡ 0 → (status r ≡ 0x48) × (count (polled r) ≡ 0)
polled_free free e = (refl, refl)
polled_free once e = absurd (omega (arith, e))
polled_free twice e = absurd (omega (arith, e))

writing_more :
    (m : Mode) (lba : ℕ) (t : Text) (r : Rest)
    → m ≡ storing lba t
    → length t ≢ 512
    → count r ≡ 0
    → count (writing m r) ≡ 0
writing_more m lba t r e short z =
    let n : (length t == 512) ≡ false = ground (arith, short) in
    ap (λ (k : Mode). count (writing k r)) e ∙ rw n z

pub sim-IsDrive : IsDrive sim
unfolding Sending Storing
sim-IsDrive = record {
  disk = view;
  Idle = λ w. Unit {0};
  Sending = Sending;
  Storing = Storing;
  sector_length = λ w l. length-fit (contents w.mode w.sectors l);
  pending = λ w. count w.rest;
  patient = λ w. count_small w.rest;
  busy_status = λ w n e. polled_busy w.rest n e;
  still_free = λ w e. (polled_free w.rest e).1;
  status_disk = λ w l. refl;
  status_idle = λ w h. tt;
  status_sending = λ w t h. h;
  status_storing = λ w lba t h. h;
  idle_ready = λ w h e. ap is_ready (polled_free w.rest e).0;
  sending_drq = λ w t h e. ap has_data (polled_free w.rest e).0;
  storing_drq = λ w lba t h e. ap has_data (polled_free w.rest e).0;
  read_command = λ w low mid high top h z lt. (
    (
      ap (λ (n : ℕ). sending (view w (low + 2 ^ 8 * mid + 2 ^ 16 * high + 2 ^ 24 * n)))
          (low_top top lt),
      AreBytes-fit _,
    ),
    λ l. refl,
  );
  next_word = λ w a b t h z.
      let (lo, hi, m, same) = given w.mode a b t w.sectors h.0 h.1.0 h.1.1.0 in
      (lo, hi, (m, h.1.1.1), λ _. z, λ l. ap fit (same l));
  sent = λ w h. tt;
  write_command = λ w low mid high top h z lt. (
    (
      ap (λ (n : ℕ). storing (low + 2 ^ 8 * mid + 2 ^ 16 * high + 2 ^ 24 * n) []) (low_top top lt),
      tt,
    ),
    λ l. ap fit (
        storing_empty (low + 2 ^ 8 * mid + 2 ^ 16 * high + 2 ^ 24 * ((0xE0 + top) % 16))
          (contents w.mode w.sectors) l),
  );
  take_word = λ w lba v t h z lt.
      let (m, same) = taken w.mode lba v t w.sectors h.0 in
      (
        (m, AreBytes-append t (v % 256 ∷ v / 256 % 256 ∷ []) h.1 (omega arith, (omega arith, tt))),
        λ short.
            writing_more (store v w.mode) lba _ w.rest m
              (λ e. omega (arith, e, short, length-append t (v % 256 ∷ v / 256 % 256 ∷ []))) z,
        λ l ne. ap fit (same l ne),
      );
  stored = λ w lba t h e. (
    tt,
    view_mode w (storing lba t) lba h.0
        ∙ ap fit (storing_done lba t w.sectors e)
        ∙ fit_sector t e h.1,
  );
}

pub sim-Idle : (w : Sim) → sim-IsDrive.Idle w
unfolding sim-IsDrive
sim-Idle w = tt
