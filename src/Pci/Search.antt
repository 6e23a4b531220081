-- ===== src/Pci/Search.antt =====
-- The scan finds what stands in the configuration space, up to the size of the table.
use mathlib.Core.List.{append_assoc, append-nil}
use pine_os.Base.{
  ℕ, zero, suc, ◌+◌, ◌≡◌, ◌≤◌, ◌<◌, inl, inr, refl, ap, ◌∙◌, sym, subst, Bool, true, false, List,
  [], ◌∷◌, ◌++◌, leb, ◌==◌, length, take, Bool-cases, arith, length-append, take_length,
}
use pine_os.Pci.{Ports, PciDevice, Scan, pci_config_read_word, describe, scan_others}
use pine_os.Pci.Spec.{
  IsConfig, word_at, device_at, is_absent, others, read_word-conf, describe-device_at,
}

-- A loop that starts with the table `t` and should find `found` ends with it added, or, if there is
-- no room for all, with a full table.
abbrev pub Done : Bool → List PciDevice → List PciDevice → List PciDevice → Type 0
Done false t' t found = (t' ≡ t ++ found) × (length (t ++ found) ≤ 64)
Done true t' t found = (t' ≡ take 64 (t ++ found)) × (64 < length (t ++ found))

take-append_short : (n : ℕ) (xs ys : List PciDevice) → n ≤ length xs → take n (xs ++ ys) ≡ take n xs
take-append_short zero xs ys le = refl
take-append_short (suc n) [] ys le = absurd (omega arith)
take-append_short (suc n) (x ∷ xs) ys le =
    ap (λ (l : List PciDevice). x ∷ l) (take-append_short n xs ys (omega arith))

pub Done-then :
    (f : Bool) (t2 t1 t s1 s2 : List PciDevice)
    → Done false t1 t s1
    → Done f t2 t1 s2
    → Done f t2 t (s1 ++ s2)
Done-then false t2 t1 t s1 s2 (e, le) (e', le') =
    let same : t1 ++ s2 ≡ t ++ (s1 ++ s2) =
      ap (λ (l : List PciDevice). l ++ s2) e ∙ append_assoc t s1 s2 in
    (e' ∙ same, subst (λ (l : List PciDevice). length l ≤ 64) same le')
Done-then true t2 t1 t s1 s2 (e, le) (e', le') =
    let same : t1 ++ s2 ≡ t ++ (s1 ++ s2) =
      ap (λ (l : List PciDevice). l ++ s2) e ∙ append_assoc t s1 s2 in
    (e' ∙ ap (take 64) same, subst (λ (l : List PciDevice). 64 < length l) same le')

pub Done-stop : (t1 t s1 s2 : List PciDevice) → Done true t1 t s1 → Done true t1 t (s1 ++ s2)
Done-stop t1 t s1 s2 (e, lt) =
    let assoc = append_assoc t s1 s2 in
    (
      e ∙ sym (take-append_short 64 (t ++ s1) s2 (omega arith)) ∙ ap (take 64) assoc,
      subst (λ (l : List PciDevice). 64 < length l) assoc
          (omega (arith, length-append (t ++ s1) s2)),
    )

-- A device that finds the table full.
pub Done-full :
    (t found : List PciDevice) (d : PciDevice) → length t ≡ 64 → Done true t t (d ∷ found)
Done-full t found d e = (
  sym (
      take-append_short 64 t (d ∷ found) (omega arith)
      ∙ ap (λ (n : ℕ). take n t) (sym e)
      ∙ take_length t),
  omega (arith, length-append t (d ∷ found)),
)

pub Done-none : (t : List PciDevice) → length t ≤ 64 → Done false t t []
Done-none t le =
    (sym (append-nil t), subst (λ (l : List PciDevice). length l ≤ 64) (sym (append-nil t)) le)

module _ {W : Type 0} (ports : Ports W) (space : IsConfig ports) where
  -- How a loop ends.
  abbrev pub Ends : Scan W → List PciDevice → List PciDevice → Type 0
  Ends r t found = Done r.full r.table t found × space.Settled r.world

  abbrev pub pick : Bool → Bool → Scan W → Scan W → Scan W → Scan W
  pick absent full a b c = elim absent [ true ↦ a | false ↦ elim full [ true ↦ b | false ↦ c ] ]

  abbrev pub stopped : List PciDevice → W → Scan W
  stopped t w = record { full = true; table = t; world = w }

  abbrev pub going : List PciDevice → W → Scan W
  going t w = record { full = false; table = t; world = w }

  abbrev pub entry : ℕ → ℕ → ℕ → PciDevice
  entry b d f = device_at space.conf b d f

  others_step :
      (left b d f : ℕ) (t : List PciDevice) (w w1 w2 : W)
      → pci_config_read_word ports b d f 0x00 w ≡ (word_at space.conf b d f 0x00, w1)
      → describe ports b d f (word_at space.conf b d f 0x00) w1 ≡ (entry b d f, w2)
      → scan_others ports (suc left) b d f t w
        ≡ pick
            (is_absent space.conf b d f)
            (leb 64 (length t))
            (scan_others ports left b d (f + 1) t w1)
            (stopped t w1)
            (scan_others ports left b d (f + 1) (t ++ (entry b d f ∷ [])) w2)
  unfolding scan_others
  others_step left b d f t w w1 w2 e1 e2 =
      ap
        (λ (r : ℕ × W).
          pick (r.0 == 0xFFFF) (leb 64 (length t)) (scan_others ports left b d (f + 1) t r.1)
            (stopped t r.1)
            (let (dev, w') = describe ports b d f r.0 r.1 in
              scan_others ports left b d (f + 1) (t ++ (dev ∷ [])) w'))
        e1
      ∙ ap
          (λ (r : PciDevice × W).
            pick (is_absent space.conf b d f) (leb 64 (length t))
              (scan_others ports left b d (f + 1) t w1) (stopped t w1)
              (scan_others ports left b d (f + 1) (t ++ (r.0 ∷ [])) r.1))
          e2

  pub added :
      (t rest : List PciDevice) (dev : PciDevice) (r : Scan W)
      → length (t ++ (dev ∷ [])) ≤ 64
      → Ends r (t ++ (dev ∷ [])) rest
      → Ends r t (dev ∷ rest)
  added t rest dev r le (done, h) =
      (Done-then r.full r.table (t ++ (dev ∷ [])) t (dev ∷ []) rest (refl, le) done, h)

  pub room :
      (t : List PciDevice) (dev : PciDevice)
      → leb 64 (length t) ≡ false
      → length (t ++ (dev ∷ [])) ≤ 64
  room t dev m = ground (arith, length-append t (dev ∷ []))

  pub at_limit : (t : List PciDevice) → length t ≤ 64 → leb 64 (length t) ≡ true → length t ≡ 64
  at_limit t le y = ground arith

  pub scan_others-Ends :
      (left b d f : ℕ) (t : List PciDevice) (w : W)
      → space.Settled w
      → length t ≤ 64
      → Ends (scan_others ports left b d f t w) t (others space.conf left b d f)
  scan_others-Ends zero b d f t w h le = unfold scan_others in (Done-none t le, h)
  scan_others-Ends (suc left) b d f t w h le =
      let (w1, e1, h1) = read_word-conf ports space b d f 0x00 w h in
      let (w2, e2, h2) = describe-device_at ports space b d f w1 h1 in
      subst (λ (r : Scan W). Ends r t (others space.conf (suc left) b d f))
        (sym (others_step left b d f t w w1 w2 e1 e2))
        (elim (Bool-cases (is_absent space.conf b d f)) [
          | inl y ↦ rw y (scan_others-Ends left b d (f + 1) t w1 h1 le)
          | inr n ↦ elim (Bool-cases (leb 64 (length t))) [
            | inl y ↦
                rw (n, y)
                  (
                    Done-full t (others space.conf left b d (f + 1)) (entry b d f)
                        (at_limit t le y),
                    h1,
                  )
            | inr m ↦
                let le' = room t (entry b d f) m in
                let there = scan_others-Ends left b d (f + 1) (t ++ (entry b d f ∷ [])) w2 h2 le' in
                rw (n, m) (added t (others space.conf left b d (f + 1)) (entry b d f) _ le' there)
          ]
        ])
