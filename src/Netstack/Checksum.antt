-- ===== src/Netstack/Checksum.antt =====
-- The Internet checksum computes a one's complement sum, and a packet that carries it adds up to 0.
use pine_os.Base.{
  ℕ, suc, ◌+◌, ◌-◌, ◌*◌, ◌/◌, ◌%◌, ◌^◌, ◌≡◌, ◌≤◌, ◌<◌, inl, inr, ap, ◌∙◌, sym, [], ◌∷◌, ltb, ◌==◌,
  if◌then◌else◌, length, Bool-cases, arith,
}
use pine_os.Netstack.{Bytes, network_htons, network_htonl, word_sum, add_carries, ip_checksum}

pub network_htons-network_htons : (h : ℕ) → h < 2 ^ 16 → network_htons (network_htons h) ≡ h
unfolding network_htons
network_htons-network_htons h lt = omega arith

pub network_htonl-network_htonl : (h : ℕ) → h < 2 ^ 32 → network_htonl (network_htonl h) ≡ h
unfolding network_htonl
network_htonl-network_htonl h lt = omega arith

abbrev pub AreBytes : Bytes → Type 0
AreBytes [] = Unit {0}
AreBytes (b ∷ bs) = (b < 256) × AreBytes bs

-- the sum of the words with nothing lost
abbrev pub total : Bytes → ℕ
total [] = 0
total (a ∷ []) = a
total (a ∷ b ∷ body) = a + 256 * b + total body

-- The one's complement sum of 16-bit words: the number below 2 ^ 16 that is equal to the sum modulo
-- 2 ^ 16 - 1, and 0 for the sum 0 alone.
abbrev pub ones_sum : ℕ → ℕ
ones_sum n = if n == 0 then 0 else (n - 1) % 65535 + 1

carries-small : (fuel n : ℕ) → n < 2 ^ 16 → add_carries (suc fuel) n ≡ n
unfolding add_carries
carries-small fuel n lt = ground arith

carries-step :
    (fuel n : ℕ)
    → 2 ^ 16 ≤ n
    → add_carries (suc fuel) n ≡ add_carries fuel (n % 2 ^ 16 + n / 2 ^ 16)
unfolding add_carries
carries-step fuel n le = ground arith

ones_sum-step : (n : ℕ) → 2 ^ 16 ≤ n → ones_sum (n % 2 ^ 16 + n / 2 ^ 16) ≡ ones_sum n
ones_sum-step n le = ground arith

ones_sum-small : (n : ℕ) → n < 2 ^ 16 → ones_sum n ≡ n
ones_sum-small n lt = ground arith

carries_lem : (n : ℕ) → n < 2 ^ 32 → add_carries 3 n ≡ ones_sum n
carries_lem n lt = elim (Bool-cases (ltb n (2 ^ 16))) [
  | inl small ↦ let l : n < 2 ^ 16 = ground arith in carries-small 2 n l ∙ sym (ones_sum-small n l)
  | inr big ↦
      let m = n % 2 ^ 16 + n / 2 ^ 16 in
      let le : 2 ^ 16 ≤ n = ground arith in
      elim (Bool-cases (ltb m (2 ^ 16))) [
        | inl small ↦
            let l : m < 2 ^ 16 = ground arith in
            carries-step 2 n le
            ∙ carries-small 1 m l
            ∙ sym (ones_sum-small m l)
            ∙ ones_sum-step n le
        | inr more ↦
            let le' : 2 ^ 16 ≤ m = ground arith in
            let k = m % 2 ^ 16 + m / 2 ^ 16 in
            let l : k < 2 ^ 16 = omega arith in
            carries-step 2 n le
            ∙ carries-step 1 m le'
            ∙ carries-small 0 k l
            ∙ sym (ones_sum-small k l)
            ∙ ones_sum-step m le'
            ∙ ones_sum-step n le
      ]
]

word_sum_lem :
    (bs : Bytes) (acc : ℕ)
    → AreBytes bs
    → acc + 2 ^ 15 * length bs < 2 ^ 32
    → word_sum bs acc ≡ acc + total bs
unfolding word_sum
word_sum_lem [] acc h lt = omega arith
word_sum_lem (a ∷ []) acc (h, hs) lt = omega arith
word_sum_lem (a ∷ b ∷ bs) acc (h, (h', hs)) lt =
    let fits : (acc + (a + 256 * b)) % 2 ^ 32 ≡ acc + (a + 256 * b) = omega arith in
    ap (word_sum bs) fits ∙ word_sum_lem bs (acc + (a + 256 * b)) hs (omega arith) ∙ omega arith

total_le : (bs : Bytes) → AreBytes bs → total bs ≤ 2 ^ 15 * length bs
total_le [] h = omega arith
total_le (a ∷ []) (h, hs) = omega arith
total_le (a ∷ b ∷ bs) (h, (h', hs)) = omega (arith, total_le bs hs)

-- The checksum of up to 65535 bytes is the complement of the one's complement sum of its 16-bit
-- words, an odd byte at the end counted as a word.
pub ip_checksum_lem :
    (bs : Bytes) → AreBytes bs → length bs < 2 ^ 16 → ip_checksum bs ≡ 65535 - ones_sum (total bs)
unfolding ip_checksum
ip_checksum_lem bs h lt =
    let le = total_le bs h in
    ap (λ (n : ℕ). 65535 - add_carries 3 n % 2 ^ 16)
      (word_sum_lem bs 0 h (omega arith) ∙ omega arith)
    ∙ ap (λ (n : ℕ). 65535 - n % 2 ^ 16) (carries_lem (total bs) (omega arith))
    ∙ ground arith

-- A sum with its complement added to it is all ones.
pub ones_sum-complement : (n : ℕ) → ones_sum (n + (65535 - ones_sum n)) ≡ 65535
ones_sum-complement n = ground arith

pub ip_checksum_lt : (bs : Bytes) → ip_checksum bs < 2 ^ 16
unfolding ip_checksum
ip_checksum_lt bs = omega arith

-- An array of even length with a 16-bit field in it, whose checksum is computed with the field 0:
-- with that checksum in the field, the checksum is 0, by which a receiver recognises it.
pub checksum-field :
    (bs cs : Bytes)
    → AreBytes bs
    → AreBytes cs
    → length bs < 2 ^ 16
    → length cs < 2 ^ 16
    → total cs ≡ total bs + ip_checksum bs
    → ip_checksum cs ≡ 0
checksum-field bs cs hb hc lb lc e =
    ip_checksum_lem cs hc lc
    ∙ ap (λ (n : ℕ). 65535 - ones_sum n)
        (e ∙ ap (λ (n : ℕ). total bs + n) (ip_checksum_lem bs hb lb))
    ∙ ap (λ (n : ℕ). 65535 - n) (ones_sum-complement (total bs))
