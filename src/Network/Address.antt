-- ===== src/Network/Address.antt =====
-- A printed address is parsed back.
use pine_os.Base.{
  ℕ, ◌+◌, ◌-◌, ◌*◌, ◌/◌, ◌%◌, ◌≡◌, ◌≤◌, ◌<◌, inl, inr, refl, ap, ◌∙◌, sym, true, false, some, List,
  [], ◌∷◌, ◌++◌, ltb, leb, length, Bool-cases, dec_lt, arith,
}
use pine_os.CString.{Text}
use pine_os.Network.{Ip, finish, parse, ip_from_string, octet_text, ip_to_string}

pub parse-digit :
    (n cur : ℕ) (str : Text) (os : List ℕ)
    → n < 10
    → length os < 4
    → cur * 10 + n < 256
    → parse ((b'0' + n) ∷ str) os cur ≡ parse str os (cur * 10 + n)
unfolding parse
parse-digit n cur str os lt l le =
    let same : cur * 10 + (b'0' + n - b'0') ≡ cur * 10 + n = omega arith in
    let few : leb 4 (length os) ≡ false = ground arith in
    let low : leb b'0' (b'0' + n) ≡ true = ground arith in
    let high : leb (b'0' + n) b'9' ≡ true = ground arith in
    let small : ltb 255 (cur * 10 + n) ≡ false = ground arith in
    rw (few, low, high, same, small) refl

octet_text-one : (o : ℕ) → o < 10 → octet_text o ≡ (b'0' + o) ∷ []
unfolding octet_text
octet_text-one o lt =
    let h : leb 100 o ≡ false = ground arith in
    let t : leb 10 o ≡ false = ground arith in rw (h, t) refl

octet_text-two : (o : ℕ) → 10 ≤ o → o < 100 → octet_text o ≡ (b'0' + o / 10) ∷ (b'0' + o % 10) ∷ []
unfolding octet_text
octet_text-two o ge lt =
    let h : leb 100 o ≡ false = ground arith in
    let t : leb 10 o ≡ true = ground arith in rw (h, t) refl

octet_text-three :
    (o : ℕ)
    → 100 ≤ o
    → octet_text o ≡ (b'0' + o / 100) ∷ (b'0' + o % 100 / 10) ∷ (b'0' + o % 100 % 10) ∷ []
unfolding octet_text
octet_text-three o ge =
    let h : leb 100 o ≡ true = ground arith in
    elim (Bool-cases (leb 10 (o % 100))) [ inl t ↦ rw (h, t) refl | inr t ↦ rw (h, t) refl ]

parse-octet :
    (o : ℕ) (str : Text) (os : List ℕ)
    → o < 256
    → length os < 4
    → parse (octet_text o ++ str) os 0 ≡ parse str os o
parse-octet o str os lt l = elim (dec_lt o 10) [
  | yes small ↦
      ap (λ (t : Text). parse (t ++ str) os 0) (octet_text-one o small)
      ∙ parse-digit o 0 str os small l (omega arith)
      ∙ ap (parse str os) (omega arith)
  | no big ↦ elim (dec_lt o 100) [
    | yes two ↦
        ap (λ (t : Text). parse (t ++ str) os 0) (octet_text-two o (omega arith) two)
        ∙ parse-digit (o / 10) 0 ((b'0' + o % 10) ∷ str) os (omega arith) l (omega arith)
        ∙ parse-digit (o % 10) (0 * 10 + o / 10) str os (omega arith) l (omega arith)
        ∙ ap (parse str os) (omega arith)
    | no three ↦
        let n = o % 100 / 10 in
        let k = o % 100 % 10 in
        ap (λ (t : Text). parse (t ++ str) os 0) (octet_text-three o (omega arith))
        ∙ parse-digit (o / 100) 0 ((b'0' + n) ∷ (b'0' + k) ∷ str) os (omega arith) l (omega arith)
        ∙ parse-digit n (0 * 10 + o / 100) ((b'0' + k) ∷ str) os (omega arith) l (omega arith)
        ∙ parse-digit k ((0 * 10 + o / 100) * 10 + n) str os (omega arith) l (omega arith)
        ∙ ap (parse str os) (omega arith)
  ]
]

parse-dot :
    (str : Text) (os : List ℕ) (o : ℕ)
    → length os < 4
    → parse (b'.' ∷ str) os o ≡ parse str (o ∷ os) 0
unfolding parse
parse-dot str os o l = let few : leb 4 (length os) ≡ false = ground arith in rw few refl

-- each part is one byte
pub record IsIp (x : Ip) : Type 0 where
  pub first : x.a < 256
  pub second : x.b < 256
  pub third : x.c < 256
  pub fourth : x.d < 256

append_nil : (t : Text) → t ++ [] ≡ t
append_nil [] = refl
append_nil (c ∷ t) = ap (λ (u : Text). c ∷ u) (append_nil t)

last_octet :
    (o : ℕ) (os : List ℕ) → o < 256 → length os < 4 → parse (octet_text o) os 0 ≡ finish os o
unfolding parse
last_octet o os lt l =
    ap (λ (t : Text). parse t os 0) (sym (append_nil (octet_text o))) ∙ parse-octet o [] os lt l

-- Every address is read back from the text that it is printed as.
pub ip_from_string-ip_to_string : (x : Ip) → IsIp x → ip_from_string (ip_to_string x) ≡ some x
unfolding ip_from_string ip_to_string
ip_from_string-ip_to_string x h =
    let d = octet_text x.d in
    let c = octet_text x.c ++ (b'.' ∷ d) in
    let b = octet_text x.b ++ (b'.' ∷ c) in
    parse-octet x.a (b'.' ∷ b) [] h.first (omega arith)
    ∙ parse-dot b [] x.a (omega arith)
    ∙ parse-octet x.b (b'.' ∷ c) (x.a ∷ []) h.second (omega arith)
    ∙ parse-dot c (x.a ∷ []) x.b (omega arith)
    ∙ parse-octet x.c (b'.' ∷ d) (x.b ∷ x.a ∷ []) h.third (omega arith)
    ∙ parse-dot d (x.b ∷ x.a ∷ []) x.c (omega arith)
    ∙ last_octet x.d (x.c ∷ x.b ∷ x.a ∷ []) h.fourth (omega arith)
