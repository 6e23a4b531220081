-- ===== src/Netstack/Names.antt =====
-- The name in a DNS query: a resolver reads the labels back, and which names fit the buffer.
use mathlib.Core.List.{append_assoc, append-nil}
use pine_os.Base.{
  ℕ, zero, suc, ◌+◌, ◌%◌, ◌≡◌, ◌≤◌, ◌<◌, ◌↔◌, inl, inr, refl, ap, ◌∙◌, sym, false, Option, none,
  some, List, [], ◌∷◌, ◌++◌, ltb, ◌==◌, if◌then◌else◌, length, take, drop, Bool-cases, arith,
  length-append, take-append, drop-append,
}
use pine_os.Base.Bind.{◌>>=◌}
use pine_os.CString.{Text}
use pine_os.Netstack.{Bytes, dns_header_bytes}
use pine_os.Netstack.Link.{Nic, Host}
use pine_os.Netstack.Dns.{put_label, put_name, dns_question, dns_packet, dns_send_query}

-- The parts of a name between its dots.
abbrev pub labels_from : Text → Bytes → List Bytes
labels_from [] label = label ∷ []
labels_from (c ∷ t) label =
    let next = labels_from t [] in
    let more = labels_from t (label ++ (c ∷ [])) in if c == b'.' then label ∷ next else more

abbrev pub labels : Text → List Bytes
labels t = labels_from t []

-- the parts put together again
abbrev pub join_more : List Bytes → Text
join_more [] = []
join_more (l ∷ ls) = b'.' ∷ (l ++ join_more ls)

abbrev pub join : List Bytes → Text
join [] = []
join (l ∷ ls) = l ++ join_more ls

-- A reader of uncompressed names as RFC 1035 has them: a length of at most 63 and the bytes of a
-- label, up to the length 0. Other lengths are refused.
abbrev pub read_name : ℕ → Bytes → Option (List Bytes)
read_name zero bs = none
read_name (suc fuel) [] = none
read_name (suc fuel) (n ∷ bs) =
    let rest = read_name fuel (drop n bs) in
    if n == 0
    then some []
    else if ltb 63 n
    then none
    else if ltb (length bs) n
    then none
    else (rest >>= λ ls. some (take n bs ∷ ls))

-- Each label has between 1 and 63 bytes.
abbrev pub AreLabels : List Bytes → Type 0
AreLabels [] = Unit {0}
AreLabels (l ∷ ls) = (1 ≤ length l) × (length l < 64) × AreLabels ls

abbrev put_labels : List Bytes → Bytes
put_labels [] = []
put_labels (l ∷ ls) = put_label l ++ put_labels ls

put_name-labels_from : (t : Text) (l : Bytes) → put_name t l ≡ put_labels (labels_from t l)
unfolding put_name
put_name-labels_from [] l = sym (append-nil (put_label l))
put_name-labels_from (c ∷ t) l = elim (Bool-cases (c == b'.')) [
  | inl y ↦ rw (y, put_name-labels_from t []) refl
  | inr n ↦ rw n (put_name-labels_from t (l ++ (c ∷ [])))
]

join-labels_from :
    (t : Text) (l : Bytes)
    → (join (labels_from t l) ≡ l ++ t) × (join_more (labels_from t l) ≡ b'.' ∷ (l ++ t))
join-labels_from [] l = (refl, refl)
join-labels_from (c ∷ t) l = elim (Bool-cases (c == b'.')) [
  | inl y ↦
      let (e, e') = join-labels_from t [] in
      let dot : b'.' ≡ c = ground arith in rw (y, e') (rw dot refl, rw dot refl)
  | inr n ↦
      let (e, e') = join-labels_from t (l ++ (c ∷ [])) in
      let a = append_assoc l (c ∷ []) t in rw n (e ∙ a, e' ∙ ap (λ (u : Text). b'.' ∷ u) a)
]

read_name-put_labels :
    (ls : List Bytes) (rest : Bytes) (fuel : ℕ)
    → AreLabels ls
    → length ls < fuel
    → read_name fuel (put_labels ls ++ (0 ∷ rest)) ≡ some ls
read_name-put_labels ls rest zero h lt = absurd (omega arith)
read_name-put_labels [] rest (suc fuel) h lt = refl
read_name-put_labels (l ∷ ls) rest (suc fuel) (one, small, h) lt =
    let tail = put_labels ls ++ (0 ∷ rest) in
    let assoc : (l ++ put_labels ls) ++ (0 ∷ rest) ≡ l ++ tail =
      append_assoc l (put_labels ls) (0 ∷ rest) in
    let n : length l % 256 ≡ length l = omega arith in
    let some_bytes : (length l == 0) ≡ false = ground arith in
    let short : ltb 63 (length l) ≡ false = ground arith in
    let there : ltb (length (l ++ tail)) (length l) ≡ false =
      ground (arith, length-append l tail) in
    rw
      (
        assoc,
        n,
        some_bytes,
        short,
        there,
        drop-append l tail,
        take-append l tail,
        read_name-put_labels ls rest fuel h (omega arith),
      )
      refl

put_name_length : (t : Text) (l : Bytes) → length (put_name t l) ≡ 1 + length l + length t
unfolding put_name
put_name_length [] l = omega arith
put_name_length (c ∷ t) l = elim (Bool-cases (c == b'.')) [
  | inl y ↦ rw y (omega (arith, length-append (put_label l) (put_name t []), put_name_length t []))
  | inr n ↦ rw n (omega (arith, length-append l (c ∷ []), put_name_length t (l ++ (c ∷ []))))
]

length-dns_packet : (t : Text) (id : ℕ) → length (dns_packet t id) ≡ 18 + length t
unfolding dns_packet dns_question dns_header_bytes
length-dns_packet t id =
    omega (arith, length-append (put_name t []) (0 ∷ 0 ∷ 1 ∷ 0 ∷ 1 ∷ []), put_name_length t [])

-- The labels that a resolver reads from the question, put together with dots, are the host name, if
-- none of them is empty or longer than 63 bytes.
pub read_name-dns_question :
    (hostname : Text) (rest : Bytes) (fuel : ℕ)
    → AreLabels (labels hostname)
    → length (labels hostname) < fuel
    → (read_name fuel (dns_question hostname ++ rest) ≡ some (labels hostname))
      × (join (labels hostname) ≡ hostname)
unfolding dns_question
read_name-dns_question t rest fuel h lt = (
  ap (read_name fuel) (
        append_assoc (put_name t []) (0 ∷ 0 ∷ 1 ∷ 0 ∷ 1 ∷ []) rest
        ∙ ap (λ (bs : Bytes). bs ++ (0 ∷ 0 ∷ 1 ∷ 0 ∷ 1 ∷ rest)) (put_name-labels_from t []))
      ∙ read_name-put_labels (labels t) (0 ∷ 1 ∷ 0 ∷ 1 ∷ rest) fuel h lt,
  (join-labels_from t []).0,
)

-- The array in which a query is built is left exactly by host names of more than 494 bytes.
pub dns_send_query-overrun :
    {Card : Type 0} (nic : Nic Card) (hostname : Text) (id : ℕ) (h : Host Card)
    → (dns_send_query nic hostname id h ≡ none) ↔ (494 < length hostname)
unfolding dns_send_query
dns_send_query-overrun nic hostname id h = rw (length-dns_packet hostname id) (ground arith)
