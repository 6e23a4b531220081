-- ===== src/Netstack/Offers.antt =====
-- A response whose options are written as the protocol has them, without the pad option.
use mathlib.Core.List.{append_assoc}
use pine_os.Base.{
  ℕ, zero, suc, ◌+◌, ◌*◌, ◌≡◌, ◌≢◌, ◌≤◌, ◌<◌, inl, inr, refl, ap, ◌∙◌, sym, false, ◌&&◌, some, List,
  [], ◌∷◌, ◌++◌, leb, ◌==◌, if◌then◌else◌, length, Bool-cases, arith, length-append,
  get_elem?-append,
}
use pine_os.Network.{Ip, ip}
use pine_os.Network.Table.{Iface}
use pine_os.Netstack.{Bytes, read_ip}
use pine_os.Netstack.Dhcp.{set_option, parse_options, option_rounds, end_option}
use pine_os.Netstack.Options.{option_round, parse_options_stop}

-- an option of RFC 2132 that has a length: its type and its bytes
pub record Opt : Type 0 where
  pub type : ℕ
  pub body : Bytes

abbrev pub encode : List Opt → Bytes
encode [] = end_option ∷ []
encode (o ∷ os) = o.type ∷ length o.body ∷ (o.body ++ encode os)

abbrev first_ip : Bytes → Ip → Ip
first_ip (a ∷ b ∷ c ∷ d ∷ rest) old = ip a b c d
first_ip _ old = old

-- What an option means for an interface: a mask of four bytes, and the first of a list of gateways
-- or of name servers. Others are skipped.
abbrev pub apply_option : Opt → Iface → Iface
apply_option o i =
    if o.type == 1 && length o.body == 4
    then record i { subnet_mask = first_ip o.body i.subnet_mask }
    else if o.type == 3
    then record i { gateway = first_ip o.body i.gateway }
    else if o.type == 6
    then record i { dns_server = first_ip o.body i.dns_server }
    else i

abbrev pub apply_options : List Opt → Iface → Iface
apply_options [] i = i
apply_options (o ∷ os) i = apply_options os (apply_option o i)

-- The types 0 and 255 are the pad and the end mark, which have no length; the others have up to 255
-- bytes.
abbrev pub AreOptions : List Opt → Type 0
AreOptions [] = Unit {0}
AreOptions (o ∷ os) = (0 < o.type) × (o.type < 255) × (length o.body < 256) × AreOptions os

read_ip_prefix :
    (pre body rest : Bytes) (off : ℕ) (old : Ip)
    → off ≡ length pre
    → 4 ≤ length body
    → read_ip (pre ++ (body ++ rest)) off ≡ some (first_ip body old)
unfolding read_ip
read_ip_prefix pre (a ∷ b ∷ c ∷ d ∷ body) rest off old e le =
    let all = (a ∷ b ∷ c ∷ d ∷ body) ++ rest in
    rw
      (
        get_elem?-append pre all off 0 (omega arith),
        get_elem?-append pre all (off + 1) 1 (omega arith),
        get_elem?-append pre all (off + 2) 2 (omega arith),
        get_elem?-append pre all (off + 3) 3 (omega arith),
      )
      refl
read_ip_prefix pre [] rest off old e le = absurd (omega arith)
read_ip_prefix pre (a ∷ []) rest off old e le = absurd (omega arith)
read_ip_prefix pre (a ∷ b ∷ []) rest off old e le = absurd (omega arith)
read_ip_prefix pre (a ∷ b ∷ c ∷ []) rest off old e le = absurd (omega arith)

first_ip_short : (body : Bytes) (old : Ip) → length body < 4 → first_ip body old ≡ old
first_ip_short [] old lt = refl
first_ip_short (a ∷ []) old lt = refl
first_ip_short (a ∷ b ∷ []) old lt = refl
first_ip_short (a ∷ b ∷ c ∷ []) old lt = refl
first_ip_short (a ∷ b ∷ c ∷ d ∷ body) old lt = absurd (omega arith)

set_option-apply_option :
    (o : Opt) (pre rest : Bytes) (off : ℕ) (i : Iface)
    → off ≡ length pre
    → set_option o.type (length o.body) (pre ++ (o.body ++ rest)) off i ≡ some (apply_option o i)
unfolding set_option
set_option-apply_option o pre rest off i e =
    let len = length o.body in
    elim (Bool-cases (o.type == 1 && len == 4)) [
      | inl y ↦ rw (y, read_ip_prefix pre o.body rest off i.subnet_mask e (ground arith)) refl
      | inr n ↦ elim (Bool-cases (o.type == 3)) [
        | inl y ↦ elim (Bool-cases (leb 4 len)) [
          | inl l ↦ rw (n, y, l, read_ip_prefix pre o.body rest off i.gateway e (ground arith)) refl
          | inr l ↦
              let six : (o.type == 6) ≡ false = ground arith in
              rw (n, y, l, six, first_ip_short o.body i.gateway (ground arith)) refl
        ]
        | inr m ↦ elim (Bool-cases (o.type == 6)) [
          | inl y ↦ elim (Bool-cases (leb 4 len)) [
            | inl l ↦
                rw (n, m, y, l, read_ip_prefix pre o.body rest off i.dns_server e (ground arith))
                  refl
            | inr l ↦ rw (n, m, y, l, first_ip_short o.body i.dns_server (ground arith)) refl
          ]
          | inr k ↦ rw (n, m, k) refl
        ]
      ]
    ]

parse_options-encode_from :
    (os : List Opt) (pre rest : Bytes) (off fuel : ℕ) (i : Iface)
    → off ≡ length pre
    → AreOptions os
    → off + length (encode os) ≤ 300
    → length os < fuel
    → parse_options fuel (pre ++ (encode os ++ rest)) off i ≡ some (apply_options os i)
parse_options-encode_from os pre rest off zero i e h le lt = absurd (omega arith)
parse_options-encode_from [] pre rest off (suc fuel) i e h le lt =
    parse_options_stop fuel (pre ++ (end_option ∷ rest)) off i end_option
      (get_elem?-append pre (end_option ∷ rest) off 0 (omega arith)) (inl refl)
parse_options-encode_from (o ∷ os) pre rest off (suc fuel) i e (real, below, size, h) le lt =
    let len = length o.body in
    let ne : o.type ≢ 255 = λ q. omega (arith, q, below) in
    let tail = encode os ++ rest in
    let all = o.type ∷ len ∷ ((o.body ++ encode os) ++ rest) in
    let assoc : (o.body ++ encode os) ++ rest ≡ o.body ++ tail =
      append_assoc o.body (encode os) rest in
    let behind : (pre ++ (o.type ∷ len ∷ [])) ++ (o.body ++ tail) ≡ pre ++ all =
      append_assoc pre (o.type ∷ len ∷ []) (o.body ++ tail)
      ∙ ap (λ (t : Bytes). pre ++ (o.type ∷ len ∷ t)) (sym assoc) in
    let next : (pre ++ (o.type ∷ len ∷ o.body)) ++ tail ≡ pre ++ all =
      append_assoc pre (o.type ∷ len ∷ o.body) tail
      ∙ ap (λ (t : Bytes). pre ++ (o.type ∷ len ∷ t)) (sym assoc) in
    let sized = length-append o.body (encode os) in
    let set =
      set_option-apply_option o (pre ++ (o.type ∷ len ∷ [])) tail (off + 2) i
        (sym (length-append pre (o.type ∷ len ∷ []) ∙ omega arith)) in
    let j = apply_option o i in
    option_round fuel (pre ++ all) off i j o.type len (omega arith) ne
      (get_elem?-append pre all off 0 (omega arith))
      (get_elem?-append pre all (off + 1) 1 (omega arith))
      (ap (λ (t : Bytes). set_option o.type len t (off + 2) i) (sym behind) ∙ set)
    ∙ ap (λ (t : Bytes). parse_options fuel t (off + 2 + len) j) (sym next)
    ∙ parse_options-encode_from os (pre ++ (o.type ∷ len ∷ o.body)) rest (off + 2 + len) fuel j
        (sym (length-append pre (o.type ∷ len ∷ o.body) ∙ omega arith)) h (omega arith)
        (omega arith)

count_le : (os : List Opt) → 2 * length os < length (encode os)
count_le [] = omega arith
count_le (o ∷ os) = omega (arith, count_le os, length-append o.body (encode os))

-- Options with a type from 1 to 254 and up to 255 bytes each, so no pad option, that are encoded one
-- behind the other up to 300 bytes with the end mark, are all read, in order, and each has the effect
-- that it means; the bytes behind them have none.
pub parse_options-encode :
    (os : List Opt) (rest : Bytes) (i : Iface)
    → AreOptions os
    → length (encode os) ≤ 300
    → parse_options option_rounds (encode os ++ rest) 0 i ≡ some (apply_options os i)
parse_options-encode os rest i h le =
    parse_options-encode_from os [] rest 0 option_rounds i refl h (omega arith)
      (omega (arith, count_le os))
