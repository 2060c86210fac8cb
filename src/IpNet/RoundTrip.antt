-- ===== src/IpNet/RoundTrip.antt =====
-- An IPv4 network comes back from its text.
use mathlib.Core.List.{append_assoc}
use k8s_ovs.Base.{
  ℕ, ◌+◌, ◌*◌, ◌/◌, ◌%◌, ◌≤◌, ◌<◌, ◌≡◌, refl, ap, ◌∙◌, some, List, [], ◌∷◌, ◌++◌, Text, decimal,
  arith,
}
use k8s_ovs.Base.Split.{Lacks, split-append, split_lacking, Lacks-append}
use k8s_ovs.Base.Strings.{split}
use k8s_ovs.IpNet.Digits.{decimal-Lacks, number_to-decimal}
use k8s_ovs.IpNet.{
  IpNet, number_to, octets, parse_ip, mask, parse_cidr, ip_to_string, net_to_string,
}

-- Four texts of numbers, joined.
split_dotted :
    (a b c d : ℕ)
    → split (decimal a ++ (46 ∷ (decimal b ++ (46 ∷ (decimal c ++ (46 ∷ decimal d)))))) 46
      ≡ decimal a ∷ decimal b ∷ decimal c ∷ decimal d ∷ []
split_dotted a b c d =
    split-append (decimal a) (decimal b ++ (46 ∷ (decimal c ++ (46 ∷ decimal d)))) 46 (lacks a)
    ∙ ap (decimal a ∷◌) (
        split-append (decimal b) (decimal c ++ (46 ∷ decimal d)) 46 (lacks b)
        ∙ ap (decimal b ∷◌) (
            split-append (decimal c) (decimal d) 46 (lacks c)
            ∙ ap (decimal c ∷◌) (split_lacking (decimal d) 46 (lacks d))))
  where
    lacks : (n : ℕ) → Lacks 46 (decimal n)
    lacks n = decimal-Lacks 46 n (omega arith)

dotted-Lacks :
    (a b c d : ℕ)
    → Lacks 47 (decimal a ++ (46 ∷ (decimal b ++ (46 ∷ (decimal c ++ (46 ∷ decimal d))))))
dotted-Lacks a b c d =
    Lacks-append (decimal a) (46 ∷ (decimal b ++ (46 ∷ (decimal c ++ (46 ∷ decimal d))))) 47
      (lacks a)
      (
        refl,
        Lacks-append (decimal b) (46 ∷ (decimal c ++ (46 ∷ decimal d))) 47 (lacks b)
            (refl, Lacks-append (decimal c) (46 ∷ decimal d) 47 (lacks c) (refl, lacks d)),
      )
  where
    lacks : (n : ℕ) → Lacks 47 (decimal n)
    lacks n = decimal-Lacks 47 n (omega arith)

octets_next :
    (n d : ℕ) (s : Text) (rest : List Text)
    → number_to 255 s ≡ some d
    → octets n (s ∷ rest) ≡ octets (n * 256 + d) rest
unfolding octets
octets_next n d s rest e = rw (octets, e) refl

octets_end : (n : ℕ) → octets n [] ≡ some n
unfolding octets
octets_end n = refl

octets-decimal :
    (a b c d : ℕ)
    → (a ≤ 255) × (b ≤ 255) × (c ≤ 255) × (d ≤ 255)
    → octets 0 (decimal a ∷ decimal b ∷ decimal c ∷ decimal d ∷ [])
      ≡ some (((a * 256 + b) * 256 + c) * 256 + d)
octets-decimal a b c d (p, q, r, s) =
    octets_next 0 a (decimal a) _ (number_to-decimal 255 a p)
    ∙ ap (λ (t : ℕ). octets t (decimal b ∷ decimal c ∷ decimal d ∷ [])) (omega arith)
    ∙ octets_next a b (decimal b) _ (number_to-decimal 255 b q)
    ∙ octets_next (a * 256 + b) c (decimal c) _ (number_to-decimal 255 c r)
    ∙ octets_next ((a * 256 + b) * 256 + c) d (decimal d) _ (number_to-decimal 255 d s)
    ∙ octets_end (((a * 256 + b) * 256 + c) * 256 + d)

parse_ip_four :
    (s a b c d : Text)
    → split s 46 ≡ a ∷ b ∷ c ∷ d ∷ []
    → parse_ip s ≡ octets 0 (a ∷ b ∷ c ∷ d ∷ [])
unfolding parse_ip
parse_ip_four s a b c d e = rw (parse_ip, e) refl

abbrev octet : ℕ → ℕ → ℕ
octet unit ip = ip / unit % 256

ip_to_string_lem :
    (ip : ℕ)
    → ip_to_string ip
      ≡ decimal (octet 16777216 ip)
        ++ (46
            ∷ (decimal (octet 65536 ip)
                ++ (46 ∷ (decimal (octet 256 ip) ++ (46 ∷ decimal (ip % 256))))))
unfolding ip_to_string
ip_to_string_lem ip = simp append_assoc refl

parse_ip-ip_to_string : (ip : ℕ) → ip < 4294967296 → parse_ip (ip_to_string ip) ≡ some ip
parse_ip-ip_to_string ip low =
    let a = octet 16777216 ip in
    let b = octet 65536 ip in
    let c = octet 256 ip in
    let d = ip % 256 in
    let whole : ((a * 256 + b) * 256 + c) * 256 + d ≡ ip = omega arith in
    parse_ip_four (ip_to_string ip) (decimal a) (decimal b) (decimal c) (decimal d)
      (ap (λ (t : Text). split t 46) (ip_to_string_lem ip) ∙ split_dotted a b c d)
    ∙ octets-decimal a b c d (omega arith, omega arith, omega arith, omega arith)
    ∙ ap (λ (t : ℕ). some t) whole

parse_cidr_two :
    (s addr length : Text) (ip bits : ℕ)
    → split s 47 ≡ addr ∷ length ∷ []
    → parse_ip addr ≡ some ip
    → number_to 32 length ≡ some bits
    → parse_cidr s ≡ some (record { ip = mask ip bits; bits = bits })
unfolding parse_cidr
parse_cidr_two s addr length ip bits e f g = ground (arith, e, f, g)

net_to_string_lem : (n : IpNet) → net_to_string n ≡ ip_to_string n.ip ++ 47 ∷ decimal n.bits
unfolding net_to_string
net_to_string_lem n = refl

-- The text of an IPv4 network with no bit below its mask parses, and gives the network.
pub parse_cidr-net_to_string :
    (n : IpNet)
    → n.ip < 4294967296
    → n.bits ≤ 32
    → mask n.ip n.bits ≡ n.ip
    → parse_cidr (net_to_string n) ≡ some n
parse_cidr-net_to_string n low bits_le masked =
    let lacks : Lacks 47 (ip_to_string n.ip) = rw (ip_to_string_lem n.ip) (dotted-Lacks _ _ _ _) in
    let parts : split (net_to_string n) 47 ≡ ip_to_string n.ip ∷ decimal n.bits ∷ [] =
      ap (λ (t : Text). split t 47) (net_to_string_lem n)
      ∙ split-append (ip_to_string n.ip) (decimal n.bits) 47 lacks
      ∙ ap (ip_to_string n.ip ∷◌)
          (split_lacking (decimal n.bits) 47 (decimal-Lacks 47 n.bits (omega arith))) in
    parse_cidr_two (net_to_string n) (ip_to_string n.ip) (decimal n.bits) n.ip n.bits parts
      (parse_ip-ip_to_string n.ip low) (number_to-decimal 32 n.bits bits_le)
    ∙ ap (λ (t : ℕ). some (record { ip = t; bits = n.bits })) masked
