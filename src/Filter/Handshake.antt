-- ===== src/Filter/Handshake.antt =====
-- src/npu_filter.cpp, `inspect_tls`: what the filter makes of a TLS handshake.
use wirewolf.Base.{
  ℕ, suc, Bool, true, false, not, ◌&&◌, ◌||◌, List, [], ◌∷◌, Option, none, some, length, leb, ◌==◌,
  if◌then◌else◌,
}
use wirewolf.Base.Doubles.{Doubles}
use wirewolf.Base.Text.{Bytes, codes}
use wirewolf.Filter.Http.{until}
use wirewolf.Packet.{FlowData}
use wirewolf.ThreatFeed.{ThreatFeed, is_nil, has, is_bad_ja3, is_bad_domain}
use wirewolf.Tls.{TlsInfo, Hello, parse_tls_client_hello}

-- The results 0, 1 and 2 of `inspect_tls`.
pub data TlsVerdict : Type 0 where
  not_tls suspicious_tls benign_tls : TlsVerdict

abbrev hello_or_not : Option Hello → Hello
hello_or_not none = Hello.not_hello
hello_or_not (some h) = h

-- Where the parser indexes past the payload, which is undefined in the source, there is no hello.
unfoldable pub client_hello : Bytes → Hello
client_hello p = hello_or_not (parse_tls_client_hello p)

abbrev pub bad_ja3 : List Bytes
bad_ja3 =
    codes "a0e9f5d64349fb13191bc781f81f42e1"
    ∷ codes "72a589da586844d7f0818ce684948eea"
    ∷ codes "6734f37431670b3ab4292b8f60f29984"
    ∷ []

abbrev is_digit : ℕ → Bool
is_digit c = leb b'0' c && leb c b'9'

unfoldable pub all_ipish : Bytes → Bool
all_ipish [] = true
all_ipish (c ∷ cs) = (is_digit c || c == b'.') && all_ipish cs

unfoldable pub digits : Bytes → ℕ
digits [] = 0
digits (c ∷ cs) = let rest = digits cs in if is_digit c then suc rest else rest

unfoldable pub is_in : ℕ → Bytes → Bool
is_in c [] = false
is_in c (x ∷ xs) = c == x || is_in c xs

-- `strchr` finds the terminating zero too.
unfoldable pub is_consonant : ℕ → Bool
is_consonant c = c == 0 || is_in c (codes "bcdfghjklmnpqrstvwxz")

unfoldable pub consonants : Bytes → ℕ
consonants [] = 0
consonants (c ∷ cs) =
    let rest = consonants cs in if not (is_digit c) && is_consonant c then suc rest else rest

abbrev with_tag : {Double : Type 0} → Bytes → FlowData Double → FlowData Double
with_tag tag f = record f { protocol_tag = tag }

module _ (r : Doubles) where
  open r use {Double, of_ℕ, div, lt}

  unfoldable pub looks_generated : Bytes → Bool
  looks_generated label =
      let dr = div (of_ℕ (digits label)) (of_ℕ (length label)) in
      let cr = div (of_ℕ (consonants label)) (of_ℕ (length label)) in
      leb 16 (length label) && (lt (div (of_ℕ 3) (of_ℕ 10)) dr || lt (div (of_ℕ 3) (of_ℕ 4)) cr)

  unfoldable pub sni_suspicious : Bytes → Bool
  sni_suspicious s =
      if is_nil s then false else if all_ipish s then true else looks_generated (until b'.' s)

  -- The verdict on a ClientHello, and the flow with its tag.
  unfoldable pub judge : ThreatFeed → TlsInfo → FlowData Double → TlsVerdict × FlowData Double
  judge feed tls f =
      if has bad_ja3 tls.ja3_hash || is_bad_ja3 feed tls.ja3_hash
      then (TlsVerdict.suspicious_tls, with_tag (codes "Malicious TLS Client") f)
      else if is_bad_domain feed tls.sni
      then (TlsVerdict.suspicious_tls, with_tag (codes "C2 Beaconing") f)
      else if sni_suspicious tls.sni
      then (TlsVerdict.suspicious_tls, with_tag (codes "Suspicious TLS") f)
      else (TlsVerdict.benign_tls, f)

  unfoldable pub inspect : ThreatFeed → Hello → FlowData Double → TlsVerdict × FlowData Double
  inspect feed Hello.not_hello f = (TlsVerdict.not_tls, f)
  inspect feed (Hello.hello tls) f =
      judge feed tls (record f { tls_sni = tls.sni; tls_ja3 = tls.ja3_hash })

  unfoldable pub inspect_tls : ThreatFeed → FlowData Double → TlsVerdict × FlowData Double
  inspect_tls feed f = inspect feed (client_hello f.reassembled_payload) f
