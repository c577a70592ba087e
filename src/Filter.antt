-- ===== src/Filter.antt =====
-- src/npu_filter.cpp: the detectors that look at a flow's bytes, and the priority that a flow gets in
-- the queue to the LLM. A payload is the list of its bytes.
use wirewolf.Base.{
  ℕ, zero, suc, ◌+◌, ◌-◌, ◌*◌, ◌/◌, ◌%◌, Bool, true, false, not, ◌&&◌, ◌||◌, List, [], ◌∷◌, ◌++◌,
  length, leb, ltb, ◌==◌, if◌then◌else◌,
}
use wirewolf.Base.Text.{Bytes, codes, contains}
use wirewolf.Base.Words.{be16}
use wirewolf.Packet.{FlowData, octet}
pub mod Scan
pub mod Ftp
pub mod Credentials
pub mod Http
pub mod Smb
pub mod Rat
pub mod Injection
pub mod Handshake
pub mod Features
pub mod Dedup
pub mod Decide
pub mod Worker
pub mod Accounts
pub mod Verdicts
pub mod Signals
pub mod Escalation

unfoldable pub dst_is_external : ℕ → Bool
dst_is_external ip =
    let b0 = octet ip 0 in
    let b1 = octet ip 1 in
    not (
      b0 == 10
      || b0 == 127
      || b0 == 0
      || (b0 == 172 && b1 / 16 == 1)
      || (b0 == 192 && b1 == 168)
      || (b0 == 169 && b1 == 254))

-- The body of the loop at one offset: the bytes from there on, of which there are `size`.
unfoldable pub is_heartbleed : Bytes → Bool
is_heartbleed (content_type ∷ major ∷ minor ∷ len1 ∷ len0 ∷ hb_type ∷ hb1 ∷ hb0 ∷ rest) =
    let record_len = be16 len1 len0 in
    content_type == 0x18
    && not (not (major == 3) || ltb 3 minor)
    && not (ltb (8 + length rest) (5 + record_len))
    && not (ltb record_len 3)
    && not (not (hb_type == 1) && not (hb_type == 2))
    && ltb (record_len - 3 + 16) (be16 hb1 hb0)
is_heartbleed _ = false

unfoldable pub detect_heartbleed : Bytes → Bool
detect_heartbleed [] = false
detect_heartbleed (c ∷ cs) = is_heartbleed (c ∷ cs) || detect_heartbleed cs

abbrev pub spnego_oid : Bytes
spnego_oid = 6 ∷ 6 ∷ 0x2b ∷ 6 ∷ 1 ∷ 5 ∷ 5 ∷ 2 ∷ []

abbrev pub ntlmssp : Bytes
ntlmssp = codes "NTLMSSP" ++ 0 ∷ []

unfoldable pub detect_spnego : Bytes → Bool
detect_spnego p =
    leb (length spnego_oid) (length p) && contains p spnego_oid
    || leb (length ntlmssp) (length p) && contains p ntlmssp

abbrev is_nil {ℓ} : {A : Type ℓ} → List A → Bool
is_nil [] = true
is_nil (x ∷ xs) = false

unfoldable pub flow_priority : {Double : Type 0} → FlowData Double → ℕ
flow_priority f = if not (is_nil f.protocol_tag) || f.behavioral_suspect then 2 else 1
