-- ===== src/Reassembly/Header.antt =====
-- src/tcp_reassembly.cpp, `iphdr`, `tcphdr` and the head of `process_ip_packet`: the fields of a raw
-- IP packet. A read is `none` where the source would read past the `len` bytes that it was given.
use wirewolf.Base.{
  ℕ, ◌+◌, ◌-◌, ◌*◌, ◌/◌, ◌%◌, ◌≤◌, refl, Bool, ◌||◌, List, [], Option, some, length, get_elem?,
  get_elem?-total, ltb, leb, ◌==◌, if◌then◌else◌, if-ind, arith, leb→le,
}
use wirewolf.Base.Bytes.{
  ◌>>=◌, Reads, >>=-Reads, be16_at, le16_at, be32_at, le32_at, bytes_at, be16_at-Reads,
  le16_at-Reads, be32_at-Reads, le32_at-Reads, bytes_at-Reads,
}

-- `payload` is what the capture holds of the `payload_len` bytes: all of them or none.
pub record TcpPacket : Type 0 where
  pub saddr : ℕ
  pub daddr : ℕ
  pub source : ℕ
  pub dest : ℕ
  pub ttl : ℕ
  pub seq : ℕ
  pub flags : ℕ
  pub payload_len : ℕ
  pub payload_captured : Bool
  pub payload : List ℕ

pub data Parsed : Type 0 where
  -- fewer bytes than an IP header
  short : Parsed
  -- the source address of a packet that is not looked at further
  ignored : ℕ → Parsed
  udp : ℕ → ℕ → Parsed
  tcp : TcpPacket → Parsed

unfoldable pub get_fin : TcpPacket → Bool
get_fin t = t.flags % 2 == 1

unfoldable pub get_syn : TcpPacket → Bool
get_syn t = t.flags / 2 % 2 == 1

unfoldable pub get_rst : TcpPacket → Bool
get_rst t = t.flags / 4 % 2 == 1

-- The record that the rest of `process_ip_packet` works on.
unfoldable pub parse_segment : List ℕ → ℕ → ℕ → ℕ → ℕ → ℕ → Option Parsed
parse_segment p saddr daddr ip_header_len header_sizes payload_len = do
  let payload_captured = leb (header_sizes + payload_len) (length p)
  source ← le16_at p ip_header_len
  dest ← le16_at p (ip_header_len + 2)
  seq ← be32_at p (ip_header_len + 4)
  flags ← get_elem? p (ip_header_len + 13)
  ttl ← get_elem? p 8
  payload ← if payload_captured then bytes_at p header_sizes payload_len else some []
  some (
      tcp (record {
        saddr = saddr;
        daddr = daddr;
        source = source;
        dest = dest;
        ttl = ttl;
        seq = seq;
        flags = flags;
        payload_len = payload_len;
        payload_captured = payload_captured;
        payload = payload;
      }))

parse_segment-Reads :
    (p : List ℕ) (saddr daddr h hs n : ℕ)
    → h + 20 ≤ length p
    → Reads (parse_segment p saddr daddr h hs n)
unfolding parse_segment
parse_segment-Reads p saddr daddr h hs n fits =
    >>=-Reads _ _ (le16_at-Reads p h (omega arith)) λ source _.
      >>=-Reads _ _ (le16_at-Reads p (h + 2) (omega arith)) λ dest _.
        >>=-Reads _ _ (be32_at-Reads p (h + 4) (omega arith)) λ seq _.
          >>=-Reads _ _ (get_elem?-total p (h + 13) (omega arith)) λ flags _.
            >>=-Reads _ _ (get_elem?-total p 8 (omega arith)) λ ttl _.
              >>=-Reads _ _
                (if-ind Reads (leb (hs + n) (length p))
                  (λ captured. bytes_at-Reads p hs n (leb→le _ _ captured)) (λ _. ([], refl)))
                λ payload _. (_, refl)

-- The TCP header of a packet whose IP header has `ip_header_len` bytes.
unfoldable pub parse_tcp : List ℕ → ℕ → ℕ → ℕ → Option Parsed
parse_tcp p saddr daddr ip_header_len =
    if ltb ip_header_len 20 || ltb (length p) (ip_header_len + 20)
    then some (ignored saddr)
    else (do
      offset_res ← get_elem? p (ip_header_len + 12)
      tot_len ← be16_at p 2
      let tcp_header_len = offset_res / 16 * 4
      let header_sizes = ip_header_len + tcp_header_len
      if ltb tcp_header_len 20 || ltb tot_len header_sizes
          then some (ignored saddr)
          else parse_segment p saddr daddr ip_header_len header_sizes (tot_len - header_sizes))

unfoldable pub parse_ip : List ℕ → Option Parsed
parse_ip p = if ltb (length p) 20 then some short else (do
  protocol ← get_elem? p 9
  saddr ← le32_at p 12
  daddr ← le32_at p 16
  version_ihl ← get_elem? p 0
  if protocol == 17
      then some (udp saddr daddr)
      else (if protocol == 6
          then parse_tcp p saddr daddr (version_ihl % 16 * 4)
          else some (ignored saddr)))

parse_tcp-Reads :
    (p : List ℕ) (saddr daddr ip_header_len : ℕ)
    → 20 ≤ length p
    → Reads (parse_tcp p saddr daddr ip_header_len)
unfolding parse_tcp
parse_tcp-Reads p saddr daddr h long =
    if-ind Reads (ltb h 20 || ltb (length p) (h + 20)) (λ _. (ignored saddr, refl))
      λ fits. >>=-Reads _ _ (get_elem?-total p (h + 12) (ground arith)) λ o _.
        >>=-Reads _ _ (be16_at-Reads p 2 (omega arith)) λ t _.
          if-ind Reads (ltb (o / 16 * 4) 20 || ltb t (h + o / 16 * 4)) (λ _. (ignored saddr, refl))
            λ _.
              parse_segment-Reads p saddr daddr h (h + o / 16 * 4) (t - (h + o / 16 * 4))
                (ground arith)

-- Whatever bytes a capture holds, no read of the parser falls outside them: the header fields are
-- behind the length checks, and the payload is read only when it was captured.
pub parse_ip-Reads : (p : List ℕ) → Reads (parse_ip p)
unfolding parse_ip
parse_ip-Reads p =
    if-ind Reads (ltb (length p) 20) (λ _. (short, refl))
      λ long. >>=-Reads _ _ (get_elem?-total p 9 (ground arith)) λ protocol _.
        >>=-Reads _ _ (le32_at-Reads p 12 (ground arith)) λ saddr _.
          >>=-Reads _ _ (le32_at-Reads p 16 (ground arith)) λ daddr _.
            >>=-Reads _ _ (get_elem?-total p 0 (ground arith)) λ v _.
              if-ind Reads (protocol == 17) (λ _. (udp saddr daddr, refl))
                λ _.
                  if-ind Reads (protocol == 6)
                    (λ _. parse_tcp-Reads p saddr daddr (v % 16 * 4) (ground arith))
                    (λ _. (ignored saddr, refl))
