-- ===== src/Packet.antt =====
-- include/packet_types.hpp: addresses, flows and the hash of several values.
use wirewolf.Base.{ℕ, zero, suc, ◌/◌, ◌%◌, Bool, List}
pub mod Hash

-- Addresses and ports are the words as they stand in the packet (network byte order, read on a
-- little-endian machine): the first octet of an address is its lowest byte.
pub record ConnectionId : Type 0 where
  pub src_ip : ℕ
  pub dst_ip : ℕ
  pub src_port : ℕ
  pub dst_port : ℕ

pub record FlowData (Double : Type 0) : Type 0 where
  pub id : ConnectionId
  pub reassembled_payload : List ℕ
  pub normalized_payload : List ℕ
  pub protocol_tag : List ℕ
  pub tls_sni : List ℕ
  pub tls_ja3 : List ℕ
  pub timestamp : Double
  pub inter_arrival_time : Double
  pub length_variance : Double
  pub packet_count : ℕ
  pub behavioral_suspect : Bool

-- The octets of an address as it stands in the packet.
abbrev pub octet : ℕ → ℕ → ℕ
octet ip zero = ip % 256
octet ip (suc n) = octet (ip / 256) n
