-- ===== src/Filter/Dedup.antt =====
-- src/npu_filter.cpp, `worker_loop`: the keys under which the worker remembers what it has sent.
use wirewolf.Base.{ℕ, min, max, List, [], ◌∷◌, take, ltb, if◌then◌else◌}
use wirewolf.Base.Text.{Bytes}
use wirewolf.Base.Words.{bswap16}
use wirewolf.Packet.{ConnectionId}
use wirewolf.Packet.Hash.{Hashes, combine_all}

module _ (std : Hashes) where
  unfoldable pub heartbleed_key : ConnectionId → ℕ
  heartbleed_key id =
      combine_all 0 (std.of_u32 id.dst_ip ∷ std.of_u16 id.dst_port ∷ std.of_size 0xDEADBEEF ∷ [])

  unfoldable pub smb_key : ConnectionId → ℕ
  smb_key id = combine_all 0 (
      std.of_u32 (min id.src_ip id.dst_ip)
      ∷ std.of_u32 (max id.src_ip id.dst_ip)
      ∷ std.of_size 0xDEAD0017
      ∷ [])

  unfoldable pub rat_key : ConnectionId → ℕ
  rat_key id =
      let sp = bswap16 id.src_port in
      let dp = bswap16 id.dst_port in
      let server_ip = if ltb sp dp then id.src_ip else id.dst_ip in
      combine_all 0 (std.of_u32 server_ip ∷ std.of_size (min sp dp) ∷ std.of_size 0xDEADC2C2 ∷ [])

  unfoldable pub hashed_bytes : Bytes → List ℕ
  hashed_bytes [] = []
  hashed_bytes (b ∷ bs) = std.of_size b ∷ hashed_bytes bs

  unfoldable pub payload_key : ConnectionId → Bytes → ℕ
  payload_key id payload =
      combine_all 0
        (std.of_u32 id.dst_ip ∷ std.of_u16 id.dst_port ∷ hashed_bytes (take 256 payload))
