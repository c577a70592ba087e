-- ===== src/Filter/Features.antt =====
-- src/npu_filter.cpp, `extract_features` and `statistical_filter`. The logarithm and the rounding to
-- `float` are parameters.
use wirewolf.Base.{ℕ, zero, suc, Bool, not, ◌&&◌, ◌||◌, [], ◌∷◌, length, ltb, ◌==◌, if◌then◌else◌}
use wirewolf.Base.Doubles.{Doubles}
use wirewolf.Base.Text.{Bytes}
use wirewolf.Packet.{FlowData}

-- The thresholds of include/config.hpp.
pub record Thresholds (Double : Type 0) : Type 0 where
  pub entropy_high_threshold : Double
  pub entropy_low_threshold : Double
  pub variance_threshold : Double
  pub inter_arrival_floor : Double
  pub min_packet_count_for_flood : ℕ
  pub min_payload_for_low_entropy : ℕ

pub record Features (Double : Type 0) : Type 0 where
  pub entropy : Double
  pub variance : Double
  pub inter_arrival : Double

unfoldable pub byte_count : ℕ → Bytes → ℕ
byte_count b [] = 0
byte_count b (c ∷ cs) = let rest = byte_count b cs in if c == b then suc rest else rest

abbrev is_quoting : ℕ → Bool
is_quoting b = b == 39 || b == b'"' || b == b'{' || b == b'}' || b == b'|' || b == b'`'

unfoldable pub suspicious_chars : Bytes → ℕ
suspicious_chars [] = 0
suspicious_chars (b ∷ bs) =
    let rest = suspicious_chars bs in if is_quoting b then suc rest else rest

module _ (r : Doubles) where
  open r use {Double, of_ℕ, sub, mul, div, lt}

  unfoldable pub entropy_from :
      (log2 : Double → Double) → (bytes_left b : ℕ) → Bytes → Double → Double
  entropy_from log2 zero b payload e = e
  entropy_from log2 (suc n) b payload e =
      let c = byte_count b payload in
      let p = div (of_ℕ c) (of_ℕ (length payload)) in
      entropy_from log2 n (suc b) payload (if ltb 0 c then sub e (mul p (log2 p)) else e)

  unfoldable pub entropy_of : (log2 : Double → Double) → Bytes → Double
  entropy_of log2 [] = of_ℕ 0
  entropy_of log2 (b ∷ bs) = entropy_from log2 256 0 (b ∷ bs) (of_ℕ 0)

  unfoldable pub extract_features :
      (log2 to_float : Double → Double) → FlowData Double → Features Double
  extract_features log2 to_float f = record {
    entropy = to_float (entropy_of log2 f.reassembled_payload);
    variance = to_float f.length_variance;
    inter_arrival = to_float f.inter_arrival_time;
  }

  unfoldable pub statistical_filter : Thresholds Double → Features Double → FlowData Double → Bool
  statistical_filter cfg x f =
      let size = length f.reassembled_payload in
      let ratio = div (of_ℕ (suspicious_chars f.reassembled_payload)) (of_ℕ size) in
      lt cfg.entropy_high_threshold x.entropy
      || lt x.entropy cfg.entropy_low_threshold && ltb cfg.min_payload_for_low_entropy size
      || lt cfg.variance_threshold x.variance
      || (lt x.inter_arrival cfg.inter_arrival_floor
          && lt (of_ℕ 0) x.inter_arrival
          && ltb cfg.min_packet_count_for_flood f.packet_count)
      || (not (size == 0) && ltb size 4096 && lt (div (of_ℕ 5) (of_ℕ 100)) ratio)
