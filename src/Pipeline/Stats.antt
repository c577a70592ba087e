-- ===== src/Pipeline/Stats.antt =====
-- src/pipeline_controller.cpp: the figures that a round of the monitor takes.
use wirewolf.Base.{ℕ, Bool, length}
use wirewolf.Base.Text.{Bytes}
use wirewolf.Filter.Worker.{Worker}
use wirewolf.Queue.{ThreadSafeQueue}
use wirewolf.Reassembly.Blocklist.{Blocklist}

pub record PipelineStats : Type 0 where
  pub filter_passed : ℕ
  pub filter_dropped : ℕ
  pub filter_deduped : ℕ
  pub filter_device : Bytes
  pub alerts_fired : ℕ
  pub queue_reassembly_to_filter_depth : ℕ
  pub queue_filter_to_llm_depth : ℕ
  pub queue_reassembly_to_filter_drops : ℕ
  pub queue_filter_to_llm_drops : ℕ
  pub queue_reassembly_to_filter_capacity : ℕ
  pub queue_filter_to_llm_capacity : ℕ
  pub capture_finished : Bool
  pub blocked_packets : ℕ
  pub blocked_sources : ℕ

-- `device` is what the filter calls its device, and `blocked_packets` the count of dropped packets.
unfoldable pub stats_of :
    {D T : Type 0}
    → Worker D
    → Bytes
    → ℕ
    → ThreadSafeQueue T
    → ThreadSafeQueue T
    → Bool
    → ℕ
    → Blocklist
    → PipelineStats
stats_of w device alerts_fired_ to_filter to_llm finished blocked_packets b = record {
  filter_passed = w.passed_count;
  filter_dropped = w.filtered_count;
  filter_deduped = w.dedup_count;
  filter_device = device;
  alerts_fired = alerts_fired_;
  queue_reassembly_to_filter_depth = length to_filter.q;
  queue_filter_to_llm_depth = length to_llm.q;
  queue_reassembly_to_filter_drops = to_filter.dropped_count;
  queue_filter_to_llm_drops = to_llm.dropped_count;
  queue_reassembly_to_filter_capacity = to_filter.max_capacity;
  queue_filter_to_llm_capacity = to_llm.max_capacity;
  capture_finished = finished;
  blocked_packets = blocked_packets;
  blocked_sources = length b.blocked_ips;
}
