-- ===== src/Tests/Captures.antt =====
-- The capture loops at concrete inputs.
use wirewolf.Base.{ℕ, ◌≡◌, refl, true, List, [], ◌∷◌, ◌++◌, arith}
use wirewolf.Base.Text.{Bytes}
use wirewolf.Capture.{Fixed, Engine, Dispatch, run_pcap, Inline}
use wirewolf.Capture.Divert.{divert_all, forward_all, of_source, divert_all-forwards}
use wirewolf.Capture.Run.{run_pcap-IsSafe}
use wirewolf.Capture.Safe.{IsSafe}
use wirewolf.Reassembly.Blocklist.{contains, is_blocked}
use wirewolf.Tests.Filters.{counting}
use wirewolf.Tests.Sources.{inline_settings, quiet, live_scorer, nothing_scored}

abbrev inline : Fixed counting
inline = record {
  settings = inline_settings;
  scorer = live_scorer;
  sqrt = λ x. x;
  max_flow_payload_bytes = 5;
}

abbrev unused : Engine counting
unused = record {
  table = record { connections = []; last_force_evict_time = 0; shed_count = 0 };
  monitor = quiet;
  behavior = nothing_scored;
  last_eviction_time = 0;
  pushed = [];
}

-- A SYN from the given host to port 22 of host 9.
abbrev syn_from : ℕ → Bytes
syn_from src =
    (0x45 ∷ 0 ∷ 0 ∷ 40 ∷ 0 ∷ 0 ∷ 0 ∷ 0 ∷ 64 ∷ 6 ∷ 0 ∷ 0 ∷ src ∷ 0 ∷ 0 ∷ 0 ∷ 9 ∷ 0 ∷ 0 ∷ 0 ∷ [])
    ++ (0 ∷ 1 ∷ 0 ∷ 22 ∷ 0 ∷ 0 ∷ 0 ∷ 0 ∷ 0 ∷ 0 ∷ 0 ∷ 0 ∷ 0x50 ∷ 2 ∷ 0 ∷ 0 ∷ 0 ∷ 0 ∷ 0 ∷ 0 ∷ [])

abbrev framed : Bytes → Bytes
framed packet = (0 ∷ 0 ∷ 0 ∷ 0 ∷ 0 ∷ 0 ∷ 0 ∷ 0 ∷ 0 ∷ 0 ∷ 0 ∷ 0 ∷ 8 ∷ 0 ∷ []) ++ packet

abbrev deliveries : List (Dispatch ℕ)
deliveries =
    Dispatch.packets (100, framed (syn_from 7)) ((101, framed (syn_from 8)) ∷ [])
    ∷ Dispatch.nothing
    ∷ []

unused-IsSafe : IsSafe counting inline 7 unused
unfolding contains is_blocked
unused-IsSafe = record {
  few_connections = omega arith;
  spared = record { on_allowlist = refl; not_blocked = refl };
}

run_pcap-IsSafe_example : IsSafe counting inline 7 (run_pcap counting inline true deliveries unused)
run_pcap-IsSafe_example = run_pcap-IsSafe counting inline 7 true deliveries unused unused-IsSafe

abbrev at_start : Inline counting inline
at_start = record { engine = unused; since_maintenance = 0; blocked_packet_count_ = 0; sent = [] }

abbrev diverted : List (ℕ × Bytes)
diverted = (100, syn_from 7) ∷ (101, syn_from 8) ∷ (102, syn_from 7) ∷ []

divert_all-forwards_example :
    of_source counting inline 7 (divert_all counting inline diverted at_start).sent
    ≡ of_source counting inline 7 (forward_all counting inline diverted [])
divert_all-forwards_example = divert_all-forwards counting inline 7 diverted at_start unused-IsSafe
