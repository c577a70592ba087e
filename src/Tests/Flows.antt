-- ===== src/Tests/Flows.antt =====
-- Eviction, the allowlist, the behavioral model and the filter at concrete inputs.
use wirewolf.Base.{ℕ, ◌+◌, ◌-◌, ◌*◌, ◌/◌, ◌≡◌, refl, true, false, List, [], ◌∷◌, ltb}
use wirewolf.Base.Doubles.{Doubles}
use wirewolf.Base.Text.{Bytes}
use wirewolf.Packet.{ConnectionId}
use wirewolf.Reassembly.Connection.{fresh}
use wirewolf.Reassembly.Table.{Connections}
use wirewolf.Reassembly.Expiry.{Suspects}
use wirewolf.Reassembly.Blocklist.{Blocklist}
use wirewolf.Behavioral.{MarkovModel}
use wirewolf.Filter.{detect_heartbleed, is_heartbleed}

abbrev seconds : Doubles
seconds = record {
  Double = ℕ;
  of_ℕ = λ n. n;
  add = λ a b. a + b;
  sub = λ a b. a - b;
  mul = λ a b. a * b;
  div = λ a b. a / b;
  lt = ltb;
}

abbrev pub connection : ConnectionId
connection = record { src_ip = 1; dst_ip = 2; src_port = 3; dst_port = 4 }

abbrev pub connections : Connections ℕ
connections =
    (
      connection,
      record (fresh seconds) {
        assembly = record { expected_seq = 5; out_of_order_segments = []; payload = 1 ∷ 2 ∷ [] };
      },
    )
    ∷ []

abbrev no_suspects : Suspects
no_suspects = record { behavioral_ready_ = false; beh_suspicious_ = [] }

abbrev hash_word : ℕ → ℕ
hash_word n = n

abbrev none_blocked : Blocklist
none_blocked = record { blocked_ips = []; allowlist_ips = [] }

-- A scanner that knows one text.
abbrev scan_gateway : Bytes → List ℕ
scan_gateway s = 10 ∷ 0 ∷ 0 ∷ 1 ∷ []

abbrev untrained : MarkovModel
untrained = record { counts_ = []; row_totals_ = []; alphabet_ = []; total_ = 0 }

abbrev heartbeat : Bytes
heartbeat = 0x18 ∷ 3 ∷ 2 ∷ 0 ∷ 3 ∷ 1 ∷ 0x40 ∷ 0 ∷ []

-- The record above claims 16384 bytes and has none.
heartbeat_is_found : detect_heartbleed heartbeat ≡ true
unfolding detect_heartbleed is_heartbleed
heartbeat_is_found = refl
