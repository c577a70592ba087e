-- ===== src/Tests/Tables.antt =====
-- The connection table, the proxy table, the threat feed and the command line at concrete inputs.
use wirewolf.Base.{
  ℕ, zero, suc, ◌+◌, ◌-◌, ◌*◌, ◌/◌, ◌≤◌, ◌<◌, ◌≡◌, refl, ◌↔◌, ◌⊎◌, true, false, List, [], ◌∷◌, ◌++◌,
  length, ltb, arith,
}
use wirewolf.Base.Bytes.{le32_at}
use wirewolf.Base.Doubles.{Doubles}
use wirewolf.Base.Text.{Bytes, eq_bytes, codes, to_lower}
use wirewolf.Packet.{ConnectionId}
use wirewolf.Reassembly.Connection.{ConnectionState, fresh}
use wirewolf.Reassembly.Header.{TcpPacket}
use wirewolf.Reassembly.Table.{Table, same_id, find, track}
use wirewolf.Reassembly.Capacity.{Serves, track-Serves, track-Keeps}
use wirewolf.Reassembly.Eviction.{IsKept}
use wirewolf.ProxyDb.{ProxyDb, lookup, row_info, start, stop, u32}
use wirewolf.ProxyDb.Search.{IsTable, lookup_hit}
use wirewolf.ThreatFeed.{ThreatFeed, has, is_nil, is_bad_domain}
use wirewolf.ThreatFeed.Lookups.{is_bad_domain_iff}
use wirewolf.Config.{
  Numbers, pos, parse_options, set_option, set_log_level, number, throws, defaults, parse, valid,
}
use wirewolf.Config.Ranges.{in_range, parse-in_range}

-- Whole seconds.
abbrev whole : Doubles
whole = record {
  Double = ℕ;
  of_ℕ = λ n. n;
  add = λ a b. a + b;
  sub = λ a b. a - b;
  mul = λ a b. a * b;
  div = λ a b. a / b;
  lt = ltb;
}

abbrev packet : TcpPacket
packet = record {
  saddr = 1;
  daddr = 2;
  source = 3;
  dest = 4;
  ttl = 64;
  seq = 1000;
  flags = 16;
  payload_len = 2;
  payload_captured = true;
  payload = 65 ∷ 66 ∷ [];
}

abbrev other_id : ConnectionId
other_id = record { src_ip = 9; dst_ip = 2; src_port = 3; dst_port = 4 }

abbrev other_state : ConnectionState ℕ
other_state = record (fresh whole) {
  assembly = record { expected_seq = 5; out_of_order_segments = []; payload = 1 ∷ [] };
}

abbrev table : Table ℕ
table = record {
  connections = (other_id, other_state) ∷ [];
  last_force_evict_time = 0;
  shed_count = 0;
}

track-Serves_example : Serves whole 10 packet table (track whole 10 packet table).0
track-Serves_example = track-Serves whole 10 packet table

track-Keeps_example : IsKept whole 10 other_id other_state table (track whole 10 packet table).0
unfolding same_id find
track-Keeps_example = track-Keeps whole 10 packet table other_id other_state refl refl

-- Row 0 is the addresses 10 to 20, row 1 those from 30 to 30.
abbrev rows : Bytes
rows =
    10 ∷ 0 ∷ 0 ∷ 0 ∷ 20 ∷ 0 ∷ 0 ∷ 0 ∷ 0 ∷ 0 ∷ 0 ∷ 0 ∷ 30 ∷ 0 ∷ 0 ∷ 0 ∷ 30 ∷ 0 ∷ 0 ∷ 0 ∷ 0 ∷ 0 ∷ 0
    ∷ 0 ∷ []

abbrev no_db : ProxyDb
no_db = record { data_ = []; strs_ = []; rows_ = 0; ready_ = false }

abbrev db : ProxyDb
db = record { data_ = rows; strs_ = codes "VPN" ∷ []; rows_ = 2; ready_ = true }

sorted_rows : (i j : ℕ) → i ≤ j → j < 2 → start db i ≤ start db j
unfolding start u32 le32_at
sorted_rows zero zero le in_ = omega arith
sorted_rows zero (suc zero) le in_ = omega arith
sorted_rows (suc zero) (suc zero) le in_ = omega arith
sorted_rows (suc i) zero le in_ = ground (arith, le)
sorted_rows i (suc (suc j)) le in_ = ground (arith, in_)
sorted_rows (suc (suc i)) (suc j) le in_ = ground (arith, le, in_)

disjoint_rows : (i j : ℕ) → i < j → j < 2 → stop db i < start db j
unfolding start stop u32 le32_at
disjoint_rows zero (suc zero) lt_ in_ = omega arith
disjoint_rows i (suc (suc j)) lt_ in_ = ground (arith, in_)
disjoint_rows i zero lt_ in_ = ground (arith, lt_)
disjoint_rows (suc i) (suc zero) lt_ in_ = ground (arith, lt_)

outside_rows : (a : ℕ) → a < 2 → start db a ≤ 25 → stop db a < 25
unfolding start stop u32 le32_at
outside_rows zero in_ from = omega arith
outside_rows (suc zero) in_ from = ground (arith, from)
outside_rows (suc (suc a)) in_ from = ground (arith, in_)

db-IsTable : IsTable db
unfolding start stop u32 le32_at
db-IsTable = record {
  sorted = λ i j le in_. sorted_rows i j le in_;
  disjoint = λ i j lt_ in_. disjoint_rows i j lt_ in_;
}

lookup_hit_example : lookup db 15 ≡ row_info db 0
unfolding start stop u32 le32_at
lookup_hit_example = lookup_hit db 15 0 db-IsTable refl (omega arith) (omega arith) (omega arith)

abbrev feed : ThreatFeed
feed = record {
  bad_ja3_ = [];
  bad_domains_ = codes "evil.com" ∷ [];
  bad_ips_ = [];
  signatures_ = [];
  loaded_dir_ = [];
}

is_bad_domain_iff_example : (is_bad_domain feed (codes "X.evil.com") ≡ true) ↔ (
    (is_nil (codes "X.evil.com") ≡ false)
    × ((has feed.bad_domains_ (to_lower (codes "X.evil.com")) ≡ true)
        ⊎ ((pre : Bytes) × (d : Bytes) × (to_lower (codes "X.evil.com") ≡ pre ++ 46 ∷ d)
            × (has feed.bad_domains_ d ≡ true))))
is_bad_domain_iff_example = is_bad_domain_iff feed (codes "X.evil.com")

abbrev numbers : Numbers ℕ
numbers = record {
  stoi = λ s. number (pos (length s));
  stoull = λ s. number (length s);
  stof = λ s. number (length s);
  stod = λ s. throws s;
}

abbrev argv : List Bytes
argv =
    codes "wirewolf" ∷ codes "eth0" ∷ codes "m" ∷ codes "l" ∷ codes "--log-level" ∷ codes "xx" ∷ []

parse-in_range_example : in_range (parse numbers (defaults whole) argv) ≡ true
unfolding defaults parse valid parse_options set_option set_log_level eq_bytes
parse-in_range_example = parse-in_range numbers (defaults whole) argv refl refl
