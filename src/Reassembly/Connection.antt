-- ===== src/Reassembly/Connection.antt =====
-- src/tcp_reassembly.cpp, `ConnectionState` and the part of `process_ip_packet` that works on it.
use wirewolf.Base.{ℕ, ◌+◌, ◌*◌, ◌%◌, Bool, true, false, not, ◌&&◌, [], ltb, if◌then◌else◌}
use wirewolf.Base.Doubles.{Doubles}
use wirewolf.Base.Words.{u32_mod, add32}
use wirewolf.Reassembly.Header.{TcpPacket, get_fin, get_syn, get_rst}
use wirewolf.Reassembly.Overlap.{has_conflict, is_empty}
use wirewolf.Reassembly.Segments.{Segment, Assembly, deliver}

pub record ConnectionState (Double : Type 0) : Type 0 where
  pub assembly : Assembly
  pub open assembly use *
  pub syn_received : Bool
  pub fin_received : Bool
  pub last_packet_time : Double
  pub inter_arrival_sum : Double
  pub packet_count : ℕ
  pub length_sum : ℕ
  pub length_sq_sum : ℕ

-- The state behind a packet, and whether the overlap check raised the alarm.
pub record Received (Double : Type 0) : Type 0 where
  pub state : ConnectionState Double
  pub alarm : Bool

module _ (r : Doubles) where
  open r use {Double, of_ℕ, add, sub}

  -- `ConnectionState()`.
  unfoldable pub fresh : ConnectionState Double
  fresh = record {
    assembly = record { expected_seq = 0; out_of_order_segments = []; payload = [] };
    syn_received = false;
    fin_received = false;
    last_packet_time = of_ℕ 0;
    inter_arrival_sum = of_ℕ 0;
    packet_count = 0;
    length_sum = 0;
    length_sq_sum = 0;
  }

  -- The flow's statistics. The square is taken in 32 bits.
  unfoldable pub count_packet : Double → ℕ → ConnectionState Double → ConnectionState Double
  count_packet now payload_len s = record s {
    inter_arrival_sum =
        if ltb 0 s.packet_count
        then add s.inter_arrival_sum (sub now s.last_packet_time)
        else s.inter_arrival_sum;
    last_packet_time = now;
    packet_count = s.packet_count + 1;
    length_sum = s.length_sum + payload_len;
    length_sq_sum = s.length_sq_sum + payload_len * payload_len % u32_mod;
  }

-- A connection of which no SYN was seen starts at its first data.
unfoldable pub baseline : {Double : Type 0} → ℕ → ConnectionState Double → Assembly
baseline seq s =
    if not s.syn_received && (is_empty s.payload && is_empty s.out_of_order_segments)
    then record s.assembly { expected_seq = seq }
    else s.assembly

abbrev set_fin : {Double : Type 0} → Bool → ConnectionState Double → ConnectionState Double
set_fin fin s = if fin then record s { fin_received = true } else s

-- A packet with payload in the capture.
unfoldable pub receive_data :
    {Double : Type 0} → TcpPacket → ConnectionState Double → Received Double
receive_data t s =
    let segment : Segment = record { seq = t.seq; bytes = t.payload } in
    let a = baseline t.seq s in
    if has_conflict segment a
    then record { state = set_fin (get_fin t) (record s { assembly = a }); alarm = true }
    else record {
      state = set_fin (get_fin t) (record s { assembly = deliver segment a });
      alarm = false;
    }

module _ (r : Doubles) where
  open r use {Double}

  unfoldable pub receive : Double → TcpPacket → ConnectionState Double → Received Double
  receive now t before =
      let s = count_packet r now t.payload_len before in
      if get_syn t
      then record {
        state = record s {
          syn_received = true;
          assembly = record s.assembly { expected_seq = add32 t.seq 1 };
        };
        alarm = false;
      }
      else (let s' = set_fin (get_rst t) s in
          if t.payload_captured && ltb 0 t.payload_len
          then receive_data t s'
          else record { state = set_fin (get_fin t) s'; alarm = false })
