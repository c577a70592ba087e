-- ===== src/Reassembly/Table.antt =====
-- src/tcp_reassembly.cpp: the connection table, its state-exhaustion guard in `process_ip_packet`
-- and `force_evict_oldest`. An unordered map is an association list; a walk over it takes the
-- entries in the list's order, and nothing below depends on which order that is.
use wirewolf.Base.{
  ℕ, ◌+◌, Bool, false, ◌&&◌, List, [], ◌∷◌, Option, none, some, length, leb, ◌==◌, if◌then◌else◌,
}
use wirewolf.Base.Doubles.{Doubles}
use wirewolf.Packet.{ConnectionId}
use wirewolf.Reassembly.Connection.{ConnectionState, fresh, receive}
use wirewolf.Reassembly.Header.{TcpPacket}
use wirewolf.Reassembly.Overlap.{is_empty}

-- `ConnectionId::operator==`.
unfoldable pub same_id : ConnectionId → ConnectionId → Bool
same_id a b =
    a.src_ip == b.src_ip
    && a.dst_ip == b.dst_ip
    && a.src_port == b.src_port
    && a.dst_port == b.dst_port

abbrev pub Connections : Type 0 → Type 0
Connections Double = List (ConnectionId × ConnectionState Double)

pub record Table (Double : Type 0) : Type 0 where
  pub connections : Connections Double
  pub last_force_evict_time : Double
  pub shed_count : ℕ

abbrev pub max_connections : ℕ
max_connections = 50000

abbrev pub id_of : TcpPacket → ConnectionId
id_of t = record { src_ip = t.saddr; dst_ip = t.daddr; src_port = t.source; dst_port = t.dest }

unfoldable pub find : {A : Type 0} → ConnectionId → List (ConnectionId × A) → Option A
find cid [] = none
find cid ((key, state) ∷ rest) = if same_id key cid then some state else find cid rest

-- The entry that the walked iterator stands at gets a new state.
unfoldable pub store :
    {A : Type 0} → ConnectionId → A → List (ConnectionId × A) → List (ConnectionId × A)
store cid new [] = []
store cid new ((key, state) ∷ rest) =
    if same_id key cid then (key, new) ∷ rest else (key, state) ∷ store cid new rest

module _ (r : Doubles) where
  open r use {Double, of_ℕ, sub, lt}

  abbrev is_idle : Double → ConnectionState Double → Bool
  is_idle now s = is_empty s.payload && lt (of_ℕ 5) (sub now s.last_packet_time)

  unfoldable pub drop_idle : Double → Connections Double → Connections Double
  drop_idle now [] = []
  drop_idle now ((key, state) ∷ rest) =
      if is_idle now state then drop_idle now rest else (key, state) ∷ drop_idle now rest

  unfoldable pub force_evict_oldest : Double → Table Double → Table Double
  force_evict_oldest now t =
      if lt (sub now t.last_force_evict_time) (of_ℕ 1)
      then t
      else record t { last_force_evict_time = now; connections = drop_idle now t.connections }

  abbrev pub add_new : ConnectionId → Table Double → Table Double
  add_new cid t = record t { connections = (cid, fresh r) ∷ t.connections }

  -- The table in which the packet's connection has its entry; `none` is a packet that is shed.
  unfoldable pub room_after : ConnectionId → Table Double → Option (Table Double)
  room_after cid t =
      if leb max_connections (length t.connections) then none else some (add_new cid t)

  unfoldable pub make_room : Double → ConnectionId → Table Double → Option (Table Double)
  make_room now cid t =
      if leb max_connections (length t.connections)
      then room_after cid (force_evict_oldest now t)
      else some (add_new cid t)

  abbrev pub entry_for : Option (ConnectionState Double) → ConnectionState Double
  entry_for none = fresh r
  entry_for (some s) = s

  -- What the packet does to the entry, and whether the overlap alarm is due.
  unfoldable pub update : Double → TcpPacket → Table Double → Table Double × Bool
  update now p t =
      let got = receive r now p (entry_for (find (id_of p) t.connections)) in
      (record t { connections = store (id_of p) got.state t.connections }, got.alarm)

  abbrev pub shed : Double → Table Double → Table Double
  shed now t =
      let after = force_evict_oldest now t in record after { shed_count = after.shed_count + 1 }

  abbrev pub update_or_shed :
      Double → TcpPacket → Table Double → Option (Table Double) → Table Double × Bool
  update_or_shed now p before none = (shed now before, false)
  update_or_shed now p before (some t) = update now p t

  abbrev pub located :
      Double → TcpPacket → Table Double → Option (ConnectionState Double) → Option (Table Double)
  located now p t none = make_room now (id_of p) t
  located now p t (some s) = some t

  -- A TCP packet whose headers were accepted.
  unfoldable pub track : Double → TcpPacket → Table Double → Table Double × Bool
  track now p t = update_or_shed now p t (located now p t (find (id_of p) t.connections))
