-- ===== src/Reassembly/Behavior.antt =====
-- src/tcp_reassembly.cpp, `looks_like_bittorrent` and `record_and_score_behavioral`: the flows of a
-- connection's endpoints and port, scored against the trained models.
use wirewolf.Base.{
  ℕ, Bool, not, ◌&&◌, ◌||◌, List, [], ◌∷◌, ◌++◌, length, take, ltb, ◌==◌, if◌then◌else◌,
}
use wirewolf.Anomaly.Address.{is_priv, is_flagged, ntohl}
use wirewolf.Base.Doubles.{Doubles}
use wirewolf.Base.Maps.{find_or, put}
use wirewolf.Base.Text.{Bytes, codes, contains}
use wirewolf.Base.Words.{bswap16}
use wirewolf.Behavioral.{Flow, BehavioralConfig, MarkovModel, encode_connection, score}
use wirewolf.Packet.{ConnectionId}
use wirewolf.ProxyDb.{ProxyDb, lookup}
use wirewolf.Reassembly.Blocklist
use wirewolf.Reassembly.Expiry.{beh_key}

unfoldable pub looks_like_bittorrent : Bytes → Bool
looks_like_bittorrent p =
    let head = take 128 p in
    contains head (codes "BitTorrent protocol")
    || contains head (codes "info_hash=")
    || contains head (codes "d1:ad2:id20:")

module _ (r : Doubles) where
  open r use {Double, sub}

  pub record BehConn : Type 0 where
    pub src : ℕ
    pub dst : ℕ
    pub dport : ℕ
    pub flows : List (Flow r)

  pub record Behavior : Type 0 where
    pub beh_conns_ : List (ℕ × BehConn)
    pub beh_alerted_ : List ℕ
    pub beh_suspicious_ : List ℕ
    pub p2p_peers_ : List ℕ

  -- The settings, the models, and the functions that are not the program's own; `le` is `<=`.
  pub record Scorer : Type 0 where
    pub behavioral_ready_ : Bool
    pub beh_export_ : Bool
    pub is_forensic : Bool
    pub proxy_db_ : ProxyDb
    pub beh_cfg_ : BehavioralConfig r
    pub min_flows : ℕ
    pub markov_k : Double
    pub beh_botnet_ : MarkovModel
    pub beh_normal_ : MarkovModel
    pub behavioral_threshold : Double
    pub log : Double → Double
    pub le : Double → Double → Bool
    pub hash : ℕ → ℕ

  unfoldable pub note_peers : Bytes → ConnectionId → Behavior → Behavior
  note_peers payload id b =
      if looks_like_bittorrent payload
      then record b {
        p2p_peers_ = Blocklist.insert id.dst_ip (Blocklist.insert id.src_ip b.p2p_peers_);
      }
      else b

  abbrev no_conn : BehConn
  no_conn = record { src = 0; dst = 0; dport = 0; flows = [] }

  abbrev pub max_beh_conns : ℕ
  max_beh_conns = 100000

  module _ (c : Scorer) where
    -- Live scoring: from inside to outside, no known BitTorrent peer, and no web or DNS traffic to a
    -- host that the proxy database does not name.
    unfoldable pub is_in_scope : ConnectionId → Behavior → Bool
    is_in_scope id b =
        let dport = bswap16 id.dst_port in
        (is_priv id.src_ip && not (is_priv id.dst_ip))
        && not
            (Blocklist.contains b.p2p_peers_ id.dst_ip || Blocklist.contains b.p2p_peers_ id.src_ip)
        && not (
            (dport == 80 || dport == 443 || dport == 53)
            && not (is_flagged (lookup c.proxy_db_ (ntohl id.dst_ip))))

    unfoldable pub trim_conns : List (ℕ × BehConn) → List (ℕ × BehConn)
    trim_conns conns = if ltb max_beh_conns (length conns) then [] else conns

    unfoldable pub add_to_conn : ConnectionId → Flow r → BehConn → BehConn
    add_to_conn id f bc = record {
      src = id.src_ip;
      dst = id.dst_ip;
      dport = id.dst_port;
      flows = bc.flows ++ (f ∷ []);
    }

    -- The log-likelihood ratio of a state string is not above the threshold.
    unfoldable pub is_ordinary : Bytes → Bool
    is_ordinary s =
        c.le
          (sub (score r c.log c.markov_k c.beh_botnet_ s)
            (score r c.log c.markov_k c.beh_normal_ s))
          c.behavioral_threshold

    -- From the number of flows on.
    unfoldable pub score_conn : ℕ → BehConn → Behavior → Behavior
    score_conn key bc b =
        let s = encode_connection r bc.flows c.beh_cfg_ in
        if ltb (length bc.flows) c.min_flows
          || Blocklist.contains b.beh_alerted_ key
          || (ltb (length s) 2 || is_ordinary s)
        then b
        else record b {
          beh_alerted_ = Blocklist.insert key b.beh_alerted_;
          beh_suspicious_ = Blocklist.insert key b.beh_suspicious_;
        }

    unfoldable pub record_flow : ConnectionId → Flow r → Behavior → Behavior
    record_flow id f b =
        let key = beh_key c.hash id in
        let conns = trim_conns b.beh_conns_ in
        let bc = add_to_conn id f (find_or no_conn key conns) in
        let noted = record b { beh_conns_ = put key bc conns } in
        if c.beh_export_ then noted else score_conn key bc noted

    unfoldable pub record_and_score_behavioral : ConnectionId → Flow r → Behavior → Behavior
    record_and_score_behavioral id f b =
        if not c.behavioral_ready_ && not c.beh_export_
        then b
        else if (not c.beh_export_ && not c.is_forensic) && not (is_in_scope id b)
        then b
        else record_flow id f b
