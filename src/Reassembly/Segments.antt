-- ===== src/Reassembly/Segments.antt =====
-- src/tcp_reassembly.cpp, `process_ip_packet`: how a segment's bytes join the stream.
use wirewolf.Base.{ℕ, ◌-◌, List, [], ◌∷◌, ◌++◌, length, drop, ltb, ◌==◌, if◌then◌else◌}
use wirewolf.Base.Words.{add32, sub32}
use wirewolf.Reassembly.Seq.{seq_after}

-- A segment held back: its sequence number and its bytes.
pub record Segment : Type 0 where
  pub seq : ℕ
  pub bytes : List ℕ

-- The stream's part of `ConnectionState`. `out_of_order_segments` is a `std::map`: its entries by
-- rising key.
pub record Assembly : Type 0 where
  pub expected_seq : ℕ
  pub out_of_order_segments : List Segment
  pub payload : List ℕ

-- `std::map::emplace`: a key that is there already keeps its value.
unfoldable pub emplace : Segment → List Segment → List Segment
emplace s [] = s ∷ []
emplace s (t ∷ ts) =
    if ltb s.seq t.seq then s ∷ (t ∷ ts) else if s.seq == t.seq then t ∷ ts else (t ∷ emplace s ts)

-- One held segment that is not after the expected number: its new bytes, if it has any.
unfoldable pub absorb : Segment → List ℕ → ℕ → List ℕ
absorb s payload expected =
    if seq_after (add32 s.seq (length s.bytes)) expected
    then payload ++ drop (sub32 expected s.seq) s.bytes
    else payload

unfoldable pub advance : Segment → ℕ → ℕ
advance s expected =
    if seq_after (add32 s.seq (length s.bytes)) expected
    then add32 expected (length s.bytes - sub32 expected s.seq)
    else expected

-- The loop over the held segments, which stops at the first one after the expected number.
unfoldable pub merge : List ℕ → ℕ → List Segment → Assembly
merge payload expected [] = record {
  expected_seq = expected;
  out_of_order_segments = [];
  payload = payload;
}
merge payload expected (s ∷ ss) =
    let rest = merge (absorb s payload expected) (advance s expected) ss in
    if seq_after s.seq expected
    then record { expected_seq = expected; out_of_order_segments = s ∷ ss; payload = payload }
    else rest

abbrev pub max_out_of_order : ℕ
max_out_of_order = 256

-- A segment with bytes, past the overlap check.
unfoldable pub deliver : Segment → Assembly → Assembly
deliver s a =
    if s.seq == a.expected_seq
    then merge (a.payload ++ s.bytes) (add32 a.expected_seq (length s.bytes))
        a.out_of_order_segments
    else if seq_after s.seq a.expected_seq
    then (if ltb (length a.out_of_order_segments) max_out_of_order
        then record a { out_of_order_segments = emplace s a.out_of_order_segments }
        else a)
    else a
