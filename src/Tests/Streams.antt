-- ===== src/Tests/Streams.antt =====
-- src/tcp_reassembly.cpp at concrete inputs: a stream whose first byte has number 1000, and one that
-- starts shortly before the sequence numbers wrap.
use wirewolf.Base.{ℕ, ◌+◌, ◌≡◌, refl, false, [], ◌∷◌, arith}
use wirewolf.Base.Bytes.{Reads}
use wirewolf.Reassembly.Segments.{Segment, Assembly, deliver}
use wirewolf.Reassembly.Seq.{seq_after}
use wirewolf.Reassembly.Stream.{IsSent, IsPrefix, slice, deliver-IsPrefix}
use wirewolf.Reassembly.Gaps.{HasGap, deliver_wrap_stalls}
use wirewolf.Reassembly.Overlap.{has_conflict, has_conflict-sent}
use wirewolf.Reassembly.Header.{parse_ip, parse_ip-Reads}

abbrev sent : ℕ → ℕ
sent o = o + 65

abbrev segment : ℕ → ℕ → Segment
segment o n = record { seq = 1000 + o; bytes = slice sent 1000 o n }

abbrev first : Segment
first = segment 0 2

abbrev second : Segment
second = segment 2 3

first-IsSent : IsSent sent 1000 first
first-IsSent = record { offset = 0; seq_is = refl; bytes_are = refl; near = omega arith }

second-IsSent : IsSent sent 1000 second
second-IsSent = record { offset = 2; seq_is = refl; bytes_are = refl; near = omega arith }

-- The second segment came first and is held.
abbrev waiting : Assembly
waiting = record { expected_seq = 1000; out_of_order_segments = second ∷ []; payload = [] }

waiting-IsPrefix : IsPrefix sent 1000 waiting
waiting-IsPrefix = record {
  payload_is = refl;
  expected_is = refl;
  near = omega arith;
  held = (second-IsSent, tt);
}

deliver-IsPrefix_example : IsPrefix sent 1000 (deliver first waiting)
deliver-IsPrefix_example = deliver-IsPrefix sent 1000 first waiting first-IsSent waiting-IsPrefix

-- Six bytes before the wrap; held are the next segment and one from behind the wrap.
abbrev wrapping : Assembly
wrapping = record {
  expected_seq = 4294967290;
  out_of_order_segments =
      record { seq = 1; bytes = 7 ∷ [] } ∷ record { seq = 4294967292; bytes = 8 ∷ [] } ∷ [];
  payload = [];
}

deliver_wrap_stalls_example :
    ¬ HasGap (deliver (record { seq = 4294967290; bytes = 5 ∷ 6 ∷ [] }) wrapping)
unfolding seq_after
deliver_wrap_stalls_example =
    deliver_wrap_stalls (record { seq = 4294967290; bytes = 5 ∷ 6 ∷ [] })
      (record { seq = 1; bytes = 7 ∷ [] }) (record { seq = 4294967292; bytes = 8 ∷ [] }) [] wrapping
      refl refl refl refl

has_conflict-sent_example : has_conflict first waiting ≡ false
has_conflict-sent_example = has_conflict-sent sent 1000 first waiting first-IsSent waiting-IsPrefix

parse_ip-Reads_example : Reads (parse_ip (69 ∷ 0 ∷ 0 ∷ []))
parse_ip-Reads_example = parse_ip-Reads (69 ∷ 0 ∷ 0 ∷ [])
