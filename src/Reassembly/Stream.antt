-- ===== src/Reassembly/Stream.antt =====
-- src/tcp_reassembly.cpp: what the reassembled payload is, against the stream that was sent.
use mathlib.Core.Path.{ap₂}
use Prim.Native.Nat.add
use wirewolf.Base.{
  ℕ, zero, suc, ◌+◌, ◌-◌, ◌^◌, ◌≤◌, ◌<◌, ◌≡◌, refl, ap, sym, ◌∙◌, List, [], ◌∷◌, ◌++◌, length, drop,
  All, Bool-cases, inl, inr, false, ◌==◌, ==_iff, arith,
}
use wirewolf.Base.Words.{add32, sub32}
use wirewolf.Reassembly.Seq.{seq_after, seq_at, seq_after-seq_at, seq_after-ge, sub32-seq_at}
use wirewolf.Reassembly.Segments.{Segment, Assembly, emplace, absorb, advance, merge, deliver}

module _ (sent : ℕ → ℕ) (base : ℕ) where
  -- The bytes sent at `n` offsets from `o` on.
  abbrev pub slice : ℕ → ℕ → List ℕ
  slice o zero = []
  slice o (suc n) = sent o ∷ slice (suc o) n

  -- A segment of the stream: its number is that of an offset, and its bytes are those sent there.
  pub record IsSent (s : Segment) : Type 0 where
    pub offset : ℕ
    pub seq_is : s.seq ≡ seq_at base offset
    pub bytes_are : s.bytes ≡ slice offset (length s.bytes)
    pub near : offset + length s.bytes < 2 ^ 31

  -- The payload is a prefix of the stream, the expected number is the next offset's, and what is
  -- held back was sent.
  pub record IsPrefix (a : Assembly) : Type 0 where
    pub payload_is : a.payload ≡ slice 0 (length a.payload)
    pub expected_is : a.expected_seq ≡ seq_at base (length a.payload)
    pub near : length a.payload < 2 ^ 31
    pub held : All IsSent a.out_of_order_segments

  pub length-slice : (o n : ℕ) → length (slice o n) ≡ n
  length-slice o zero = refl
  length-slice o (suc n) = ap suc (length-slice (suc o) n)

  slice-append : (o m n : ℕ) → slice o m ++ slice (o + m) n ≡ slice o (m + n)
  slice-append o zero n = ap₂ slice (omega arith) (omega arith)
  slice-append o (suc m) n =
      let shift : o + suc m ≡ suc o + m = omega arith in
      rw shift (ap (◌∷◌ (sent o)) (slice-append (suc o) m n) ∙ ap (slice o) (sym (add.suc m n)))

  drop-slice : (k o n : ℕ) → k ≤ n → drop k (slice o n) ≡ slice (o + k) (n - k)
  drop-slice zero o n h = ap₂ slice (omega arith) (omega arith)
  drop-slice (suc k) o zero h = absurd (omega arith)
  drop-slice (suc k) o (suc n) h =
      drop-slice k (suc o) n (omega arith) ∙ ap₂ slice (omega arith) (omega arith)

  -- The bytes of a sent segment that lie past `n`, behind the first `n` bytes of the stream.
  slice-join :
      (o len n : ℕ)
      → o ≤ n
      → n ≤ o + len
      → slice 0 n ++ drop (n - o) (slice o len) ≡ slice 0 (o + len)
  slice-join o len n h k =
      ap (◌++◌ (slice 0 n)) (drop-slice (n - o) o len (omega arith) ∙ ap₂ slice (omega arith) refl)
      ∙ slice-append 0 n (len - (n - o))
      ∙ ap (slice 0) (omega arith)

  abbrev pub assembly : List ℕ → ℕ → List Segment → Assembly
  assembly payload expected ss = record {
    expected_seq = expected;
    out_of_order_segments = ss;
    payload = payload;
  }

  prefix :
      (n : ℕ) (payload : List ℕ) (expected : ℕ) (ss : List Segment)
      → payload ≡ slice 0 n
      → expected ≡ seq_at base n
      → n < 2 ^ 31
      → All IsSent ss
      → IsPrefix (assembly payload expected ss)
  prefix n payload expected ss p e near held =
      let size : length payload ≡ n = ap length p ∙ length-slice 0 n in
      record {
        payload_is = p ∙ ap (slice 0) (sym size);
        expected_is = e ∙ ap (seq_at base) (sym size);
        near = omega arith;
        held = held;
      }

  pub absorb-IsPrefix :
      (s : Segment) (payload : List ℕ) (expected : ℕ) (ss : List Segment)
      → IsSent s
      → IsPrefix (assembly payload expected ss)
      → seq_after s.seq expected ≡ false
      → IsPrefix (assembly (absorb s payload expected) (advance s expected) ss)
  unfolding absorb advance
  absorb-IsPrefix s payload expected ss sent_s v now =
      let n : ℕ = length payload in
      let o : ℕ = sent_s.offset in
      let len : ℕ = length s.bytes in
      let due : o ≤ n =
        seq_after-ge base o n (omega (arith, sent_s.near)) v.near
          (rw (sent_s.seq_is, v.expected_is) at now) in
      let past : add32 s.seq len ≡ seq_at base (o + len) = omega (arith, sent_s.seq_is) in
      elim (Bool-cases (seq_after (add32 s.seq len) expected)) [
        | inl more ↦
            let new : n < o + len =
              (seq_after-seq_at base (o + len) n sent_s.near v.near).0
                (rw (past, v.expected_is) at more) in
            let skip : sub32 expected s.seq ≡ n - o =
              rw (v.expected_is, sent_s.seq_is) (sub32-seq_at base o n due (omega arith)) in
            rw (absorb, advance, more, skip)
              (prefix (o + len) _ _ ss
                (ap₂ (λ p b. p ++ drop (n - o) b) v.payload_is sent_s.bytes_are
                  ∙ slice-join o len n due (omega arith))
                (omega (arith, v.expected_is)) sent_s.near v.held)
        | inr none_new ↦ rw (absorb, advance, none_new) v
      ]

  merge-IsPrefix :
      (payload : List ℕ) (expected : ℕ) (ss : List Segment)
      → IsPrefix (assembly payload expected ss)
      → IsPrefix (merge payload expected ss)
  unfolding merge
  merge-IsPrefix payload expected [] v = v
  merge-IsPrefix payload expected (s ∷ ss) v = elim (Bool-cases (seq_after s.seq expected)) [
    | inl later ↦ rw later v
    | inr due ↦ rw due (
        merge-IsPrefix (absorb s payload expected) (advance s expected) ss (
          absorb-IsPrefix s payload expected ss v.held.0
            (record {
              payload_is = v.payload_is;
              expected_is = v.expected_is;
              near = v.near;
              held = v.held.1;
            })
            due))
  ]

  pub emplace-IsSent :
      (s : Segment) (ss : List Segment) → IsSent s → All IsSent ss → All IsSent (emplace s ss)
  unfolding emplace
  emplace-IsSent s [] h a = (h, tt)
  emplace-IsSent s (t ∷ ts) h a = ground (arith, emplace-IsSent s ts h a.1)

  -- A segment that starts at the expected number.
  pub append-IsPrefix :
      (s : Segment) (a : Assembly)
      → IsSent s
      → IsPrefix a
      → s.seq ≡ a.expected_seq
      → IsPrefix (
          assembly
            (a.payload ++ s.bytes)
            (add32 a.expected_seq (length s.bytes))
            a.out_of_order_segments)
  append-IsPrefix s a sent_s v at =
      let n : ℕ = length a.payload in
      let here : sent_s.offset ≡ 0 + n =
        omega (arith, sent_s.seq_is, v.expected_is, sent_s.near, v.near) in
      prefix (n + length s.bytes) _ _ _
        (ap₂ (λ p b. p ++ b) v.payload_is
            (sent_s.bytes_are ∙ ap (λ o. slice o (length s.bytes)) here)
          ∙ slice-append 0 n (length s.bytes))
        (omega (arith, v.expected_is)) (omega (arith, sent_s.near)) v.held

  -- Whatever the order, the repetition and the overlap of segments, and wherever the sequence
  -- numbers wrap: a payload that is a prefix of the stream sent stays one when a segment of that
  -- stream arrives, if the stream ends before 2 GiB.
  pub deliver-IsPrefix :
      (s : Segment) (a : Assembly) → IsSent s → IsPrefix a → IsPrefix (deliver s a)
  unfolding deliver
  deliver-IsPrefix s a sent_s v = elim (Bool-cases (s.seq == a.expected_seq)) [
    | inl at ↦ rw at (
        merge-IsPrefix _ _ a.out_of_order_segments
          (append-IsPrefix s a sent_s v ((==_iff s.seq a.expected_seq).0 at)))
    | inr elsewhere ↦
        rw elsewhere (ground (arith, emplace-IsSent s a.out_of_order_segments sent_s v.held))
  ]

  pub deliver_all : List Segment → Assembly → Assembly
  deliver_all [] a = a
  deliver_all (s ∷ ss) a = deliver_all ss (deliver s a)

  -- Any sequence of segments of the stream leaves a payload that is a prefix of the stream one, if
  -- the stream ends before 2 GiB.
  pub deliver_all-IsPrefix :
      (ss : List Segment) (a : Assembly) → All IsSent ss → IsPrefix a → IsPrefix (deliver_all ss a)
  unfolding deliver_all
  deliver_all-IsPrefix [] a h v = v
  deliver_all-IsPrefix (s ∷ ss) a h v =
      deliver_all-IsPrefix ss (deliver s a) h.1 (deliver-IsPrefix s a h.0 v)
