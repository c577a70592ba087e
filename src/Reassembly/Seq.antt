-- ===== src/Reassembly/Seq.antt =====
-- src/tcp_reassembly.cpp, `seq_before` and `seq_after`: the order of 32-bit sequence numbers.
use wirewolf.Base.{ℕ, ◌-◌, ◌^◌, ◌≤◌, ◌<◌, ◌≡◌, ◌↔◌, Bool, true, false, leb, arith}
use wirewolf.Base.Words.{add32, sub32}

-- `static_cast<int32_t>(a - b) < 0`: the top bit of the wrapped difference.
unfoldable pub seq_before : ℕ → ℕ → Bool
seq_before a b = leb (2 ^ 31) (sub32 a b)

unfoldable pub seq_after : ℕ → ℕ → Bool
unfolding seq_before
seq_after a b = seq_before b a

-- The sequence number of stream offset `o`, where offset 0 has number `base`.
abbrev pub seq_at : ℕ → ℕ → ℕ
seq_at base o = add32 base o

-- Within 2 GiB of stream the wrapped order is the order of the offsets, wherever the sequence
-- numbers wrap.
pub seq_after-seq_at :
    (base o n : ℕ)
    → o < 2 ^ 31
    → n < 2 ^ 31
    → (seq_after (seq_at base o) (seq_at base n) ≡ true) ↔ (n < o)
unfolding seq_after
seq_after-seq_at base o n ho hn = (λ h. ground arith, λ h. ground arith)

pub seq_after-ge :
    (base o n : ℕ)
    → o < 2 ^ 31
    → n < 2 ^ 31
    → seq_after (seq_at base o) (seq_at base n) ≡ false
    → o ≤ n
unfolding seq_after
seq_after-ge base o n ho hn h = ground arith

pub sub32-seq_at :
    (base o n : ℕ) → o ≤ n → n < 2 ^ 32 → sub32 (seq_at base n) (seq_at base o) ≡ n - o
sub32-seq_at base o n h hn = omega arith

pub seq_after_irrefl : (a : ℕ) → seq_after a a ≡ false
unfolding seq_after
seq_after_irrefl a = ground arith
