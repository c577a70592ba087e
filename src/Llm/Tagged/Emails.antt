-- ===== src/Llm/Tagged/Emails.antt =====
-- src/llm_inference.cpp, `worker_loop`: the words around the first at signs of a preview, by their
-- positions in it. In front of an at sign that is the preview's first byte, `find_last_of` gets `npos`
-- and searches all of it.
use wirewolf.Base.{
  ℕ, zero, suc, ◌+◌, ◌-◌, Bool, ◌||◌, List, [], ◌∷◌, Option, none, some, length, take, drop, leb,
  ◌==◌, if◌then◌else◌,
}
use wirewolf.Base.Text.{Bytes}

unfoldable pub is_separator : ℕ → Bool
is_separator b = b == b' ' || b == b'\n' || b == b'\r' || b == b'\t' || b == b',' || b == b';'

-- The position of the first byte that passes the test; positions count from `i`.
unfoldable pub first_at : (ℕ → Bool) → ℕ → Bytes → Option ℕ
first_at test i [] = none
first_at test i (c ∷ cs) = if test c then some i else first_at test (i + 1) cs

-- `find` and `find_first_of`.
abbrev pub find_from : (ℕ → Bool) → ℕ → Bytes → Option ℕ
find_from test pos s = first_at test pos (drop pos s)

abbrev last_or : Option ℕ → Option ℕ → Option ℕ
last_or earlier none = earlier
last_or earlier (some i) = some i

unfoldable pub last_at : (ℕ → Bool) → ℕ → Bytes → Option ℕ
last_at test i [] = none
last_at test i (c ∷ cs) = last_or (if test c then some i else none) (last_at test (i + 1) cs)

-- `find_last_of` up to `at - 1`.
unfoldable pub separator_before : ℕ → Bytes → Option ℕ
separator_before zero s = last_at is_separator 0 s
separator_before (suc at) s = last_at is_separator 0 (take (suc at) s)

abbrev start_after : Option ℕ → ℕ
start_after none = 0
start_after (some i) = i + 1

abbrev or_size : Option ℕ → Bytes → ℕ
or_size none s = length s
or_size (some i) s = i

-- `substr(start, end - start)`, which runs to the end of the text where the difference wraps.
unfoldable pub substr : ℕ → ℕ → Bytes → Bytes
substr start end_ s = if leb start end_ then take (end_ - start) (drop start s) else drop start s

unfoldable pub email_at : ℕ → Bytes → Bytes
email_at at s =
    substr (start_after (separator_before at s)) (or_size (find_from is_separator (at + 1) s) s) s

abbrev is_at : ℕ → Bool
is_at b = b == b'@'

abbrev then_email : Option ℕ → (ℕ → List Bytes) → List Bytes
then_email none f = []
then_email (some at) f = f at

-- The loop, with at most as many rounds left.
unfoldable pub emails_from : ℕ → ℕ → Bytes → List Bytes
emails_from zero pos s = []
emails_from (suc rounds) pos s =
    then_email (find_from is_at pos s) λ at. email_at at s ∷ emails_from rounds (at + 1) s

unfoldable pub emails : Bytes → List Bytes
emails s = emails_from 3 0 s
