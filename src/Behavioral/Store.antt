-- ===== src/Behavioral/Store.antt =====
-- src/behavioral_model.cpp, `serialize` and `load`: models as text. A map is written in the order of its
-- keys, which are of the type `char`. The extraction of a number from a stream and `std::stol`
-- are parameters, and so is the printing of a floating-point number; no count is negative.
use wirewolf.Base.{
  ℕ, zero, suc, ◌+◌, ◌-◌, Bool, true, false, List, [], ◌∷◌, ◌++◌, map, length, ltb, leb, ◌==◌,
  if◌then◌else◌, ◌||◌, ◌&&◌, Option, none, some,
}
use wirewolf.Base.Bytes.{◌>>=◌}
use wirewolf.Base.Maps.{find_or, put}
use wirewolf.Base.Text.{Bytes, codes, decimal, eq_bytes, lines}
use wirewolf.Behavioral.{MarkovModel, add_char}
pub mod Lexing
pub mod Filling
pub mod Sorting
pub mod Alphabet
pub mod Reading
pub mod Scores
pub mod Trained
pub mod RoundTrip

-- `isspace`.
abbrev pub is_space : ℕ → Bool
is_space c = c == 32 || leb 9 c && leb c 13

-- The order of signed characters.
unfoldable pub rank : ℕ → ℕ
rank c = if ltb c 128 then c + 128 else c - 128

module _ {A : Type 0} where
  unfoldable pub insert_key : ℕ → A → List (ℕ × A) → List (ℕ × A)
  insert_key k a [] = (k, a) ∷ []
  insert_key k a ((j, b) ∷ rest) =
      if ltb (rank j) (rank k) then (j, b) ∷ insert_key k a rest else (k, a) ∷ (j, b) ∷ rest

  -- The order in which the source's map is walked.
  unfoldable pub by_key : List (ℕ × A) → List (ℕ × A)
  by_key [] = []
  by_key ((k, a) ∷ rest) = insert_key k a (by_key rest)

unfoldable pub insert_char : ℕ → List ℕ → List ℕ
insert_char c [] = c ∷ []
insert_char c (d ∷ ds) = if ltb (rank d) (rank c) then d ∷ insert_char c ds else c ∷ d ∷ ds

unfoldable pub by_rank : List ℕ → List ℕ
by_rank [] = []
by_rank (c ∷ cs) = insert_char c (by_rank cs)

-- `is >> tok`: a word and what is behind it, or no word.
unfoldable pub word_then : Bytes → Bytes × Bytes
word_then [] = ([], [])
word_then (c ∷ s) = let (w, rest) = word_then s in if is_space c then ([], c ∷ s) else (c ∷ w, rest)

unfoldable pub skip_spaces : Bytes → Bytes
skip_spaces [] = []
skip_spaces (c ∷ s) = let later = skip_spaces s in if is_space c then later else c ∷ s

unfoldable pub next_word : Bytes → Bytes × Bytes
next_word s = word_then (skip_spaces s)

-- The words that `while (rs >> tok)` reads.
abbrev flush_word : Bytes → List Bytes → List Bytes
flush_word [] ws = ws
flush_word (c ∷ w) ws = (c ∷ w) ∷ ws

unfoldable pub words_from : Bytes → Bytes → List Bytes
words_from w [] = flush_word w []
words_from w (c ∷ s) =
    let ended = flush_word w (words_from [] s) in
    let longer = words_from (w ++ c ∷ []) s in if is_space c then ended else longer

-- What stands behind the first colon.
unfoldable pub after_colon : Bytes → Option Bytes
after_colon [] = none
after_colon (c ∷ s) = let later = after_colon s in if c == b':' then some s else later

-- A model with its label and its smoothing constant.
pub record Labelled (Double : Type 0) : Type 0 where
  pub label_ : Bytes
  pub k_ : Double
  pub chain : MarkovModel

-- The standard library's part. `read_double` has the old value, too; `read_size` gives the number, and,
-- unless it failed, what stands behind.
pub record Numbers (Double : Type 0) : Type 0 where
  pub print_double : Double → Bytes
  pub read_double : Double → Bytes → Double
  pub read_size : Bytes → ℕ × Option Bytes
  pub stol : Bytes → Option ℕ

unfoldable pub print_entries : List (ℕ × ℕ) → Bytes
print_entries [] = []
print_entries ((to, c) ∷ rest) = b' ' ∷ to ∷ b':' ∷ decimal c ++ print_entries rest

abbrev pub print_row : ℕ → List (ℕ × ℕ) → Bytes
print_row from row = from ∷ b' ' ∷ decimal (length row) ++ print_entries (by_key row)

abbrev then_line : Bytes → Bytes → Bytes
then_line l rest = l ++ 10 ∷ rest

unfoldable pub print_rows : List (ℕ × List (ℕ × ℕ)) → Bytes
print_rows [] = []
print_rows ((from, row) ∷ rest) = then_line (print_row from row) (print_rows rest)

unfoldable pub add_entry : ℕ → ℕ → ℕ → MarkovModel → MarkovModel
add_entry from to c m = record {
  counts_ = put from (put to c (find_or [] from m.counts_)) m.counts_;
  row_totals_ = put from (find_or 0 from m.row_totals_ + c) m.row_totals_;
  alphabet_ = add_char to (add_char from m.alphabet_);
  total_ = m.total_ + c;
}

unfoldable pub add_chars : Bytes → List ℕ → List ℕ
add_chars [] ds = ds
add_chars (c ∷ cs) ds = add_chars cs (add_char c ds)

module _ {Double : Type 0} (p : Numbers Double) where
  abbrev header : Bytes
  header = codes "WIREWOLF-BEHAVIORAL-MODEL v1"

  unfoldable pub serialize : Labelled Double → Bytes → Bytes
  serialize m cfg_fp = then_line header (
      then_line (codes "label " ++ m.label_) (
        then_line (codes "k " ++ p.print_double m.k_) (
          then_line (codes "config " ++ cfg_fp) (
            then_line (codes "alphabet " ++ by_rank m.chain.alphabet_) (
              then_line (codes "transitions " ++ decimal (length m.chain.counts_))
                (print_rows (by_key m.chain.counts_)))))))

  -- One word of a row; `stol` throws where it gives no number.
  abbrev pub add_counted : ℕ → ℕ → Option ℕ → MarkovModel → Option MarkovModel
  add_counted from to none m = none
  add_counted from to (some c) m = some (add_entry from to c m)

  abbrev first_or_zero : Bytes → ℕ
  first_or_zero [] = 0
  first_or_zero (c ∷ s) = c

  abbrev pub read_token : ℕ → Bytes → Option Bytes → MarkovModel → Option MarkovModel
  read_token from tok none m = some m
  read_token from tok (some digits) m = add_counted from (first_or_zero tok) (p.stol digits) m

  unfoldable pub read_tokens : ℕ → List Bytes → MarkovModel → Option MarkovModel
  read_tokens from [] m = some m
  read_tokens from (tok ∷ toks) m = do
    next ← read_token from tok (after_colon tok) m
    read_tokens from toks next

  abbrev pub read_counted : ℕ → Option Bytes → MarkovModel → Option MarkovModel
  read_counted from none m = some m
  read_counted from (some rest) m = read_tokens from (words_from [] rest) m

  -- A row's line.
  abbrev pub read_row : Bytes → MarkovModel → Option MarkovModel
  read_row [] m = some m
  read_row (from ∷ rest) m = read_counted from (p.read_size rest).1 m

  -- What a load has so far, and how many rows are still to come.
  pub record Loading : Type 0 where
    pub model : Labelled Double
    pub cfg_fingerprint : Bytes
    pub rows : ℕ

  abbrev pub word_or : Bytes → Bytes → Bytes
  word_or old [] = old
  word_or old (c ∷ w) = c ∷ w

  abbrev pub drop_blank : Bytes → Bytes
  drop_blank [] = []
  drop_blank (c ∷ s) = if c == b' ' then s else c ∷ s

  -- A line outside the rows, by its key; `rest` is what is behind the key.
  unfoldable pub read_field : Bytes → Bytes → Loading → Loading
  read_field key rest l =
      if eq_bytes key (codes "label")
      then record l {
        model = record l.model { label_ = word_or l.model.label_ (next_word rest).0 };
      }
      else if eq_bytes key (codes "k")
      then record l { model = record l.model { k_ = p.read_double l.model.k_ rest } }
      else if eq_bytes key (codes "config")
      then record l { cfg_fingerprint = drop_blank rest }
      else if eq_bytes key (codes "alphabet")
      then record l {
        model = record l.model {
          chain = record l.model.chain {
            alphabet_ = add_chars (next_word rest).0 l.model.chain.alphabet_;
          };
        };
      }
      else if eq_bytes key (codes "transitions")
      then record l { rows = (p.read_size rest).0 }
      else l

  abbrev pub read_line : Bytes → Loading → Loading
  read_line line l = read_field (next_word line).0 (next_word line).1 l

  abbrev pub counted_down : ℕ → Loading → MarkovModel → Loading
  counted_down rows l m = record l { rows = rows; model = record l.model { chain = m } }

  abbrev pub step : ℕ → Bytes → Loading → Option Loading
  step zero line l = some (read_line line l)
  step (suc rows) line l = do
    m ← read_row (skip_spaces line) l.model.chain
    some (counted_down rows l m)

  unfoldable pub load_lines : List Bytes → Loading → Option Loading
  load_lines [] l = some l
  load_lines (line ∷ rest) l = do next ← step l.rows line l; load_lines rest next

  abbrev pub behind_header : List Bytes → List Bytes
  behind_header [] = []
  behind_header (l ∷ ls) = ls

  -- `half` is the default of the smoothing constant.
  abbrev pub empty_load : Double → Loading
  empty_load half = record {
    model = record {
      label_ = [];
      k_ = half;
      chain = record { counts_ = []; row_totals_ = []; alphabet_ = []; total_ = 0 };
    };
    cfg_fingerprint = [];
    rows = 0;
  }

  unfoldable pub load : Double → Bytes → Option Loading
  load half text = load_lines (behind_header (lines text)) (empty_load half)
