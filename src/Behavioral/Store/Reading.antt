-- ===== src/Behavioral/Store/Reading.antt =====
-- src/behavioral_model.cpp, `load`: the lines that `serialize` writes.
use wirewolf.Base.{ℕ, suc, ◌≡◌, refl, ap, ◌∙◌, List, [], ◌∷◌, ◌++◌, length, All, some}
use wirewolf.Base.Bytes.{◌>>=◌}
use wirewolf.Base.Text.{Bytes, decimal, split, lines}
use wirewolf.Behavioral.{MarkovModel}
use wirewolf.Behavioral.Store.{
  Numbers, Loading, by_key, word_then, skip_spaces, next_word, print_entries, print_row, print_rows,
  read_counted, read_row, load_lines,
}
use wirewolf.Behavioral.Store.Filling.{add_rows}
use wirewolf.Behavioral.Store.Lexing.{
  IsSolid, HasNoBreak, IsEntry, add_entries, solid_no_break, lines-line, row-HasNoBreak,
  read_tokens-print_entries,
}
use wirewolf.Behavioral.Store.Sorting.{All-by_key}

word_then-solid : (w : Bytes) → All IsSolid w → word_then w ≡ (w, [])
unfolding word_then
word_then-solid [] h = refl
word_then-solid (c ∷ w) h = rw (h.0, word_then-solid w h.1) refl

skip_spaces-solid : (w : Bytes) → All IsSolid w → skip_spaces w ≡ w
unfolding skip_spaces
skip_spaces-solid [] h = refl
skip_spaces-solid (c ∷ w) h = rw h.0 refl

-- A word behind a blank.
pub next_word-solid : (w : Bytes) → All IsSolid w → next_word (b' ' ∷ w) ≡ (w, [])
unfolding next_word skip_spaces
next_word-solid w h = ap word_then (skip_spaces-solid w h) ∙ word_then-solid w h

abbrev pub sort_rows : List (ℕ × List (ℕ × ℕ)) → List (ℕ × List (ℕ × ℕ))
sort_rows [] = []
sort_rows ((from, row) ∷ rest) = (from, by_key row) ∷ sort_rows rest

module _ {Double : Type 0} (p : Numbers Double) where
  -- A row whose characters can be told apart, and whose numbers the library reads back.
  pub record IsPrinted (from : ℕ) (row : List (ℕ × ℕ)) : Type 0 where
    pub solid_from : IsSolid from
    pub entries : All (IsEntry p.stol) row
    pub size_read :
        (p.read_size (b' ' ∷ decimal (length row) ++ print_entries (by_key row))).1
        ≡ some (print_entries (by_key row))

  abbrev pub AllPrinted : List (ℕ × List (ℕ × ℕ)) → Type 0
  AllPrinted = All (λ (e : ℕ × List (ℕ × ℕ)). IsPrinted e.0 e.1)

  read_row-print_row :
      (from : ℕ) (row : List (ℕ × ℕ)) (m : MarkovModel)
      → IsPrinted from row
      → read_row p (skip_spaces (print_row from row)) m ≡ some (add_entries from (by_key row) m)
  unfolding skip_spaces
  read_row-print_row from row m h = rw h.solid_from (
      ap (λ o. read_counted p from o m) h.size_read
      ∙ read_tokens-print_entries p from (by_key row) m (All-by_key (IsEntry p.stol) row h.entries))

  print_row-HasNoBreak :
      (from : ℕ) (row : List (ℕ × ℕ)) → IsPrinted from row → HasNoBreak (print_row from row)
  print_row-HasNoBreak from row h = (
    solid_no_break from h.solid_from,
    row-HasNoBreak p.stol (length row) (by_key row) (All-by_key (IsEntry p.stol) row h.entries),
  )

  -- What has been read when rows are still to come.
  abbrev pub waiting : Bytes → Double → Bytes → ℕ → MarkovModel → Loading p
  waiting label k fp rows m = record {
    model = record { label_ = label; k_ = k; chain = m };
    cfg_fingerprint = fp;
    rows = rows;
  }

  -- The rows are read back, one line for each.
  pub load_lines-print_rows :
      (rows : List (ℕ × List (ℕ × ℕ))) (label : Bytes) (k : Double) (fp : Bytes) (m : MarkovModel)
      → AllPrinted rows
      → load_lines p (lines (print_rows rows)) (waiting label k fp (length rows) m)
        ≡ some (waiting label k fp 0 (add_rows (sort_rows rows) m))
  unfolding load_lines print_rows lines split
  load_lines-print_rows [] label k fp m h = refl
  load_lines-print_rows ((from, row) ∷ rest) label k fp m h =
      let line = print_row from row in
      let start = waiting label k fp (suc (length rest)) m in
      ap (λ ls. load_lines p ls start)
        (lines-line line (print_rows rest) (print_row-HasNoBreak from row h.0))
      ∙ ap
          (λ o. (o >>= λ m'. some (waiting label k fp (length rest) m')) >>= λ l.
            load_lines p (lines (print_rows rest)) l)
          (read_row-print_row from row m h.0)
      ∙ load_lines-print_rows rest label k fp (add_entries from (by_key row) m) h.1
