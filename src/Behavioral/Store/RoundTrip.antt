-- ===== src/Behavioral/Store/RoundTrip.antt =====
-- src/behavioral_model.cpp: a model that was written is read back.
use wirewolf.Base.{
  ℕ, ◌≡◌, refl, ap, ◌∙◌, List, [], ◌∷◌, ◌++◌, length, All, All-append, ◌==◌, false, some, arith,
}
use wirewolf.Base.Doubles.{Doubles}
use wirewolf.Base.Text.{Bytes, codes, decimal, eq_bytes, lines}
use wirewolf.Behavioral.{score}
use wirewolf.Behavioral.Store.{
  Numbers, Labelled, Loading, by_key, by_rank, word_then, skip_spaces, next_word, word_or,
  print_rows, header, serialize, read_field, load_lines, behind_header, empty_load, load,
}
use wirewolf.Behavioral.Store.Alphabet.{All-by_rank, add_chars-by_rank}
use wirewolf.Behavioral.Store.Filling.{add_rows-chain_of, chain_of}
use wirewolf.Behavioral.Store.Lexing.{IsSolid, HasNoBreak, no_break, decimal-IsSolid, lines-line}
use wirewolf.Behavioral.Store.Reading.{
  AllPrinted, IsPrinted, next_word-solid, sort_rows, waiting, load_lines-print_rows,
}
use wirewolf.Behavioral.Store.Scores.{IsModel, sorted, rows-IsRow, rows-IsFresh, score-sorted}
use wirewolf.Behavioral.Store.Sorting.{All-by_key, length-by_key}

then_lines :
    (l rest : Bytes) {ls : List Bytes}
    → HasNoBreak l
    → lines rest ≡ ls
    → lines (l ++ 10 ∷ rest) ≡ l ∷ ls
then_lines l rest h more = lines-line l rest h ∙ ap (λ ls. l ∷ ls) more

word_or-same : {Double : Type 0} (p : Numbers Double) (w : Bytes) → word_or p [] w ≡ w
word_or-same p [] = refl
word_or-same p (c ∷ w) = refl

module _ {Double : Type 0} (p : Numbers Double) where
  -- A model that can be told apart as text, and whose numbers the library reads back.
  pub record IsSavable (half : Double) (m : Labelled Double) (fp : Bytes) : Type 0 where
    pub is_model : IsModel m.chain
    pub label_is_word : All IsSolid m.label_
    pub fp_on_a_line : HasNoBreak fp
    pub solid_alphabet : All IsSolid m.chain.alphabet_
    pub printed : AllPrinted p m.chain.counts_
    pub k_on_a_line : HasNoBreak (p.print_double m.k_)
    pub k_read : p.read_double half (b' ' ∷ p.print_double m.k_) ≡ m.k_
    pub count_read :
        (p.read_size (b' ' ∷ decimal (length m.chain.counts_))).0 ≡ length m.chain.counts_

  module _ (half : Double) (m : Labelled Double) (fp : Bytes) (h : IsSavable half m fp) where
    abbrev rows : List (ℕ × List (ℕ × ℕ))
    rows = by_key m.chain.counts_

    rows_printed : AllPrinted p rows
    rows_printed =
        All-by_key (λ (e : ℕ × List (ℕ × ℕ)). IsPrinted p e.0 e.1) m.chain.counts_ h.printed

    -- A literal key in front of a text without a break.
    keyed : (key s : Bytes) → HasNoBreak key → HasNoBreak s → HasNoBreak (key ++ s)
    keyed key s = All-append (λ c. (c == 10) ≡ false) key s

    lines-serialize :
        lines (serialize p m fp)
        ≡ header p
          ∷ (codes "label " ++ m.label_)
          ∷ (codes "k " ++ p.print_double m.k_)
          ∷ (codes "config " ++ fp)
          ∷ (codes "alphabet " ++ by_rank m.chain.alphabet_)
          ∷ (codes "transitions " ++ decimal (length m.chain.counts_))
          ∷ lines (print_rows rows)
    unfolding serialize
    lines-serialize =
        let alpha = no_break _ (All-by_rank IsSolid m.chain.alphabet_ h.solid_alphabet) in
        let count = no_break _ (decimal-IsSolid (length m.chain.counts_)) in
        then_lines (header p) _ (ground arith) (
          then_lines _ _
            (keyed (codes "label ") m.label_ (ground arith) (no_break _ h.label_is_word))
            (then_lines _ _ (keyed (codes "k ") _ (ground arith) h.k_on_a_line) (
              then_lines _ _ (keyed (codes "config ") fp (ground arith) h.fp_on_a_line) (
                then_lines _ _ (keyed (codes "alphabet ") _ (ground arith) alpha)
                  (then_lines _ _ (keyed (codes "transitions ") _ (ground arith) count) refl)))))

    load_fields :
        (rest : List Bytes)
        → load_lines p
            ((codes "label " ++ m.label_)
              ∷ (codes "k " ++ p.print_double m.k_)
              ∷ (codes "config " ++ fp)
              ∷ (codes "alphabet " ++ by_rank m.chain.alphabet_)
              ∷ (codes "transitions " ++ decimal (length m.chain.counts_))
              ∷ rest)
            (empty_load p half)
          ≡ load_lines p rest
              (waiting p m.label_ m.k_ fp (length rows) (chain_of (by_rank m.chain.alphabet_) [] 0))
    unfolding load_lines read_field eq_bytes next_word word_then skip_spaces
    load_fields rest =
        rw
          (
            next_word-solid m.label_ h.label_is_word,
            word_or-same p m.label_,
            h.k_read,
            next_word-solid _ (All-by_rank IsSolid m.chain.alphabet_ h.solid_alphabet),
            add_chars-by_rank m.chain.alphabet_ h.is_model.once_chars,
            h.count_read,
            length-by_key m.chain.counts_,
          )
          refl

    -- The whole text is read back.
    load-serialize_all :
        load p half (serialize p m fp) ≡ some (waiting p m.label_ m.k_ fp 0 (sorted m.chain))
    unfolding load
    load-serialize_all =
        ap (λ ls. load_lines p (behind_header p ls) (empty_load p half)) lines-serialize
        ∙ load_fields (lines (print_rows rows))
        ∙ load_lines-print_rows p rows m.label_ m.k_ fp (chain_of (by_rank m.chain.alphabet_) [] 0)
            rows_printed
        ∙ ap (λ c. some (waiting p m.label_ m.k_ fp 0 c))
            (add_rows-chain_of (by_rank m.chain.alphabet_) (sort_rows rows) [] 0
                (rows-IsRow m.chain h.is_model) (rows-IsFresh m.chain h.is_model)
              ∙ ap (chain_of (by_rank m.chain.alphabet_) (sort_rows rows)) (omega arith))

-- What a load gives back of a model and the fingerprint of its configuration: the label, the
-- smoothing constant, the fingerprint, and the scores.
pub record IsSame (r : Doubles) (p : Numbers r.Double) (log : r.Double → r.Double)
    (m : Labelled r.Double) (fp s : Bytes) (l : Loading p) : Type 0 where
  pub same_label : l.model.label_ ≡ m.label_
  pub same_k : l.model.k_ ≡ m.k_
  pub same_fingerprint : l.cfg_fingerprint ≡ fp
  pub same_score : score r log l.model.k_ l.model.chain s ≡ score r log m.k_ m.chain s
  pub no_rows_left : l.rows ≡ 0

-- A model that is written to a text and loaded from it comes back with its label, its smoothing
-- constant and the fingerprint, and scores every string as before, if its counts are consistent,
-- its label is one word or empty, the fingerprint and the printed constant have no line break, no
-- character of it is white space or, behind a transition, a colon, and the library reads back its
-- numbers.
pub load-serialize :
    (r : Doubles) (p : Numbers r.Double) (log : r.Double → r.Double) (half : r.Double)
    (m : Labelled r.Double) (fp s : Bytes)
    → IsSavable p half m fp
    → (l : Loading p) × (load p half (serialize p m fp) ≡ some l) × IsSame r p log m fp s l
load-serialize r p log half m fp s h = (
  waiting p m.label_ m.k_ fp 0 (sorted m.chain),
  load-serialize_all p half m fp h,
  record {
    same_label = refl;
    same_k = refl;
    same_fingerprint = refl;
    same_score = score-sorted m.chain h.is_model r log m.k_ s;
    no_rows_left = refl;
  },
)
