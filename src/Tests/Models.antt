-- ===== src/Tests/Models.antt =====
-- Behavioral models, trained and stored, at concrete inputs.
use wirewolf.Anomaly.Once.{IsDistinct}
use wirewolf.Base.{
  ℕ, ◌+◌, ◌-◌, ◌*◌, ◌≡◌, refl, List, [], ◌∷◌, some, leb, ◌&&◌, if◌then◌else◌, arith,
}
use wirewolf.Base.Text.{Bytes, codes, decimal, decimal_acc}
use wirewolf.Behavioral.{
  MarkovModel, count_of, add_one, row_of, add_transition, add_char, count_transition, observe_from,
  observe, train,
}
use wirewolf.Behavioral.Store.{
  Numbers, Labelled, Loading, rank, skip_spaces, by_key, insert_key, print_entries, serialize, load,
}
use wirewolf.Behavioral.Store.RoundTrip.{IsSavable, IsSame, load-serialize}
use wirewolf.Behavioral.Store.Scores.{IsModel}
use wirewolf.Behavioral.Store.Trained.{train-IsModel}
use wirewolf.Tests.Filters.{counting}

-- A reader of decimal digits.
abbrev scan : ℕ → Bytes → ℕ × Bytes
scan n [] = (n, [])
scan n (c ∷ s) =
    let more = scan (n * 10 + (c - b'0')) s in if leb b'0' c && leb c b'9' then more else (n, c ∷ s)

abbrev plain_numbers : Numbers ℕ
unfolding decimal skip_spaces
plain_numbers = record {
  print_double = decimal;
  read_double = λ old s. (scan 0 (skip_spaces s)).0;
  read_size = λ s. ((scan 0 (skip_spaces s)).0, some (scan 0 (skip_spaces s)).1);
  stol = λ s. some (scan 0 s).0;
}

abbrev unseen : MarkovModel
unseen = record { counts_ = []; row_totals_ = []; alphabet_ = []; total_ = 0 }

abbrev beacon_strings : List Bytes
beacon_strings = codes "a.a+" ∷ codes "a.a." ∷ []

unseen-IsModel : IsModel unseen
unfolding IsDistinct count_of row_of
unseen-IsModel = record { rows_counted = tt; once_rows = tt; once_chars = tt; row_sums = λ c. refl }

train-IsModel_example : IsModel (train beacon_strings unseen)
train-IsModel_example = train-IsModel beacon_strings unseen unseen-IsModel

abbrev botnet : Labelled ℕ
unfolding train
botnet = record { label_ = codes "Botnet"; k_ = 12; chain = train beacon_strings unseen }

botnet-IsSavable : IsSavable plain_numbers 5 botnet (codes "k:5")
unfolding train observe observe_from count_transition add_transition add_one add_char decimal
    decimal_acc skip_spaces by_key insert_key print_entries rank
botnet-IsSavable = record {
  is_model = train-IsModel beacon_strings unseen unseen-IsModel;
  label_is_word = ground arith;
  fp_on_a_line = ground arith;
  solid_alphabet = ground arith;
  printed = (
    record {
      solid_from = refl;
      entries = ((refl, refl, refl), ((refl, refl, refl), tt));
      size_read = refl;
    },
    (record { solid_from = refl; entries = ((refl, refl, refl), tt); size_read = refl }, tt),
  );
  k_on_a_line = ground arith;
  k_read = refl;
  count_read = refl;
}

load-serialize_example :
    (l : Loading plain_numbers) × (load plain_numbers 5
        (serialize plain_numbers botnet (codes "k:5"))
      ≡ some l)
    × IsSame counting plain_numbers (λ x. x) botnet (codes "k:5") (codes "a+b-") l
load-serialize_example =
    load-serialize counting plain_numbers (λ x. x) 5 botnet (codes "k:5") (codes "a+b-")
      botnet-IsSavable
