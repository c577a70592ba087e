-- ===== src/Behavioral/Store/Alphabet.antt =====
-- src/behavioral_model.cpp, `serialize` and `load`: the alphabet, written in order and read back.
use wirewolf.Anomaly.Once.{IsDistinct}
use wirewolf.Base.{
  ℕ, ◌≡◌, refl, ap, ◌∙◌, false, List, [], ◌∷◌, ◌++◌, length, ltb, ◌==◌, ◌||◌, All, append_assoc,
  append-nil, if-ind, suc, arith,
}
use wirewolf.Behavioral.{add_char}
use wirewolf.Behavioral.Store.{rank, insert_char, by_rank, add_chars}
use wirewolf.Reassembly.Blocklist.{contains}

contains-insert_char :
    (c d : ℕ) (ds : List ℕ) → contains (insert_char c ds) d ≡ (c == d || contains ds d)
unfolding contains insert_char
contains-insert_char c d [] = refl
contains-insert_char c d (e ∷ ds) = ground (arith, contains-insert_char c d ds)

pub contains-by_rank : (d : ℕ) (ds : List ℕ) → contains (by_rank ds) d ≡ contains ds d
unfolding contains by_rank
contains-by_rank d [] = refl
contains-by_rank d (c ∷ ds) =
    contains-insert_char c d (by_rank ds) ∙ ap (λ b. c == d || b) (contains-by_rank d ds)

length-insert_char : (c : ℕ) (ds : List ℕ) → length (insert_char c ds) ≡ suc (length ds)
unfolding insert_char
length-insert_char c [] = refl
length-insert_char c (d ∷ ds) = ground (arith, length-insert_char c ds)

pub length-by_rank : (ds : List ℕ) → length (by_rank ds) ≡ length ds
unfolding by_rank
length-by_rank [] = refl
length-by_rank (c ∷ ds) = length-insert_char c (by_rank ds) ∙ ap suc (length-by_rank ds)

insert_char-IsDistinct :
    (c : ℕ) (ds : List ℕ) → contains ds c ≡ false → IsDistinct ds → IsDistinct (insert_char c ds)
unfolding insert_char IsDistinct contains
insert_char-IsDistinct c [] new h = (refl, tt)
insert_char-IsDistinct c (d ∷ ds) new h =
    if-ind IsDistinct (ltb (rank d) (rank c))
      (λ _. (
        ground (arith, contains-insert_char c d ds, new, h.0),
        insert_char-IsDistinct c ds (ground (arith, new)) h.1,
      ))
      λ _. (new, h)

pub by_rank-IsDistinct : (ds : List ℕ) → IsDistinct ds → IsDistinct (by_rank ds)
unfolding by_rank IsDistinct
by_rank-IsDistinct [] h = tt
by_rank-IsDistinct (c ∷ ds) h =
    insert_char-IsDistinct c (by_rank ds) (contains-by_rank c ds ∙ h.0) (by_rank-IsDistinct ds h.1)

All-insert_char : (P : ℕ → Type 0) (c : ℕ) (ds : List ℕ) → P c → All P ds → All P (insert_char c ds)
unfolding insert_char
All-insert_char P c [] p h = (p, tt)
All-insert_char P c (d ∷ ds) p h =
    if-ind (All P) (ltb (rank d) (rank c)) (λ _. (h.0, All-insert_char P c ds p h.1)) λ _. (p, h)

pub All-by_rank : (P : ℕ → Type 0) (ds : List ℕ) → All P ds → All P (by_rank ds)
unfolding by_rank
All-by_rank P [] h = tt
All-by_rank P (c ∷ ds) h = All-insert_char P c (by_rank ds) h.0 (All-by_rank P ds h.1)

add_char-new : (c : ℕ) (ds : List ℕ) → contains ds c ≡ false → add_char c ds ≡ ds ++ c ∷ []
unfolding add_char contains
add_char-new c [] h = refl
add_char-new c (d ∷ ds) h =
    let other : (d == c) ≡ false = ground (arith, h) in
    let rest : contains ds c ≡ false = ground (arith, h) in rw (other, add_char-new c ds rest) refl

contains-append_one :
    (c e : ℕ) (ds : List ℕ) → contains (ds ++ c ∷ []) e ≡ (contains ds e || c == e)
unfolding contains
contains-append_one c e [] = ground arith
contains-append_one c e (d ∷ ds) = ground (arith, contains-append_one c e ds)

abbrev AreNew : List ℕ → List ℕ → Type 0
AreNew ds = All (λ c. contains ds c ≡ false)

new_behind :
    (ds cs : List ℕ) (c : ℕ) → AreNew ds cs → contains cs c ≡ false → AreNew (ds ++ c ∷ []) cs
unfolding contains
new_behind ds [] c h new = tt
new_behind ds (e ∷ cs) c h new = (
  ground (arith, contains-append_one c e ds, h.0, new),
  new_behind ds cs c h.1 (ground (arith, new)),
)

add_chars-new : (cs ds : List ℕ) → AreNew ds cs → IsDistinct cs → add_chars cs ds ≡ ds ++ cs
unfolding add_chars IsDistinct
add_chars-new [] ds h once = rw (append-nil ds) refl
add_chars-new (c ∷ cs) ds h once =
    ap (add_chars cs) (add_char-new c ds h.0)
    ∙ add_chars-new cs (ds ++ c ∷ []) (new_behind ds cs c h.1 once.0) once.1
    ∙ append_assoc ds (c ∷ []) cs

all_new : (cs : List ℕ) → AreNew [] cs
unfolding contains
all_new [] = tt
all_new (c ∷ cs) = (refl, all_new cs)

-- An alphabet without repetition is read back as it was written.
pub add_chars-by_rank : (ds : List ℕ) → IsDistinct ds → add_chars (by_rank ds) [] ≡ by_rank ds
add_chars-by_rank ds h =
    add_chars-new (by_rank ds) [] (all_new (by_rank ds)) (by_rank-IsDistinct ds h)
