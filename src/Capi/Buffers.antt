-- ===== src/Capi/Buffers.antt =====
-- src/wirewolf_capi.cpp: what a C caller reads in the buffers of a structure.
use wirewolf.Base.{
  ℕ, zero, suc, ◌+◌, ◌-◌, ◌≤◌, ◌<◌, min, ◌≡◌, refl, ap, subst, ◌∙◌, [], ◌∷◌, ◌++◌, length, take,
  drop, length-append, length-take, length-drop, arith,
}
use wirewolf.Base.Doubles.{Doubles}
use wirewolf.Base.Text.{Bytes}
use wirewolf.Capi.{WirewolfAlert, zeros, safe_copy, convert_alert}
use wirewolf.Filter.Http.{until}
use wirewolf.Pipeline.{ThreatAlert}

-- The text that a buffer holds for C: up to its first zero byte.
abbrev pub c_string : Bytes → Bytes
c_string = until 0

take-min : (n k : ℕ) (s : Bytes) → n ≡ min (length s) k → take n s ≡ take k s
take-min zero zero s e = refl
take-min zero (suc k) [] e = refl
take-min zero (suc k) (c ∷ s) e = absurd (omega (arith, e))
take-min (suc n) zero s e = absurd (omega (arith, e))
take-min (suc n) (suc k) [] e = absurd (omega (arith, e))
take-min (suc n) (suc k) (c ∷ s) e = ap (λ t. c ∷ t) (take-min n k s (omega (arith, e)))

c_string-closed : (s rest : Bytes) → c_string (s ++ (0 ∷ rest)) ≡ c_string s
unfolding until
c_string-closed [] rest = refl
c_string-closed (c ∷ s) rest = ground (arith, c_string-closed s rest)

-- A buffer of this size holds this text: its size is kept, and a C caller reads the text, cut to what
-- fits before the closing zero.
pub record Holds (size : ℕ) (src buf : Bytes) : Type 0 where
  pub same_size : length buf ≡ size
  pub reads : c_string buf ≡ c_string (take (size - 1) src)
  pub closed : length (c_string buf) < size

length-c_string : (s : Bytes) → length (c_string s) ≤ length s
unfolding until
length-c_string [] = omega arith
length-c_string (c ∷ s) = ground (arith, length-c_string s)

-- A copy stays inside the buffer and ends in a zero.
pub safe_copy-Holds :
    (dst src : Bytes) → 0 < length dst → Holds (length dst) src (safe_copy dst src)
unfolding safe_copy
safe_copy-Holds dst src some_room =
    let n = min (length src) (length dst - 1) in
    let read : c_string (take n src ++ (0 ∷ drop (n + 1) dst))
        ≡ c_string (take (length dst - 1) src) =
      c_string-closed (take n src) _ ∙ ap c_string (take-min n (length dst - 1) src refl) in
    record {
      same_size = omega (
        arith,
        length-append (take n src) (0 ∷ drop (n + 1) dst),
        length-take n src,
        length-drop (n + 1) dst,
        some_room,
      );
      reads = read;
      closed = omega (
        arith,
        ap length read,
        length-c_string (take (length dst - 1) src),
        length-take (length dst - 1) src,
        some_room,
      );
    }

length-zeros : (n : ℕ) → length (zeros n) ≡ n
unfolding zeros
length-zeros zero = refl
length-zeros (suc n) = ap suc (length-zeros n)

copied : (n : ℕ) (src : Bytes) → 0 < n → Holds n src (safe_copy (zeros n) src)
copied n src some_room =
    subst (λ k. Holds k src (safe_copy (zeros n) src)) (length-zeros n)
      (safe_copy-Holds (zeros n) src (omega (arith, length-zeros n, some_room)))

module _ (r : Doubles) where
  open r use {Double}

  -- The five texts of an alert, in the sizes of the C structure.
  pub record IsFlat (alert : ThreatAlert Double) (out : WirewolfAlert Double) : Type 0 where
    pub threat_type_held : Holds 64 alert.threat_type out.threat_type
    pub severity_held : Holds 64 alert.severity out.severity
    pub snippet_held : Holds 512 alert.snippet out.snippet
    pub output_held : Holds 1024 alert.raw_llm_output out.raw_llm_output
    pub payload_held : Holds 4096 alert.payload_text out.payload_text

  -- Whatever an alert holds: each text of the structure fills its buffer and no more, ends in a zero
  -- byte inside it, and is the alert's own text, cut to what fits and at its first zero byte.
  pub convert_alert-IsFlat : (alert : ThreatAlert Double) → IsFlat alert (convert_alert r alert)
  unfolding convert_alert
  convert_alert-IsFlat alert = record {
    threat_type_held = copied 64 alert.threat_type (omega arith);
    severity_held = copied 64 alert.severity (omega arith);
    snippet_held = copied 512 alert.snippet (omega arith);
    output_held = copied 1024 alert.raw_llm_output (omega arith);
    payload_held = copied 4096 alert.payload_text (omega arith);
  }
