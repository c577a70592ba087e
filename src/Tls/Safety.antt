-- ===== src/Tls/Safety.antt =====
-- include/tls_inspector.hpp: where the ClientHello parser reads, and that its loop ends.
use wirewolf.Base.{
  ℕ, suc, ◌+◌, ◌/◌, refl, not, ◌||◌, List, length, get_elem?-total, leb, leb→gt, ltb, ltb→ge, ◌==◌,
  if-ind, min, arith,
}
use wirewolf.Base.Bytes.{Reads, >>=-Reads, be16_at-Reads}
use wirewolf.Base.Text.{Bytes}
use wirewolf.Tls.Extensions.{EndsNonzero, u16_list-Reads, extension_loop-Reads}
use wirewolf.Tls.{
  not_hello, hello, no_extensions, parse_tail, parse_ciphers, parse_version, parse_tls_client_hello,
}

parse_tail-Reads :
    (p : Bytes) (pos v : ℕ) (cs : List ℕ) → EndsNonzero p → Reads (parse_tail p pos v cs)
unfolding parse_tail
parse_tail-Reads p pos v cs ends =
    if-ind Reads (leb (length p) pos) (λ _. (not_hello, refl))
      λ some_left. >>=-Reads _ _ (get_elem?-total p pos (leb→gt _ _ some_left)) λ comp_len _.
        if-ind Reads (ltb (length p) (pos + 1 + comp_len + 2)) (λ _. (hello no_extensions, refl))
          λ room.
            >>=-Reads _ _ (be16_at-Reads p (pos + 1 + comp_len) (ltb→ge _ _ room)) λ ext_total _.
              >>=-Reads _ _
                (extension_loop-Reads (suc (length p)) p (pos + 1 + comp_len + 2)
                  (min (pos + 1 + comp_len + 2 + ext_total) (length p)) _ ends (omega arith)
                  (omega (arith, ltb→ge _ _ room)) (omega arith))
                λ f _. (_, refl)

parse_ciphers-Reads : (p : Bytes) (pos v : ℕ) → EndsNonzero p → Reads (parse_ciphers p pos v)
unfolding parse_ciphers
parse_ciphers-Reads p pos v ends =
    if-ind Reads (ltb (length p) (pos + 2)) (λ _. (not_hello, refl))
      λ room. >>=-Reads _ _ (be16_at-Reads p pos (ltb→ge _ _ room)) λ cs_len _.
        if-ind Reads (ltb (length p) (pos + 2 + cs_len)) (λ _. (not_hello, refl))
          λ fits.
            >>=-Reads _ _ (u16_list-Reads p (pos + 2) (cs_len / 2) (omega (arith, ltb→ge _ _ fits)))
              λ ciphers _. parse_tail-Reads p (pos + 2 + cs_len) v ciphers ends

parse_version-Reads : (p : Bytes) (pos : ℕ) → EndsNonzero p → Reads (parse_version p pos)
unfolding parse_version
parse_version-Reads p pos ends =
    if-ind Reads (ltb (length p) (pos + 2)) (λ _. (not_hello, refl))
      λ room. >>=-Reads _ _ (be16_at-Reads p pos (ltb→ge _ _ room)) λ v _.
        if-ind Reads (leb (length p) (pos + 34)) (λ _. (not_hello, refl))
          λ left.
            >>=-Reads _ _ (get_elem?-total p (pos + 34) (leb→gt _ _ left))
              λ sid_len _. parse_ciphers-Reads p (pos + 35 + sid_len) v ends

-- Whatever the payload, a hostile one too, if its last byte is not zero: every byte that the parser
-- indexes lies inside it, every loop ends, and the parser answers.
pub parse_tls_client_hello-Reads : (p : Bytes) → EndsNonzero p → Reads (parse_tls_client_hello p)
unfolding parse_tls_client_hello
parse_tls_client_hello-Reads p ends =
    if-ind Reads (ltb (length p) 6) (λ _. (not_hello, refl))
      λ long. >>=-Reads _ _ (get_elem?-total p 0 (omega (arith, ltb→ge _ _ long))) λ t _.
        if-ind Reads (not (t == 0x16) || ltb (length p) 9) (λ _. (not_hello, refl))
          λ _. >>=-Reads _ _ (get_elem?-total p 5 (omega (arith, ltb→ge _ _ long))) λ h _.
            if-ind Reads (h == 1) (λ _. parse_version-Reads p 9 ends) (λ _. (not_hello, refl))
