-- ===== src/Config/Ranges.antt =====
-- include/config.hpp: what a parsed configuration guarantees.
use wirewolf.Base.{
  ℕ, ◌≡◌, refl, ◌⊎◌, inl, inr, Bool, true, false, List, [], ◌∷◌, Option, none, some, ltb, ◌==◌, leb,
  ◌&&◌, if-ind, arith,
}
use wirewolf.Base.Text.{Bytes, codes, eq_bytes}
use wirewolf.Config.{
  ℤ, pos, negsuc, Number, number, throws, WirewolfConfig, Numbers, Outcome, goes_on, returns,
  is_nil, set_log_level, set_queue_capacity, set_payload_limit, set_max_tokens, set_max_llm_flows,
  set_max_flow_size, set_entropy_high, set_entropy_low, set_behavioral_threshold, set_mode,
  set_flag, set_option, resume, parse_options, parse, valid,
}

abbrev at_most : ℕ → ℤ → Bool
at_most m (pos n) = leb n m
at_most m (negsuc n) = false

abbrev positive : ℤ → Bool
positive (pos n) = ltb 0 n
positive (negsuc n) = false

module _ {Double : Type 0} where
  -- The settings that the engine divides by, indexes with or sizes buffers by.
  abbrev pub in_range : WirewolfConfig Double → Bool
  in_range cfg =
      ltb 0 cfg.queue_capacity
      && ltb 0 cfg.max_flow_payload_bytes
      && ltb 0 cfg.payload_char_limit
      && positive cfg.max_tokens
      && at_most 3 cfg.log_level

  abbrev IsGood : WirewolfConfig Double → Type 0
  IsGood cfg = (in_range cfg ≡ true)

  abbrev IsOutcome : Option (Outcome Double) → Type 0
  IsOutcome none = Bool
  IsOutcome (some (goes_on cfg)) = IsGood cfg
  IsOutcome (some (returns cfg)) = is_nil cfg.parse_error ≡ false

  set_log_level-IsOutcome :
      (x : Number ℤ) (cfg : WirewolfConfig Double)
      → IsGood cfg
      → IsOutcome (some (set_log_level x cfg))
  unfolding set_log_level
  set_log_level-IsOutcome (throws what) cfg h = refl
  set_log_level-IsOutcome (number (negsuc n)) cfg h = refl
  set_log_level-IsOutcome (number (pos n)) cfg h =
      if-ind (λ o. IsOutcome (some o)) (ltb 3 n) (λ bad. refl) (λ ok. ground (arith, ok, h))

  set_queue_capacity-IsOutcome :
      (x : Number ℕ) (cfg : WirewolfConfig Double)
      → IsGood cfg
      → IsOutcome (some (set_queue_capacity x cfg))
  unfolding set_queue_capacity
  set_queue_capacity-IsOutcome (throws what) cfg h = refl
  set_queue_capacity-IsOutcome (number n) cfg h =
      if-ind (λ o. IsOutcome (some o)) (n == 0) (λ bad. refl) (λ ok. ground (arith, ok, h))

  set_payload_limit-IsOutcome :
      (x : Number ℕ) (cfg : WirewolfConfig Double)
      → IsGood cfg
      → IsOutcome (some (set_payload_limit x cfg))
  unfolding set_payload_limit
  set_payload_limit-IsOutcome (throws what) cfg h = refl
  set_payload_limit-IsOutcome (number n) cfg h =
      if-ind (λ o. IsOutcome (some o)) (n == 0) (λ bad. refl) (λ ok. ground (arith, ok, h))

  set_max_flow_size-IsOutcome :
      (x : Number ℕ) (cfg : WirewolfConfig Double)
      → IsGood cfg
      → IsOutcome (some (set_max_flow_size x cfg))
  unfolding set_max_flow_size
  set_max_flow_size-IsOutcome (throws what) cfg h = refl
  set_max_flow_size-IsOutcome (number n) cfg h =
      if-ind (λ o. IsOutcome (some o)) (n == 0) (λ bad. refl) (λ ok. ground (arith, ok, h))

  set_max_tokens-IsOutcome :
      (x : Number ℤ) (cfg : WirewolfConfig Double)
      → IsGood cfg
      → IsOutcome (some (set_max_tokens x cfg))
  unfolding set_max_tokens
  set_max_tokens-IsOutcome (throws what) cfg h = refl
  set_max_tokens-IsOutcome (number (negsuc n)) cfg h = refl
  set_max_tokens-IsOutcome (number (pos n)) cfg h =
      if-ind (λ o. IsOutcome (some o)) (n == 0) (λ bad. refl) (λ ok. ground (arith, ok, h))

  set_mode-IsOutcome :
      (m : Bytes) (cfg : WirewolfConfig Double) → IsGood cfg → IsOutcome (some (set_mode m cfg))
  unfolding set_mode
  set_mode-IsOutcome m cfg h =
      if-ind (λ o. IsOutcome (some o)) (eq_bytes m (codes "live")) (λ _. h)
        (λ _.
          if-ind (λ o. IsOutcome (some o)) (eq_bytes m (codes "forensic")) (λ _. h)
            (λ _.
              if-ind (λ o. IsOutcome (some o)) (eq_bytes m (codes "auto")) (λ _. h) (λ _. refl)))

  set_flag-IsGood :
      (arg : Bytes) (cfg : WirewolfConfig Double) → IsGood cfg → IsGood (set_flag arg cfg)
  unfolding set_flag
  set_flag-IsGood arg cfg h =
      if-ind IsGood (eq_bytes arg (codes "--openvino")) (λ _. h)
        (λ _. if-ind IsGood (eq_bytes arg (codes "--no-promisc")) (λ _. h) (λ _. h))

  set_max_llm_flows-IsOutcome :
      (x : Number ℕ) (cfg : WirewolfConfig Double)
      → IsGood cfg
      → IsOutcome (some (set_max_llm_flows x cfg))
  unfolding set_max_llm_flows
  set_max_llm_flows-IsOutcome (throws what) cfg h = refl
  set_max_llm_flows-IsOutcome (number x) cfg h = h

  set_entropy_high-IsOutcome :
      (x : Number Double) (cfg : WirewolfConfig Double)
      → IsGood cfg
      → IsOutcome (some (set_entropy_high x cfg))
  unfolding set_entropy_high
  set_entropy_high-IsOutcome (throws what) cfg h = refl
  set_entropy_high-IsOutcome (number x) cfg h = h

  set_entropy_low-IsOutcome :
      (x : Number Double) (cfg : WirewolfConfig Double)
      → IsGood cfg
      → IsOutcome (some (set_entropy_low x cfg))
  unfolding set_entropy_low
  set_entropy_low-IsOutcome (throws what) cfg h = refl
  set_entropy_low-IsOutcome (number x) cfg h = h

  set_behavioral_threshold-IsOutcome :
      (x : Number Double) (cfg : WirewolfConfig Double)
      → IsGood cfg
      → IsOutcome (some (set_behavioral_threshold x cfg))
  unfolding set_behavioral_threshold
  set_behavioral_threshold-IsOutcome (throws what) cfg h = refl
  set_behavioral_threshold-IsOutcome (number x) cfg h = h

  set_option-IsOutcome :
      (n : Numbers Double) (arg value : Bytes) (cfg : WirewolfConfig Double)
      → IsGood cfg
      → IsOutcome (set_option n arg value cfg)
  unfolding set_option
  set_option-IsOutcome n arg value cfg h =
      if-ind IsOutcome (eq_bytes arg (codes "--log-level"))
        (λ _. set_log_level-IsOutcome (n.stoi value) cfg h)
        (λ _.
          if-ind IsOutcome (eq_bytes arg (codes "--queue-capacity"))
            (λ _. set_queue_capacity-IsOutcome (n.stoull value) cfg h)
            (λ _.
              if-ind IsOutcome (eq_bytes arg (codes "--payload-limit"))
                (λ _. set_payload_limit-IsOutcome (n.stoull value) cfg h)
                (λ _.
                  if-ind IsOutcome (eq_bytes arg (codes "--max-tokens"))
                    (λ _. set_max_tokens-IsOutcome (n.stoi value) cfg h)
                    (λ _.
                      if-ind IsOutcome (eq_bytes arg (codes "--max-llm-flows"))
                        (λ _. set_max_llm_flows-IsOutcome (n.stoull value) cfg h)
                        (λ _.
                          if-ind IsOutcome (eq_bytes arg (codes "--max-flow-size"))
                            (λ _. set_max_flow_size-IsOutcome (n.stoull value) cfg h)
                            (λ _.
                              if-ind IsOutcome (eq_bytes arg (codes "--entropy-high"))
                                (λ _. set_entropy_high-IsOutcome (n.stof value) cfg h)
                                (λ _.
                                  if-ind IsOutcome (eq_bytes arg (codes "--entropy-low"))
                                    (λ _. set_entropy_low-IsOutcome (n.stof value) cfg h)
                                    (λ _.
                                      if-ind IsOutcome (eq_bytes arg (codes "--behavioral-models"))
                                        (λ _. h)
                                        (λ _.
                                          if-ind IsOutcome
                                            (eq_bytes arg (codes "--behavioral-threshold"))
                                            (λ _.
                                              set_behavioral_threshold-IsOutcome (n.stod value) cfg
                                                h)
                                            (λ _.
                                              if-ind IsOutcome (eq_bytes arg (codes "--mode"))
                                                (λ _. set_mode-IsOutcome value cfg h)
                                                (λ _. true)))))))))))

  -- The configuration is in range, or it carries an error.
  abbrev IsSafe : WirewolfConfig Double → Type 0
  IsSafe cfg = IsGood cfg ⊎ (is_nil cfg.parse_error ≡ false)

  resume-IsSafe :
      (o : Option (Outcome Double)) (f g : WirewolfConfig Double → WirewolfConfig Double)
      (cfg : WirewolfConfig Double)
      → IsOutcome o
      → IsGood cfg
      → ((c : WirewolfConfig Double) → IsGood c → IsSafe (f c))
      → ((c : WirewolfConfig Double) → IsGood c → IsSafe (g c))
      → IsSafe (resume o f g cfg)
  resume-IsSafe none f g cfg at h if_f if_g = if_f cfg h
  resume-IsSafe (some (goes_on c)) f g cfg at h if_f if_g = if_g c at
  resume-IsSafe (some (returns c)) f g cfg at h if_f if_g = inr at

  parse_options-IsSafe :
      (n : Numbers Double) (args : List Bytes) (cfg : WirewolfConfig Double)
      → IsGood cfg
      → IsSafe (parse_options n args cfg)
  unfolding parse_options
  parse_options-IsSafe n [] cfg h = inl h
  parse_options-IsSafe n (arg ∷ []) cfg h = inl (set_flag-IsGood arg cfg h)
  parse_options-IsSafe n (arg ∷ value ∷ rest) cfg h =
      resume-IsSafe (set_option n arg value cfg) _ _ cfg (set_option-IsOutcome n arg value cfg h) h
        (λ c good.
          parse_options-IsSafe n (value ∷ rest) (set_flag arg c) (set_flag-IsGood arg c good))
        (λ c good. parse_options-IsSafe n rest c good)

  parse-IsSafe :
      (n : Numbers Double) (before : WirewolfConfig Double) (argv : List Bytes)
      → IsGood before
      → IsSafe (parse n before argv)
  unfolding parse
  parse-IsSafe n before (a ∷ b ∷ c ∷ d ∷ args) h = parse_options-IsSafe n args _ h
  parse-IsSafe n before [] h = inl h
  parse-IsSafe n before (a ∷ []) h = inl h
  parse-IsSafe n before (a ∷ b ∷ []) h = inl h
  parse-IsSafe n before (a ∷ b ∷ c ∷ []) h = inl h

  -- A command line that is accepted gives a queue, a payload limit, a flow size and a token limit
  -- above zero and a log level from 0 to 3, whatever the arguments and the number parsers are, if the
  -- settings before it did.
  pub parse-in_range :
      (n : Numbers Double) (before : WirewolfConfig Double) (argv : List Bytes)
      → in_range before ≡ true
      → valid (parse n before argv) ≡ true
      → in_range (parse n before argv) ≡ true
  unfolding valid
  parse-in_range n before argv h accepted = elim (parse-IsSafe n before argv h) [
    | inl good ↦ good
    | inr error ↦ ground (arith, error, accepted)
  ]
