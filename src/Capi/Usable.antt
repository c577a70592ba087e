-- ===== src/Capi/Usable.antt =====
-- src/wirewolf_capi.cpp: what the setters keep of the configuration.
use wirewolf.Base.{
  zero, suc, ◌<◌, ◌≡◌, refl, ap, ◌∙◌, Bool, true, false, List, [], ◌∷◌, none, some, arith,
}
use wirewolf.Base.Doubles.{Doubles}
use wirewolf.Capi.Settings.{Setter, set_config, set_all}
use wirewolf.Config.{WirewolfConfig, ℤ, pos, negsuc, defaults}

abbrev pub is_positive : ℤ → Bool
is_positive (pos zero) = false
is_positive (pos (suc n)) = true
is_positive (negsuc n) = false

-- The settings that the pipeline cannot do without.
pub record IsUsable {Double : Type 0} (cfg : WirewolfConfig Double) : Type 0 where
  pub some_queue : 0 < cfg.queue_capacity
  pub some_payload : 0 < cfg.payload_char_limit
  pub some_context : 0 < cfg.context_size
  pub some_tokens : is_positive cfg.max_tokens ≡ true
  pub no_error : cfg.parse_error ≡ []

module _ {Double : Type 0} where
  same :
      (cfg new : WirewolfConfig Double)
      → new.queue_capacity ≡ cfg.queue_capacity
      → new.payload_char_limit ≡ cfg.payload_char_limit
      → new.context_size ≡ cfg.context_size
      → new.max_tokens ≡ cfg.max_tokens
      → new.parse_error ≡ cfg.parse_error
      → IsUsable cfg
      → IsUsable new
  same cfg new q p c t e h = record {
    some_queue = omega (arith, q, h.some_queue);
    some_payload = omega (arith, p, h.some_payload);
    some_context = omega (arith, c, h.some_context);
    some_tokens = ap is_positive t ∙ h.some_tokens;
    no_error = e ∙ h.no_error;
  }

  set_config-IsUsable :
      (s : Setter Double) (cfg : WirewolfConfig Double) → IsUsable cfg → IsUsable (set_config s cfg)
  unfolding set_config
  set_config-IsUsable (Setter.interface none) cfg h = h
  set_config-IsUsable (Setter.interface (some s)) cfg h = same cfg _ refl refl refl refl refl h
  set_config-IsUsable (Setter.llama_model none) cfg h = h
  set_config-IsUsable (Setter.llama_model (some s)) cfg h = same cfg _ refl refl refl refl refl h
  set_config-IsUsable (Setter.openvino_model none) cfg h = h
  set_config-IsUsable (Setter.openvino_model (some s)) cfg h = same cfg _ refl refl refl refl refl h
  set_config-IsUsable (Setter.windivert_filter none) cfg h = h
  set_config-IsUsable (Setter.windivert_filter (some s)) cfg h =
      same cfg _ refl refl refl refl refl h
  set_config-IsUsable (Setter.rules_dir none) cfg h = h
  set_config-IsUsable (Setter.rules_dir (some s)) cfg h = same cfg _ refl refl refl refl refl h
  set_config-IsUsable (Setter.threat_db none) cfg h = h
  set_config-IsUsable (Setter.threat_db (some s)) cfg h = same cfg _ refl refl refl refl refl h
  set_config-IsUsable (Setter.block_allowlist none) cfg h = h
  set_config-IsUsable (Setter.block_allowlist (some s)) cfg h =
      same cfg _ refl refl refl refl refl h
  set_config-IsUsable (Setter.openvino_enabled n) cfg h = same cfg _ refl refl refl refl refl h
  set_config-IsUsable (Setter.windivert n) cfg h = same cfg _ refl refl refl refl refl h
  set_config-IsUsable (Setter.inline_block n) cfg h = same cfg _ refl refl refl refl refl h
  set_config-IsUsable (Setter.log_level n) cfg h = same cfg _ refl refl refl refl refl h
  set_config-IsUsable (Setter.gpu_layers n) cfg h = same cfg _ refl refl refl refl refl h
  set_config-IsUsable (Setter.mode n) cfg h = same cfg _ refl refl refl refl refl h
  set_config-IsUsable (Setter.behavioral dir x) cfg h = same cfg _ refl refl refl refl refl h
  set_config-IsUsable (Setter.max_tokens (pos zero)) cfg h = h
  set_config-IsUsable (Setter.max_tokens (negsuc n)) cfg h = h
  set_config-IsUsable (Setter.queue_capacity zero) cfg h = h
  set_config-IsUsable (Setter.payload_limit zero) cfg h = h
  set_config-IsUsable (Setter.context_size zero) cfg h = h
  set_config-IsUsable (Setter.max_tokens (pos (suc n))) cfg h = record {
    some_queue = h.some_queue;
    some_payload = h.some_payload;
    some_context = h.some_context;
    some_tokens = refl;
    no_error = h.no_error;
  }
  set_config-IsUsable (Setter.queue_capacity (suc n)) cfg h = record {
    some_queue = omega arith;
    some_payload = h.some_payload;
    some_context = h.some_context;
    some_tokens = h.some_tokens;
    no_error = h.no_error;
  }
  set_config-IsUsable (Setter.payload_limit (suc n)) cfg h = record {
    some_queue = h.some_queue;
    some_payload = omega arith;
    some_context = h.some_context;
    some_tokens = h.some_tokens;
    no_error = h.no_error;
  }
  set_config-IsUsable (Setter.context_size (suc n)) cfg h = record {
    some_queue = h.some_queue;
    some_payload = h.some_payload;
    some_context = omega arith;
    some_tokens = h.some_tokens;
    no_error = h.no_error;
  }

  set_from :
      (ss : List (Setter Double)) (cfg : WirewolfConfig Double)
      → IsUsable cfg
      → IsUsable (set_all ss cfg)
  unfolding set_all
  set_from [] cfg h = h
  set_from (s ∷ ss) cfg h = set_from ss (set_config s cfg) (set_config-IsUsable s cfg h)

-- Whatever is set through the C interface, in whatever order and with whatever arguments: the queues
-- have room, some payload, some context and some tokens are left for the model, and no parse error
-- stands in the way of a start.
pub set_all-IsUsable :
    (r : Doubles) (ss : List (Setter r.Double)) → IsUsable (set_all ss (defaults r))
unfolding defaults
set_all-IsUsable r ss = set_from ss (defaults r) (record {
  some_queue = omega arith;
  some_payload = omega arith;
  some_context = omega arith;
  some_tokens = refl;
  no_error = refl;
})
