-- ===== src/Anomaly/Once.antt =====
-- src/tcp_reassembly.cpp, `check_connection_anomalies`: how often it alerts, and whom it blocks.
use wirewolf.Base.{
  ℕ, ◌≡◌, refl, ap, ◌∙◌, true, false, not, ◌&&◌, ◌||◌, ◌==◌, ==_iff, List, [], ◌∷◌, length,
  if◌then◌else◌, if-ind, Bool-cases, inl, inr, arith,
}
use wirewolf.Base.Doubles.{Doubles}
use wirewolf.Base.Text.{Bytes}
use wirewolf.Anomaly.{Monitor, Settings, Seen}
use wirewolf.Anomaly.Alerts.{emit_alert, raise}
use wirewolf.Anomaly.Check.{note_in, check_connection_anomalies, check-ind}
use wirewolf.Reassembly.Blocklist.{
  Blocklist, contains, block_source, is_blocked, is_blocked-block_source,
}

unfoldable pub IsDistinct : List ℕ → Type 0
IsDistinct [] = Unit
IsDistinct (x ∷ xs) = (contains xs x ≡ false) × IsDistinct xs

-- Every key that is remembered was alerted once, where there is anyone to tell.
pub record IsOnce {Double : Type 0} (c : Settings) (m : Monitor Double) : Type 0 where
  pub alerts_match : length m.alerts ≡ (if c.has_callback then length m.alerted_anomalies_ else 0)
  pub keys_distinct : IsDistinct m.alerted_anomalies_

emit_alert-IsOnce :
    {Double : Type 0} (c : Settings) (p : Seen Double) (threat_type : Bytes) (key : ℕ)
    (m : Monitor Double)
    → IsOnce c m
    → IsOnce c (emit_alert c p threat_type key m)
unfolding emit_alert raise IsDistinct
emit_alert-IsOnce c p threat_type key m h =
    if-ind (IsOnce c) (contains m.alerted_anomalies_ key) (λ _. h)
      λ new.
        if-ind (IsOnce c) (not c.has_callback)
          (λ quiet. record {
            alerts_match = ground (arith, quiet, h.alerts_match);
            keys_distinct = (new, h.keys_distinct);
          })
          λ told. record {
            alerts_match = ground (arith, told, h.alerts_match);
            keys_distinct = (new, h.keys_distinct);
          }

-- A packet's check remembers no key twice, and raises one alert for each key that it adds, if there is
-- a callback.
pub check-IsOnce :
    (r : Doubles) (c : Settings) (p : Seen r.Double) (m : Monitor r.Double)
    → IsOnce c m
    → IsOnce c (check_connection_anomalies r c p m)
unfolding note_in
check-IsOnce r c =
    check-ind r c (IsOnce c) (emit_alert-IsOnce c)
      λ p m h. record { alerts_match = h.alerts_match; keys_distinct = h.keys_distinct }

pub record IsSpared (ip : ℕ) (b : Blocklist) : Type 0 where
  pub on_allowlist : contains b.allowlist_ips ip ≡ true
  pub not_blocked : is_blocked b ip ≡ false

allowlist-block_source :
    (src : ℕ) (b : Blocklist) → (block_source src b).allowlist_ips ≡ b.allowlist_ips
unfolding block_source
allowlist-block_source src b =
    if-ind (λ (d : Blocklist). d.allowlist_ips ≡ b.allowlist_ips) (contains b.allowlist_ips src)
      (λ _. refl) λ _. refl

pub block_source-IsSpared :
    (src ip : ℕ) (b : Blocklist) → IsSpared ip b → IsSpared ip (block_source src b)
block_source-IsSpared src ip b h = record {
  on_allowlist = ap (λ l. contains l ip) (allowlist-block_source src b) ∙ h.on_allowlist;
  not_blocked = is_blocked-block_source b src ip ∙ neither;
}
  where
    neither : (not (contains b.allowlist_ips src) && src == ip || is_blocked b ip) ≡ false
    neither = elim (Bool-cases (src == ip)) [
      | inl same ↦ ground (
        arith,
        ap (contains b.allowlist_ips) ((==_iff src ip).0 same) ∙ h.on_allowlist,
        h.not_blocked,
      )
      | inr other ↦ ground (arith, other, h.not_blocked)
    ]

raise-IsSpared :
    {Double : Type 0} (c : Settings) (p : Seen Double) (ip : ℕ) (threat_type : Bytes) (key : ℕ)
    (m : Monitor Double)
    → IsSpared ip m.blocklist
    → IsSpared ip (emit_alert c p threat_type key m).blocklist
unfolding emit_alert raise
raise-IsSpared {Double} c p ip threat_type key m h =
    let P = λ (n : Monitor Double). IsSpared ip n.blocklist in
    if-ind P (contains m.alerted_anomalies_ key) (λ _. h)
      λ _.
        if-ind P (not c.has_callback) (λ _. h)
          λ _.
            if-ind (IsSpared ip) c.inline_block
              (λ _. block_source-IsSpared p.src_ip ip m.blocklist h) λ _. h

-- An address on the allowlist is not blocked by a packet's check.
pub check-IsSpared :
    (r : Doubles) (c : Settings) (p : Seen r.Double) (m : Monitor r.Double) (ip : ℕ)
    → IsSpared ip m.blocklist
    → IsSpared ip (check_connection_anomalies r c p m).blocklist
unfolding note_in
check-IsSpared r c p m ip =
    check-ind r c (λ n. IsSpared ip n.blocklist)
      (λ q threat_type key n. raise-IsSpared c q ip threat_type key n) (λ p n h. h) p m

emit_alert-offline :
    {Double : Type 0} (c : Settings) (p : Seen Double) (threat_type : Bytes) (key : ℕ)
    (m : Monitor Double)
    → c.inline_block ≡ false
    → (emit_alert c p threat_type key m).blocklist ≡ m.blocklist
unfolding emit_alert raise
emit_alert-offline {Double} c p threat_type key m off =
    let P = λ (n : Monitor Double). n.blocklist ≡ m.blocklist in
    if-ind P (contains m.alerted_anomalies_ key) (λ _. refl)
      λ _. if-ind P (not c.has_callback) (λ _. refl) λ _. rw off refl

-- Outside inline mode a check changes no blocklist.
pub check-offline :
    (r : Doubles) (c : Settings) (p : Seen r.Double) (m : Monitor r.Double)
    → c.inline_block ≡ false
    → (check_connection_anomalies r c p m).blocklist ≡ m.blocklist
unfolding note_in
check-offline r c p m off =
    check-ind r c (λ n. n.blocklist ≡ m.blocklist)
      (λ q threat_type key n h. emit_alert-offline c q threat_type key n off ∙ h) (λ p n h. h) p m
      refl
