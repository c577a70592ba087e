-- ===== src/Capture/Divert.antt =====
-- src/tcp_reassembly.cpp, `run_windivert`: the inline loop beside a forwarder that drops nothing.
use wirewolf.Base.{
  ℕ, ◌≡◌, refl, ap, ◌∙◌, false, Bool, not, ◌&&◌, List, [], ◌∷◌, length, leb, ◌+◌, ◌==◌, ==_iff,
  if◌then◌else◌, if-ind, Bool-cases, inl, inr, arith,
}
use wirewolf.Base.Doubles.{Doubles}
use wirewolf.Base.Text.{Bytes}
use wirewolf.Reassembly.Blocklist.{is_blocked}
use wirewolf.Reassembly.Header.{parse_ip}
use wirewolf.Capture.{Fixed, Engine, process_ip_packet, or_unread, Inline, source_in, divert}
use wirewolf.Capture.Safe.{IsSafe, process-IsSafe, maintain-IsSafe}

module _ (r : Doubles) (c : Fixed r) where
  open r use {Double}

  -- The loop over the packets that WinDivert delivers.
  unfoldable pub divert_all : List (Double × Bytes) → Inline r c → Inline r c
  divert_all [] s = s
  divert_all ((now, packet) ∷ ps) s = divert_all ps (divert r c now packet s)

  -- The forwarder, the latest packet first.
  abbrev pub forward_all : List (Double × Bytes) → List Bytes → List Bytes
  forward_all [] sent = sent
  forward_all ((now, packet) ∷ ps) sent = forward_all ps (packet ∷ sent)

  -- The packets that come from the source.
  abbrev pub of_source : ℕ → List Bytes → List Bytes
  of_source ip [] = []
  of_source ip (p ∷ ps) = if source_in r c p == ip then p ∷ of_source ip ps else of_source ip ps

  abbrev inspected : Double → Bytes → Engine r → Engine r
  inspected now packet e = if leb 20 (length packet) then process_ip_packet r c now packet e else e

  inspected-IsSafe :
      (ip : ℕ) (now : Double) (packet : Bytes) (e : Engine r)
      → IsSafe r c ip e
      → IsSafe r c ip (inspected now packet e)
  unfolding process_ip_packet
  inspected-IsSafe ip now packet e h =
      if-ind (IsSafe r c ip) (leb 20 (length packet))
        (λ _. process-IsSafe r c ip now (or_unread r c (parse_ip packet)) e h) λ _. h

  divert-IsSafe :
      (ip : ℕ) (now : Double) (packet : Bytes) (s : Inline r c)
      → IsSafe r c ip s.engine
      → IsSafe r c ip (divert r c now packet s).engine
  unfolding divert
  divert-IsSafe ip now packet s h =
      let seen = inspected-IsSafe ip now packet s.engine h in
      if-ind (IsSafe r c ip) (leb 256 (s.since_maintenance + 1))
        (λ _. maintain-IsSafe r c ip _ seen) λ _. seen

  of_source-divert :
      (ip : ℕ) (now : Double) (packet : Bytes) (s : Inline r c)
      → IsSafe r c ip s.engine
      → of_source ip (divert r c now packet s).sent ≡ of_source ip (packet ∷ s.sent)
  unfolding divert
  of_source-divert ip now packet s h =
      let e = inspected now packet s.engine in
      let free = (inspected-IsSafe ip now packet s.engine h).spared.not_blocked in
      let src_ip = source_in r c packet in
      if-ind (λ (xs : List Bytes). of_source ip xs ≡ of_source ip (packet ∷ s.sent))
        (c.settings.inline_block && (not (src_ip == 0) && is_blocked e.monitor.blocklist src_ip))
        (λ drops. elim (Bool-cases (src_ip == ip)) [
          | inl same ↦
              let not_blocked : is_blocked e.monitor.blocklist src_ip ≡ false =
                ap (is_blocked e.monitor.blocklist) ((==_iff src_ip ip).0 same) ∙ free in
              ground (arith, drops, not_blocked)
          | inr other ↦ rw other refl
        ])
        λ _. refl

  passes :
      (ip : ℕ) (ps : List (Double × Bytes)) (s : Inline r c) (sent : List Bytes)
      → IsSafe r c ip s.engine
      → of_source ip s.sent ≡ of_source ip sent
      → of_source ip (divert_all ps s).sent ≡ of_source ip (forward_all ps sent)
  unfolding divert_all
  passes ip [] s sent h same = same
  passes ip ((now, packet) ∷ ps) s sent h same =
      passes ip ps _ (packet ∷ sent) (divert-IsSafe ip now packet s h) (
        of_source-divert ip now packet s h
        ∙ if_same (source_in r c packet == ip) packet (of_source ip s.sent) (of_source ip sent)
            same)
    where
      if_same :
          (test : Bool) (p : Bytes) (xs ys : List Bytes)
          → xs ≡ ys
          → (if test then p ∷ xs else xs) ≡ (if test then p ∷ ys else ys)
      if_same test p xs ys eq = ap (λ zs. if test then p ∷ zs else zs) eq

  -- For a source on the allowlist that is not blocked at the start, the inline loop sends on exactly
  -- the packets, in the same order, that a forwarder without any inspection sends on, whatever
  -- other packets come between them.
  pub divert_all-forwards :
      (ip : ℕ) (ps : List (Double × Bytes)) (s : Inline r c)
      → IsSafe r c ip s.engine
      → of_source ip (divert_all ps s).sent ≡ of_source ip (forward_all ps s.sent)
  divert_all-forwards ip ps s h = passes ip ps s s.sent h refl
