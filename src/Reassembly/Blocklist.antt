-- ===== src/Reassembly/Blocklist.antt =====
-- src/tcp_reassembly.cpp: the sources that inline mode drops, and the allowlist that protects
-- critical hosts. Each function runs under `blocklist_mutex_`, so calls happen one after another.
use wirewolf.Base.{
  ℕ, ◌≡◌, refl, sym, ap, ◌∙◌, Bool, true, false, not, ◌&&◌, ◌||◌, List, [], ◌∷◌, Bool-cases, inl,
  inr, ◌==◌, ==_iff, ==_refl, if◌then◌else◌, if-ind, arith,
}

-- `std::unordered_set<uint32_t>`.
unfoldable pub contains : List ℕ → ℕ → Bool
contains [] ip = false
contains (x ∷ xs) ip = x == ip || contains xs ip

unfoldable pub insert : ℕ → List ℕ → List ℕ
insert ip xs = if contains xs ip then xs else ip ∷ xs

unfoldable pub erase : ℕ → List ℕ → List ℕ
erase ip [] = []
erase ip (x ∷ xs) = if x == ip then erase ip xs else x ∷ erase ip xs

pub record Blocklist : Type 0 where
  pub blocked_ips : List ℕ
  pub allowlist_ips : List ℕ

unfoldable pub block_source : ℕ → Blocklist → Blocklist
block_source ip b =
    if contains b.allowlist_ips ip then b else record b { blocked_ips = insert ip b.blocked_ips }

unfoldable pub unblock_source : ℕ → Blocklist → Blocklist
unblock_source ip b = record b { blocked_ips = erase ip b.blocked_ips }

unfoldable pub is_blocked : Blocklist → ℕ → Bool
is_blocked b ip = contains b.blocked_ips ip

pub contains-insert :
    (ip jp : ℕ) (xs : List ℕ) → contains (insert ip xs) jp ≡ (ip == jp || contains xs jp)
unfolding contains insert
contains-insert ip jp xs = elim (Bool-cases (contains xs ip)) [
  | inl old ↦ elim (Bool-cases (ip == jp)) [
    | inl same ↦ rw (old, (==_iff ip jp).0 same) (rw ((==_iff ip jp).0 same) at old ∙ rw ==_refl)
    | inr other ↦ rw (old, other)
  ]
  | inr new ↦ rw new
]

contains-erase :
    (ip jp : ℕ) (xs : List ℕ) → contains (erase ip xs) jp ≡ (not (ip == jp) && contains xs jp)
unfolding contains erase
contains-erase ip jp [] = ground arith
contains-erase ip jp (x ∷ xs) = ground (arith, contains-erase ip jp xs)

-- Blocking adds the address, unless it is on the allowlist, and changes no other address.
pub is_blocked-block_source :
    (b : Blocklist) (ip jp : ℕ)
    → is_blocked (block_source ip b) jp
      ≡ (not (contains b.allowlist_ips ip) && ip == jp || is_blocked b jp)
unfolding is_blocked block_source
is_blocked-block_source b ip jp = elim (Bool-cases (contains b.allowlist_ips ip)) [
  | inl safe ↦ rw safe
  | inr open_ ↦ rw open_ (contains-insert ip jp b.blocked_ips)
]

-- Unblocking removes the address, and changes no other.
pub is_blocked-unblock_source :
    (b : Blocklist) (ip jp : ℕ)
    → is_blocked (unblock_source ip b) jp ≡ (not (ip == jp) && is_blocked b jp)
unfolding is_blocked unblock_source
is_blocked-unblock_source b ip jp = contains-erase ip jp b.blocked_ips

pub data Call : Type 0 where
  blocks unblocks : ℕ → Call

unfoldable pub run : List Call → Blocklist → Blocklist
run [] b = b
run (blocks ip ∷ cs) b = run cs (block_source ip b)
run (unblocks ip ∷ cs) b = run cs (unblock_source ip b)

abbrev pub Protects : Blocklist → Type 0
Protects b = (ip : ℕ) → contains b.allowlist_ips ip ≡ true → is_blocked b ip ≡ false

allowlist-block_source :
    (ip : ℕ) (b : Blocklist) → (block_source ip b).allowlist_ips ≡ b.allowlist_ips
unfolding block_source
allowlist-block_source ip b =
    if-ind (λ (b' : Blocklist). b'.allowlist_ips ≡ b.allowlist_ips) (contains b.allowlist_ips ip)
      (λ h. refl) (λ h. refl)

spared :
    (b : Blocklist) (ip jp : ℕ)
    → contains b.allowlist_ips jp ≡ true
    → is_blocked b jp ≡ false
    → (not (contains b.allowlist_ips ip) && ip == jp || is_blocked b jp) ≡ false
spared b ip jp listed out = elim (Bool-cases (ip == jp)) [
  | inl same ↦ rw ((==_iff ip jp).0 same, listed, out)
  | inr other ↦ ground (arith, other, out)
]

pub block_source-Protects : (ip : ℕ) (b : Blocklist) → Protects b → Protects (block_source ip b)
block_source-Protects ip b p jp h =
    let listed : contains b.allowlist_ips jp ≡ true =
      sym (ap (λ xs. contains xs jp) (allowlist-block_source ip b)) ∙ h in
    is_blocked-block_source b ip jp ∙ spared b ip jp listed (p jp listed)

unblock_source-Protects : (ip : ℕ) (b : Blocklist) → Protects b → Protects (unblock_source ip b)
unfolding unblock_source
unblock_source-Protects ip b p jp h = is_blocked-unblock_source b ip jp ∙ ground (arith, p jp h)

-- An address on the allowlist is never dropped, whatever sources are blocked and unblocked, if no
-- address on it was dropped before.
pub run-Protects : (cs : List Call) (b : Blocklist) → Protects b → Protects (run cs b)
unfolding run
run-Protects [] b p = p
run-Protects (blocks ip ∷ cs) b p =
    run-Protects cs (block_source ip b) (block_source-Protects ip b p)
run-Protects (unblocks ip ∷ cs) b p =
    run-Protects cs (unblock_source ip b) (unblock_source-Protects ip b p)
