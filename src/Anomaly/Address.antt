-- ===== src/Anomaly/Address.antt =====
-- src/tcp_reassembly.cpp: the kinds of addresses that its tests tell apart.
use wirewolf.Base.{ℕ, ◌+◌, ◌*◌, ◌/◌, Bool, ◌&&◌, ◌||◌, ◌==◌, not, none, some, Option, false}
use wirewolf.Base.Text.{codes, eq_bytes}
use wirewolf.Packet.{octet}
use wirewolf.ProxyDb.{Info}

-- The ranges of RFC 1918.
unfoldable pub is_private : ℕ → Bool
is_private ip =
    octet ip 0 == 10
    || (octet ip 0 == 172 && octet ip 1 / 16 == 1)
    || (octet ip 0 == 192 && octet ip 1 == 168)

unfoldable pub src_local : ℕ → Bool
src_local ip =
    octet ip 0 == 10
    || octet ip 0 == 127
    || (octet ip 0 == 172 && octet ip 1 / 16 == 1)
    || (octet ip 0 == 192 && octet ip 1 == 168)
    || (octet ip 0 == 169 && octet ip 1 == 254)

unfoldable pub is_priv : ℕ → Bool
is_priv ip =
    octet ip 0 == 10
    || octet ip 0 == 127
    || octet ip 0 == 0
    || (octet ip 0 == 172 && octet ip 1 / 16 == 1)
    || (octet ip 0 == 192 && octet ip 1 == 168)
    || (octet ip 0 == 169 && octet ip 1 == 254)

abbrev pub ntohl : ℕ → ℕ
ntohl ip = ((octet ip 0 * 256 + octet ip 1) * 256 + octet ip 2) * 256 + octet ip 3

-- A host that the proxy database lists with a threat other than `-`.
unfoldable pub is_flagged : Option Info → Bool
is_flagged none = false
is_flagged (some info) =
    not (eq_bytes info.threat (codes "")) && not (eq_bytes info.threat (codes "-"))
