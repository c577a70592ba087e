-- ===== src/Filter/Smb.antt =====
-- src/npu_filter.cpp, `detect_smb_exploit`. What the source only logs (large writes) is left out.
use wirewolf.Base.{
  ℕ, Bool, true, false, not, ◌&&◌, ◌||◌, ◌∷◌, [], length, take, drop, ltb, leb, ◌==◌, if◌then◌else◌,
}
use wirewolf.Base.Text.{Bytes, codes, starts_with}
use wirewolf.Base.Words.{bswap16}
use wirewolf.Packet.{ConnectionId, FlowData}

-- `IPC` in ASCII, or in UTF-16LE where six bytes are left.
unfoldable pub is_ipc : Bytes → Bool
is_ipc w =
    leb 4 (length w) && starts_with w (codes "IPC")
    || leb 6 (length w) && starts_with w (b'I' ∷ 0 ∷ b'P' ∷ 0 ∷ b'C' ∷ 0 ∷ [])

unfoldable pub find_ipc : Bytes → Bool
find_ipc [] = false
find_ipc (c ∷ cs) = is_ipc (c ∷ cs) || find_ipc cs

pub record SmbScan : Type 0 where
  pub has_smb_header : Bool
  pub has_tree_connect_ipc : Bool
  pub has_trans_command : Bool

abbrev pub nothing_seen : SmbScan
nothing_seen = record {
  has_smb_header = false;
  has_tree_connect_ipc = false;
  has_trans_command = false;
}

-- The bytes from the magic on, whose command byte is `cmd`.
unfoldable pub note_command : ℕ → Bytes → SmbScan → SmbScan
note_command cmd from s = record {
  has_smb_header = true;
  has_tree_connect_ipc = s.has_tree_connect_ipc || cmd == 0x75 && find_ipc (drop 4 (take 200 from));
  has_trans_command = s.has_trans_command || (cmd == 0x25 || cmd == 0x32 || cmd == 0xA0);
}

-- The body of the loop at one offset.
unfoldable pub scan_smb_at : Bytes → SmbScan → SmbScan
scan_smb_at (b0 ∷ b1 ∷ b2 ∷ b3 ∷ cmd ∷ rest) s =
    if b0 == 0xFF && b1 == b'S' && b2 == b'M' && b3 == b'B'
    then note_command cmd (b0 ∷ b1 ∷ b2 ∷ b3 ∷ cmd ∷ rest) s
    else s
scan_smb_at _ s = s

-- The loop runs while more than eight bytes are left.
unfoldable pub scan_smb : Bytes → SmbScan → SmbScan
scan_smb [] s = s
scan_smb (c ∷ cs) s = scan_smb cs (if ltb 8 (length (c ∷ cs)) then scan_smb_at (c ∷ cs) s else s)

unfoldable pub on_smb_port : ConnectionId → Bool
on_smb_port id = bswap16 id.src_port == 445 || bswap16 id.dst_port == 445

unfoldable pub detect_smb_exploit : {Double : Type 0} → FlowData Double → Bool
detect_smb_exploit f =
    let p = f.reassembled_payload in
    let s = scan_smb p nothing_seen in
    if ltb (length p) 100
    then false
    else if not (on_smb_port f.id)
    then false
    else s.has_smb_header && (s.has_tree_connect_ipc && s.has_trans_command && ltb 10000 (length p))
