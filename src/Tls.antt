-- ===== src/Tls.antt =====
-- include/tls_inspector.hpp: the TLS ClientHello of a payload. A read is `none` where the source
-- would index past the payload.
pub mod Md5
pub mod Extensions
pub mod Safety
use Prim.Native.Nat.{bit_and}
use wirewolf.Base.{
  ℕ, zero, suc, ◌+◌, ◌-◌, ◌*◌, ◌/◌, ◌%◌, Bool, true, false, not, ◌&&◌, ◌||◌, List, [], ◌∷◌, ◌++◌,
  Option, none, some, length, get_elem?, leb, ltb, ◌==◌, if◌then◌else◌, min,
}
use wirewolf.Base.Bytes.{◌>>=◌, be16_at}
use wirewolf.Base.Text.{Bytes, codes, decimal}
use Extensions.{Found, u16_list, extension_loop}
use Md5.{hash}

pub record TlsInfo : Type 0 where
  pub is_client_hello : Bool
  pub sni : Bytes
  pub ja3 : Bytes
  pub ja3_hash : Bytes

pub data Hello : Type 0 where
  not_hello : Hello
  hello : TlsInfo → Hello

-- The numbers in decimal with `-` between them.
unfoldable pub join : List ℕ → Bytes
join [] = []
join (v ∷ []) = decimal v
join (v ∷ w ∷ vs) = decimal v ++ (b'-' ∷ join (w ∷ vs))

unfoldable pub ja3_text : ℕ → List ℕ → Found → Bytes
unfolding join
ja3_text client_version ciphers f =
    decimal client_version
    ++ (b','
        ∷ (join ciphers
            ++ (b',' ∷ (join f.extensions ++ (b',' ∷ (join f.curves ++ (b',' ∷ join f.formats)))))))

unfoldable pub with_extensions : ℕ → List ℕ → Found → TlsInfo
with_extensions client_version ciphers f = record {
  is_client_hello = true;
  sni = f.sni;
  ja3 = ja3_text client_version ciphers f;
  ja3_hash = hash (ja3_text client_version ciphers f);
}

abbrev no_extensions : TlsInfo
no_extensions = record { is_client_hello = true; sni = []; ja3 = []; ja3_hash = [] }

-- From the compression methods on, at `pos`.
unfoldable pub parse_tail : Bytes → ℕ → ℕ → List ℕ → Option Hello
parse_tail p pos client_version ciphers = if leb (length p) pos then some not_hello else (do
  comp_len ← get_elem? p pos
  let after = pos + 1 + comp_len
  if ltb (length p) (after + 2) then some (hello no_extensions) else (do
    ext_total ← be16_at p after
    f ←
        extension_loop (suc (length p)) p (after + 2) (min (after + 2 + ext_total) (length p))
          (record { sni = []; extensions = []; curves = []; formats = [] })
    some (hello (with_extensions client_version ciphers f))))

-- From the length of the cipher suites on, at `pos`.
unfoldable pub parse_ciphers : Bytes → ℕ → ℕ → Option Hello
parse_ciphers p pos client_version = if ltb (length p) (pos + 2) then some not_hello else (do
  cs_len ← be16_at p pos
  if ltb (length p) (pos + 2 + cs_len) then some not_hello else (do
    ciphers ← u16_list p (pos + 2) (cs_len / 2)
    parse_tail p (pos + 2 + cs_len) client_version ciphers))

-- Behind the record and handshake headers, at `pos` = 9.
unfoldable pub parse_version : Bytes → ℕ → Option Hello
parse_version p pos = if ltb (length p) (pos + 2) then some not_hello else (do
  client_version ← be16_at p pos
  if leb (length p) (pos + 34) then some not_hello else (do
    sid_len ← get_elem? p (pos + 34)
    parse_ciphers p (pos + 35 + sid_len) client_version))

unfoldable pub parse_tls_client_hello : Bytes → Option Hello
parse_tls_client_hello p = if ltb (length p) 6 then some not_hello else (do
  content_type ← get_elem? p 0
  if not (content_type == 0x16) || ltb (length p) 9 then some not_hello else (do
    handshake_type ← get_elem? p 5
    if handshake_type == 1 then parse_version p 9 else some not_hello))
