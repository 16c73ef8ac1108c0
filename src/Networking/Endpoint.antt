-- ===== src/Networking/Endpoint.antt =====
-- `Endpoint`, `HostEndpoint` and `isValidHostName` of Networking/src/IpAddress.cpp.
use vpn_client.Prelude.{
  ℕ, ◌+◌, Bool, true, false, not, ◌&&◌, ◌||◌, leb, ltb, ◌==◌, if◌then◌else◌, is_empty, none, some,
  [], ◌∷◌, ◌++◌, length, Bytes, codes,
}
use vpn_client.Core.Status.{ErrorCode, Result, value, error, make, ◌>>=◌}
use vpn_client.Core.Types.{Transport, transport_to_string}
use vpn_client.Core.Text.{trim, find_byte, rfind_byte, to_decimal}
use vpn_client.Networking.Address.{IpAddress, is_v6, same_address, try_parse}
use vpn_client.Networking.Address
use vpn_client.Networking.Range.{from_chars}

pub record Endpoint : Type 0 where
  pub address : IpAddress
  pub port : ℕ

abbrev invalid {ℓ} : {A : Type ℓ} → Bytes → Result A
invalid message = error (make ErrorCode.invalid_argument message)

-- The text behind `[`: the address up to `]`, and the port behind the `:` that follows.
bracketed : Bytes → Bytes → Result (Bytes × Bytes)
bracketed text rest = elim (find_byte b']' rest) [
  | some (address_text, ◌∷◌ c port_text) ↦
      if c == b':'
      then value (address_text, port_text)
      else invalid (codes "malformed bracketed endpoint: " ++ text)
  | _ ↦ invalid (codes "malformed bracketed endpoint: " ++ text)
]

plain : Bytes → Bytes → Result (Bytes × Bytes)
plain text trimmed = elim (rfind_byte b':' trimmed) [
  | some (address_text, port_text) ↦ value (address_text, port_text)
  | none ↦ invalid (codes "endpoint is missing a port: " ++ text)
]

-- The address text and the port text; `trimmed` is the second argument.
abbrev parts : Bytes → Bytes → Result (Bytes × Bytes)
parts text [] = invalid (codes "empty endpoint")
parts text (c ∷ rest) = if c == b'[' then bracketed text rest else plain text (c ∷ rest)

-- `Endpoint::parse`.
unfoldable pub parse : Bytes → Result Endpoint
unfolding bracketed plain
parse text = do
  (address_text, port_text) ← parts text (trim text)
  address ← Address.parse address_text
  elim (from_chars port_text) [
    | none ↦ invalid (codes "invalid port in " ++ text)
    | some port ↦
        if port == 0 || ltb 65535 port
        then invalid (codes "invalid port in " ++ text)
        else value (record { address = address; port = port })
  ]

unfoldable pub to_string : Endpoint → Bytes
to_string e =
    if is_v6 e.address
    then b'[' ∷ (Address.to_string e.address ++ (codes "]:" ++ to_decimal e.port))
    else Address.to_string e.address ++ (b':' ∷ to_decimal e.port)

-- `operator==`.
unfoldable pub same_endpoint : Endpoint → Endpoint → Bool
same_endpoint a b = a.port == b.port && same_address a.address b.address

pub record HostEndpoint : Type 0 where
  pub host : Bytes
  pub port : ℕ
  pub transport : Transport

unfoldable pub is_literal_address : HostEndpoint → Bool
is_literal_address h = elim (try_parse h.host) [ none ↦ false | some parsed ↦ true ]

unfoldable pub host_to_string : HostEndpoint → Bytes
host_to_string h =
    let v6 : Bool = elim (try_parse h.host) [ none ↦ false | some parsed ↦ is_v6 parsed ] in
    let out = if v6 then b'[' ∷ (h.host ++ b']' ∷ []) else h.host in
    out ++ (b':' ∷ (to_decimal h.port ++ (b'/' ∷ transport_to_string h.transport)))

-- `alnum` of `isValidHostName`.
unfoldable pub is_alnum : ℕ → Bool
is_alnum c = (leb b'a' c && leb c b'z') || (leb b'A' c && leb c b'Z') || (leb b'0' c && leb c b'9')

-- The loop over the bytes; `previous` is `host[i - 1]`, and the last byte is tested behind it.
label_loop : ℕ → ℕ → Bytes → Bool
unfolding is_alnum
label_loop previous label_length [] = ltb 0 label_length && not (previous == b'-')
label_loop previous label_length (c ∷ host) = elim (c == b'.') [
  | true ↦
      if label_length == 0 then false else if previous == b'-' then false else label_loop c 0 host
  | false ↦
      if not (is_alnum c) && not (c == b'-') && not (c == b'_')
      then false
      else if label_length == 0 && c == b'-'
      then false
      else if ltb 63 (label_length + 1)
      then false
      else label_loop c (label_length + 1) host
]

abbrev last_byte : Bytes → ℕ
last_byte [] = 0
last_byte (c ∷ []) = c
last_byte (c ∷ d ∷ text) = last_byte (d ∷ text)

abbrev first_byte : Bytes → ℕ
first_byte [] = 0
first_byte (c ∷ text) = c

unfoldable pub is_valid_host_name : Bytes → Bool
unfolding label_loop
is_valid_host_name host =
    if is_empty host || ltb 253 (length host)
    then false
    else if first_byte host == b'.' || last_byte host == b'.'
    then false
    else label_loop 0 0 host
