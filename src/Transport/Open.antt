-- ===== src/Transport/Open.antt =====
-- What `open_transport` of retrobridge/transport.py opens for a port: the connections themselves are
-- made by pyserial and the operating system.
pub mod Address
use retro_bridge.Prelude.{
  ℕ, Bool, true, false, not, ◌&&◌, Option, none, some, List, [], ◌∷◌, ◌++◌, ◌==◌, if◌then◌else◌,
  Text, codes, text_eq, one_of, lower, text_or, str_strip, is_str_space, parse_int,
}
use retro_bridge.Model.{DevicePort}

-- The exceptions, in the order of the code.
pub data OpenError : Type 0 where
  unknown_transport no_address invalid_address invalid_port : OpenError

-- The arguments of `Serial`, without the timeout.
pub record SerialParams : Type 0 where
  pub port : Text
  pub baudrate : ℕ
  pub bytesize : ℕ
  pub parity : Text
  pub stopbits : ℕ
  pub rtscts : Bool
  pub xonxoff : Bool

-- A host, and a port as Python's `int` reads it.
abbrev pub HostPort : Type 0
HostPort = Text × (Bool × ℕ)

pub data Opening : Type 0 where
  serial : SerialParams → Opening
  tcp telnet rfc2217 : HostPort → Opening
  fails : OpenError → Opening

abbrev pub transport_of : DevicePort → Text
transport_of p = lower (text_or (some p.transport) (codes "serial"))

-- `transport_uses_baud`
unfoldable pub transport_uses_baud : DevicePort → Bool
transport_uses_baud p =
    one_of (transport_of p) (codes "serial" ∷ codes "pty" ∷ codes "rfc2217" ∷ [])

abbrev pub number_or : Option ℕ → ℕ → ℕ
number_or none d = d
number_or (some n) d = if n == 0 then d else n

-- `parity_map.get(port.parity or "N", "N")`
abbrev pub parity_of : Option Text → Text
parity_of parity =
    let p = text_or parity (codes "N") in
    if one_of p (codes "N" ∷ codes "E" ∷ codes "O" ∷ codes "M" ∷ codes "S" ∷ [])
    then p
    else codes "N"

abbrev pub is_flow : Option Text → Text → Bool
is_flow none name = false
is_flow (some f) name = text_eq f name

-- `_serial_params` and `_serial_params_light`, which differ in the timeout only
unfoldable pub serial_params : DevicePort → SerialParams
serial_params p = record {
  port = p.dev_path;
  baudrate = number_or p.baud 9600;
  bytesize = number_or p.data_bits 8;
  parity = parity_of p.parity;
  stopbits = number_or p.stop_bits 1;
  rtscts = is_flow p.flow_control (codes "rtscts");
  xonxoff = is_flow p.flow_control (codes "xonxoff");
}

abbrev pub after_first : ℕ → Option (Text × Text) → Text → Option (Text × Text)
after_first c (some (host, port)) s = some (c ∷ host, port)
after_first c none s = if c == b':' then some ([], s) else none

-- `addr.rsplit(":", 1)`, where there is a colon
abbrev pub rsplit_colon : Text → Option (Text × Text)
rsplit_colon [] = none
rsplit_colon (c ∷ s) = after_first c (rsplit_colon s) s

abbrev pub onto_word : ℕ → Bool → List Text → List Text
onto_word c true words = (c ∷ []) ∷ words
onto_word c false [] = (c ∷ []) ∷ []
onto_word c false (word ∷ words) = (c ∷ word) ∷ words

abbrev pub starts_space : Text → Bool
starts_space [] = true
starts_space (c ∷ _) = is_str_space c

-- `addr.split()`
abbrev pub words : Text → List Text
words [] = []
words (c ∷ s) = if is_str_space c then words s else onto_word c (starts_space s) (words s)

abbrev pub first_two : List Text → Option (Text × Text)
first_two [] = none
first_two (_ ∷ []) = none
first_two (a ∷ b ∷ _) = some (a, b)

pub data Parsed : Type 0 where
  parsed : HostPort → Parsed
  rejected : OpenError → Parsed

abbrev pub port_number : Text → Option (Bool × ℕ) → Parsed
port_number host none = rejected invalid_port
port_number host (some n) = parsed (str_strip host, n)

abbrev pub parse_parts : Option (Text × Text) → Parsed
parse_parts none = rejected invalid_address
parse_parts (some (host, port)) = port_number host (parse_int port)

abbrev pub with_colon : Text → Option (Text × Text) → Parsed
with_colon addr none = parse_parts (first_two (words addr))
with_colon addr (some parts) = parse_parts (some parts)

abbrev pub parse_address : Text → Parsed
parse_address [] = rejected no_address
parse_address (c ∷ s) = with_colon (c ∷ s) (rsplit_colon (c ∷ s))

-- `_parse_host_port`
unfoldable pub parse_host_port : Text → Parsed
parse_host_port address = parse_address (str_strip address)

abbrev pub at_address : (HostPort → Opening) → Parsed → Opening
at_address connect (parsed h) = connect h
at_address connect (rejected e) = fails e

unfoldable pub open_transport : DevicePort → Opening
open_transport p =
    let transport = transport_of p in
    let address = parse_host_port (str_strip p.dev_path) in
    if one_of transport (codes "serial" ∷ codes "pty" ∷ [])
    then serial (serial_params p)
    else if text_eq transport (codes "tcp")
    then at_address tcp address
    else if text_eq transport (codes "telnet")
    then at_address telnet address
    else if text_eq transport (codes "rfc2217")
    then at_address rfc2217 address
    else fails unknown_transport
