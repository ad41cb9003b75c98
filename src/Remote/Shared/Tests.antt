-- ===== src/Remote/Shared/Tests.antt =====
-- `transport_key` of app/src/remote/config.rs at configurations with two ssh options.
use limux.Prelude.{◌≡◌, ◌↔◌, refl, arith, none, some, List, [], ◌∷◌, Text, text, join}
use limux.Remote.Config.{RemoteConfiguration}
use limux.Remote.Transport.{transport_key, key_parts, sort, insert_option, text_le}
use limux.Remote.Shared.{SameTransport, transport_key-SameTransport}

abbrev with_options : List Text → RemoteConfiguration
with_options options = record {
  destination = text "me@build";
  port = some 2222;
  identity_file = none;
  ssh_options = options;
  terminal_startup_command = none;
  relay_port = none;
  relay_id = none;
  relay_token = none;
  local_socket_path = none;
}

abbrev quiet_first : RemoteConfiguration
quiet_first = with_options (text "LogLevel=QUIET" ∷ text "Compression=yes" ∷ [])

abbrev quiet_last : RemoteConfiguration
quiet_last = with_options (text "Compression=yes" ∷ text "LogLevel=QUIET" ∷ [])

key_of_options : transport_key quiet_first ≡ transport_key quiet_last
unfolding transport_key key_parts sort insert_option text_le
key_of_options = refl

-- A bar in an option makes one option look like two.
one_key_for_two :
    transport_key (with_options (text "Compression=yes|opt=LogLevel=QUIET" ∷ []))
    ≡ transport_key quiet_first
unfolding transport_key key_parts sort insert_option text_le join
one_key_for_two = refl

transport_key-SameTransport_example :
    (transport_key quiet_first ≡ transport_key quiet_last) ↔ SameTransport quiet_first quiet_last
transport_key-SameTransport_example =
    transport_key-SameTransport quiet_first quiet_last
      (record { destination = refl; identity = λ id e. ground arith; options = (refl, (refl, tt)) })
      (record { destination = refl; identity = λ id e. ground arith; options = (refl, (refl, tt)) })
