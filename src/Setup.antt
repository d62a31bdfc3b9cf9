-- ===== src/Setup.antt =====
-- The environment of the node: its addresses (app/common.py), its key (app/key_store.py), and whether
-- it reports to Sentry (app/logging_conf.py). What the network, the files of keys, the decryption and
-- the check sums of web3 answer are parameters.
pub mod Requests
pub mod KeyStore
use validation_node.Prelude.{
  Bool, true, false, not, ◌&&◌, Option, none, some, List, [], ◌∷◌, ◌++◌, if◌then◌else◌,
}
use validation_node.Prelude.Eq.{◌==◌, list_eq, option_eq, nat_eq}
use validation_node.Prelude.Texts.{codes}
use validation_node.Database.Schema.{Text, Error, Result, ok, raise, other_error, ◌>>=◌}

-- `os.getenv`
abbrev pub Environment : Type 0
Environment = Text → Option Text

-- `'%s' % x` of what `os.getenv` returns
abbrev pub shown : Option Text → Text
shown none = codes "None"
shown (some t) = t

module _ (getenv : Environment) where
  unfoldable pub node_ip : Option Text
  node_ip = getenv (codes "NODE_IP")

  unfoldable pub node_port : Option Text
  node_port = getenv (codes "HTTP_PORT")

  unfoldable pub protocol : Text
  protocol =
      if getenv (codes "USE_HTTPS") == some (codes "true")
      then codes "https://"
      else codes "http://"

  unfoldable pub node_ip_port : Text
  unfolding node_ip node_port protocol
  node_ip_port = protocol ++ shown node_ip ++ codes ":" ++ shown node_port

  unfoldable pub node_websocket_port : Option Text
  node_websocket_port = getenv (codes "WEBSOCKET_PORT")

  unfoldable pub explorer_ip : Option Text
  explorer_ip = getenv (codes "EXPLORER_IP")

  unfoldable pub explorer_port : Option Text
  explorer_port = getenv (codes "EXPLORER_PORT")

  unfoldable pub explorer_ip_port : Text
  unfolding explorer_ip explorer_port
  explorer_ip_port = shown explorer_ip ++ codes ":" ++ shown explorer_port

  -- `checksum` is `Web3.toChecksumAddress`, which raises on what is no address.
  unfoldable pub contract_registry_address : (Option Text → Result Text) → Result Text
  contract_registry_address checksum = checksum (getenv (codes "CONTRACT_REGISTRY_ADDRESS"))

-- `requests.get` of the address, which can raise, and then `resp.json().get("ip")`, which can raise
-- outside the `try`.
unfoldable pub get_node_ip : Result (Result (Option Text)) → Result (Option Text)
get_node_ip (raise e) = ok none
get_node_ip (ok answer) = answer

module _ (getenv : Environment) (response : Result (Result (Option Text))) where
  unfoldable pub find_websocket_ip : Option Text → Result (Option Text)
  unfolding get_node_ip
  find_websocket_ip none = get_node_ip response
  find_websocket_ip (some websocket_ip) = ok (some websocket_ip)

  abbrev pub require_ip : Option Text → Result Text
  require_ip none = raise other_error
  require_ip (some websocket_ip) = ok websocket_ip

  unfoldable pub node_websocket_ip : Result Text
  unfolding find_websocket_ip
  node_websocket_ip = find_websocket_ip (getenv (codes "WEBSOCKET_IP")) >>= require_ip

  unfoldable pub node_websocket_ip_port : Result Text
  unfolding node_websocket_ip node_websocket_port
  node_websocket_ip_port = node_websocket_ip >>= λ websocket_ip.
      ok (codes "ws://" ++ websocket_ip ++ codes ":" ++ shown (node_websocket_port getenv))

-- What `key_store.py` calls: the file of the key, the password that is typed in, the decryption, the
-- address of a key, and the check sum of an address.
pub record Keys : Type 0 where
  pub read_key_file : Text → Result Text
  pub password : Result Text
  pub decrypt : Text → Text → Result Text
  pub address_of : Text → Result Text
  pub checksum : Text → Result Text

pub record NodeKeyStore : Type 0 where
  pub address : Text
  pub private_key : Option Text

module _ (k : Keys) (getenv : Environment) where
  -- The address and the key of the file, if one is named, or those of the environment.
  unfoldable pub read_address_and_key : Option Text → Result (Option Text × Option Text)
  read_address_and_key none = ok (getenv (codes "NODE_ADDRESS"), getenv (codes "NODE_PRIVATE_KEY"))
  read_address_and_key (some key_filename) = k.read_key_file key_filename >>= λ encrypted_key.
      k.password >>= λ password. k.decrypt encrypted_key password >>= λ private_key.
      k.address_of private_key >>= λ node_address. ok (some node_address, some private_key)

  abbrev pub require_address : Option Text × Option Text → Result NodeKeyStore
  require_address (none, private_key) = raise other_error
  require_address (some node_address, private_key) = k.checksum node_address >>= λ address.
      ok (record { address = address; private_key = private_key })

  -- `NodeKeyStore._node_address_and_key`
  unfoldable pub node_address_and_key : Result NodeKeyStore
  unfolding read_address_and_key
  node_address_and_key = read_address_and_key (getenv (codes "KEY_FILENAME")) >>= require_address

-- What `sentry_sdk.init` is called with.
pub record Sentry : Type 0 where
  pub dsn : Text
  pub environment : Option Text
  pub node_id : Text

module _ (getenv : Environment) (node_id : Text) where
  abbrev pub sentry_unless : Bool → Option Text → Option Sentry
  sentry_unless true sentry_dns = none
  sentry_unless false none = none
  sentry_unless false (some dsn) =
      some (record { dsn = dsn; environment = getenv (codes "FLASK_ENV"); node_id = node_id })

  -- The first half of `init_logging`.
  unfoldable pub sentry : Option Sentry
  sentry =
      sentry_unless (getenv (codes "FLASK_ENV") == some (codes "dev")) (getenv (codes "SENTRY_DSN"))
