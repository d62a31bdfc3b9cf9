-- ===== src/Setup/KeyStore.antt =====
-- Which address and which key the node starts with (app/key_store.py).
use validation_node.Prelude.{Option, none, some, ◌≡◌, refl, arith}
use validation_node.Prelude.Texts.{codes}
use validation_node.Database.Schema.{Text, Result, ok, raise, ◌>>=◌}
use validation_node.Setup.{
  Environment, Keys, NodeKeyStore, read_address_and_key, require_address, node_address_and_key,
}

-- What an identity comes from: the file that is named, or else the environment. With a file, the address is
-- that of the key in it, whatever the environment says.
abbrev pub Origin : Keys → Environment → Option Text → NodeKeyStore → Type 0
Origin k getenv none s =
    (node_address : Text) × (getenv (codes "NODE_ADDRESS") ≡ some node_address)
    × (k.checksum node_address ≡ ok s.address)
    × (s.private_key ≡ getenv (codes "NODE_PRIVATE_KEY"))
Origin k getenv (some key_filename) s =
    (encrypted_key : Text) × (password : Text) × (private_key : Text) × (node_address : Text)
    × (k.read_key_file key_filename ≡ ok encrypted_key)
    × (k.password ≡ ok password)
    × (k.decrypt encrypted_key password ≡ ok private_key)
    × (k.address_of private_key ≡ ok node_address)
    × (k.checksum node_address ≡ ok s.address)
    × (s.private_key ≡ some private_key)

-- A result that is there comes from both parts.
bind-ok :
    {A B : Type 0} (r : Result A) (f : A → Result B) (b : B)
    → (r >>= f) ≡ ok b
    → (a : A) × (r ≡ ok a) × (f a ≡ ok b)
bind-ok (ok a) f b h = (a, refl, h)
bind-ok (raise e) f b h = absurd (ground (arith, h))

module _ (k : Keys) (getenv : Environment) where
  checksum-ok :
      (found : Option Text × Option Text) (s : NodeKeyStore)
      → require_address k getenv found ≡ ok s
      → (node_address : Text) × (found.0 ≡ some node_address)
        × (k.checksum node_address ≡ ok s.address)
        × (s.private_key ≡ found.1)
  checksum-ok (none, private_key) s h = absurd (ground (arith, h))
  checksum-ok (some node_address, private_key) s h =
      let (address, summed, made) = bind-ok (k.checksum node_address) _ s h in
      (node_address, refl, ground arith, ground arith)

  origin :
      (named : Option Text) (s : NodeKeyStore)
      → (read_address_and_key k getenv named >>= require_address k getenv) ≡ ok s
      → Origin k getenv named s
  unfolding read_address_and_key
  origin none s h =
      checksum-ok (getenv (codes "NODE_ADDRESS"), getenv (codes "NODE_PRIVATE_KEY")) s h
  origin (some key_filename) s h =
      let (found, read, required) =
        bind-ok (read_address_and_key k getenv (some key_filename)) _ s h in
      let (encrypted_key, file, h1) = bind-ok (k.read_key_file key_filename) _ found read in
      let (password, typed, h2) = bind-ok k.password _ found h1 in
      let (private_key, decrypted, h3) = bind-ok (k.decrypt encrypted_key password) _ found h2 in
      let (node_address, addressed, h4) = bind-ok (k.address_of private_key) _ found h3 in
      let (checked, same, summed, stored) = checksum-ok found s required in
      (
        encrypted_key,
        password,
        private_key,
        node_address,
        file,
        typed,
        decrypted,
        addressed,
        ground arith,
        ground arith,
      )

  -- A node that starts has the checksummed address of the key in the file that `KEY_FILENAME` names, and
  -- that key; if none is named, it has the checksummed `NODE_ADDRESS`, and the `NODE_PRIVATE_KEY` as it is.
  pub node_address_and_key-Origin :
      (s : NodeKeyStore)
      → node_address_and_key k getenv ≡ ok s
      → Origin k getenv (getenv (codes "KEY_FILENAME")) s
  unfolding node_address_and_key
  node_address_and_key-Origin s h = origin (getenv (codes "KEY_FILENAME")) s h
