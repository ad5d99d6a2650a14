-- ===== src/CryptKeys.antt =====
-- clientlib/cryptframe.c: the tables of keys, of the identities they belong to, and of the keys for
-- destinations. Key ids and identities are strings that the code only compares, numbers here; the
-- functions are called with strings that are not NULL.
pub mod Agreeing
use assimilation_official.Common.{
  ℕ, Bool, true, false, not, ◌&&◌, ◌||◌, Option, none, some, List, [], ◌∷◌, ◌==◌, if◌then◌else◌,
}
use assimilation_official.NetAddr.{NetAddr, equal}

-- `CryptFramePublicKey` and `CryptFramePrivateKey`
pub record CryptKey : Type 0 where
  pub key_id : ℕ
  pub key : ℕ

-- The tables, by key id, by identity and by address, and `default_signing_key`.
pub record KeyMaps : Type 0 where
  pub public_key_map : ℕ → Option CryptKey
  pub private_key_map : ℕ → Option CryptKey
  pub identity_map_by_key_id : ℕ → Option ℕ
  pub key_id_map_by_identity : ℕ → Option (List ℕ)
  pub addr_to_public_key_map : List (NetAddr × CryptKey)
  pub default_signing_key : Option CryptKey

-- `_cryptframe_initialize_maps`
abbrev pub initialize_maps : KeyMaps
initialize_maps = record {
  public_key_map = λ key_id. none;
  private_key_map = λ key_id. none;
  identity_map_by_key_id = λ key_id. none;
  key_id_map_by_identity = λ identity. none;
  addr_to_public_key_map = [];
  default_signing_key = none;
}

-- `g_hash_table_insert` and `g_hash_table_remove` at a key.
abbrev pub update {ℓ} : {A : Type ℓ} → (ℕ → Option A) → ℕ → Option A → ℕ → Option A
update table at value key = if key == at then value else table key

-- A set of key ids.
unfoldable pub has : ℕ → List ℕ → Bool
has key_id [] = false
has key_id (x ∷ rest) = x == key_id || has key_id rest

unfoldable pub without : ℕ → List ℕ → List ℕ
without key_id [] = []
without key_id (x ∷ rest) = let more = without key_id rest in if x == key_id then more else x ∷ more

abbrev pub or_empty : Option (List ℕ) → List ℕ
or_empty none = []
or_empty (some key_ids) = key_ids

-- `cryptframe_publickey_new` and `cryptframe_privatekey_new`: the key, an old one where there is one.
unfoldable pub publickey_new : KeyMaps → ℕ → ℕ → CryptKey × KeyMaps
publickey_new self key_id public_key = elim (self.public_key_map key_id) [
  | some old ↦ (old, self)
  | none ↦
      let fresh : CryptKey = record { key_id = key_id; key = public_key } in
      (fresh, record self { public_key_map = update self.public_key_map key_id (some fresh) })
]

unfoldable pub privatekey_new : KeyMaps → ℕ → ℕ → CryptKey × KeyMaps
privatekey_new self key_id private_key = elim (self.private_key_map key_id) [
  | some old ↦ (old, self)
  | none ↦
      let fresh : CryptKey = record { key_id = key_id; key = private_key } in
      (fresh, record self { private_key_map = update self.private_key_map key_id (some fresh) })
]

-- `cryptframe_whois_key_id` and `cryptframe_key_ids_for`
abbrev pub whois_key_id : KeyMaps → ℕ → Option ℕ
whois_key_id self key_id = self.identity_map_by_key_id key_id

abbrev pub key_ids_for : KeyMaps → ℕ → List ℕ
key_ids_for self identity = or_empty (self.key_id_map_by_identity identity)

-- The part of `cryptframe_associate_identity` that adds to both maps.
unfoldable pub associate_new : KeyMaps → ℕ → ℕ → KeyMaps
associate_new self identity key_id =
    let key_ids : List ℕ = key_ids_for self identity in
    record self {
      identity_map_by_key_id = update self.identity_map_by_key_id key_id (some identity);
      key_id_map_by_identity =
          update self.key_id_map_by_identity identity
            (some (if has key_id key_ids then key_ids else key_id ∷ key_ids));
    }

-- `cryptframe_associate_identity`
unfoldable pub associate_identity : KeyMaps → ℕ → ℕ → Bool × KeyMaps
associate_identity self identity key_id = elim (self.public_key_map key_id) [
  | none ↦ (false, self)
  | some public_key ↦ elim (whois_key_id self key_id) [
    | some found_identity ↦ (found_identity == identity, self)
    | none ↦ (true, associate_new self identity key_id)
  ]
]

-- What `cryptframe_dissociate_identity` leaves of a set of key ids: no empty set.
unfoldable pub remaining : ℕ → List ℕ → Option (List ℕ)
remaining key_id key_ids = elim (without key_id key_ids) [ [] ↦ none | x ∷ rest ↦ some (x ∷ rest) ]

-- The part of it that takes the key id out of both maps.
unfoldable pub dissociate_found : KeyMaps → ℕ → ℕ → KeyMaps
dissociate_found self identity key_id = record self {
  identity_map_by_key_id = update self.identity_map_by_key_id key_id none;
  key_id_map_by_identity = elim (self.key_id_map_by_identity identity) [
    | none ↦ self.key_id_map_by_identity
    | some key_ids ↦ update self.key_id_map_by_identity identity (remaining key_id key_ids)
  ];
}

-- `cryptframe_dissociate_identity`
unfoldable pub dissociate_identity : KeyMaps → ℕ → ℕ → Bool × KeyMaps
dissociate_identity self identity key_id = elim (whois_key_id self key_id) [
  | none ↦ (false, self)
  | some found_identity ↦ (true, dissociate_found self identity key_id)
]

-- `cryptframe_purge_key_id`
unfoldable pub purge_key_id : KeyMaps → ℕ → KeyMaps
purge_key_id self key_id =
    let after : KeyMaps = elim (whois_key_id self key_id) [
      | none ↦ self
      | some whoarewe ↦ (dissociate_identity self whoarewe key_id).1
    ] in
    record after {
      public_key_map = update after.public_key_map key_id none;
      private_key_map = update after.private_key_map key_id none;
    }

-- `cryptframe_set_signing_key_id`
unfoldable pub set_signing_key_id : KeyMaps → ℕ → KeyMaps
set_signing_key_id self key_id = elim (self.private_key_map key_id) [
  | none ↦ self
  | some secret_key ↦ record self { default_signing_key = some secret_key }
]

-- `cryptframe_get_dest_key_id`
unfoldable pub find_dest : NetAddr → List (NetAddr × CryptKey) → Option ℕ
find_dest destaddr [] = none
find_dest destaddr (entry ∷ rest) =
    let more = find_dest destaddr rest in
    if equal entry.0 destaddr then some entry.1.key_id else more

unfoldable pub remove_dest : NetAddr → List (NetAddr × CryptKey) → List (NetAddr × CryptKey)
remove_dest destaddr [] = []
remove_dest destaddr (entry ∷ rest) =
    let more = remove_dest destaddr rest in if equal entry.0 destaddr then more else entry ∷ more

-- `cryptframe_set_dest_public_key`: `none` is a null key.
unfoldable pub set_dest_public_key : KeyMaps → NetAddr → Option CryptKey → KeyMaps
set_dest_public_key self destaddr destkey =
    let others = remove_dest destaddr self.addr_to_public_key_map in
    record self {
      addr_to_public_key_map = elim destkey [ none ↦ others | some key ↦ (destaddr, key) ∷ others ];
    }

-- `cryptframe_set_dest_key_id`
unfoldable pub set_dest_key_id : KeyMaps → NetAddr → ℕ → Bool × KeyMaps
set_dest_key_id self destaddr key_id = elim (self.public_key_map key_id) [
  | none ↦ (false, self)
  | some destkey ↦ (true, set_dest_public_key self destaddr (some destkey))
]
