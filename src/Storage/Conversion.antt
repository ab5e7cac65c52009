-- ===== src/Storage/Conversion.antt =====
-- rdb-analyzer/src/storage_plan/conversion.rs: plans with binary keys and with base64 keys.
-- `base64::encode` and `base64::decode` are parameters.
pub mod RoundTrip
mod Examples
use refine_db.Prelude.{
  Bytes, String, Bool, Option, none, some, Dict, length, ◌==◌, ◌≡◌, refl, [], ◌∷◌, ◌>>=◌, ok_or,
  guard, Result, ok, err, arith, ◌>>◌,
}
use refine_db.Storage.{
  StorageKey, StorageNode, storage_node, SetNode, no_set, set_of, Children, no_child, child,
  StoragePlan, HasStorageKeys, SetHasStorageKeys, ChildrenHaveStorageKeys, NodesHaveStorageKeys,
  PlanHasStorageKeys,
}

pub data StorageKeyConversionError : Type 0 where
  base64_decode : StorageKeyConversionError

abbrev Converted : Type 0 → Type 0
Converted = Result StorageKeyConversionError

-- What the code calls of the `base64` package, and that decoding undoes encoding.
pub record Base64 : Type 0 where
  pub encode : Bytes → String
  pub decode : String → Option Bytes
  pub decode-encode : (b : Bytes) → decode (encode b) ≡ some b

module _ (b64 : Base64) where
  open b64 use {encode, decode, decode-encode}

  encode_reference : Option StorageKey → Option String
  encode_reference none = none
  encode_reference (some r) = some (encode r)

  mutual
    pub from_node : StorageNode StorageKey → StorageNode String
    from_node (storage_node k f r s c) =
        storage_node (encode k) f (encode_reference r) (from_set s) (from_children c)

    pub from_set : SetNode StorageKey → SetNode String
    from_set no_set = no_set
    from_set (set_of x) = set_of (from_node x)

    pub from_children : Children StorageKey → Children String
    from_children no_child = no_child
    from_children (child n x cs) = child n (from_node x) (from_children cs)

  from_nodes : Dict (StorageNode StorageKey) → Dict (StorageNode String)
  from_nodes [] = []
  from_nodes ((n, x) ∷ d) = (n, from_node x) ∷ from_nodes d

  pub from_plan : StoragePlan StorageKey → StoragePlan String
  from_plan p = record { nodes = from_nodes p.nodes }

  -- `x.try_into()` of the decoded vector to `[u8; 12]`
  try_into : Bytes → Converted StorageKey
  try_into x = do guard (length x == 12) base64_decode; ok x

  try_key : String → Converted StorageKey
  try_key s = do x ← ok_or base64_decode (decode s); try_into x

  try_reference : Option String → Converted (Option StorageKey)
  try_reference none = ok none
  try_reference (some s) = do x ← try_key s; ok (some x)

  mutual
    pub try_from_node : StorageNode String → Converted (StorageNode StorageKey)
    try_from_node (storage_node k f r s c) = do
      k' ← try_key k
      r' ← try_reference r
      s' ← try_from_set s
      c' ← try_from_children c
      ok (storage_node k' f r' s' c')

    pub try_from_set : SetNode String → Converted (SetNode StorageKey)
    try_from_set no_set = ok no_set
    try_from_set (set_of x) = do x' ← try_from_node x; ok (set_of x')

    pub try_from_children : Children String → Converted (Children StorageKey)
    try_from_children no_child = ok no_child
    try_from_children (child n x cs) = do
      x' ← try_from_node x
      cs' ← try_from_children cs
      ok (child n x' cs')

  try_from_nodes : Dict (StorageNode String) → Converted (Dict (StorageNode StorageKey))
  try_from_nodes [] = ok []
  try_from_nodes ((n, x) ∷ d) = do x' ← try_from_node x; d' ← try_from_nodes d; ok ((n, x') ∷ d')

  pub try_from_plan : StoragePlan String → Converted (StoragePlan StorageKey)
  try_from_plan p = do nodes ← try_from_nodes p.nodes; ok (record { nodes = nodes })
