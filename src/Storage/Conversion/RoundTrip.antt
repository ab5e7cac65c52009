-- ===== src/Storage/Conversion/RoundTrip.antt =====
-- rdb-analyzer/src/storage_plan/conversion.rs: decoding undoes encoding, and what it accepts.
use refine_db.Prelude.{
  Bytes, String, Option, none, some, Dict, length, ◌==◌, ==_iff, ◌≡◌, refl, [], ◌∷◌, ok, Ensures,
  returns, fails, ◌⟫◌, Ensures-elim, Bool-cases, Option-cases, inl, inr,
}
use refine_db.Storage.{
  StorageKey, StorageNode, storage_node, SetNode, no_set, set_of, Children, no_child, child,
  StoragePlan, IsStorageKey, HasStorageKeys, SetHasStorageKeys, ChildrenHaveStorageKeys,
  NodesHaveStorageKeys, PlanHasStorageKeys, ReferenceIsStorageKey,
}
use refine_db.Storage.Conversion.{
  Base64, encode_reference, from_node, from_set, from_children, from_nodes, from_plan, try_into,
  try_key, try_reference, try_from_node, try_from_set, try_from_children, try_from_nodes,
  try_from_plan,
}

module _ (b64 : Base64) where
  open b64 use {encode, decode, decode-encode}

  try_key-encode : (k : StorageKey) → IsStorageKey k → try_key b64 (encode k) ≡ ok k
  unfolding try_key try_into
  try_key-encode k h = rw (decode-encode k, (==_iff (length k) 12).1 h)

  try_reference-encode :
      (r : Option StorageKey)
      → ReferenceIsStorageKey r
      → try_reference b64 (encode_reference b64 r) ≡ ok r
  unfolding try_reference encode_reference
  try_reference-encode none h = refl
  try_reference-encode (some r) h = rw (try_key-encode r h)

  mutual
    unfolding from_node try_from_node

    try_from-from_node :
        (x : StorageNode StorageKey) → HasStorageKeys x → try_from_node b64 (from_node b64 x) ≡ ok x
    try_from-from_node (storage_node k f r s c) h = simp (
      try_key-encode k h.0,
      try_reference-encode r h.1,
      try_from-from_set s h.2,
      try_from-from_children c h.3,
    )

    try_from-from_set :
        (s : SetNode StorageKey) → SetHasStorageKeys s → try_from_set b64 (from_set b64 s) ≡ ok s
    try_from-from_set no_set h = refl
    try_from-from_set (set_of x) h = rw (try_from-from_node x h)

    try_from-from_children :
        (c : Children StorageKey)
        → ChildrenHaveStorageKeys c
        → try_from_children b64 (from_children b64 c) ≡ ok c
    try_from-from_children no_child h = refl
    try_from-from_children (child n x cs) h =
        simp (try_from-from_node x h.0, try_from-from_children cs h.1)

  try_from-from_nodes :
      (d : Dict (StorageNode StorageKey))
      → NodesHaveStorageKeys d
      → try_from_nodes b64 (from_nodes b64 d) ≡ ok d
  unfolding try_from_nodes from_nodes
  try_from-from_nodes [] h = refl
  try_from-from_nodes ((n, x) ∷ d) h = simp (try_from-from_node x h.0, try_from-from_nodes d h.1)

  -- A plan whose keys have twelve bytes is read back unchanged from its base64 form.
  pub try_from-from_plan :
      (p : StoragePlan StorageKey)
      → PlanHasStorageKeys p
      → try_from_plan b64 (from_plan b64 p) ≡ ok p
  unfolding try_from_plan from_plan
  try_from-from_plan p h = rw (try_from-from_nodes p.nodes h)

  try_into-IsStorageKey : (x : Bytes) → Ensures IsStorageKey (try_into b64 x)
  unfolding try_into
  try_into-IsStorageKey x = elim (Bool-cases (length x == 12)) [
    | inl e ↦ rw e (returns ((==_iff (length x) 12).0 e))
    | inr e ↦ rw e fails
  ]

  try_key-IsStorageKey : (s : String) → Ensures IsStorageKey (try_key b64 s)
  unfolding try_key
  try_key-IsStorageKey s = elim (Option-cases (decode s)) [
    | inl e ↦ rw e fails
    | inr (x, e) ↦ rw e (try_into-IsStorageKey x)
  ]

  try_reference-IsStorageKey :
      (r : Option String) → Ensures ReferenceIsStorageKey (try_reference b64 r)
  unfolding try_reference
  try_reference-IsStorageKey none = returns tt
  try_reference-IsStorageKey (some s) = try_key-IsStorageKey s ⟫ λ r' h. returns {a = some r'} h

  mutual
    unfolding try_from_node

    try_from_node-HasStorageKeys :
        (x : StorageNode String) → Ensures HasStorageKeys (try_from_node b64 x)
    try_from_node-HasStorageKeys (storage_node k f r s c) = try_key-IsStorageKey k ⟫ λ k' hk.
        try_reference-IsStorageKey r ⟫ λ r' hr. try_from_set-HasStorageKeys s ⟫ λ s' hs.
        try_from_children-HasStorageKeys c ⟫ λ c' hc.
        returns {a = storage_node k' f r' s' c'} (hk, hr, hs, hc)

    try_from_set-HasStorageKeys :
        (s : SetNode String) → Ensures SetHasStorageKeys (try_from_set b64 s)
    try_from_set-HasStorageKeys no_set = returns tt
    try_from_set-HasStorageKeys (set_of x) = try_from_node-HasStorageKeys x ⟫ λ _ h. returns h

    try_from_children-HasStorageKeys :
        (c : Children String) → Ensures ChildrenHaveStorageKeys (try_from_children b64 c)
    try_from_children-HasStorageKeys no_child = returns tt
    try_from_children-HasStorageKeys (child n x cs) = try_from_node-HasStorageKeys x ⟫ λ x' h.
        try_from_children-HasStorageKeys cs ⟫ λ cs' hs. returns {a = child n x' cs'} (h, hs)

  try_from_nodes-HasStorageKeys :
      (d : Dict (StorageNode String)) → Ensures NodesHaveStorageKeys (try_from_nodes b64 d)
  unfolding try_from_nodes
  try_from_nodes-HasStorageKeys [] = returns tt
  try_from_nodes-HasStorageKeys ((n, x) ∷ d) = try_from_node-HasStorageKeys x ⟫ λ x' h.
      try_from_nodes-HasStorageKeys d ⟫ λ d' hs. returns {a = (n, x') ∷ d'} (h, hs)

  -- Every key and every reference of a plan that is accepted from its base64 form has twelve
  -- bytes.
  pub try_from_plan-PlanHasStorageKeys :
      (q : StoragePlan String) (p : StoragePlan StorageKey)
      → try_from_plan b64 q ≡ ok p
      → PlanHasStorageKeys p
  unfolding try_from_plan
  try_from_plan-PlanHasStorageKeys q p =
      Ensures-elim {P = PlanHasStorageKeys}
        (try_from_nodes-HasStorageKeys q.nodes ⟫ λ _ h. returns h)
