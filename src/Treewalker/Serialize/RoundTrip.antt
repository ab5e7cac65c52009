-- ===== src/Treewalker/Serialize/RoundTrip.antt =====
-- rdb-analyzer/src/data/treewalker/serialize.rs: decoding against the type of what was encoded.
use refine_db.Prelude.{
  String, str_eq, str_lt, str_eq_iff, true, false, none, some, ok, ◌>>=◌, Bool-cases, inl, inr,
  Ensures, returns, ◌⟫◌, Ensures-any, Ensures-elim, ◌≡◌, refl, sym, ap, ◌∙◌,
}
use refine_db.Value.{PrimitiveType, PrimitiveValue, IsInt64, get_type}
use refine_db.Value
use refine_db.Treewalker.Types.{VmType, MapFields, no_field, field}
use refine_db.Treewalker.Types
use refine_db.Treewalker.Values.{
  VmValue, VmValues, no_value, value, VmItems, no_item, item, primitive, map, list, null, bool,
}
use refine_db.Treewalker.Access.{value_insert}
use refine_db.Treewalker.Serialize.{
  SerializedVmValue, SerializedFields, entry, SerializedItems, element, tagged_m, tagged_l,
  VmValueEncodeConfig, Serialized, Texts, entry_get, encode_primitive, encode, encode_fields,
  encode_items, decode_primitive, decode, decode_fields, decode_items,
}
use refine_db.Treewalker.Serialize

-- An integer has 64 bits, and a float is sent as one.
abbrev pub IsSent : VmValueEncodeConfig → PrimitiveValue → Type 0
IsSent config (Value.int64 x) = IsInt64 x
IsSent config (Value.double x) = config.enable_double ≡ true
IsSent config _ = Unit

-- The names of the map are above the name.
abbrev pub IsBelow : String → VmValues → Type 0
IsBelow k no_value = Unit
IsBelow k (value j v vs) = (str_eq j k ≡ false) × (str_lt k j ≡ true) × IsBelow k vs

module _ (config : VmValueEncodeConfig) where
  unfoldable mutual
    -- A value of a type whose values can be encoded, or null. A map has the fields of its type, in
    -- ascending order.
    pub Fits : VmType → VmValue → Type 0
    Fits t (null u) = u ≡ t
    Fits (Types.primitive p) (primitive x) = (get_type x ≡ p) × IsSent config x
    Fits Types.bool (bool b) = Unit
    Fits (Types.list t) (list u vs) = (u ≡ t) × ItemsFit t vs
    Fits (Types.map fs) (map vs) = FieldsFit fs vs
    Fits _ _ = ⊥

    pub FieldsFit : MapFields → VmValues → Type 0
    FieldsFit no_field no_value = Unit
    FieldsFit (field j t fs) (value k v vs) = (j ≡ k) × Fits t v × IsBelow k vs × FieldsFit fs vs
    FieldsFit _ _ = ⊥

    pub ItemsFit : VmType → VmItems → Type 0
    ItemsFit t no_item = Unit
    ItemsFit t (item v vs) = Fits t v × ItemsFit t vs

bind_ok :
    {A B : Type 0} {r : Serialized A} {a : A} {t : Serialized B} (f : A → Serialized B)
    → r ≡ ok a
    → f a ≡ t
    → r >>= f ≡ t
bind_ok f e p = ap (λ r. r >>= f) e ∙ p

module _ (texts : Texts) (config : VmValueEncodeConfig) where
  decode_primitive-encode_primitive :
      (x : PrimitiveValue)
      → IsSent config x
      → decode_primitive texts (encode_primitive texts config x) (get_type x) ≡ ok x
  unfolding decode_primitive encode_primitive get_type
  decode_primitive-encode_primitive (Value.string x) h = refl
  decode_primitive-encode_primitive (Value.bytes x) h = elim (Bool-cases config.enable_bytes) [
    | inl e ↦ rw e refl
    | inr e ↦ rw e (rw (texts.base64_decode-encode x) refl)
  ]
  decode_primitive-encode_primitive (Value.int64 x) h = elim (Bool-cases config.enable_int64) [
    | inl e ↦ rw e refl
    | inr e ↦ rw e (rw (texts.parse_i64-int_text x h) refl)
  ]
  decode_primitive-encode_primitive (Value.double x) h = rw h refl

  decode-primitive :
      (s : SerializedVmValue) (p : PrimitiveType) (x : PrimitiveValue)
      → decode_primitive texts s p ≡ ok x
      → decode texts s (Types.primitive p) ≡ ok (primitive x)
  unfolding decode decode_primitive
  decode-primitive (Serialize.string _) p x h = bind_ok (λ x. ok (primitive x)) h refl
  decode-primitive (Serialize.bool _) p x h = bind_ok (λ x. ok (primitive x)) h refl
  decode-primitive (Serialize.bytes _) p x h = bind_ok (λ x. ok (primitive x)) h refl
  decode-primitive (Serialize.int64 _) p x h = bind_ok (λ x. ok (primitive x)) h refl
  decode-primitive (Serialize.double _) p x h = bind_ok (λ x. ok (primitive x)) h refl
  decode-primitive Serialize.null p x h = cc
  decode-primitive (tagged_m _) p x h = bind_ok (λ x. ok (primitive x)) h refl
  decode-primitive (tagged_l _) p x h = bind_ok (λ x. ok (primitive x)) h refl

  decode_sent :
      (x : PrimitiveValue)
      → IsSent config x
      → decode texts (encode_primitive texts config x) (Types.primitive (get_type x))
        ≡ ok (primitive x)
  decode_sent x h =
      decode-primitive (encode_primitive texts config x) (get_type x) x
        (decode_primitive-encode_primitive x h)

  -- A name below those of a map is no name of its encoding.
  entry_get-IsBelow :
      (k : String) (vs : VmValues)
      → IsBelow k vs
      → Ensures (λ y. entry_get k y ≡ none) (encode_fields texts config vs)
  unfolding encode_fields entry_get
  entry_get-IsBelow k no_value below = returns {a = Serialize.no_entry} refl
  entry_get-IsBelow k (value j v vs) below = Ensures-any (encode texts config v) ⟫ λ s _.
      entry_get-IsBelow k vs below.2 ⟫ λ y absent.
      returns {a = entry j s y} (rw (below.0, entry_get) absent)

  value_insert-IsBelow :
      (k : String) (v : VmValue) (vs : VmValues) → IsBelow k vs → value_insert k v vs ≡ value k v vs
  unfolding value_insert
  value_insert-IsBelow k v no_value below = refl
  value_insert-IsBelow k v (value j u vs) below = rw (below.0, below.1) refl

  decode_fields-found :
      (j : String) (t : VmType) (fs : MapFields) (x : SerializedFields) (s : SerializedVmValue)
      (v : VmValue) (vs : VmValues)
      → entry_get j x ≡ some s
      → decode texts s t ≡ ok v
      → decode_fields texts x fs ≡ ok vs
      → decode_fields texts x (field j t fs) ≡ ok (value_insert j v vs)
  unfolding decode
  decode_fields-found j t fs x s v vs found d g =
      rw (found, decode) (bind_ok _ d (bind_ok _ g refl))

  entry_get-again :
      (k j : String) (s r : SerializedVmValue) (y : SerializedFields)
      → entry_get k y ≡ none
      → entry_get j y ≡ some r
      → entry_get j (entry k s y) ≡ some r
  unfolding entry_get
  entry_get-again k j s r y absent found = elim (Bool-cases (str_eq k j)) [
    | inl same ↦ absurd (none_some (rw (← (str_eq_iff k j).0 same, absent) at found))
    | inr other ↦ rw (other, entry_get) found
  ]
    where
      none_some : {A : Type 0} {a : A} → none ≡ some a → ⊥
      none_some e = cc

  entry_get-first :
      (k : String) (s : SerializedVmValue) (y : SerializedFields)
      → entry_get k (entry k s y) ≡ some s
  unfolding entry_get
  entry_get-first k s y = rw ((str_eq_iff k k).1 refl, entry_get) refl

  mutual
    unfolding Fits encode encode_fields encode_items decode decode_fields decode_items

    decoded :
        (t : VmType) (v : VmValue)
        → Fits config t v
        → (s : SerializedVmValue) × (encode texts config v ≡ ok s) × (decode texts s t ≡ ok v)
    decoded t (null u) h = (Serialize.null, refl, ap (λ t. ok (null t)) (sym h))
    decoded (Types.primitive p) (primitive x) h = (
      encode_primitive texts config x,
      refl,
      ap (λ p. decode texts (encode_primitive texts config x) (Types.primitive p)) (sym h.0)
          ∙ decode_sent x h.1,
    )
    decoded Types.bool (bool b) h = (_, refl, refl)
    decoded (Types.list t) (list u vs) h =
        let (x, e, d) = decoded_items t vs h.1 in
        (
          tagged_l x,
          ap (λ r. r >>= λ y. ok (tagged_l y)) e,
          ap (λ r. r >>= λ vs. ok (list t vs)) d ∙ ap (λ u. ok (list u vs)) (sym h.0),
        )
    decoded (Types.map fs) (map vs) h =
        let (y, e, d) = decoded_fields fs vs h in
        (
          tagged_m y,
          ap (λ r. r >>= λ y. ok (tagged_m y)) e,
          ap (λ r. r >>= λ vs. ok (map vs)) (d y (λ k s e. e)),
        )
    decoded _ _ h = absurd h

    decoded_fields :
        (fs : MapFields) (vs : VmValues)
        → FieldsFit config fs vs
        → (y : SerializedFields) × (encode_fields texts config vs ≡ ok y)
          × ((x : SerializedFields)
              → ((k : String) (s : SerializedVmValue)
                  → entry_get k y ≡ some s
                  → entry_get k x ≡ some s)
              → decode_fields texts x fs ≡ ok vs)
    decoded_fields no_field no_value h = (Serialize.no_entry, refl, λ x same. refl)
    decoded_fields (field j t fs) (value k v vs) h =
        let (s, e, d) = decoded t v h.1 in
        let (y, f, g) = decoded_fields fs vs h.3 in
        let absent = Ensures-elim (entry_get-IsBelow k vs h.2) f in
        (
          entry k s y,
          bind_ok _ e (bind_ok _ f refl),
          λ x same.
              decode_fields-found j t fs x s v vs (rw h.0 (same k s (entry_get-first k s y))) d
                (g x (λ i r there. same i r (entry_get-again k i s r y absent there)))
              ∙ ap ok (ap (λ j. value_insert j v vs) h.0 ∙ value_insert-IsBelow k v vs h.2),
        )
    decoded_fields _ _ h = absurd h

    decoded_items :
        (t : VmType) (vs : VmItems)
        → ItemsFit config t vs
        → (x : SerializedItems) × (encode_items texts config vs ≡ ok x)
          × (decode_items (λ s. decode texts s t) x ≡ ok vs)
    decoded_items t no_item h = (Serialize.no_element, refl, refl)
    decoded_items t (item v vs) h =
        let (s, e, d) = decoded t v h.0 in
        let (x, f, g) = decoded_items t vs h.1 in
        (element s x, bind_ok _ e (bind_ok _ f refl), bind_ok _ d (bind_ok _ g refl))

  -- A value that fits a type is encoded, and decoded against that type to itself, whatever the
  -- configuration, where its integers have 64 bits and, if it holds a float, floats are sent as such.
  pub decode-encode :
      (t : VmType) (v : VmValue)
      → Fits config t v
      → (s : SerializedVmValue) × (encode texts config v ≡ ok s) × (decode texts s t ≡ ok v)
  decode-encode t v h = decoded t v h
