-- ===== src/Exec/SetKeys.antt =====
-- rdb-analyzer/src/data/treewalker/exec.rs: the keys that a stored set uses.
use Prim.Native.Nat.Ordering.{eq, gt}
use refine_db.Prelude.{
  ℕ, Bytes, bytes_cmp, bytes_cmp_prefix, bytes_eq, true, false, [], ◌∷◌, ◌++◌, append_assoc, ◌≡◌,
  ◌≢◌, refl, sym, ◌∙◌, ap, ok, arith,
}
use refine_db.Value.{PrimitiveValue, get_type, IsRepresentable, serialize_for_key_component}
use refine_db.Value.Order.{value_cmp, eq_of_value_cmp, bytes_cmp-serialize_for_key_component}
use refine_db.Value.Delimit.{IsPlain, delimited}
use refine_db.PathWalker.{Walker, root, linked, Frame, frame, generate_key, enter_set}
use refine_db.PathWalker.Keys.{key_prefix, own_part, generate_key_lem}
use refine_db.PathWalker.Sets.{Below, Below-element}
use refine_db.Kv.OrderedMap.{in_range}
use refine_db.Exec.{set_last}

own_part_kept : (f : Frame) → f.should_flatten ≡ false → own_part f ≡ f.key
own_part_kept f h = ground arith

-- The prefix of a walker that is not flattened is its key.
pub key_prefix_kept :
    (w : Walker) → (frame w).should_flatten ≡ false → key_prefix w ≡ generate_key w
unfolding key_prefix
key_prefix_kept (root f) h = own_part_kept f h ∙ sym (generate_key_lem (root f))
key_prefix_kept (linked f parent) h =
    ap (λ k. key_prefix parent ++ k) (own_part_kept f h) ∙ sym (generate_key_lem (linked f parent))

pub set_last-append : (x y : ℕ) (k : Bytes) → set_last x (k ++ y ∷ []) ≡ k ++ x ∷ []
set_last-append x y [] = refl
set_last-append x y (b ∷ []) = refl
set_last-append x y (b ∷ (c ∷ k)) = ap (◌∷◌ b) (set_last-append x y (c ∷ k))

-- A common prefix of the bounds and the key plays no part.
pub in_range_prefix :
    (p start end k : Bytes) → in_range (p ++ start) (p ++ end) (p ++ k) ≡ in_range start end k
in_range_prefix p start end k = ground (arith, bytes_cmp_prefix p k start, bytes_cmp_prefix p k end)

low_byte_in_range : (r : Bytes) → in_range (0 ∷ []) (1 ∷ []) (0 ∷ r) ≡ true
unfolding bytes_cmp
low_byte_in_range [] = refl
low_byte_in_range (x ∷ r) = refl

-- Everything that begins with a key followed by 00 lies in its range.
pub in_own_range : (p r : Bytes) → in_range (p ++ 0 ∷ []) (p ++ 1 ∷ []) (p ++ 0 ∷ r) ≡ true
in_own_range p r = in_range_prefix p (0 ∷ []) (1 ∷ []) (0 ∷ r) ∙ low_byte_in_range r

-- Nothing that begins with the key of another plain value lies there.
pub in_other_range :
    (v w : PrimitiveValue) (r : Bytes)
    → IsRepresentable v
    → IsRepresentable w
    → IsPlain v
    → IsPlain w
    → get_type v ≡ get_type w
    → v ≢ w
    → in_range
        (serialize_for_key_component w ++ 0 ∷ [])
        (serialize_for_key_component w ++ 1 ∷ [])
        (serialize_for_key_component v ++ 0 ∷ r)
      ≡ false
in_other_range v w r hv hw pv pw same differ = ground (
  arith,
  delimited v w r 0 hv hw pv pw same (omega arith),
  delimited v w r 1 hv hw pv pw same (omega arith),
  λ (e : value_cmp v w ≡ eq). differ (eq_of_value_cmp v w e),
)

-- Where the data of a member of a set begins: the set's key, 00, and the member's encoded key.
abbrev pub data_key : Walker → PrimitiveValue → Bytes
data_key w v = (generate_key w ++ 0 ∷ []) ++ serialize_for_key_component v

abbrev pub key_of_member : Walker → PrimitiveValue → Bytes
key_of_member w v = (generate_key w ++ 1 ∷ []) ++ serialize_for_key_component v

-- A key at or below an element of a set that is not flattened.
pub element_key :
    (w e u : Walker) (v : PrimitiveValue)
    → (frame w).should_flatten ≡ false
    → enter_set w v ≡ ok e
    → Below e u
    → (r : Bytes) × (generate_key u ≡ data_key w v ++ 0 ∷ r)
unfolding enter_set
element_key w e u v kept entered below =
    let (r, key) = Below-element w e u (serialize_for_key_component v) entered below in
    (r, key ∙ rw (key_prefix_kept w kept) (simp append_assoc))

index_above : (g p q s : Bytes) → bytes_cmp ((g ++ 1 ∷ []) ++ p) (((g ++ 0 ∷ []) ++ q) ++ s) ≡ gt
unfolding bytes_cmp
index_above g p q s = simp (append_assoc, bytes_cmp_prefix)

-- The index of keys lies above the data: neither holds keys of the other.
pub member_not_data :
    (w : Walker) (v x : PrimitiveValue) (r : Bytes)
    → bytes_eq (key_of_member w v) (data_key w x ++ 0 ∷ r) ≡ false
member_not_data w v x r = ground (
  arith,
  index_above (generate_key w) (serialize_for_key_component v) (serialize_for_key_component x)
      (0 ∷ r),
)

pub member_not_in_range :
    (w : Walker) (v x : PrimitiveValue)
    → in_range (data_key w v ++ 0 ∷ []) (data_key w v ++ 1 ∷ []) (key_of_member w x) ≡ false
member_not_in_range w v x = ground (
  arith,
  index_above (generate_key w) (serialize_for_key_component x) (serialize_for_key_component v)
      (1 ∷ []),
)

pub other_data_not_in_range :
    (w : Walker) (v x : PrimitiveValue) (r : Bytes)
    → IsRepresentable x
    → IsRepresentable v
    → IsPlain x
    → IsPlain v
    → get_type x ≡ get_type v
    → x ≢ v
    → in_range (data_key w v ++ 0 ∷ []) (data_key w v ++ 1 ∷ []) (data_key w x ++ 0 ∷ r) ≡ false
other_data_not_in_range w v x r hx hv px pv same differ =
    let d = generate_key w ++ 0 ∷ [] in
    let ev = serialize_for_key_component v in
    let ex = serialize_for_key_component x in
    rw (append_assoc d ev (0 ∷ []), append_assoc d ev (1 ∷ []), append_assoc d ex (0 ∷ r))
      (in_range_prefix d (ev ++ 0 ∷ []) (ev ++ 1 ∷ []) (ex ++ 0 ∷ r)
        ∙ in_other_range x v r hx hv px pv same differ)

pub members_differ :
    (w : Walker) (v x : PrimitiveValue)
    → IsRepresentable v
    → IsRepresentable x
    → x ≢ v
    → bytes_eq (key_of_member w v) (key_of_member w x) ≡ false
members_differ w v x hv hx differ = ground (
  arith,
  bytes_cmp_prefix (generate_key w ++ 1 ∷ []) (serialize_for_key_component v)
      (serialize_for_key_component x),
  bytes_cmp-serialize_for_key_component v x hv hx,
  λ (e : value_cmp v x ≡ eq). differ (sym (eq_of_value_cmp v x e)),
)
