-- ===== src/PathWalker/Sets.antt =====
-- rdb-analyzer/src/data/pathwalker.rs: where the keys of a set's elements lie.
use refine_db.Prelude.{
  Bytes, String, [], ◌++◌, append_assoc, append-nil, ◌≡◌, sym, ◌∙◌, ok, Ensures-elim,
}
use refine_db.PathWalker.{
  Walker, root, linked, Frame, generate_key, enter_field, enter_set_raw, dynamic_key,
}
use refine_db.PathWalker.Keys.{key_prefix, own_part, generate_key_lem, LinkedTo}
use refine_db.PathWalker.Depth.{enter_field-linked, ElementOf, enter_set_raw-ElementOf}

-- What is reached from a walker by fields and elements.
pub data Below (e : Walker) : Walker → Type 0 where
  here : Below e e
  field : {v w : Walker} (name : String) → Below e v → enter_field v name ≡ ok w → Below e w
  element : {v w : Walker} (pk : Bytes) → Below e v → enter_set_raw v pk ≡ ok w → Below e w

-- The walker's own key and those of all that is below it begin with `base`.
abbrev pub IsUnder : Bytes → Walker → Type 0
IsUnder base w =
    ((r : Bytes) × (key_prefix w ≡ base ++ r)) × ((r : Bytes) × (generate_key w ≡ base ++ r))

IsUnder-linked :
    (base : Bytes) (f : Frame) (v : Walker)
    → ((r : Bytes) × (key_prefix v ≡ base ++ r))
    → IsUnder base (linked f v)
unfolding key_prefix
IsUnder-linked base f v (r, e) = (
  (r ++ own_part f, rw e (append_assoc base r (own_part f))),
  (r ++ f.key, generate_key_lem (linked f v) ∙ rw e (append_assoc base r f.key)),
)

pub LinkedTo-IsUnder :
    (base : Bytes) (v w : Walker) (k : Bytes) → IsUnder base v → LinkedTo v k w → IsUnder base w
LinkedTo-IsUnder base v (root f) k h l = absurd l
LinkedTo-IsUnder base v (linked f parent) k h l = IsUnder-linked base f parent (rw l.0 h.0)

pub ElementOf-IsUnder :
    (base : Bytes) (v w : Walker) (pk : Bytes) → IsUnder base v → ElementOf v pk w → IsUnder base w
ElementOf-IsUnder base v (root f) pk h l = absurd l
ElementOf-IsUnder base v (linked f (root g)) pk h l = absurd l
ElementOf-IsUnder base v (linked f (linked g parent)) pk h l =
    IsUnder-linked base f (linked g parent) (IsUnder-linked base g parent (rw l.0 h.0)).0

-- Where an element stands: its set's prefix, then the dynamic key.
abbrev pub element_prefix : Walker → Bytes → Bytes
element_prefix w pk = key_prefix w ++ dynamic_key pk

ElementOf-starts : (w e : Walker) (pk : Bytes) → ElementOf w pk e → IsUnder (element_prefix w pk) e
unfolding key_prefix
ElementOf-starts w (root f) pk l = absurd l
ElementOf-starts w (linked f (root g)) pk l = absurd l
ElementOf-starts w (linked f (linked g parent)) pk l =
    IsUnder-linked (element_prefix w pk) f (linked g parent)
      ([], rw (l.0, l.1, l.2) (sym (append-nil (element_prefix w pk))))

Below-IsUnder : (base : Bytes) (e v : Walker) → IsUnder base e → Below e v → IsUnder base v
Below-IsUnder base e v h here = h
Below-IsUnder base e v h (field {v = t} name b step) =
    let (k, l) = Ensures-elim (enter_field-linked t name) step in
    LinkedTo-IsUnder base t v k (Below-IsUnder base e t h b) l
Below-IsUnder base e v h (element {v = t} k b step) =
    ElementOf-IsUnder base t v k (Below-IsUnder base e t h b)
      (Ensures-elim (enter_set_raw-ElementOf t k) step)

-- All that is below an element of a set, the element included, has a key that begins with the
-- prefix of the set and the element's dynamic key.
pub Below-element :
    (w e v : Walker) (pk : Bytes)
    → enter_set_raw w pk ≡ ok e
    → Below e v
    → (r : Bytes) × (generate_key v ≡ element_prefix w pk ++ r)
Below-element w e v pk entered below =
    let start = ElementOf-starts w e pk (Ensures-elim (enter_set_raw-ElementOf w pk) entered) in
    (Below-IsUnder (element_prefix w pk) e v start below).1
