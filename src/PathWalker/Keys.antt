-- ===== src/PathWalker/Keys.antt =====
-- rdb-analyzer/src/data/pathwalker.rs: `generate_key` is the path of the keys that are stored.
use mathlib.Core.List.{reverse, reverse-cons}
use refine_db.Prelude.{
  ◌+◌, ◌<◌, leb, Bytes, if◌then◌else◌, String, List, [], ◌∷◌, ◌++◌, append_assoc, append-nil, ◌≡◌,
  refl, sym, ◌∙◌, Bool-cases, inl, inr, ok, Ensures, returns, fails, ◌⟫◌, Ensures-elim, Ensures-any,
  arith, some, none, Option-cases,
}
use refine_db.Storage
use refine_db.Storage.{StorageNode, storage_node, StorageKey, get_child, SetNode, no_set, set_of}
use refine_db.PathWalker.{
  Walker, root, linked, Frame, frame, node, pushed_from, push_key, concat, generate_key,
  check_and_add_depth, enter_reference, enter_child, enter_node, reject_set, enter_field,
  find_reference, max_depth, require_set, set_fast_scan_prefix, set_data_prefix,
}

abbrev pub own_part : Frame → Bytes
own_part f = if f.should_flatten then [] else f.key

-- What a walker gives to the keys below it: the keys on its path that are not flattened.
unfoldable pub key_prefix : Walker → Bytes
key_prefix (root f) = own_part f
key_prefix (linked f parent) = key_prefix parent ++ own_part f

abbrev pub parent_prefix : Walker → Bytes
parent_prefix (root f) = []
parent_prefix (linked f parent) = key_prefix parent

concat-append : (cs ds : List Bytes) → concat (cs ++ ds) ≡ concat cs ++ concat ds
unfolding concat
concat-append [] ds = refl
concat-append (c ∷ cs) ds = rw (concat-append cs ds) (sym (append_assoc c (concat cs) (concat ds)))

concat-single : (c : Bytes) → concat (c ∷ []) ≡ c
unfolding concat
concat-single c = append-nil c

concat-reverse_cons :
    (c : Bytes) (cs : List Bytes) → concat (reverse (c ∷ cs)) ≡ concat (reverse cs) ++ c
concat-reverse_cons c cs = simp (reverse-cons, concat-append, concat-single)

concat-push_key :
    (f : Frame) (cs : List Bytes)
    → concat (reverse (push_key f cs)) ≡ concat (reverse cs) ++ own_part f
concat-push_key f cs = elim (Bool-cases f.should_flatten) [
  | inl e ↦ rw e (sym (append-nil (concat (reverse cs))))
  | inr e ↦ rw e (concat-reverse_cons f.key cs)
]

concat-pushed_from : (w : Walker) → concat (reverse (pushed_from w)) ≡ key_prefix w
unfolding pushed_from key_prefix concat
concat-pushed_from (root f) = concat-push_key f []
concat-pushed_from (linked f parent) =
    concat-push_key f (pushed_from parent) ∙ rw (concat-pushed_from parent)

-- The key of a walker: the kept keys of its ancestors, from the export down, and its own.
pub generate_key_lem : (w : Walker) → generate_key w ≡ parent_prefix w ++ (frame w).key
unfolding generate_key concat
generate_key_lem (root f) = concat-reverse_cons f.key []
generate_key_lem (linked f parent) =
    concat-reverse_cons f.key (pushed_from parent) ∙ rw (concat-pushed_from parent)

-- A walker that was entered from `w`: it is linked to `w`, holds the key `k`, and is one deeper.
abbrev pub LinkedTo : Walker → Bytes → Walker → Type 0
LinkedTo w k (root f) = ⊥
LinkedTo w k (linked f parent) =
    (parent ≡ w) × (f.key ≡ k) × (f.depth ≡ (frame w).depth + 1) × ((frame w).depth < max_depth)

pub check_and_add_depth_lem :
    (w : Walker)
    → Ensures
        (λ d. (d ≡ (frame w).depth + 1) × ((frame w).depth < max_depth))
        (check_and_add_depth w)
unfolding check_and_add_depth
check_and_add_depth_lem w = elim (Bool-cases (leb max_depth (frame w).depth)) [
  | inl e ↦ rw e fails
  | inr e ↦ rw e (returns (omega arith, ground arith))
]

enter_child-LinkedTo :
    (w : Walker) (name : String) (c : StorageNode StorageKey)
    → Ensures (LinkedTo w (Storage.key c)) (enter_child w name c)
unfolding enter_child
enter_child-LinkedTo w name c = check_and_add_depth_lem w ⟫ λ d h. returns (refl, refl, h.0, h.1)

enter_reference-LinkedTo :
    (w : Walker) (name : String) (c : StorageNode StorageKey) (r : StorageKey)
    → Ensures (LinkedTo w (Storage.key c)) (enter_reference w name c r)
unfolding enter_reference
enter_reference-LinkedTo w name c r = elim (Option-cases (find_reference r w)) [
  | inl e ↦ rw e fails
  | inr (x, e) ↦ rw e (check_and_add_depth_lem w ⟫ λ d h. returns (refl, refl, h.0, h.1))
]

enter_node-LinkedTo :
    (w : Walker) (name : String) (c : StorageNode StorageKey)
    → Ensures (LinkedTo w (Storage.key c)) (enter_node w name c)
unfolding enter_node
enter_node-LinkedTo w name (storage_node k f none s c) =
    enter_child-LinkedTo w name (storage_node k f none s c)
enter_node-LinkedTo w name (storage_node k f (some r) s c) =
    enter_reference-LinkedTo w name (storage_node k f (some r) s c) r

pub enter_field-LinkedTo :
    (w : Walker) (name : String) {c : StorageNode StorageKey}
    → get_child name (Storage.children (node w)) ≡ some c
    → Ensures (LinkedTo w (Storage.key c)) (enter_field w name)
unfolding enter_field
enter_field-LinkedTo w name {c} e =
    Ensures-any (reject_set (Storage.set (node w))) ⟫ λ _ _. rw e (enter_node-LinkedTo w name c)

generate_key-LinkedTo :
    (w w' : Walker) (k : Bytes) → LinkedTo w k w' → generate_key w' ≡ key_prefix w ++ k
generate_key-LinkedTo w (root f) k h = absurd h
generate_key-LinkedTo w (linked f parent) k h = generate_key_lem (linked f parent) ∙ rw (h.0, h.1)

-- The key of a field, reached through a subspace reference or not, is the prefix of its table
-- followed by the key that the plan gives the field.
pub generate_key-enter_field :
    (w w' : Walker) (name : String) {c : StorageNode StorageKey}
    → get_child name (Storage.children (node w)) ≡ some c
    → enter_field w name ≡ ok w'
    → generate_key w' ≡ key_prefix w ++ Storage.key c
generate_key-enter_field w w' name {c} found entered =
    generate_key-LinkedTo w w' (Storage.key c)
      (Ensures-elim (enter_field-LinkedTo w name found) entered)

pub set_fast_scan_prefix_lem :
    (w : Walker) → Ensures (λ p. p ≡ generate_key w ++ 1 ∷ []) (set_fast_scan_prefix w)
unfolding set_fast_scan_prefix
set_fast_scan_prefix_lem w = Ensures-any (require_set w) ⟫ λ _ _. returns refl

pub set_data_prefix_lem :
    (w : Walker) → Ensures (λ p. p ≡ generate_key w ++ 0 ∷ []) (set_data_prefix w)
unfolding set_data_prefix
set_data_prefix_lem w = Ensures-any (require_set w) ⟫ λ _ _. returns refl
