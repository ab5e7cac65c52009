-- ===== src/Kv/OrderedMap.antt =====
-- The ordered map of the `rpds` package (`RedBlackTreeMapSync`), as the stores use it: its
-- operations, and what its documentation promises of them.
use Prim.Native.Nat.Ordering.{lt}
use refine_db.Prelude.{
  Bytes, bytes_cmp, bytes_eq, bytes_lt, if◌then◌else◌, Bool, not, ◌&&◌, Option, none, some, List,
  [], ◌∷◌, ◌≡◌,
}

abbrev pub in_range : Bytes → Bytes → Bytes → Bool
in_range start end k = not (bytes_lt k start) && bytes_lt k end

module _ {V : Type 0} where
  abbrev pub find : Bytes → List (Bytes × V) → Option V
  find k [] = none
  find k ((j, v) ∷ l) = if bytes_eq j k then some v else find k l

  -- The entries whose keys lie in [start, end).
  abbrev pub within : Bytes → Bytes → List (Bytes × V) → List (Bytes × V)
  within start end [] = []
  within start end ((k, v) ∷ l) =
      let rest = within start end l in if in_range start end k then (k, v) ∷ rest else rest

  abbrev pub IsBelow : Bytes → List (Bytes × V) → Type 0
  IsBelow k [] = Unit
  IsBelow k ((j, v) ∷ l) = (bytes_cmp k j ≡ lt) × IsBelow k l

  -- The keys ascend.
  abbrev pub IsAscending : List (Bytes × V) → Type 0
  IsAscending [] = Unit
  IsAscending ((k, v) ∷ l) = IsBelow k l × IsAscending l

pub record OrderedMap (V : Type 0) : Type 1 where
  pub Map : Type 0
  pub entries : Map → List (Bytes × V)
  pub empty : Map
  pub get : Bytes → Map → Option V
  pub insert : Bytes → V → Map → Map
  pub range : Bytes → Bytes → Map → List (Bytes × V)
  pub entries-IsAscending : (m : Map) → IsAscending (entries m)
  pub get_lem : (k : Bytes) (m : Map) → get k m ≡ find k (entries m)
  pub get-empty : (k : Bytes) → get k empty ≡ none
  pub get-insert :
      (k j : Bytes) (v : V) (m : Map)
      → get j (insert k v m) ≡ (if bytes_eq k j then some v else get j m)
  pub range_lem : (start end : Bytes) (m : Map) → range start end m ≡ within start end (entries m)
