-- ===== src/Storage/Conversion/Examples.antt =====
-- The conversions at a concrete text encoding of keys: each byte in unary, then a stop mark.
use Prim.Native.Char.{code}
use refine_db.Prelude.{
  ℕ, zero, suc, ◌+◌, ◌==◌, if◌then◌else◌, Bytes, String, Option, none, some, [], ◌∷◌, ◌≡◌, refl, ok,
  false, true, arith, ◌∙◌, ap,
}
use mathlib.Core.Option
use refine_db.Storage.{
  StorageKey, storage_node, no_set, set_of, no_child, child, StoragePlan, PlanHasStorageKeys,
}
use refine_db.Storage.Conversion.{Base64, from_plan, try_from_plan}
use refine_db.Storage.Conversion.RoundTrip.{try_from-from_plan, try_from_plan-PlanHasStorageKeys}

unary : ℕ → String → String
unary zero s = String.◌∷◌ "." s
unary (suc n) s = String.◌∷◌ "1" (unary n s)

encode : Bytes → String
unfolding unary
encode [] = String.[]
encode (b ∷ l) = unary b (encode l)

decode_from : ℕ → String → Option Bytes
decode_from n String.[] = some []
decode_from n (String.◌∷◌ c s) =
    let more = decode_from (suc n) s in
    let rest = decode_from 0 s in if code c == b'1' then more else Option.map (λ l. n ∷ l) rest

cons_map :
    (a b : ℕ) (o : Option Bytes) → a ≡ b → Option.map (λ l. a ∷ l) o ≡ Option.map (λ l. b ∷ l) o
cons_map a b o e = ap (λ (c : ℕ). Option.map (λ l. c ∷ l) o) e

decode_from-unary :
    (n k : ℕ) (s : String)
    → decode_from n (unary k s) ≡ Option.map (λ l. (n + k) ∷ l) (decode_from 0 s)
unfolding decode_from unary
decode_from-unary n zero s = cons_map n (n + 0) (decode_from 0 s) (omega arith)
decode_from-unary n (suc k) s =
    decode_from-unary (suc n) k s ∙ cons_map (suc n + k) (n + suc k) (decode_from 0 s) (omega arith)

decode-encode : (l : Bytes) → decode_from 0 (encode l) ≡ some l
unfolding encode decode_from
decode-encode [] = refl
decode-encode (b ∷ l) =
    decode_from-unary 0 b (encode l)
    ∙ rw (decode-encode l) (ap (λ (c : ℕ). some (c ∷ l)) (omega arith))

abbrev unary_text : Base64
unary_text = record { encode = encode; decode = decode_from 0; decode-encode = decode-encode }

abbrev storage_key : ℕ → StorageKey
storage_key n = n ∷ 0 ∷ 0 ∷ 0 ∷ 0 ∷ 0 ∷ 0 ∷ 0 ∷ 0 ∷ 0 ∷ 0 ∷ 0 ∷ []

abbrev plan : StoragePlan StorageKey
plan = record {
  nodes =
      (
        "posts",
        storage_node (storage_key 1) false (some (storage_key 2))
            (set_of (
              storage_node (storage_key 2) true none no_set
                (child "title" (storage_node (storage_key 3) false none no_set no_child) no_child)))
            no_child,
      )
      ∷ [];
}

try_from-from_plan_example : try_from_plan unary_text (from_plan unary_text plan) ≡ ok plan
try_from-from_plan_example = try_from-from_plan unary_text plan (omega arith)

try_from_plan-PlanHasStorageKeys_example : PlanHasStorageKeys plan
try_from_plan-PlanHasStorageKeys_example =
    try_from_plan-PlanHasStorageKeys unary_text (from_plan unary_text plan) plan
      try_from-from_plan_example
