-- ===== src/Value/Delimit.antt =====
-- rdb-analyzer/src/data/value.rs: encoded keys with more bytes behind them, as in a set's keys.
use refine_db.Prelude.{
  ℕ, suc, ◌<◌, ◌≤◌, Bytes, All, bytes_cmp, bytes_cmp-append, then_cmp, length, [], ◌∷◌, ◌++◌,
  append_assoc, ◌≡◌, refl, sym, ◌∙◌, ap, arith,
}
use refine_db.Value.BigEndian.{length-be_bytes}
use refine_db.Value.Escape.{escape, bytes_cmp-escape}
use refine_db.Value.{
  PrimitiveValue, string, bytes, int64, double, get_type, IsRepresentable, int64_word, double_word,
  serialize_for_key_component,
}
use refine_db.Value.Order.{value_cmp, bytes_cmp-serialize_for_key_component}

-- A text without the character NUL. Every other value is plain.
abbrev pub IsPlain : PrimitiveValue → Type 0
IsPlain (string s) = All (λ b. 0 < b) s
IsPlain _ = Unit

string_delimited :
    (a b r : Bytes) (c : ℕ)
    → All (λ x. 0 < x) a
    → All (λ x. 0 < x) b
    → c ≤ 1
    → bytes_cmp (a ++ 0 ∷ r) (b ++ c ∷ []) ≡ then_cmp (bytes_cmp a b) (bytes_cmp (0 ∷ r) (c ∷ []))
unfolding bytes_cmp
string_delimited [] [] r c h k l = refl
string_delimited [] (y ∷ b) r c h k l = ground arith
string_delimited (x ∷ []) [] r c h k l = ground arith
string_delimited (x ∷ (z ∷ a)) [] r c h k l = ground arith
string_delimited (x ∷ a) (y ∷ b) r c h k l = ground (arith, string_delimited a b r c h.1 k.1 l)

bytes_delimited :
    (a b r : Bytes) (c : ℕ)
    → c ≤ 1
    → bytes_cmp ((escape a ++ 0 ∷ []) ++ 0 ∷ r) ((escape b ++ 0 ∷ []) ++ c ∷ [])
      ≡ then_cmp (bytes_cmp a b) (bytes_cmp (0 ∷ r) (c ∷ []))
bytes_delimited a b r c h =
    rw (append_assoc (escape a) (0 ∷ []) (0 ∷ r), append_assoc (escape b) (0 ∷ []) (c ∷ []))
      (bytes_cmp-escape a b (0 ∷ r) (c ∷ []) (omega arith) (omega arith))

module _ (v w : PrimitiveValue) (hv : IsRepresentable v) (hw : IsRepresentable w) where
  delimited_by_length :
      (r : Bytes) (c : ℕ)
      → length (serialize_for_key_component v) ≡ length (serialize_for_key_component w)
      → bytes_cmp (serialize_for_key_component v ++ 0 ∷ r) (serialize_for_key_component w ++ c ∷ [])
        ≡ then_cmp (value_cmp v w) (bytes_cmp (0 ∷ r) (c ∷ []))
  delimited_by_length r c e =
      bytes_cmp-append (serialize_for_key_component v) (serialize_for_key_component w) (0 ∷ r)
        (c ∷ []) e
      ∙ rw (bytes_cmp-serialize_for_key_component v w hv hw)

-- A key with a terminator and more behind it compares with another key and one more low byte as
-- the values do, where they differ.
pub delimited :
    (v w : PrimitiveValue) (r : Bytes) (c : ℕ)
    → IsRepresentable v
    → IsRepresentable w
    → IsPlain v
    → IsPlain w
    → get_type v ≡ get_type w
    → c ≤ 1
    → bytes_cmp (serialize_for_key_component v ++ 0 ∷ r) (serialize_for_key_component w ++ c ∷ [])
      ≡ then_cmp (value_cmp v w) (bytes_cmp (0 ∷ r) (c ∷ []))
unfolding serialize_for_key_component get_type bytes_cmp
delimited (string a) (string b) r c hv hw pv pw e l = string_delimited a b r c pv pw l
delimited (bytes a) (bytes b) r c hv hw pv pw e l = bytes_delimited a b r c l
delimited (int64 x) (int64 y) r c hv hw pv pw e l =
    delimited_by_length (int64 x) (int64 y) hv hw r c
      (ap suc (length-be_bytes 8 (int64_word x) ∙ sym (length-be_bytes 8 (int64_word y))))
delimited (double x) (double y) r c hv hw pv pw e l =
    delimited_by_length (double x) (double y) hv hw r c
      (ap suc (length-be_bytes 8 (double_word x) ∙ sym (length-be_bytes 8 (double_word y))))
delimited _ _ r c hv hw pv pw e l = cc
