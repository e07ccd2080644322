-- ===== src/Ingest/Json.antt =====
-- crates/ingest/src/raw/mod.rs: the fields of a JSON object. The values are serde_json's, of which
-- only the accessors are used; they stand in `Json`.
use base_execution_engine.Base.{Bool, List, Option, [], none, some, ℕ, ◌>>=?◌, ◌∷◌}
use base_execution_engine.Base.Text.{Text, parse_uint}
use base_execution_engine.Base.Hex.{strip_prefix_0x, parse_hex}
use base_execution_engine.Base.Words.{u64_max}

pub record Json : Type 1 where
  pub Value : Type 0
  pub Object : Type 0
  pub as_object : Value → Option Object
  pub get : Object → Text → Option Value
  pub as_str : Value → Option Text
  pub as_bool : Value → Option Bool
  pub as_array : Value → Option (List Value)
  pub as_u64 : Value → Option ℕ

unfoldable pub parse_u64 : Text → Option ℕ
parse_u64 raw = elim (strip_prefix_0x raw) [
  | some hex ↦ parse_hex u64_max hex
  | none ↦ parse_uint u64_max raw
]

module _ (j : Json) where
  unfoldable pub string_field : j.Object → Text → Option Text
  string_field object key = j.get object key >>=? λ v. j.as_str v

  unfoldable pub bool_field : j.Object → Text → Option Bool
  bool_field object key = j.get object key >>=? λ v. j.as_bool v

  -- A string is parsed, and of another value only a number answers `as_u64`.
  unfoldable pub u64_field : j.Object → Text → Option ℕ
  unfolding parse_u64
  u64_field object key =
      j.get object key >>=? λ v. elim (j.as_str v) [ some raw ↦ parse_u64 raw | none ↦ j.as_u64 v ]

  -- `filter_map(Value::as_str)`
  unfoldable pub strings : List j.Value → List Text
  strings [] = []
  strings (v ∷ vs) = elim (j.as_str v) [ none ↦ strings vs | some s ↦ s ∷ strings vs ]
