-- ===== src/External.antt =====
-- What the program takes from outside its own source: the JSON values of serde_json and the
-- arithmetic of `f64`. Both are parameters of the definitions that use them.
use recomp_net_server.Common.{
  ℕ, ◌<◌, ◌^◌, ◌≡◌, ◌≢◌, String, Bool, true, Option, some, if◌then◌else◌, ◌==◌, string_eq, sym,
  subst, Bool-cases, inl, inr,
}

-- `serde_json::Value`, with the operations that the source calls.
pub record Json : Type 1 where
  pub Value : Type 0
  -- `v.get(key)`, which is none for a value that is no object
  pub get_field : Value → String → Option Value
  pub as_u64 : Value → Option ℕ
  pub as_bool : Value → Option Bool
  pub as_str : Value → Option String
  pub is_object : Value → Bool
  pub is_null : Value → Bool
  -- `json!({})`, `json!(n)`, `Value::from(text)` and `v[key] = x`
  pub empty_object : Value
  pub from_u64 : ℕ → Value
  pub from_str : String → Value
  pub set_field : Value → String → Value → Value
  -- `v.to_string().len()`
  pub printed_len : Value → ℕ

-- What the documentation of serde_json says of them.
pub record JsonLaws (j : Json) : Type 0 where
  pub empty_is_object : j.is_object j.empty_object ≡ true
  pub set_is_object :
      (v x : j.Value) (k : String) → j.is_object v ≡ true → j.is_object (j.set_field v k x) ≡ true
  pub get-set_self :
      (v x : j.Value) (k : String)
      → j.is_object v ≡ true
      → j.get_field (j.set_field v k x) k ≡ some x
  pub get-set_ne :
      (v x : j.Value) (k l : String)
      → j.is_object v ≡ true
      → k ≢ l
      → j.get_field (j.set_field v k x) l ≡ j.get_field v l
  pub as_str-from_str : (t : String) → j.as_str (j.from_str t) ≡ some t
  pub as_u64-from_u64 : (n : ℕ) → n < 2 ^ 64 → j.as_u64 (j.from_u64 n) ≡ some n

module _ (j : Json) (laws : JsonLaws j) where
  pub get_field-set_field :
      (v x : j.Value) (k l : String)
      → j.is_object v ≡ true
      → j.get_field (j.set_field v k x) l ≡ (if l == k then some x else j.get_field v l)
  get_field-set_field v x k l o = elim (Bool-cases (l == k)) [
    | inl e ↦ rw e (
        subst (λ m. j.get_field (j.set_field v k x) m ≡ some x)
          (sym ((string_eq.equal_iff l k).0 e)) (laws.get-set_self v x k o))
    | inr e ↦ rw e (laws.get-set_ne v x k l o (λ p. cc ((string_eq.equal_iff l k).1 (sym p))))
  ]

-- `f64`, with the operations that the delay arithmetic uses.
pub record Float : Type 1 where
  pub F64 : Type 0
  -- `n as f64`
  pub from_ℕ : ℕ → F64
  pub add : F64 → F64 → F64
  pub div : F64 → F64 → F64
  -- `x <= 0.0`
  pub le_zero : F64 → Bool
  -- `x.ceil() as u32`, a saturating cast
  pub ceil_u32 : F64 → ℕ
