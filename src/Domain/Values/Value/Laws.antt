-- ===== src/Domain/Values/Value/Laws.antt =====
-- Domain.Values.Value.Laws: equality and order of values.
use flexitype.Prelude.{◌≡◌, ◌⊎◌, inl, inr, refl, sym, Bool, true, Option, none, some, arith}
use flexitype.Prelude.Int.{eq_ℤ_sym, eq_ℤ_trans}
use flexitype.Bytes.{Bytes, eq_bytes, eq_bytes→eq, eq_bytes_refl}
use flexitype.Domain.Values.DataType.{eq_type}
use flexitype.Domain.Values.Float.{float_eq_sym, float_eq_trans}
use flexitype.Domain.Values.Decimal.{Decimal, parse_decimal, numerator}
use flexitype.Domain.Values.Decimal.Laws.{numerator_trans}
use flexitype.Domain.Values.Value.{
  Platform, MediaMeta, TextKind, TimeKind, Value, absent, bool_value, text_value, integer_value,
  float_value, decimal_value, time_value, json_value, media_value, quantity_value, eq_text_kind,
  eq_time_kind, eq_bool, eq_media, eq_parsed, eq_decimal, eq_canonical, equal_json, equal,
}

eq_bytes_sym : (a b : Bytes) → eq_bytes a b ≡ true → eq_bytes b a ≡ true
eq_bytes_sym a b h = rw (eq_bytes→eq a b h) (eq_bytes_refl b)

eq_bytes_trans : (a b c : Bytes) → eq_bytes a b ≡ true → eq_bytes b c ≡ true → eq_bytes a c ≡ true
eq_bytes_trans a b c h k = rw (eq_bytes→eq a b h) k

eq_media→eq : (a b : MediaMeta) → eq_media a b ≡ true → eq_media b a ≡ true
unfolding eq_media
eq_media→eq a b h = ground (
  arith,
  eq_bytes_sym a.object_key b.object_key,
  eq_bytes_sym a.mime b.mime,
  eq_bytes_sym a.checksum b.checksum,
  eq_bytes_sym a.filename b.filename,
)

eq_media_trans :
    (a b c : MediaMeta) → eq_media a b ≡ true → eq_media b c ≡ true → eq_media a c ≡ true
unfolding eq_media
eq_media_trans a b c h k = ground (
  arith,
  eq_bytes_trans a.object_key b.object_key c.object_key,
  eq_bytes_trans a.mime b.mime c.mime,
  eq_bytes_trans a.checksum b.checksum c.checksum,
  eq_bytes_trans a.filename b.filename c.filename,
)

eq_parsed_sym : (a b : Option Decimal) → eq_parsed a b ≡ true → eq_parsed b a ≡ true
unfolding eq_parsed
eq_parsed_sym (some d) (some e) h = eq_ℤ_sym (numerator d e) (numerator e d) h
eq_parsed_sym (some d) none h = cc
eq_parsed_sym none b h = cc

eq_parsed_trans :
    (a b c : Option Decimal) → eq_parsed a b ≡ true → eq_parsed b c ≡ true → eq_parsed a c ≡ true
unfolding eq_parsed
eq_parsed_trans (some d) (some e) (some f) h k = numerator_trans d e f h k
eq_parsed_trans (some d) (some e) none h k = cc
eq_parsed_trans (some d) none c h k = cc
eq_parsed_trans none b c h k = cc

-- Documents are equal as bytes, or by their canonical forms.
canonical_cases :
    (a b : Bytes) (c d : Option Bytes)
    → eq_canonical a b c d ≡ true
    → (a ≡ b) ⊎ ((x : Bytes) × (c ≡ some x) × (d ≡ some x))
unfolding eq_canonical
canonical_cases a b (some c) (some d) h = inr (c, refl, cc (eq_bytes→eq c d h))
canonical_cases a b (some c) none h = inl (eq_bytes→eq a b h)
canonical_cases a b none (some d) h = inl (eq_bytes→eq a b h)
canonical_cases a b none none h = inl (eq_bytes→eq a b h)

canonical_same :
    (a b : Bytes) (c : Option Bytes)
    → (a ≡ b) ⊎ ((x : Bytes) × (c ≡ some x))
    → eq_canonical a b c c ≡ true
unfolding eq_canonical
canonical_same a b (some c) h = eq_bytes_refl c
canonical_same a b none (inl e) = rw e (eq_bytes_refl b)
canonical_same a b none (inr w) = cc w.1

eq_text_kind_sym : (k l : TextKind) → eq_text_kind k l ≡ true → eq_text_kind l k ≡ true
unfolding eq_type
eq_text_kind_sym k l h = ground arith

eq_text_kind_trans :
    (k l m : TextKind) → eq_text_kind k l ≡ true → eq_text_kind l m ≡ true → eq_text_kind k m ≡ true
unfolding eq_type
eq_text_kind_trans k l m h j = ground arith

eq_time_kind_sym : (k l : TimeKind) → eq_time_kind k l ≡ true → eq_time_kind l k ≡ true
unfolding eq_type
eq_time_kind_sym k l h = ground arith

eq_time_kind_trans :
    (k l m : TimeKind) → eq_time_kind k l ≡ true → eq_time_kind l m ≡ true → eq_time_kind k m ≡ true
unfolding eq_type
eq_time_kind_trans k l m h j = ground arith

eq_bool_sym : (a b : Bool) → eq_bool a b ≡ true → eq_bool b a ≡ true
unfolding eq_bool
eq_bool_sym a b h = ground arith

eq_bool_trans : (a b c : Bool) → eq_bool a b ≡ true → eq_bool b c ≡ true → eq_bool a c ≡ true
unfolding eq_bool
eq_bool_trans a b c h k = ground arith

module _ (p : Platform) where
  json_cases :
      (a b : Bytes)
      → equal_json p a b ≡ true
      → (a ≡ b) ⊎ ((x : Bytes) × (p.canonical_json a ≡ some x) × (p.canonical_json b ≡ some x))
  unfolding equal_json
  json_cases a b h = canonical_cases a b _ _ h

  json_same :
      (a b : Bytes)
      → (a ≡ b) ⊎ ((x : Bytes) × (p.canonical_json a ≡ some x) × (p.canonical_json b ≡ some x))
      → equal_json p a b ≡ true
  unfolding equal_json
  json_same a b (inl e) = rw e (canonical_same b b (p.canonical_json b) (inl refl))
  json_same a b (inr (x, c, d)) = rw (c, d) (canonical_same a b (some x) (inr (x, refl)))

  equal_json_sym : (a b : Bytes) → equal_json p a b ≡ true → equal_json p b a ≡ true
  equal_json_sym a b h =
      json_same b a
        (elim (json_cases a b h) [ inl e ↦ inl (sym e) | inr (x, c, d) ↦ inr (x, d, c) ])

  equal_json_trans :
      (a b c : Bytes) → equal_json p a b ≡ true → equal_json p b c ≡ true → equal_json p a c ≡ true
  equal_json_trans a b c h k = elim (json_cases a b h) [
    | inl e ↦ rw e k
    | inr (x, q, r) ↦ elim (json_cases b c k) [
      | inl e ↦ rw (← e) h
      | inr (y, s, t) ↦ json_same a c (inr (x, q, cc))
    ]
  ]

  -- Value.Equal is symmetric.
  pub equal_sym : (v w : Value) → equal p v w ≡ true → equal p w v ≡ true
  unfolding equal
  equal_sym absent absent h = refl
  equal_sym (bool_value a) (bool_value b) h = eq_bool_sym a b h
  equal_sym (text_value k a) (text_value l b) h =
      ground (arith, eq_bytes_sym a b, eq_text_kind_sym k l)
  equal_sym (integer_value a) (integer_value b) h = eq_ℤ_sym a b h
  equal_sym (float_value a) (float_value b) h = float_eq_sym a b h
  equal_sym (decimal_value a) (decimal_value b) h =
      unfold eq_decimal in eq_parsed_sym (parse_decimal a) (parse_decimal b) h
  equal_sym (time_value k a) (time_value l b) h = ground (arith, eq_time_kind_sym k l, eq_ℤ_sym a b)
  equal_sym (json_value a) (json_value b) h = equal_json_sym a b h
  equal_sym (media_value a) (media_value b) h = eq_media→eq a b h
  equal_sym (quantity_value m u a) (quantity_value n w b) h = float_eq_sym a b h
  equal_sym _ _ h = cc

  -- Value.Equal is transitive.
  pub equal_trans : (v w u : Value) → equal p v w ≡ true → equal p w u ≡ true → equal p v u ≡ true
  unfolding equal
  equal_trans absent absent u h k = k
  equal_trans (bool_value a) (bool_value b) (bool_value c) h k = eq_bool_trans a b c h k
  equal_trans (text_value k a) (text_value l b) (text_value m c) h j =
      ground (arith, eq_bytes_trans a b c, eq_text_kind_trans k l m)
  equal_trans (integer_value a) (integer_value b) (integer_value c) h k = eq_ℤ_trans a b c h k
  equal_trans (float_value a) (float_value b) (float_value c) h k = float_eq_trans a b c h k
  equal_trans (decimal_value a) (decimal_value b) (decimal_value c) h k =
      unfold eq_decimal in eq_parsed_trans (parse_decimal a) (parse_decimal b) (parse_decimal c) h k
  equal_trans (time_value k a) (time_value l b) (time_value m c) h j =
      ground (arith, eq_ℤ_trans a b c, eq_time_kind_trans k l m)
  equal_trans (json_value a) (json_value b) (json_value c) h k = equal_json_trans a b c h k
  equal_trans (media_value a) (media_value b) (media_value c) h k = eq_media_trans a b c h k
  equal_trans (quantity_value m u a) (quantity_value n v b) (quantity_value o w c) h k =
      float_eq_trans a b c h k
  equal_trans _ _ _ h k = cc
