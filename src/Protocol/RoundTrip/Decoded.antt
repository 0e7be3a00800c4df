-- ===== src/Protocol/RoundTrip/Decoded.antt =====
-- What the field decoders of serde guarantee of what they yield.
use mapepire_rs.Prelude.{
  ℕ, ◌≡◌, ◌≢◌, refl, subst, String, true, Option, none, some, List, [], ◌∷◌, All, ltb, arith,
  if◌then◌else◌, Bool-cases, inl, inr, ok, err, ◌>>=◌, bind_ok,
}
use mapepire_rs.Protocol.Json.{
  pos_int, neg_int, float, Value, null, bool, number, string, array, object, nil, cons, Fields, get,
}
use mapepire_rs.Protocol.Serde.{
  Decoded, Decoder, SerdeError, invalid_value, duplicate_field, de_value, de_u32, de_i32, de_i64,
  de_vec, de_option, default, optional, aliased,
}
use mapepire_rs.Protocol.Response.{ℤ, pos, negsuc}
use mapepire_rs.Protocol.RoundTrip.Results.{FitsInt}

pub ok_eq : {A : Type 0} (a b : A) (m : Decoded A) → m ≡ ok a → m ≡ ok b → a ≡ b
ok_eq a b m h e = cc

some_eq : {A : Type 0} (a b : A) (o : Option A) → some a ≡ o → o ≡ some b → a ≡ b
some_eq a b o h e = cc

none_some : {A : Type 0} (a : A) (o : Option A) → none ≡ o → o ≡ some a → ⊥
none_some a o h e = cc

pub de_u32-lt : (k : String) (v : Value) (n : ℕ) → de_u32 k v ≡ ok n → ltb n 4294967296 ≡ true
de_u32-lt k (number (pos_int m)) n h = ground arith
de_u32-lt k (number (neg_int m)) n h = absurd (cc)
de_u32-lt k (number (float m)) n h = absurd (cc)
de_u32-lt k null n h = absurd (cc)
de_u32-lt k (bool b) n h = absurd (cc)
de_u32-lt k (string s) n h = absurd (cc)
de_u32-lt k (array vs) n h = absurd (cc)
de_u32-lt k (object fs) n h = absurd (cc)

err_ne : {A : Type 0} (a : A) (e : SerdeError) → err e ≡ ok a → ⊥
err_ne a e h = cc

not_null :
    (v : Value) (o : Option Value) (m : Decoded (Option Value))
    → m ≡ ok (some v)
    → m ≡ ok o
    → o ≡ some null
    → v ≢ null
    → ⊥
not_null v o m g h e ne = ne (some_eq v null o (ok_eq (some v) o m g h) e)

-- A decoder all of whose results have a property.
module _ {A : Type 0} (P : A → Type 0) (d : Decoder A)
    (sound : (k : String) (v : Value) (a : A) → d k v ≡ ok a → P a) where
  wrapped :
      (k : String) (v : Value) (o : Option A)
      → (d k v >>= λ a. ok (some a)) ≡ ok o
      → (a : A) → o ≡ some a
      → P a
  wrapped k v o h a e =
      let (b, read, same) = bind_ok (d k v) _ o h in
      subst P (some_eq b a o (ok_eq (some b) o (ok (some b)) refl same) e) (sound k v b read)

  pub option-all :
      (k : String) (v : Value) (o : Option A) → de_option d k v ≡ ok o → (a : A) → o ≡ some a → P a
  option-all k null o h a e = absurd (none_some a o (ok_eq none o (ok none) refl h) e)
  option-all k (bool b) o h a e = wrapped k (bool b) o h a e
  option-all k (number n) o h a e = wrapped k (number n) o h a e
  option-all k (string s) o h a e = wrapped k (string s) o h a e
  option-all k (array vs) o h a e = wrapped k (array vs) o h a e
  option-all k (object fs) o h a e = wrapped k (object fs) o h a e

  pub default-all : (k : String) (a : A) (fs : Fields) (b : A) → P a → default a d k fs ≡ ok b → P b
  default-all k a fs b p h = go (get k fs) h
    where
      go :
          (g : Option Value)
          → elim g as (λ _. Decoded A) [ none ↦ ok a | some v ↦ d k v ] ≡ ok b
          → P b
      go none e = subst P (ok_eq a b (ok a) refl e) p
      go (some v) e = sound k v b e

  pub vec-all : (k : String) (vs : Value) (as' : List A) → de_vec d k vs ≡ ok as' → All P as'
  vec-all k (array nil) as' h = subst (All P) (ok_eq [] as' (ok []) refl h) tt
  vec-all k (array (cons v vs)) as' h =
      let (b, read, rest) = bind_ok (d k v) _ as' h in
      let (bs, others, same) = bind_ok (de_vec d k (array vs)) _ as' rest in
      subst (All P) (ok_eq (b ∷ bs) as' (ok (b ∷ bs)) refl same)
        (sound k v b read, vec-all k (array vs) bs others)
  vec-all k null as' h = absurd (cc)
  vec-all k (bool b) as' h = absurd (cc)
  vec-all k (number n) as' h = absurd (cc)
  vec-all k (string s) as' h = absurd (cc)
  vec-all k (object fs) as' h = absurd (cc)

-- An aliased field.
module _ {A : Type 0} (P : A → Type 0) (d : Decoder A)
    (sound : (k : String) (v : Value) (a : A) → d k v ≡ ok a → P a) where
  pub aliased-all :
      (k alias : String) (fs : Fields) (o : Option A)
      → aliased d k alias fs ≡ ok o
      → (a : A) → o ≡ some a
      → P a
  aliased-all k alias fs o h = go (get k fs) (get alias fs) h
    where
      go :
          (g j : Option Value)
          → elim g as (λ _. Decoded (Option A)) [
            | none ↦ elim j as (λ _. Decoded (Option A)) [
              | none ↦ ok none
              | some v ↦ de_option d alias v
            ]
            | some v ↦ elim j as (λ _. Decoded (Option A)) [
              | none ↦ de_option d k v
              | some w ↦ err (duplicate_field k)
            ]
          ]
            ≡ ok o
          → (a : A) → o ≡ some a
          → P a
      go none none e a q = absurd (none_some a o (ok_eq none o (ok none) refl e) q)
      go none (some v) e a q = option-all P d sound alias v o e a q
      go (some v) none e a q = option-all P d sound k v o e a q
      go (some v) (some w) e a q = absurd (cc)

  pub optional-all :
      (k : String) (fs : Fields) (o : Option A)
      → optional d k fs ≡ ok o
      → (a : A) → o ≡ some a
      → P a
  optional-all k fs o h = go (get k fs) h
    where
      go :
          (g : Option Value)
          → elim g as (λ _. Decoded (Option A)) [ none ↦ ok none | some v ↦ de_option d k v ] ≡ ok o
          → (a : A) → o ≡ some a
          → P a
      go none e a q = absurd (none_some a o (ok_eq none o (ok none) refl e) q)
      go (some v) e a q = option-all P d sound k v o e a q

-- An optional JSON value is never `null`.
option-ne-null :
    (k : String) (v : Value) (o : Option Value) → de_option de_value k v ≡ ok o → o ≢ some null
option-ne-null k null o h e = none_some null o (ok_eq none o (ok none) refl h) e
option-ne-null k (bool b) o h e = not_null (bool b) o _ refl h e (λ q. cc)
option-ne-null k (number n) o h e = not_null (number n) o _ refl h e (λ q. cc)
option-ne-null k (string s) o h e = not_null (string s) o _ refl h e (λ q. cc)
option-ne-null k (array vs) o h e = not_null (array vs) o _ refl h e (λ q. cc)
option-ne-null k (object fs) o h e = not_null (object fs) o _ refl h e (λ q. cc)

pub value-ne-null :
    (k : String) (fs : Fields) (o : Option Value) → optional de_value k fs ≡ ok o → o ≢ some null
value-ne-null k fs o h = go (get k fs) h
  where
    go :
        (g : Option Value)
        → elim g as (λ _. Decoded (Option Value)) [
          | none ↦ ok none
          | some v ↦ de_option de_value k v
        ]
          ≡ ok o
        → o ≢ some null
    go none e q = none_some null o (ok_eq none o (ok none) refl e) q
    go (some v) e q = option-ne-null k v o e q

-- The integer that a test of its range lets pass.
ranged :
    (k : String) (half m : ℕ) (y z : ℤ)
    → (ltb m half ≡ true → FitsInt half y)
    → (if ltb m half then ok y else err (invalid_value k)) ≡ ok z
    → FitsInt half z
ranged k half m y z fits h = elim (Bool-cases (ltb m half)) [
  | inl e ↦ subst (FitsInt half) (ok_eq y z (ok y) refl (rw (e) at h)) (fits e)
  | inr e ↦ absurd (err_ne z (invalid_value k) (rw (e) at h))
]

pub de_i32-FitsInt : (k : String) (v : Value) (z : ℤ) → de_i32 k v ≡ ok z → FitsInt 2147483648 z
unfolding FitsInt
de_i32-FitsInt k (number (pos_int m)) z h = ranged k 2147483648 m (pos m) z (λ e. e) h
de_i32-FitsInt k (number (neg_int m)) z h = ranged k 2147483648 m (negsuc m) z (λ e. e) h
de_i32-FitsInt k (number (float m)) z h = absurd (cc)
de_i32-FitsInt k null z h = absurd (cc)
de_i32-FitsInt k (bool b) z h = absurd (cc)
de_i32-FitsInt k (string s) z h = absurd (cc)
de_i32-FitsInt k (array vs) z h = absurd (cc)
de_i32-FitsInt k (object fs) z h = absurd (cc)

pub de_i64-FitsInt :
    (k : String) (v : Value) (z : ℤ) → de_i64 k v ≡ ok z → FitsInt 9223372036854775808 z
unfolding FitsInt
de_i64-FitsInt k (number (pos_int m)) z h = ranged k 9223372036854775808 m (pos m) z (λ e. e) h
de_i64-FitsInt k (number (neg_int m)) z h = ranged k 9223372036854775808 m (negsuc m) z (λ e. e) h
de_i64-FitsInt k (number (float m)) z h = absurd (cc)
de_i64-FitsInt k null z h = absurd (cc)
de_i64-FitsInt k (bool b) z h = absurd (cc)
de_i64-FitsInt k (string s) z h = absurd (cc)
de_i64-FitsInt k (array vs) z h = absurd (cc)
de_i64-FitsInt k (object fs) z h = absurd (cc)
