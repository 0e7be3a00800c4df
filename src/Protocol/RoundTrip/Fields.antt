-- ===== src/Protocol/RoundTrip/Fields.antt =====
-- How the single fields of a wire struct read back.
use mapepire_rs.Prelude.{
  String, Option, none, some, List, [], ◌∷◌, ◌≡◌, refl, ap, ◌∙◌, true, false, ok, Result, ◌>>=◌,
}
use mapepire_rs.Prelude.Text.{str_eq}
use mapepire_rs.Protocol.Json.{Value, string, Fields, field, get}
use mapepire_rs.Protocol.Serde.{Decoder, de_string, de_value, de_vec, de_option, default, optional}
use mapepire_rs.Protocol.Encode.Fields.{put_some, put_text, of_values}

pub get_self :
    (k : String) (v : Value) (fs : Fields) → str_eq k k ≡ true → get k (field k v fs) ≡ some v
unfolding get
get_self k v fs e = rw (e) refl

pub get-put_some :
    {A : Type 0} (encode : A → Value) (j k : String) (o : Option A) (fs : Fields)
    → str_eq j k ≡ false
    → get k (put_some encode j o fs) ≡ get k fs
unfolding put_some get
get-put_some encode j k none fs h = refl
get-put_some encode j k (some a) fs h = rw (h) refl

pub get-put_text :
    (j k s : String) (fs : Fields) → str_eq j k ≡ false → get k (put_text j s fs) ≡ get k fs
unfolding put_text get
get-put_text j k String.[] fs h = refl
get-put_text j k (String.◌∷◌ c s) fs h = rw (h) refl

-- A step of a decoder that succeeds.
pub step {ℓ} :
    {A : Type 0} {B : Type 0} {E : Type ℓ} {m : Result A E} {a : A} {r : Result B E}
    (k : A → Result B E)
    → m ≡ ok a
    → k a ≡ r
    → (m >>= k) ≡ r
step k h e = ap (λ x. x >>= k) h ∙ e

-- What a decoder with a default reads depends on its key alone.
pub default-get :
    {A : Type 0} (d : Decoder A) (a : A) (k : String) (fs gs : Fields)
    → get k fs ≡ get k gs
    → default a d k fs ≡ default a d k gs
default-get d a k fs gs h = ap (λ v. elim v [ none ↦ ok a | some w ↦ d k w ]) h

-- A field that is left out or has another name is passed over.
pub default-other :
    {A B : Type 0} (encode : A → Value) (d : Decoder B) (b : B) (j k : String) (o : Option A)
    (fs : Fields)
    → str_eq j k ≡ false
    → default b d k (put_some encode j o fs) ≡ default b d k fs
default-other encode d b j k o fs h = default-get d b k _ fs (get-put_some encode j k o fs h)

pub optional-other :
    {A B : Type 0} (encode : A → Value) (d : Decoder B) (j k : String) (o : Option A) (fs : Fields)
    → str_eq j k ≡ false
    → optional d k (put_some encode j o fs) ≡ optional d k fs
optional-other encode d j k o fs h = default-other encode (de_option d) none j k o fs h

pub default-other_text :
    {B : Type 0} (d : Decoder B) (b : B) (j k s : String) (fs : Fields)
    → str_eq j k ≡ false
    → default b d k (put_text j s fs) ≡ default b d k fs
default-other_text d b j k s fs h = default-get d b k _ fs (get-put_text j k s fs h)

pub optional-put_some :
    {A : Type 0} (encode : A → Value) (d : Decoder A) (k : String) (o : Option A) (fs : Fields)
    → get k fs ≡ none
    → str_eq k k ≡ true
    → ((a : A) → o ≡ some a → de_option d k (encode a) ≡ ok (some a))
    → optional d k (put_some encode k o fs) ≡ ok o
unfolding put_some
optional-put_some encode d k none fs g e h =
    ap (λ v. elim v [ none ↦ ok none | some w ↦ de_option d k w ]) g
optional-put_some encode d k (some a) fs g e h =
    ap (λ v. elim v [ none ↦ ok none | some w ↦ de_option d k w ]) (get_self k (encode a) fs e)
    ∙ h a refl

pub de_vec-of_values : (k : String) (vs : List Value) → de_vec de_value k (of_values vs) ≡ ok vs
de_vec-of_values k [] = refl
de_vec-of_values k (v ∷ vs) = rw (de_vec-of_values k vs) refl

pub default-put_text :
    (k s : String) (fs : Fields)
    → get k fs ≡ none
    → str_eq k k ≡ true
    → default "" de_string k (put_text k s fs) ≡ ok s
unfolding put_text
default-put_text k String.[] fs g e = ap (λ v. elim v [ none ↦ ok "" | some w ↦ de_string k w ]) g
default-put_text k (String.◌∷◌ c s) fs g e =
    ap (λ v. elim v [ none ↦ ok "" | some w ↦ de_string k w ]) (get_self k (string _) fs e)
