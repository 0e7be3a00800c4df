-- ===== src/Prelude/Text.antt =====
-- Texts: the equality test, and the decimal and hexadecimal forms that `format!` gives a number.
use Prim.Native.Nat.{ℕ, zero, suc, ◌+◌, ◌-◌, ◌*◌, ◌/◌, ◌%◌, ◌<◌}
use Prim.Native.Char.{Char, code}
use Prim.Native.String.{String, ◌++◌}
use mathlib.Core.Path.{◌≡◌, refl, sym, ap, ◌∙◌}
use mathlib.Core.Logic.{inl, inr}
use mathlib.Core.Bool.{Bool, true, false}
use mathlib.Core.List.{List, [], ◌∷◌}
use native.Mathlib.Omega.{arith}
use text.Mathlib.Text.{◌==◌ as text_eq}
use text.Mathlib.TextEquality.{eq_iff}
use text.Mathlib.TextPositions.{eq_refl}
use text.Mathlib.TextLemmas.{nil-append, cons-append}
use mapepire_rs.Prelude.Tests.{ltb, leb, if◌then◌else◌, Bool-cases, ltb→lt}

-- `==` on texts.
abbrev pub str_eq : String → String → Bool
str_eq = text_eq

pub str_eq_iff_true : (s t : String) → str_eq s t ≡ true → s ≡ t
str_eq_iff_true s t = (eq_iff s t).0

pub str_eq_refl : (s : String) → str_eq s s ≡ true
str_eq_refl = eq_refl

-- `is_empty`.
abbrev pub is_empty : String → Bool
is_empty String.[] = true
is_empty (String.◌∷◌ c s) = false

-- The digit of a number below 16, in lower case as `{:02x}` writes it.
unfoldable pub digit : ℕ → Char
digit zero = "0"
digit (suc zero) = "1"
digit (suc (suc zero)) = "2"
digit (suc (suc (suc zero))) = "3"
digit (suc (suc (suc (suc zero)))) = "4"
digit (suc (suc (suc (suc (suc zero))))) = "5"
digit (suc (suc (suc (suc (suc (suc zero)))))) = "6"
digit (suc (suc (suc (suc (suc (suc (suc zero))))))) = "7"
digit (suc (suc (suc (suc (suc (suc (suc (suc zero)))))))) = "8"
digit (suc (suc (suc (suc (suc (suc (suc (suc (suc zero))))))))) = "9"
digit (suc (suc (suc (suc (suc (suc (suc (suc (suc (suc zero)))))))))) = "a"
digit (suc (suc (suc (suc (suc (suc (suc (suc (suc (suc (suc zero))))))))))) = "b"
digit (suc (suc (suc (suc (suc (suc (suc (suc (suc (suc (suc (suc zero)))))))))))) = "c"
digit (suc (suc (suc (suc (suc (suc (suc (suc (suc (suc (suc (suc (suc zero))))))))))))) = "d"
digit (suc (suc (suc (suc (suc (suc (suc (suc (suc (suc (suc (suc (suc (suc zero)))))))))))))) = "e"
digit _ = "f"

abbrev pub undigit : Char → ℕ
undigit c = if leb (code c) 57 then code c - 48 else code c - 87

pub undigit-digit : (d : ℕ) → d < 16 → undigit (digit d) ≡ d
unfolding digit
undigit-digit zero h = refl
undigit-digit (suc zero) h = refl
undigit-digit (suc (suc zero)) h = refl
undigit-digit (suc (suc (suc zero))) h = refl
undigit-digit (suc (suc (suc (suc zero)))) h = refl
undigit-digit (suc (suc (suc (suc (suc zero))))) h = refl
undigit-digit (suc (suc (suc (suc (suc (suc zero)))))) h = refl
undigit-digit (suc (suc (suc (suc (suc (suc (suc zero))))))) h = refl
undigit-digit (suc (suc (suc (suc (suc (suc (suc (suc zero)))))))) h = refl
undigit-digit (suc (suc (suc (suc (suc (suc (suc (suc (suc zero))))))))) h = refl
undigit-digit (suc (suc (suc (suc (suc (suc (suc (suc (suc (suc zero)))))))))) h = refl
undigit-digit (suc (suc (suc (suc (suc (suc (suc (suc (suc (suc (suc zero))))))))))) h = refl
undigit-digit (suc (suc (suc (suc (suc (suc (suc (suc (suc (suc (suc (suc zero)))))))))))) h = refl
undigit-digit (suc (suc (suc (suc (suc (suc (suc (suc (suc (suc (suc (suc (suc zero))))))))))))) h =
    refl
undigit-digit
      (suc (suc (suc (suc (suc (suc (suc (suc (suc (suc (suc (suc (suc (suc zero)))))))))))))) h =
    refl
undigit-digit
      (suc (suc (suc (suc (suc (suc (suc (suc (suc (suc (suc (suc (suc (suc (suc zero)))))))))))))))
      h =
    refl
undigit-digit
      (suc
        (suc (suc (suc (suc (suc (suc (suc (suc (suc (suc (suc (suc (suc (suc (suc d))))))))))))))))
      h =
    absurd (omega arith)

-- `to_string` of an unsigned number: the fuel is one more than the number, which is enough.
abbrev pub one : Char → String
one c = String.◌∷◌ c String.[]

show_below : ℕ → ℕ → String
show_below zero n = String.[]
show_below (suc f) n = elim (ltb n 10) [
  | true ↦ one (digit n)
  | false ↦ show_below f (n / 10) ++ one (digit (n % 10))
]

unfoldable pub show_ℕ : ℕ → String
unfolding show_below digit
show_ℕ n = show_below (suc n) n

-- `{:02x}` of each byte in turn.
unfoldable pub hex_text : List ℕ → String
unfolding digit
hex_text [] = String.[]
hex_text (b ∷ bs) = String.◌∷◌ (digit (b / 16)) (String.◌∷◌ (digit (b % 16)) (hex_text bs))

value : ℕ → String → ℕ
value acc String.[] = acc
value acc (String.◌∷◌ c s) = value (acc * 10 + undigit c) s

value-append :
    (acc : ℕ) (s : String) (c : Char) → value acc (s ++ one c) ≡ value acc s * 10 + undigit c
unfolding value
value-append acc String.[] c = rw (nil-append (one c))
value-append acc (String.◌∷◌ d s) c =
    rw (cons-append d s (one c)) (value-append (acc * 10 + undigit d) s c)

value-show_below : (f n : ℕ) → n < f → value 0 (show_below f n) ≡ n
unfolding show_below value
value-show_below zero n h = elim h [ ]
value-show_below (suc f) n h = elim (Bool-cases (ltb n 10)) [
  | inl small ↦ rw (small, show_below) (omega (arith, undigit-digit n, ltb→lt n 10 small))
  | inr big ↦
      rw (big, show_below)
        (value-append 0 (show_below f (n / 10)) (digit (n % 10))
          ∙ omega (arith, value-show_below f (n / 10) (ground arith), undigit-digit (n % 10)))
]

-- Two numbers with one decimal form are equal.
pub show_ℕ-injective : (m n : ℕ) → show_ℕ m ≡ show_ℕ n → m ≡ n
unfolding show_ℕ
show_ℕ-injective m n e =
    sym (value-show_below (suc m) m (omega arith))
    ∙ ap (value 0) e
    ∙ value-show_below (suc n) n (omega arith)

shown : show_ℕ 18446744073709551615 ≡ "18446744073709551615"
unfolding show_ℕ
shown = refl

shown_bytes : hex_text (10 ∷ 255 ∷ []) ≡ "0aff"
unfolding hex_text
shown_bytes = refl
