-- ===== src/Pool/Reserved/Words.antt =====
-- The text functions that src/pool/reserved.rs calls: `split_whitespace().next()` and
-- `eq_ignore_ascii_case`.
use Prim.Native.Char.{Char, code}
use mapepire_rs.Prelude.{
  ℕ, ◌+◌, ◌≡◌, refl, String, Bool, true, false, ◌&&◌, ◌||◌, ◌==◌, leb, if◌then◌else◌,
}

abbrev between : ℕ → ℕ → ℕ → Bool
between lo hi n = leb lo n && leb n hi

-- `char::is_whitespace`, the property White_Space.
unfoldable pub is_whitespace : Char → Bool
is_whitespace c =
    let n = code c in
    between 9 13 n
    || (n == 32)
    || (n == 133)
    || (n == 160)
    || (n == 5760)
    || between 8192 8202 n
    || between 8232 8233 n
    || (n == 8239)
    || (n == 8287)
    || (n == 12288)

up_to_space : String → String
unfolding is_whitespace
up_to_space String.[] = String.[]
up_to_space (String.◌∷◌ c s) =
    let rest = up_to_space s in if is_whitespace c then String.[] else String.◌∷◌ c rest

-- The first word, or the empty text when there is none.
unfoldable pub first_word : String → String
unfolding up_to_space
first_word String.[] = String.[]
first_word (String.◌∷◌ c s) =
    let rest = first_word s in if is_whitespace c then rest else up_to_space (String.◌∷◌ c s)

-- `to_ascii_lowercase`, on codes.
abbrev lower : Char → ℕ
lower c = let n = code c in if between 65 90 n then n + 32 else n

unfoldable pub eq_ignore_ascii_case : String → String → Bool
eq_ignore_ascii_case String.[] String.[] = true
eq_ignore_ascii_case (String.◌∷◌ c s) (String.◌∷◌ d t) =
    let rest = eq_ignore_ascii_case s t in (lower c == lower d) && rest
eq_ignore_ascii_case _ _ = false

spaced : first_word " \t begin work" ≡ "begin"
unfolding first_word
spaced = refl

any_case : eq_ignore_ascii_case "bEgIn" "BEGIN" ≡ true
unfolding eq_ignore_ascii_case
any_case = refl
