-- ===== src/Protocol/Ids/Distinct.antt =====
-- src/protocol/codec.rs and src/query.rs: which ids can collide.
use Prim.Native.String.{◌++◌}
use Prim.Native.Char.{Char}
use mapepire_rs.Prelude.{
  ℕ, zero, suc, ◌+◌, ◌-◌, ◌/◌, ◌%◌, ◌^◌, ◌<◌, ◌≡◌, ◌≢◌, refl, sym, ap, ap₂, ◌∙◌, length, String,
  List, [], ◌∷◌, arith, u64_mod,
}
use mapepire_rs.Prelude.Text.{digit, undigit, undigit-digit, hex_text, show_ℕ, show_ℕ-injective}
use mapepire_rs.Protocol.Ids.Alloc.{IdAllocator, prefix_bytes, new, next, after_calls, close_id}
use text.Mathlib.TextLemmas.{
  append_cancel_left, head-eq_of_cons-eq, tail-eq_of_cons-eq, cons-append,
}

prefix-after_calls : (n : ℕ) (a : IdAllocator) → (after_calls n a).prefix ≡ a.prefix
unfolding after_calls
prefix-after_calls zero a = refl
prefix-after_calls (suc n) a = prefix-after_calls n a

counter-after_calls :
    (n : ℕ) (a : IdAllocator)
    → a.counter < u64_mod
    → (after_calls n a).counter ≡ (a.counter + n) % u64_mod
unfolding after_calls
counter-after_calls zero a h = omega arith
counter-after_calls (suc n) a h = omega (arith, counter-after_calls n a h)

-- One allocator issues no id twice among 2^64 consecutive calls.
pub ids_distinct :
    (a : IdAllocator) (m n : ℕ)
    → a.counter < u64_mod
    → m < n
    → n - m < u64_mod
    → (next (after_calls m a)).0 ≢ (next (after_calls n a)).0
unfolding next
ids_distinct a m n h lt near e = absurd (
    omega (
      arith,
      counter-after_calls m a h,
      counter-after_calls n a h,
      show_ℕ-injective (after_calls m a).counter (after_calls n a).counter
          (append_cancel_left "-" _ _ (append_cancel_left a.prefix _ _ e')),
    ))
  where
    e' :
        a.prefix ++ ("-" ++ show_ℕ (after_calls m a).counter)
        ≡ a.prefix ++ ("-" ++ show_ℕ (after_calls n a).counter)
    e' = rw (prefix-after_calls m a, prefix-after_calls n a) at e

abbrev AreBytes : List ℕ → Type 0
AreBytes [] = Unit {0}
AreBytes (b ∷ bs) = (b < 256) × AreBytes bs

byte_of_digits :
    (b c : ℕ)
    → b < 256
    → c < 256
    → digit (b / 16) ≡ digit (c / 16)
    → digit (b % 16) ≡ digit (c % 16)
    → b ≡ c
byte_of_digits b c hb hc p q = omega (
  arith,
  ap undigit p,
  ap undigit q,
  undigit-digit (b / 16),
  undigit-digit (c / 16),
  undigit-digit (b % 16),
  undigit-digit (c % 16),
)

cons₂-append :
    (a b : Char) (s t : String)
    → String.◌∷◌ a (String.◌∷◌ b s) ++ t ≡ String.◌∷◌ a (String.◌∷◌ b (s ++ t))
cons₂-append a b s t = cons-append a (String.◌∷◌ b s) t ∙ ap (String.◌∷◌ a) (cons-append b s t)

-- Two hexadecimal texts of the same number of bytes, before any rests.
hex_text-inj :
    (bs cs : List ℕ) (s t : String)
    → length bs ≡ length cs
    → AreBytes bs
    → AreBytes cs
    → hex_text bs ++ s ≡ hex_text cs ++ t
    → bs ≡ cs
unfolding hex_text
hex_text-inj [] [] s t l hb hc e = refl
hex_text-inj [] (c ∷ cs) s t l hb hc e = absurd (omega arith)
hex_text-inj (b ∷ bs) [] s t l hb hc e = absurd (omega arith)
hex_text-inj (b ∷ bs) (c ∷ cs) s t l hb hc e =
    let e' = sym (cons₂-append _ _ (hex_text bs) s) ∙ e ∙ cons₂-append _ _ (hex_text cs) t in
    ap₂ ◌∷◌
      (byte_of_digits b c hb.0 hc.0 (head-eq_of_cons-eq e')
        (head-eq_of_cons-eq (tail-eq_of_cons-eq e')))
      (hex_text-inj bs cs s t (omega arith) hb.1 hc.1 (tail-eq_of_cons-eq (tail-eq_of_cons-eq e')))

-- An allocator that was made by `new`, after any number of calls.
unfoldable pub id_of : (nanos pid calls : ℕ) → String
unfolding next new
id_of nanos pid calls = (next (after_calls calls (new nanos pid))).0

abbrev nth : ℕ → List ℕ → ℕ
nth i [] = 0
nth zero (b ∷ bs) = b
nth (suc i) (b ∷ bs) = nth i bs

prefix_bytes-AreBytes : (nanos pid : ℕ) → AreBytes (prefix_bytes nanos pid)
unfolding prefix_bytes
prefix_bytes-AreBytes nanos pid = omega arith

prefix_bytes-inj :
    (m n p q : ℕ)
    → m < 4294967296
    → n < 4294967296
    → prefix_bytes m p ≡ prefix_bytes n q
    → (m ≡ n) × (p % 65536 ≡ q % 65536)
unfolding prefix_bytes
prefix_bytes-inj m n p q hm hn e = (
  omega (arith, ap (nth 0) e, ap (nth 1) e, ap (nth 2) e, ap (nth 3) e),
  omega (arith, ap (nth 4) e, ap (nth 5) e),
)

id_of_lem :
    (nanos pid calls : ℕ)
    → id_of nanos pid calls
      ≡ hex_text (prefix_bytes nanos pid)
        ++ ("-" ++ show_ℕ (after_calls calls (new nanos pid)).counter)
unfolding id_of
id_of_lem nanos pid calls = rw (prefix-after_calls calls (new nanos pid))

-- Two allocators that share an id, whatever their counters, were made in the same nanosecond of a
-- second, by processes whose ids agree in the lower 16 bits.
pub shared_id_needs_same_instant :
    (m n p q calls calls' : ℕ)
    → m < 4294967296
    → n < 4294967296
    → id_of m p calls ≡ id_of n q calls'
    → (m ≡ n) × (p % 65536 ≡ q % 65536)
unfolding prefix_bytes
shared_id_needs_same_instant m n p q calls calls' hm hn e = prefix_bytes-inj m n p q hm hn (
    hex_text-inj _ _ _ _ refl (prefix_bytes-AreBytes m p) (prefix_bytes-AreBytes n q)
      (sym (id_of_lem m p calls) ∙ e ∙ id_of_lem n q calls'))

-- The id of a close request is no id of any allocator.
pub close_id-ne-id_of :
    (cont_id : String) (nanos pid calls : ℕ) → close_id cont_id ≢ id_of nanos pid calls
unfolding close_id prefix_bytes hex_text
close_id-ne-id_of cont_id nanos pid calls e =
    let id_cons = id_of_lem nanos pid calls ∙ cons₂-append _ _ _ _ in
    let close_cons = cons₂-append "c" "l" "ose-" cont_id in
    let same = head-eq_of_cons-eq (tail-eq_of_cons-eq (sym close_cons ∙ e ∙ id_cons)) in
    absurd (omega (arith, ap undigit same, undigit-digit (nanos / 256 ^ 0 % 256 % 16)))
