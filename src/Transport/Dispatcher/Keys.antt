-- ===== src/Transport/Dispatcher/Keys.antt =====
-- src/transport/dispatcher.rs: the map of pending requests holds an id once, and reads as a function.
use mapepire_rs.Prelude.{
  ℕ, ◌≤◌, ◌≡◌, refl, ap, subst, ◌∙◌, sym, String, none, some, [], ◌∷◌, arith, if◌then◌else◌, inl,
  inr, Bool-cases, ◌==◌, ==_iff,
}
use mathlib.Core.Path.{fun_ext}
use mapepire_rs.Prelude.Text.{str_eq, str_eq_refl, str_eq_iff_true}
use text.Mathlib.TextEquality.{eq_iff}
use mapepire_rs.Transport.Dispatcher.Table.{
  Pending, Map, take_entry, insert_entry, left_after, slots,
}
use mapepire_rs.Transport.Dispatcher.Routing.{find, find-left_after}
use mapepire_rs.Transport.Dispatcher.Replies.{count}
use mapepire_rs.Transport.Dispatcher.Spec.{Waiting, update}

-- The map as a function.
abbrev pub waiting : Map → Waiting
waiting m id = find id m

abbrev pub HasKeysOnce : Map → Type 0
HasKeysOnce [] = Unit {0}
HasKeysOnce ((j, p) ∷ m) = (find j m ≡ none) × HasKeysOnce m

pub find-cons :
    (id j : String) (p : Pending) (m : Map)
    → find id ((j, p) ∷ m) ≡ (if str_eq j id then some p else find id m)
unfolding take_entry
find-cons id j p m = ground arith

find-left_after_absent :
    (id j : String) (m : Map) → find id m ≡ none → find id (left_after (take_entry j m) m) ≡ none
unfolding take_entry
find-left_after_absent id j [] h = refl
find-left_after_absent id j ((k, p) ∷ m) h = ground (arith, find-left_after_absent id j m)

left_after-cons :
    (id j : String) (p : Pending) (m : Map)
    → left_after (take_entry id ((j, p) ∷ m)) ((j, p) ∷ m)
      ≡ (if str_eq j id then m else (j, p) ∷ left_after (take_entry id m) m)
unfolding take_entry
left_after-cons id j p m = ground arith

pub left_after-HasKeysOnce :
    (id : String) (m : Map) → HasKeysOnce m → HasKeysOnce (left_after (take_entry id m) m)
unfolding take_entry
left_after-HasKeysOnce id [] h = tt
left_after-HasKeysOnce id ((j, p) ∷ m) h =
    subst HasKeysOnce (sym (left_after-cons id j p m)) (elim (Bool-cases (str_eq j id)) [
      | inl e ↦ rw (e) h.1
      | inr e ↦ rw (e) (find-left_after_absent j id m h.0, left_after-HasKeysOnce id m h.1)
    ])

pub find-left_after_self :
    (id : String) (m : Map) → HasKeysOnce m → find id (left_after (take_entry id m) m) ≡ none
unfolding take_entry
find-left_after_self id [] h = refl
find-left_after_self id ((j, p) ∷ m) h =
    ground (arith, find-left_after_self id m h.1, h.0, eq_iff j id)

pub insert_entry-HasKeysOnce :
    (id : String) (p : Pending) (m : Map) → HasKeysOnce m → HasKeysOnce (insert_entry id p m)
unfolding insert_entry
insert_entry-HasKeysOnce id p m h = (find-left_after_self id m h, left_after-HasKeysOnce id m h)

pub waiting-insert_entry :
    (id : String) (p : Pending) (m : Map)
    → HasKeysOnce m
    → waiting (insert_entry id p m) ≡ update id (some p) (waiting m)
unfolding insert_entry take_entry
waiting-insert_entry id p m h =
    fun_ext
      λ j. ground (arith, find-left_after j id m, find-cons j id p (left_after (take_entry id m) m))

pub waiting-left_after :
    (id : String) (m : Map)
    → HasKeysOnce m
    → waiting (left_after (take_entry id m) m) ≡ update id none (waiting m)
waiting-left_after id m h = fun_ext λ j. elim (Bool-cases (str_eq id j)) [
  | inl e ↦ rw (e) (
      ap (λ i. find i (left_after (take_entry id m) m)) (sym (str_eq_iff_true id j e))
      ∙ find-left_after_self id m h)
  | inr e ↦ rw (e) (find-left_after j id m e)
]

-- A caller is counted among the slots exactly if it waits.
pub count-find :
    (id : String) (p : Pending) (m : Map) → find id m ≡ some p → 1 ≤ count p.reply (slots m)
unfolding take_entry
count-find id p [] h = absurd (cc)
count-find id p ((j, q) ∷ m) h = ground (arith, count-find id p m)

pub find-count :
    (k : ℕ) (m : Map)
    → HasKeysOnce m
    → 1 ≤ count k (slots m)
    → (id : String) × (p : Pending) × (find id m ≡ some p) × (p.reply ≡ k)
find-count k [] h c = absurd (omega arith)
find-count k ((j, p) ∷ m) h c = elim (Bool-cases (p.reply == k)) [
  | inl e ↦ (j, p, find-cons j j p m ∙ rw (str_eq_refl j) refl, (==_iff p.reply k).0 e)
  | inr e ↦
      let (id, q, held, same) = find-count k m h.1 (ground arith) in
      (id, q, find-cons id j p m ∙ ground (arith, eq_iff j id, h.0), same)
]
