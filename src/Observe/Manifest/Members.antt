-- ===== src/Observe/Manifest/Members.antt =====
-- Membership in lists of texts that are appended, sorted, filtered or freed of repetitions.
use r_sandbox.Prelude.{
  ◌≡◌, refl, sym, ap, ◌∙◌, Bool, not, ◌&&◌, ◌||◌, List, [], ◌∷◌, ◌++◌, Text, same, same→eq, one_of,
  filter, unique, insert, sort_texts, arith, Bool-cases, inl, inr,
}

pub one_of-append :
    (p : Text) (xs ys : List Text) → one_of p (xs ++ ys) ≡ one_of p xs || one_of p ys
unfolding one_of
one_of-append p [] ys = refl
one_of-append p (x ∷ xs) ys = ground (arith, one_of-append p xs ys)

one_of-insert : (p t : Text) (us : List Text) → one_of p (insert t us) ≡ same p t || one_of p us
unfolding one_of insert
one_of-insert p t [] = refl
one_of-insert p t (u ∷ us) = ground (arith, one_of-insert p t us)

pub one_of-sort_texts : (p : Text) (ts : List Text) → one_of p (sort_texts ts) ≡ one_of p ts
unfolding one_of sort_texts
one_of-sort_texts p [] = refl
one_of-sort_texts p (t ∷ ts) =
    one_of-insert p t (sort_texts ts) ∙ ap (λ b. same p t || b) (one_of-sort_texts p ts)

pub one_of-filter :
    (f : Text → Bool) (p : Text) (xs : List Text) → one_of p (filter f xs) ≡ one_of p xs && f p
unfolding one_of
one_of-filter f p [] = refl
one_of-filter f p (x ∷ xs) = elim (Bool-cases (same p x)) [
  | inl here ↦
      let e : f x ≡ f p = ap f (sym (same→eq p x here)) in
      ground (arith, one_of-filter f p xs, e, here)
  | inr there ↦ ground (arith, one_of-filter f p xs, there)
]

pub one_of-unique :
    (p : Text) (seen xs : List Text)
    → one_of p (unique seen xs) ≡ one_of p xs && not (one_of p seen)
unfolding one_of unique
one_of-unique p seen [] = refl
one_of-unique p seen (t ∷ ts) = elim (Bool-cases (same p t)) [
  | inl here ↦
      let e : one_of t seen ≡ one_of p seen = ap (λ x. one_of x seen) (sym (same→eq p t here)) in
      ground (arith, one_of-unique p seen ts, one_of-unique p (t ∷ seen) ts, e, here)
  | inr there ↦ ground (arith, one_of-unique p seen ts, one_of-unique p (t ∷ seen) ts, there)
]
