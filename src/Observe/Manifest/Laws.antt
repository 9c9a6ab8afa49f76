-- ===== src/Observe/Manifest/Laws.antt =====
-- src/r_sandbox/tools/runtime_observer/manifest.py: what a comparison of two manifests reports.
use r_sandbox.Prelude.{
  ◌≡◌, refl, sym, ap, ◌∙◌, Bool, true, false, not, ◌&&◌, ◌||◌, Option, none, some, List, [], ◌∷◌,
  ◌++◌, map, Text, same, one_of, filter, sort_texts, if◌then◌else◌, arith,
}
use r_sandbox.Observe.Manifest.{
  OutputEntry, changed, later_or, entry_at, entry_paths, same_entry, differ, compare_entries,
}
use r_sandbox.Observe.Manifest.Members.{
  one_of-append, one_of-sort_texts, one_of-filter, one_of-unique,
}

abbrev pub has_entry : Option OutputEntry → Bool
has_entry none = false
has_entry (some e) = true

-- The entries of one path before and after are the same, or there is none.
abbrev pub same_state : Option OutputEntry → Option OutputEntry → Bool
same_state none none = true
same_state (some a) (some b) = same_entry a b
same_state _ _ = false

same_sym : (a b : Text) → same a b ≡ same b a
unfolding same
same_sym [] [] = refl
same_sym [] (d ∷ b) = refl
same_sym (c ∷ a) [] = refl
same_sym (c ∷ a) (d ∷ b) = ground (arith, same_sym a b)

has_entry-later_or :
    (o : Option OutputEntry) (b : Bool) (e : OutputEntry)
    → has_entry (later_or o (if b then some e else none)) ≡ b || has_entry o
unfolding later_or
has_entry-later_or none true e = refl
has_entry-later_or none false e = refl
has_entry-later_or (some x) true e = refl
has_entry-later_or (some x) false e = refl

one_of-map_path :
    (p : Text) (es : List OutputEntry) → one_of p (map (λ e. e.path) es) ≡ has_entry (entry_at p es)
unfolding one_of entry_at
one_of-map_path p [] = refl
one_of-map_path p (e ∷ es) =
    ap (λ b. b || one_of p (map (λ x. x.path) es)) (same_sym p e.path)
    ∙ ap (λ b. same e.path p || b) (one_of-map_path p es)
    ∙ sym (has_entry-later_or (entry_at p es) (same e.path p) e)

one_of-entry_paths :
    (p : Text) (es : List OutputEntry) → one_of p (entry_paths es) ≡ has_entry (entry_at p es)
unfolding entry_paths one_of
one_of-entry_paths p es =
    one_of-unique p [] (map (λ e. e.path) es)
    ∙ and_not_false (one_of p (map (λ e. e.path) es))
    ∙ one_of-map_path p es
  where
    and_not_false : (b : Bool) → b && not false ≡ b
    and_not_false b = ground arith

one_of-sorted :
    (f : Text → Bool) (p : Text) (xs : List Text)
    → one_of p (sort_texts (filter f xs)) ≡ one_of p xs && f p
one_of-sorted f p xs = one_of-sort_texts p (filter f xs) ∙ one_of-filter f p xs

states :
    (a b : Option OutputEntry)
    → (has_entry b && not (has_entry a))
        || ((has_entry a && (has_entry b && differ a b)) || (has_entry a && not (has_entry b)))
      ≡ not (same_state a b)
unfolding differ
states none none = refl
states none (some b) = refl
states (some a) none = refl
states (some a) (some b) = ground arith

-- A path is reported as changed exactly if its entry is another one: it is new, or gone, or has
-- another kind, size, time or digest. A path of neither manifest is not reported.
pub compare_entries-changed :
    (before after : List OutputEntry) (p : Text)
    → one_of p (changed (compare_entries before after))
      ≡ not (same_state (entry_at p before) (entry_at p after))
unfolding changed compare_entries
compare_entries-changed before after p =
    let d = compare_entries before after in
    one_of-append p d.created (d.modified ++ d.deleted)
    ∙ ap (λ b. one_of p d.created || b) (one_of-append p d.modified d.deleted)
    ∙ rw
        (
          one_of-sorted (λ q. not (one_of q (entry_paths before))) p (entry_paths after),
          one_of-sorted
              (λ q. one_of q (entry_paths after) && differ (entry_at q before) (entry_at q after)) p
              (entry_paths before),
          one_of-sorted (λ q. not (one_of q (entry_paths after))) p (entry_paths before),
          one_of-entry_paths p before,
          one_of-entry_paths p after,
        )
        (states (entry_at p before) (entry_at p after))
