-- ===== src/Builder/Laws/Output.antt =====
-- src/r_sandbox/tools/sandbox_builder/builder.py: what the output directory leaves behind.
use r_sandbox.Prelude.{
  ℕ, ◌≡◌, refl, sym, ap, ◌∙◌, subst, ◌⊎◌, inl, inr, Bool, true, false, not, arith, raise_if-eq-ok,
  invert_guard, Option, none, some, List, [], ◌∷◌, Text, Result, Raised, os_error, ok, err,
}
use r_sandbox.System.{
  made_directory, removed_directory, assigned_directory, Trace, lift, ask, continue, ◌then_run◌,
  Metadata, Lookup, missing, unreadable, found, Mkdir, created, exists, refused, Host,
}
use r_sandbox.System.Laws.{then_run-trace, ask-trace, invert_run, invert_ask}
use r_sandbox.Builder.Output.{
  is_link_or_reparse, check_directory, resolved_or, assign_to, runtime_identity,
  prepare_new_output_identity, finish_directory, inspect_directory, clean_up, after_mkdir,
  with_parents, prepare_directory, output_directory,
}

-- Nothing, or the assignment of the directory alone.
abbrev pub AtMostAssigned : Text → Trace → Trace → Type 0
AtMostAssigned c t t' = (t' ≡ t) ⊎ (t' ≡ assigned_directory c ∷ t)

assign_to-AtMostAssigned :
    (H : Host) (c : Text) (o : Option (ℕ × ℕ)) (t : Trace)
    → AtMostAssigned c t (assign_to H c o t).1
unfolding assign_to
assign_to-AtMostAssigned H c none t = inl refl
assign_to-AtMostAssigned H c (some identity) t = inr refl

prepare-AtMostAssigned :
    (H : Host) (c : Text) (t : Trace) → AtMostAssigned c t (prepare_new_output_identity H c t).1
unfolding prepare_new_output_identity
prepare-AtMostAssigned H c t = assign_to-AtMostAssigned H c (runtime_identity H.user) t

module _ (H : Host) (path c : Text) where
  finish-trace : (t : Trace) → (finish_directory H path c t).1 ≡ t
  unfolding finish_directory lift
  finish-trace t =
      ask-trace (λ t'. t' ≡ t) _ _ t refl λ resolved. ask-trace (λ t'. t' ≡ t) _ _ t refl λ u. refl

  -- A directory that was there before is left alone.
  inspect-trace : (t : Trace) → (inspect_directory H path c false t).1 ≡ t
  unfolding inspect_directory lift
  inspect-trace t =
      ask-trace (λ t'. t' ≡ t) _ _ t refl
        λ u.
          then_run-trace (λ t'. t' ≡ t) (lift (ok tt)) _ t refl
            λ v t' e. finish-trace t' ∙ sym (ap (λ x. x.1) e)

  pub inspect-AtMostAssigned :
      (new : Bool) (t : Trace) → AtMostAssigned c t (inspect_directory H path c new t).1
  unfolding inspect_directory
  inspect-AtMostAssigned true t = ask-trace (AtMostAssigned c t) _ _ t (inl refl) λ u.
      then_run-trace (AtMostAssigned c t) (prepare_new_output_identity H c) _ t
        (prepare-AtMostAssigned H c t)
        λ v t' e.
          rw (finish-trace t')
            (subst (λ x. AtMostAssigned c t x.1) e (prepare-AtMostAssigned H c t))
  inspect-AtMostAssigned false t = inl (inspect-trace t)

-- The directory was made, perhaps assigned, and removed again.
abbrev pub IsUndone : Trace → Trace → Type 0
IsUndone t t' =
    (c : Text) × (made : Trace) × AtMostAssigned c (made_directory c ∷ t) made
    × (t' ≡ removed_directory c ∷ made)

clean_up-err :
    (c : Text) (r : Result Text × Trace) (e : Raised) (t' : Trace)
    → clean_up c r ≡ (err e, t')
    → t' ≡ removed_directory c ∷ r.1
unfolding clean_up
clean_up-err c (ok p, t) e t' h = cc h
clean_up-err c (err x, t) e t' h = sym (ap (λ x. x.1) h)

module _ (H : Host) (path : Text) where
  after_mkdir-err :
      (new : Bool) (c : Text) (t : Trace) (m : Mkdir) (e : Raised) (t' : Trace)
      → after_mkdir H path new c t m ≡ (err e, t')
      → (t' ≡ t) ⊎ IsUndone t t'
  unfolding after_mkdir
  after_mkdir-err new c t created e t' h =
      inr
        (c, _, inspect-AtMostAssigned H path c true (made_directory c ∷ t), clean_up-err c _ e t' h)
  after_mkdir-err true c t exists e t' h = inl (sym (ap (λ x. x.1) h))
  after_mkdir-err false c t exists e t' h = inl (sym (ap (λ x. x.1) h) ∙ inspect-trace H path c t)
  after_mkdir-err new c t refused e t' h = inl (sym (ap (λ x. x.1) h))

  -- A preparation of the output that raises leaves nothing behind but the missing parents that
  -- `mkdir` made, or has called for the removal of the one directory that it made below them.
  pub output_directory-err :
      (new : Bool) (t t' : Trace) (e : Raised)
      → output_directory H path new t ≡ (err e, t')
      → (parents : List Text) × ((t' ≡ with_parents parents t)
          ⊎ IsUndone (with_parents parents t) t')
  unfolding output_directory prepare_directory with_parents ◌then_run◌ ask continue
  output_directory-err new t t' e h = go (resolved_or (os_error path) (H.resolve t path)) h
    where
      go :
          (r : Result Text)
          → continue (λ c s. prepare_directory H path new c s (H.mkdir s c)) (r, t) ≡ (err e, t')
          → (parents : List Text) × ((t' ≡ with_parents parents t)
              ⊎ IsUndone (with_parents parents t) t')
      go (ok c) k = (
        (H.mkdir t c).0,
        after_mkdir-err new c (with_parents (H.mkdir t c).0 t) (H.mkdir t c).1 e t' k,
      )
      go (err x) k = ([], inl (sym (ap (λ x. x.1) k)))

  resolved_or-eq : (e : Raised) (o : Option Text) {p : Text} → resolved_or e o ≡ ok p → o ≡ some p
  unfolding resolved_or
  resolved_or-eq e none h = absurd (cc h)
  resolved_or-eq e (some q) h = cc h

  finish-resolved :
      (c p : Text) (t t' : Trace)
      → finish_directory H path c t ≡ (ok p, t')
      → (H.resolve_existing t c ≡ some p) × (t' ≡ t)
  unfolding finish_directory lift
  finish-resolved c p t t' h = invert_ask _ _ t h λ q e h1. invert_ask _ _ t h1 λ u access h2.
      (resolved_or-eq _ (H.resolve_existing t c) (e ∙ ap (λ x. x.0) h2), sym (ap (λ x. x.1) h2))

  -- The directory as it was inspected: no link, and a directory.
  abbrev pub IsPlain : Lookup → Type 0
  IsPlain l = (m : Metadata) × (l ≡ found m) × (m.link ≡ false) × (m.directory ≡ true)

  check_directory-IsPlain :
      (c : Text) (l : Lookup) {u : Unit {0}} → check_directory path c l ≡ ok u → IsPlain l
  unfolding check_directory is_link_or_reparse
  check_directory-IsPlain c (found m) h =
      invert_guard _ _ h λ own h1. (m, refl, ground (arith, own), not_not (raise_if-eq-ok _ _ h1))
    where
      not_not : {b : Bool} → not b ≡ false → b ≡ true
      not_not {b} e = ground arith
  check_directory-IsPlain c missing h = absurd (cc h)
  check_directory-IsPlain c unreadable h = absurd (cc h)

  inspect-IsPlain :
      (c p : Text) (t t' : Trace)
      → inspect_directory H path c true t ≡ (ok p, t')
      → IsPlain (H.lstat t c) × (H.resolve_existing t' c ≡ some p)
  unfolding inspect_directory
  inspect-IsPlain c p t t' h = invert_ask _ _ t h λ u plain h1.
      invert_run (prepare_new_output_identity H c) _ t h1 λ v s prepared h2.
        let (e, same_trace) = finish-resolved c p s t' h2 in
        (
          check_directory-IsPlain c (H.lstat t c) plain,
          subst (λ x. H.resolve_existing x c ≡ some p) (sym same_trace) e,
        )

  clean_up-eq :
      (c p : Text) (r : Result Text × Trace) (t' : Trace)
      → clean_up c r ≡ (ok p, t')
      → r ≡ (ok p, t')
  unfolding clean_up
  clean_up-eq c p (ok q, t) t' h = h
  clean_up-eq c p (err x, t) t' h = absurd (cc h)

  -- A directory `p` that was made fresh at the candidate `c`, by the one call of `mkdir` from `t`.
  pub record IsFresh (t t' : Trace) (p c : Text) : Type 0 where
    pub candidate : H.resolve t path ≡ some c
    pub made : (H.mkdir t c).1 ≡ created
    pub effects : AtMostAssigned c (made_directory c ∷ with_parents (H.mkdir t c).0 t) t'
    pub plain : IsPlain (H.lstat (made_directory c ∷ with_parents (H.mkdir t c).0 t) c)
    pub resolved : H.resolve_existing t' c ≡ some p

  after_mkdir-made :
      (c p : Text) (t t' : Trace) (m : Mkdir)
      → after_mkdir H path true c t m ≡ (ok p, t')
      → (m ≡ created) × (inspect_directory H path c true (made_directory c ∷ t) ≡ (ok p, t'))
  unfolding after_mkdir
  after_mkdir-made c p t t' created h = (refl, clean_up-eq c p _ t' h)
  after_mkdir-made c p t t' exists h = absurd (cc h)
  after_mkdir-made c p t t' refused h = absurd (cc h)

  -- With `require_new`, the directory that is returned is where the path resolved to: this very
  -- call made it, it was no link when it was inspected, nothing was removed since, and the returned
  -- path is its resolution at the end.
  pub output_directory-IsFresh :
      (t t' : Trace) (p : Text)
      → output_directory H path true t ≡ (ok p, t')
      → (c : Text) × IsFresh t t' p c
  unfolding output_directory prepare_directory
  output_directory-IsFresh t t' p h = invert_ask _ _ t h λ c e h1.
      let start = with_parents (H.mkdir t c).0 t in
      let (made, inspected) = after_mkdir-made c p start t' (H.mkdir t c).1 h1 in
      let (plain, resolved) = inspect-IsPlain c p (made_directory c ∷ start) t' inspected in
      (
        c,
        record {
          candidate = resolved_or-eq _ (H.resolve t path) e;
          made = made;
          effects =
              subst (AtMostAssigned c (made_directory c ∷ start)) (ap (λ x. x.1) inspected)
                (inspect-AtMostAssigned H path c true (made_directory c ∷ start));
          plain = plain;
          resolved = resolved;
        },
      )
