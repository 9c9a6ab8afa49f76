-- ===== src/Agent/Environment.antt =====
-- src/r_sandbox/agent/environment_planner.py: the plan of the environment.
use r_sandbox.Prelude.{
  ℕ, ◌-◌, ◌+◌, ◌≡◌, ◌↔◌, refl, ap, ◌∙◌, same_refl, ==_iff, Bool, true, not, ◌&&◌, ◌||◌, List, [],
  ◌∷◌, ◌++◌, arith, Text, lit, leb, ◌==◌, length, length-append, is_empty, all, when, take, drop,
  filter, same, same→eq, starts_with, strip, decimal,
}
use r_sandbox.Models.Enums.{EnvironmentReadiness, no_declared_dependencies, prebuilt_image_required}
use r_sandbox.Models.Records.{Dependency, RepositoryProfile, EnvironmentPlan}

unfoldable pub is_hex : ℕ → Bool
is_hex c = (leb b'0' c && leb c b'9') || ((leb b'a' c && leb c b'f') || (leb b'A' c && leb c b'F'))

unfoldable pub pin_mark : Text
pin_mark = lit "@sha256:"

-- `_DIGEST_PIN.search`: the text ends in the mark and 64 hexadecimal digits.
unfoldable pub is_pinned : Text → Bool
unfolding pin_mark
is_pinned image =
    let tail = drop (length image - 72) image in
    length tail == 72 && (same (take 8 tail) pin_mark && all is_hex (drop 8 tail))

unpinned : List Dependency → List Dependency
unpinned = filter (λ d. not (starts_with (strip d.specifier) (lit "==")))

unfoldable pub dependency_warnings : List Dependency → List Text
unfolding unpinned when
dependency_warnings [] =
    lit
      "No supported dependency declaration was found; this does not prove that the project uses only the Python standard library."
    ∷ []
dependency_warnings (d ∷ ds) =
    lit
      "Declared third-party dependencies are not installed automatically; provide a reviewed prebuilt image containing the exact dependency set."
    ∷ when (not (is_empty (unpinned (d ∷ ds)))) (
        decimal (length (unpinned (d ∷ ds)))
        ++ lit " declared dependency entry/entries are not exact == pins.")

unfoldable pub readiness_of : List Dependency → EnvironmentReadiness
readiness_of [] = no_declared_dependencies
readiness_of (d ∷ ds) = prebuilt_image_required

-- `EnvironmentPlanner.plan`
unfoldable pub environment_plan : RepositoryProfile → Text → EnvironmentPlan
unfolding is_pinned dependency_warnings readiness_of when
environment_plan profile image = record {
  runtime = lit "python";
  image = image;
  image_pinned = is_pinned image;
  readiness = readiness_of profile.dependencies;
  dependencies = profile.dependencies;
  warnings =
      when (not (is_pinned image))
        (lit "Container image is referenced by a mutable tag rather than a sha256 digest.")
      ++ dependency_warnings profile.dependencies;
}

take-drop : (n : ℕ) (t : Text) → t ≡ take n t ++ drop n t
take-drop ℕ.zero t = refl
take-drop (ℕ.suc n) [] = refl
take-drop (ℕ.suc n) (c ∷ t) = ap (λ x. c ∷ x) (take-drop n t)

length-drop : (n : ℕ) (t : Text) → length (drop n t) ≡ length t - n
length-drop ℕ.zero t = omega arith
length-drop (ℕ.suc n) [] = omega arith
length-drop (ℕ.suc n) (c ∷ t) = omega (arith, length-drop n t)

drop-append : (a b : Text) → drop (length a) (a ++ b) ≡ b
drop-append [] b = refl
drop-append (c ∷ a) b = drop-append a b

abbrev pub IsDigestName : Text → Type 0
IsDigestName image =
    (name digest : Text) × (image ≡ name ++ (pin_mark ++ digest))
    × (length digest ≡ 64)
    × (all is_hex digest ≡ true)

mark_parts :
    (digest : Text)
    → (take 8 (pin_mark ++ digest) ≡ pin_mark)
      × (drop 8 (pin_mark ++ digest) ≡ digest)
      × (length (pin_mark ++ digest) ≡ 8 + length digest)
unfolding pin_mark lit
mark_parts digest = (refl, refl, omega arith)

tail_of :
    (image name digest : Text)
    → image ≡ name ++ (pin_mark ++ digest)
    → length digest ≡ 64
    → drop (length image - 72) image ≡ pin_mark ++ digest
tail_of image name digest e l =
    let (_, _, size) = mark_parts digest in
    let start : length image - 72 ≡ length name =
      omega (arith, ap length e, length-append name (pin_mark ++ digest), size, l) in
    rw (start, e) (drop-append name (pin_mark ++ digest))

is_pinned_of_name : (image : Text) → IsDigestName image → is_pinned image ≡ true
unfolding is_pinned
is_pinned_of_name image (name, digest, e, l, hex) =
    let (mark, rest, size) = mark_parts digest in
    rw (tail_of image name digest e l, mark, rest, size, l, hex, same_refl pin_mark)

name_of_is_pinned : (image : Text) → is_pinned image ≡ true → IsDigestName image
unfolding is_pinned
name_of_is_pinned image h =
    let tail = drop (length image - 72) image in
    let mark : take 8 tail ≡ pin_mark = same→eq (take 8 tail) pin_mark (ground arith) in
    (
      take (length image - 72) image,
      drop 8 tail,
      take-drop (length image - 72) image
          ∙ ap (λ x. take (length image - 72) image ++ x)
              (take-drop 8 tail ∙ ap (λ x. x ++ drop 8 tail) mark),
      omega (arith, length-drop 8 tail, (==_iff (length tail) 72).0 (ground arith)),
      ground arith,
    )

-- An image is planned as pinned exactly if it is a name, the mark "@sha256:" and a digest of 64
-- hexadecimal digits.
pub environment_plan-image_pinned :
    (profile : RepositoryProfile) (image : Text)
    → ((environment_plan profile image).image_pinned ≡ true) ↔ IsDigestName image
unfolding environment_plan
environment_plan-image_pinned profile image = (name_of_is_pinned image, is_pinned_of_name image)
