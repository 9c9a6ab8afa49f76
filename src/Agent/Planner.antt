-- ===== src/Agent/Planner.antt =====
-- src/r_sandbox/agent/planner.py: the choice of an entrypoint, the checks of its argv, and the plan.
pub mod Laws
use r_sandbox.Prelude.{
  ℕ, Bool, true, false, not, ◌&&◌, ◌||◌, Option, none, some, List, [], ◌∷◌, ◌++◌, ◌*◌, ◌^◌, Text,
  lit, ltb, ◌==◌, if◌then◌else◌, length, is_empty, any, same, one_of, has_infix, has_char, split,
  replace_char, decimal, value_error, Result, ok, err, ◌>>=◌, ◌>>◌, raise_if,
}
use r_sandbox.Prelude.Int.{ℤ, integer_text}
use r_sandbox.Prelude.Float.{Float, finite, le_float, lt_float, zero_float}
use r_sandbox.Prelude.Paths.{PosixPath, posix_path, has_part, join}
use r_sandbox.Python.{Python}
use r_sandbox.Models.Records.{
  Entrypoint, RepositoryProfile, CapabilityRequest, PlanStep, ExecutionPlan,
}

unfoldable pub executables : List Text
executables = lit "python" ∷ lit "python3" ∷ []

unfoldable pub control_tokens : List Text
control_tokens =
    lit ";" ∷ lit "&&" ∷ lit "||" ∷ lit "|" ∷ lit ">" ∷ lit ">>" ∷ lit "<" ∷ lit "`" ∷ []

-- The flags that keep the audit hook out of the interpreter.
unfoldable pub audit_flags : List Text
audit_flags = lit "-S" ∷ lit "-I" ∷ lit "-E" ∷ []

last_or : Text → List Text → Text
last_or t [] = t
last_or t (u ∷ us) = last_or u us

-- `PurePosixPath(text).name`
unfoldable pub name_of : Text → Text
unfolding last_or
name_of t = last_or [] (posix_path t).names

-- One round of the loop of `_validate_argv`.
unfoldable pub validate_argument : Text → Result (Unit {0})
validate_argument t = do
  raise_if (is_empty t || (has_char 10 t || has_char 13 t))
      (value_error (lit "Empty or multiline command arguments are forbidden."))
  raise_if (one_of t control_tokens || has_infix (lit "$(") t)
      (value_error (lit "Shell control syntax is forbidden; plans are argv-only."))
  raise_if (one_of t audit_flags)
      (value_error (lit "Python flags that bypass the shadow audit layer are forbidden."))
  raise_if (has_part (lit "..") (posix_path (replace_char 92 b'/' t)))
      (value_error (lit "Parent traversal is forbidden in command arguments."))

unfoldable pub validate_arguments : List Text → Result (Unit {0})
unfolding validate_argument
validate_arguments [] = ok tt
validate_arguments (t ∷ ts) = do validate_argument t; validate_arguments ts

-- `_validate_argv`
unfoldable pub validate_argv : Python → List Text → Result (List Text)
unfolding name_of validate_arguments
validate_argv P [] = err (value_error (lit "An execution plan requires a non-empty argv."))
validate_argv P (argv0 ∷ rest) =
    let executable = P.lower (name_of (replace_char 92 b'/' argv0)) in
    do
      raise_if (not (one_of executable executables))
          (value_error (lit "Unsupported entrypoint executable: " ++ executable))
      validate_arguments (argv0 ∷ rest)
      ok (argv0 ∷ rest)

nonempty : List Text → Bool
nonempty [] = false
nonempty (t ∷ ts) = true

-- `PurePosixPath(text).stem`: the name without its last suffix, if there is one behind a first
-- character and before a last one. `stem_from` reads the pieces of the name between its dots.
stem_from : Text → List Text → List Text → Text
stem_from name before [] = name
stem_from name before (last ∷ []) =
    if is_empty last || is_empty (join (lit ".") before) then name else join (lit ".") before
stem_from name before (t ∷ u ∷ ts) = stem_from name (before ++ t ∷ []) (u ∷ ts)

unfoldable pub stem_of : Text → Text
unfolding name_of stem_from
stem_of t = stem_from (name_of t) [] (split b'.' (name_of t))

-- `intent_markers.get(stem, set())`
unfoldable pub intent_markers : Text → List Text
intent_markers stem =
    if same stem (lit "train")
    then lit "train" ∷ lit "fit" ∷ lit "학습" ∷ []
    else if same stem (lit "evaluate")
    then lit "evaluate" ∷ lit "evaluation" ∷ lit "benchmark" ∷ lit "평가" ∷ lit "재현" ∷ []
    else if same stem (lit "eval")
    then lit "evaluate" ∷ lit "evaluation" ∷ lit "benchmark" ∷ lit "평가" ∷ []
    else if same stem (lit "predict")
    then lit "predict" ∷ lit "prediction" ∷ lit "예측" ∷ []
    else if same stem (lit "infer")
    then lit "infer" ∷ lit "inference" ∷ lit "추론" ∷ []
    else if same stem (lit "preprocess")
    then lit "preprocess" ∷ lit "prepare" ∷ lit "전처리" ∷ []
    else if same stem (lit "test")
    then lit "test" ∷ lit "verify" ∷ lit "검증" ∷ []
    else []

-- The double nearest to 0.3.
goal_bonus : Float
goal_bonus = finite false (5404319552844595 * 2 ^ 1020)

-- `candidate.confidence + goal_bonus`, the first part of the key of a candidate.
unfoldable pub score : Python → Text → Entrypoint → Float
unfolding stem_of intent_markers goal_bonus
score P goal e = P.add_float e.confidence (
    if any (λ marker. has_infix marker goal) (intent_markers (P.lower (stem_of e.path)))
    then goal_bonus
    else zero_float)

unfoldable pub lt_text : Text → Text → Bool
lt_text [] [] = false
lt_text [] (d ∷ u) = true
lt_text (c ∷ t) [] = false
lt_text (c ∷ t) (d ∷ u) = ltb c d || (c == d && lt_text t u)

eq_float : Float → Float → Bool
eq_float a b = le_float a b && le_float b a

-- The key of `c` is greater than the key of `e`: the first parts that differ decide.
unfoldable pub exceeds : Python → Text → Entrypoint → Entrypoint → Bool
unfolding score eq_float lt_text
exceeds P goal c e =
    if not (eq_float (score P goal c) (score P goal e))
    then lt_float (score P goal e) (score P goal c)
    else if not (eq_float c.confidence e.confidence)
    then lt_float e.confidence c.confidence
    else lt_text e.path c.path

-- `max(candidates, key=score)`: the first of the greatest.
unfoldable pub best : Python → Text → Entrypoint → List Entrypoint → Entrypoint
unfolding exceeds
best P goal e [] = e
best P goal e (c ∷ cs) =
    let kept = best P goal e cs in
    let taken = best P goal c cs in if exceeds P goal c e then taken else kept

unfoldable pub select_among : Python → Text → List Entrypoint → Option Entrypoint
unfolding best
select_among P goal [] = none
select_among P goal (e ∷ es) = some (best P goal e es)

-- `select_entrypoint`
unfoldable pub select_entrypoint : Python → RepositoryProfile → Option Entrypoint
unfolding select_among
select_entrypoint P profile = select_among P (P.lower profile.goal) profile.entrypoints

-- `entrypoint or self.select_entrypoint(profile)`
chosen : Option Entrypoint → Option Entrypoint → Option Entrypoint
chosen none selected = selected
chosen (some e) selected = some e

unfoldable pub empty_plan : RepositoryProfile → ℤ → ExecutionPlan
empty_plan profile attempt = record {
  goal = profile.goal;
  summary = lit "Repository understood, but no safe executable entrypoint was inferred.";
  steps = [];
  assumptions = lit "README commands are treated as evidence and are never executed directly." ∷ [];
  attempt = attempt;
}

unfoldable pub step_of :
    RepositoryProfile → List CapabilityRequest → ℤ → Entrypoint → List Text → PlanStep
unfolding integer_text
step_of profile capabilities attempt e argv = record {
  step_id = lit "execute-entrypoint-" ++ integer_text attempt;
  purpose = lit "Run " ++ e.path ++ lit " to pursue: " ++ profile.goal;
  argv = argv;
  cwd = lit "/workspace";
  capabilities = capabilities;
}

plan_of : RepositoryProfile → List CapabilityRequest → ℤ → Entrypoint → List Text → ExecutionPlan
plan_of profile capabilities attempt e argv = record {
  goal = profile.goal;
  summary = lit "Execute one statically identified entrypoint in a least-authority sandbox.";
  steps = step_of profile capabilities attempt e argv ∷ [];
  assumptions =
      lit "The repository is untrusted and mounted read-only."
      ∷ lit
          "Only the fresh /output host bind is persistently writable; bounded /tmp and /dev/shm are ephemeral."
      ∷ lit "Network and host secrets remain unavailable unless separately authorized."
      ∷ [];
  attempt = attempt;
}

plan_with :
    Python
    → RepositoryProfile
    → List CapabilityRequest
    → ℤ
    → Option Entrypoint
    → Result ExecutionPlan
unfolding plan_of validate_argv
plan_with P profile capabilities attempt none = ok (empty_plan profile attempt)
plan_with P profile capabilities attempt (some e) = do
  argv ← validate_argv P e.argv
  ok (plan_of profile capabilities attempt e argv)

-- `ResearchPlanner.plan`
unfoldable pub plan :
    Python
    → RepositoryProfile
    → List CapabilityRequest
    → ℤ
    → Option Entrypoint
    → Result ExecutionPlan
unfolding plan_with empty_plan chosen select_entrypoint
plan P profile capabilities attempt entrypoint =
    if is_empty profile.entrypoints
    then ok (empty_plan profile attempt)
    else plan_with P profile capabilities attempt (chosen entrypoint (select_entrypoint P profile))
