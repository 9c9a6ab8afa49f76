-- ===== src/Observe/Reflect.antt =====
-- src/r_sandbox/agent/reflection.py: `reflect`, the reading of a run by its output.
use r_sandbox.Prelude.{
  true, false, ◌&&◌, ◌||◌, List, [], ◌∷◌, ◌++◌, Text, lit, if◌then◌else◌, has_infix,
}
use r_sandbox.Python.{Python}
use r_sandbox.Models.Enums.{is_runtime_unavailable}
use r_sandbox.Models.Records.{ExecutionResult, Reflection}
use r_sandbox.Models.Canonical.{is_zero_exit}
use r_sandbox.Observe.Classes.{exits_with}

-- A reflection without a retry.
final : Text → Text → List Text → Reflection
final classification explanation changes = record {
  classification = classification;
  explanation = explanation;
  should_retry = false;
  plan_changes = changes;
}

switch_interpreter : Reflection
switch_interpreter = record {
  classification = lit "command";
  explanation = lit "The image does not expose the selected Python executable.";
  should_retry = true;
  plan_changes = lit "Switch the interpreter token between python and python3." ∷ [];
}

-- The output that `reflect` searches.
unfoldable pub output_text : Python → ExecutionResult → Text
output_text P r = P.lower (r.stderr ++ (10 ∷ r.stdout))

-- `ReflectionAgent.reflect`
unfoldable pub reflect : Python → ExecutionResult → Reflection
unfolding final switch_interpreter
reflect P r =
    let text = output_text P r in
    if is_runtime_unavailable r.status
    then final (lit "runtime_unavailable") (lit "The configured isolated runtime is unavailable.")
        []
    else if has_infix (lit "permission denied") text || has_infix (lit "read-only file system") text
    then final (lit "permission")
        (lit
          "Execution requested an authority not present in the contract; it was not widened automatically.")
        []
    else if has_infix (lit "no module named") text || has_infix (lit "modulenotfounderror") text
    then final (lit "dependency")
        (lit
          "A dependency is missing. Installation needs a new reviewed plan and possibly network approval.")
        (lit "Resolve dependencies in an immutable image rather than modifying the repository."
          ∷ [])
    else if has_infix (lit "command not found") text && has_infix (lit "python") text
    then switch_interpreter
    else if has_infix (lit "out of memory") text
        || (exits_with 137 r.exit_code || exits_with 143 r.exit_code)
    then final (lit "resource")
        (lit
          "The process exceeded a resource or time boundary; limits were not raised automatically.")
        []
    else if is_zero_exit r.exit_code
    then final (lit "success") (lit "The bounded execution completed successfully.") []
    else final (lit "execution")
        (lit "The command failed without a recognized safe automatic recovery.") []
