-- ===== src/Tests/Scan.antt =====
-- The traversal of the output directory at concrete trees.
use r_sandbox.Prelude.{
  ◌≤◌, ◌+◌, arith, ◌≡◌, refl, true, false, none, some, [], ◌∷◌, Text, lit, ok, value_error,
}
use r_sandbox.Prelude.Int.{ℤ, pos}
use r_sandbox.Observe.Manifest.{OutputManifest, OutputEntry}
use r_sandbox.Observe.Manifest.Scan.{
  Item, link, regular, directory, Listing, no_more, child, CaptureLimits, scanned, over_limit,
  scan_raised, capture_output_manifest, require_limits, limits_of, capture_options,
}
use r_sandbox.Observe.Manifest.Scan.Laws.{IsComplete, capture_output_manifest-IsComplete}
use r_sandbox.Observe.Manifest.Scan.Counts.{files_in, bytes_in}
use r_sandbox.Observe.Manifest.Scan.Room.{directories_in, plain_listing, answers}
use r_sandbox.Observe.Manifest.Scan.Reads.{capture_output_manifest-scanned}
use r_sandbox.Tests.Data.{policy_run}

abbrev a_file : ℤ → Item
a_file size = regular (record { size = size; modified_ns = pos 7; digest = ok none })

-- z.txt, and b.txt in a directory.
abbrev contents : Listing
contents =
    child (lit "z.txt") (a_file (pos 4))
      (child (lit "a") (directory true (child (lit "b.txt") (a_file (pos 3)) no_more)) no_more)

abbrev tree : Item
tree = directory true contents

abbrev small : CaptureLimits
small = record {
  max_hash_bytes = pos 10;
  max_files = pos 2;
  max_directories = pos 2;
  max_total_bytes = pos 7;
  max_depth = pos 1;
}

abbrev entry : Text → ℤ → OutputEntry
entry path size = record {
  path = path;
  kind = lit "file";
  size = size;
  modified_ns = pos 7;
  sha256 = none;
}

abbrev listing : OutputManifest
listing = record {
  root = lit "/out";
  existing = true;
  entries = entry (lit "a/b.txt") (pos 3) ∷ entry (lit "z.txt") (pos 4) ∷ [];
}

captures : capture_output_manifest (lit "/out") false small (some tree) ≡ scanned listing
unfolding policy_run capture_output_manifest require_limits limits_of
captures = refl

too_much :
    capture_output_manifest
      (lit "/out")
      false
      (record small { max_total_bytes = pos 6 })
      (some tree)
    ≡ over_limit (record { limit_name = lit "max_total_bytes"; limit = 6; observed = 7 })
unfolding policy_run capture_output_manifest require_limits limits_of
too_much = refl

refuses_link :
    capture_output_manifest
      (lit "/out")
      false
      small
      (some (directory true (child (lit "l") link no_more)))
    ≡ scan_raised (value_error (lit "output manifest refuses link, junction, or reparse entry: l"))
unfolding policy_run capture_output_manifest require_limits limits_of
refuses_link = refl

capture_output_manifest-IsComplete_example : IsComplete small (some tree) listing
capture_output_manifest-IsComplete_example =
    capture_output_manifest-IsComplete (lit "/out") false small (some tree) listing captures

small_limits : require_limits (limits_of small) ≡ scanned tt
unfolding require_limits limits_of
small_limits = refl

is_plain : plain_listing (capture_options (lit "/out") false small) 1 0 contents ≡ true
unfolding plain_listing capture_options answers
is_plain = refl

files_fit : files_in contents ≤ 2
unfolding files_in
files_fit = omega arith

bytes_fit : bytes_in contents ≤ 7
unfolding bytes_in
bytes_fit = omega arith

directories_fit : 1 + directories_in contents ≤ 2
unfolding directories_in
directories_fit = omega arith

capture_output_manifest-scanned_example :
    (m : OutputManifest) × (capture_output_manifest (lit "/out") false small (some tree)
      ≡ scanned m)
capture_output_manifest-scanned_example =
    capture_output_manifest-scanned (lit "/out") false small contents small_limits is_plain
      files_fit bytes_fit directories_fit
