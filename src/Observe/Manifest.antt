-- ===== src/Observe/Manifest.antt =====
-- src/r_sandbox/tools/runtime_observer/manifest.py: manifests of the output directory, their
-- comparison, and the budget of a traversal.
pub mod Members
pub mod Laws
pub mod Scan
use r_sandbox.Prelude.{
  ℕ, ◌+◌, Bool, true, false, not, ◌&&◌, Option, none, some, List, [], ◌∷◌, ◌++◌, map, filter, Text,
  lit, unique, sort_texts, ltb, if◌then◌else◌, same, one_of, value_error, Result, ok, ◌>>◌,
  raise_if,
}
use r_sandbox.Prelude.Int.{ℤ, eqb_ℤ, pos_part}
use r_sandbox.Prelude.Paths.{posix_path, path_text}

pub record OutputEntry : Type 0 where
  pub path : Text
  pub kind : Text
  pub size : ℤ
  pub modified_ns : ℤ
  pub sha256 : Option Text

pub record OutputManifest : Type 0 where
  pub root : Text
  pub existing : Bool
  pub entries : List OutputEntry

pub record ManifestDiff : Type 0 where
  pub created : List Text
  pub modified : List Text
  pub deleted : List Text

-- `ManifestDiff.changed`
unfoldable pub changed : ManifestDiff → List Text
changed d = d.created ++ (d.modified ++ d.deleted)

unfoldable pub later_or : Option OutputEntry → Option OutputEntry → Option OutputEntry
later_or none e = e
later_or (some later) e = some later

-- `manifest.as_map().get(path)`: a later entry replaces an earlier one.
unfoldable pub entry_at : Text → List OutputEntry → Option OutputEntry
entry_at path [] = none
entry_at path (e ∷ es) = later_or (entry_at path es) (if same e.path path then some e else none)

-- `manifest.as_map().keys()`
unfoldable pub entry_paths : List OutputEntry → List Text
entry_paths es = unique [] (map (λ e. e.path) es)

same_digest : Option Text → Option Text → Bool
same_digest none none = true
same_digest (some a) (some b) = same a b
same_digest _ _ = false

unfoldable pub same_entry : OutputEntry → OutputEntry → Bool
unfolding same_digest
same_entry a b =
    same a.path b.path
    && (same a.kind b.kind
        && (eqb_ℤ a.size b.size
            && (eqb_ℤ a.modified_ns b.modified_ns && same_digest a.sha256 b.sha256)))

unfoldable pub differ : Option OutputEntry → Option OutputEntry → Bool
unfolding same_entry
differ (some a) (some b) = not (same_entry a b)
differ _ _ = false

unfoldable pub compare_entries : (before after : List OutputEntry) → ManifestDiff
unfolding entry_paths differ
compare_entries before after =
    let old = entry_paths before in
    let new = entry_paths after in
    record {
      created = sort_texts (filter (λ p. not (one_of p old)) new);
      modified =
          sort_texts
            (filter (λ p. one_of p new && differ (entry_at p before) (entry_at p after)) old);
      deleted = sort_texts (filter (λ p. not (one_of p new)) old);
    }

-- `diff_output_manifests`
unfoldable pub diff_output_manifests : (before after : OutputManifest) → Result ManifestDiff
unfolding compare_entries
diff_output_manifests before after = do
  raise_if (not (same (path_text (posix_path before.root)) (path_text (posix_path after.root))))
      (value_error (lit "cannot compare manifests from different output roots"))
  ok (compare_entries before.entries after.entries)

-- `ManifestLimitExceeded`, without the path.
pub record LimitExceeded : Type 0 where
  pub limit_name : Text
  pub limit : ℕ
  pub observed : ℕ

pub record ManifestBudget : Type 0 where
  pub max_files : ℕ
  pub max_directories : ℕ
  pub max_total_bytes : ℕ
  pub max_depth : ℕ
  pub files : ℕ
  pub directories : ℕ
  pub total_bytes : ℕ

pub data Charged : Type 0 where
  within : ManifestBudget → Charged
  beyond : LimitExceeded → Charged

-- `_ManifestBudget.enter_directory`
unfoldable pub enter_directory : ManifestBudget → ℕ → Charged
enter_directory b depth =
    if ltb b.max_depth depth
    then beyond (record { limit_name = lit "max_depth"; limit = b.max_depth; observed = depth })
    else if ltb b.max_directories (b.directories + 1)
    then beyond (record {
      limit_name = lit "max_directories";
      limit = b.max_directories;
      observed = b.directories + 1;
    })
    else within (record b { directories = b.directories + 1 })

-- `_ManifestBudget.add_entry`
unfoldable pub add_entry : ManifestBudget → ℤ → Charged
add_entry b size =
    if ltb b.max_files (b.files + 1)
    then beyond
        (record { limit_name = lit "max_files"; limit = b.max_files; observed = b.files + 1 })
    else if ltb b.max_total_bytes (b.total_bytes + pos_part size)
    then beyond (record {
      limit_name = lit "max_total_bytes";
      limit = b.max_total_bytes;
      observed = b.total_bytes + pos_part size;
    })
    else within (record b { files = b.files + 1; total_bytes = b.total_bytes + pos_part size })
