-- ===== src/Observe/Manifest/Scan.antt =====
-- src/r_sandbox/tools/runtime_observer/manifest.py: the traversal of the output directory, on the
-- answers that the operating system gives to it.
pub mod Counts
pub mod Steps
pub mod Room
pub mod Reads
pub mod Laws
use r_sandbox.Prelude.{
  ℕ, suc, Bool, true, false, ◌&&◌, Result, ok, err, Option, none, some, List, [], ◌∷◌, ◌++◌, Text,
  lit, if◌then◌else◌, le_text, Raised, value_error, os_error,
}
use r_sandbox.Prelude.Int.{ℤ, pos, negsuc, pos_part, leb_ℤ}
use r_sandbox.Prelude.Paths.{posix_path, path_text, join}
use r_sandbox.Observe.Manifest.{
  OutputEntry, OutputManifest, LimitExceeded, ManifestBudget, Charged, within, beyond,
  enter_directory, add_entry,
}

pub data Scanned {ℓ} (A : Type ℓ) : Type ℓ where
  scanned : A → Scanned A
  over_limit : LimitExceeded → Scanned A
  scan_raised : Raised → Scanned A

infixl 5 ◌then_scan◌
unfoldable pub ◌then_scan◌ {ℓ κ} :
    {A : Type ℓ} {B : Type κ} → Scanned A → (A → Scanned B) → Scanned B
scanned a then_scan next = next a
over_limit e then_scan next = over_limit e
scan_raised e then_scan next = scan_raised e

-- A regular file: its status, and what `_bounded_sha256` returns or raises for it.
pub record FileStatus : Type 0 where
  pub size : ℤ
  pub modified_ns : ℤ
  pub digest : Result (Option Text)

-- What the traversal finds at a name: a status that cannot be read, a link or reparse point,
-- another special file, a regular file, or a directory with the answer of `_contained` and what
-- the iteration over it yields.
mutual
  pub data Item : Type 0 where
    unreadable : Raised → Item
    link special : Item
    regular : FileStatus → Item
    directory : (inside : Bool) → Listing → Item

  pub data Listing : Type 0 where
    no_more : Listing
    broken_off : Raised → Listing
    child : (name : Text) → Item → Listing → Listing

pub record ScanOptions : Type 0 where
  pub root : Text
  pub hash_files : Bool
  pub max_hash_bytes : ℕ

pub record Scan : Type 0 where
  pub budget : ManifestBudget
  pub entries : List OutputEntry

unfoldable pub charge : Scan → Charged → Scanned Scan
charge s (within b) = scanned (record s { budget = b })
charge s (beyond e) = over_limit e

unfoldable pub require_inside : ScanOptions → List Text → Bool → Scan → Scanned Scan
require_inside o path true s = scanned s
require_inside o path false s =
    let p = posix_path o.root in
    scan_raised (
      value_error (
        lit "output manifest path escaped its root: "
        ++ path_text (record p { names = p.names ++ path })))

-- The checks of `_scan_directory` before its loop.
unfoldable pub enter_scan : ScanOptions → List Text → ℕ → Bool → Scan → Scanned Scan
unfolding charge enter_directory require_inside ◌then_scan◌
enter_scan o path depth inside s =
    charge s (enter_directory s.budget depth) then_scan λ t. require_inside o path inside t

unfoldable pub file_digest : ScanOptions → FileStatus → Result (Option Text)
file_digest o f = if o.hash_files && leb_ℤ f.size (pos o.max_hash_bytes) then f.digest else ok none

-- `entries.append(OutputEntry(...))`
unfoldable pub append_file : List Text → FileStatus → Result (Option Text) → Scan → Scanned Scan
unfolding join
append_file path f (err e) s = scan_raised e
append_file path f (ok digest) s = scanned (record s {
  entries =
      s.entries
      ++ record {
        path = join (lit "/") path;
        kind = lit "file";
        size = f.size;
        modified_ns = f.modified_ns;
        sha256 = digest;
      }
        ∷ [];
})

unfoldable pub add_file : ScanOptions → List Text → FileStatus → Scan → Scanned Scan
unfolding charge add_entry file_digest append_file ◌then_scan◌
add_file o path f s =
    charge s (add_entry s.budget f.size) then_scan λ t. append_file path f (file_digest o f) t

-- `_scan_directory`: one round of its loop, and the loop.
unfoldable mutual
  unfolding enter_scan add_file ◌then_scan◌ join

  pub scan_item : ScanOptions → List Text → ℕ → Item → Scan → Scanned Scan
  scan_item o path depth (unreadable e) s = scan_raised e
  scan_item o path depth link s = scan_raised (
      value_error
        (lit "output manifest refuses link, junction, or reparse entry: " ++ join (lit "/") path))
  scan_item o path depth special s = scan_raised (
      value_error
        (lit "output manifest refuses non-regular artifact entry: " ++ join (lit "/") path))
  scan_item o path depth (regular f) s = add_file o path f s
  scan_item o path depth (directory inside inner) s =
      enter_scan o path (suc depth) inside s then_scan λ t. scan_listing o path (suc depth) inner t

  pub scan_listing : ScanOptions → List Text → ℕ → Listing → Scan → Scanned Scan
  scan_listing o path depth no_more s = scanned s
  scan_listing o path depth (broken_off e) s = scan_raised e
  scan_listing o path depth (child name item rest) s =
      scan_item o (path ++ name ∷ []) depth item s then_scan λ t. scan_listing o path depth rest t

unfoldable pub insert_entry : OutputEntry → List OutputEntry → List OutputEntry
unfolding le_text
insert_entry e [] = e ∷ []
insert_entry e (x ∷ xs) =
    let rest = insert_entry e xs in if le_text e.path x.path then e ∷ x ∷ xs else x ∷ rest

-- `entries.sort(key=lambda item: item.path)`
unfoldable pub sort_entries : List OutputEntry → List OutputEntry
unfolding insert_entry
sort_entries [] = []
sort_entries (e ∷ es) = insert_entry e (sort_entries es)

pub record CaptureLimits : Type 0 where
  pub max_hash_bytes : ℤ
  pub max_files : ℤ
  pub max_directories : ℤ
  pub max_total_bytes : ℤ
  pub max_depth : ℤ

-- The first limit below 0 raises.
unfoldable pub require_limits : List (Text × ℤ) → Scanned (Unit {0})
require_limits [] = scanned tt
require_limits ((name, pos n) ∷ ls) = require_limits ls
require_limits ((name, negsuc n) ∷ ls) =
    scan_raised (value_error (name ++ lit " must be a non-negative integer"))

unfoldable pub limits_of : CaptureLimits → List (Text × ℤ)
limits_of l =
    (lit "max_hash_bytes", l.max_hash_bytes)
    ∷ (lit "max_files", l.max_files)
    ∷ (lit "max_directories", l.max_directories)
    ∷ (lit "max_total_bytes", l.max_total_bytes)
    ∷ (lit "max_depth", l.max_depth)
    ∷ []

unfoldable pub new_scan : CaptureLimits → Scan
new_scan l = record {
  budget = record {
    max_files = pos_part l.max_files;
    max_directories = pos_part l.max_directories;
    max_total_bytes = pos_part l.max_total_bytes;
    max_depth = pos_part l.max_depth;
    files = 0;
    directories = 0;
    total_bytes = 0;
  };
  entries = [];
}

unfoldable pub scan_root : ScanOptions → CaptureLimits → Bool → Listing → Scanned OutputManifest
unfolding enter_scan scan_item new_scan sort_entries ◌then_scan◌
scan_root o l inside inner = enter_scan o [] 0 inside (new_scan l) then_scan λ s.
    scan_listing o [] 0 inner s then_scan λ t.
    scanned (record { root = o.root; existing = true; entries = sort_entries t.entries })

-- What `root.lstat()` answers; none is a FileNotFoundError.
unfoldable pub capture_root : ScanOptions → CaptureLimits → Option Item → Scanned OutputManifest
unfolding scan_root
capture_root o l none = scanned (record { root = o.root; existing = false; entries = [] })
capture_root o l (some (unreadable e)) = scan_raised e
capture_root o l (some link) =
    scan_raised
      (value_error (lit "output manifest root may not be a link, junction, or reparse point"))
capture_root o l (some (directory inside inner)) = scan_root o l inside inner
capture_root o l (some _) = scan_raised (os_error o.root)

unfoldable pub capture_options : Text → Bool → CaptureLimits → ScanOptions
capture_options root hash_files l = record {
  root = root;
  hash_files = hash_files;
  max_hash_bytes = pos_part l.max_hash_bytes;
}

-- `capture_output_manifest`, for the absolute path of the output.
unfoldable pub capture_output_manifest :
    Text → Bool → CaptureLimits → Option Item → Scanned OutputManifest
unfolding capture_root capture_options ◌then_scan◌
capture_output_manifest root hash_files l found = require_limits (limits_of l) then_scan λ _.
    capture_root (capture_options root hash_files l) l found
