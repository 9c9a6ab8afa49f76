-- ===== src/Observe/Manifest/Scan/Reads.antt =====
-- src/r_sandbox/tools/runtime_observer/manifest.py: when a traversal returns.
use r_sandbox.Prelude.{
  ◌≡◌, refl, ap, ◌∙◌, ℕ, suc, ◌+◌, ◌≤◌, Bool, true, Option, some, List, [], ◌∷◌, ◌++◌, Text, arith,
  leb, and_true, Result, ok, err,
}
use r_sandbox.Prelude.Int.{ℤ, pos_part}
use r_sandbox.Observe.Manifest.{OutputManifest, ManifestBudget, within, enter_directory, add_entry}
use r_sandbox.Observe.Manifest.Scan.{
  scanned, ◌then_scan◌, FileStatus, Item, unreadable, link, special, regular, directory, Listing,
  no_more, broken_off, child, ScanOptions, Scan, charge, require_inside, enter_scan, file_digest,
  append_file, add_file, scan_item, scan_listing, CaptureLimits, sort_entries, new_scan, scan_root,
  capture_root, require_limits, limits_of, capture_options, capture_output_manifest,
}
use r_sandbox.Observe.Manifest.Scan.Counts.{files_of, files_in, bytes_of, bytes_in}
use r_sandbox.Observe.Manifest.Scan.Room.{
  directories_of, directories_in, answers, plain_item, plain_listing, Room, left_over, enough_first,
  Returns, in_sequence, spends, no_ltb, spare,
}

enter_directory-within :
    (b : ManifestBudget) (depth : ℕ)
    → depth ≤ b.max_depth
    → Room b 0 0 1
    → enter_directory b depth ≡ within (record b { directories = b.directories + 1 })
unfolding enter_directory
enter_directory-within b depth h r =
    rw (no_ltb depth b.max_depth h, no_ltb (b.directories + 1) b.max_directories r.directories) refl

enter_scan-Returns :
    (o : ScanOptions) (path : List Text) (depth : ℕ) (inside : Bool) (s : Scan)
    → inside ≡ true
    → depth ≤ s.budget.max_depth
    → Room s.budget 0 0 1
    → Returns (enter_scan o path depth inside s) s.budget 0 0 1
unfolding enter_scan charge require_inside ◌then_scan◌
enter_scan-Returns o path depth inside s own h r = (
  record s { budget = record s.budget { directories = s.budget.directories + 1 } },
  rw (own, enter_directory-within s.budget depth h r) refl,
  record {
    files = omega arith;
    bytes = omega arith;
    directories = refl;
    max_files = refl;
    max_bytes = refl;
    max_directories = refl;
    max_depth = refl;
  },
)

add_entry-within :
    (b : ManifestBudget) (size : ℤ)
    → Room b 1 (pos_part size) 0
    → add_entry b size
      ≡ within (record b { files = b.files + 1; total_bytes = b.total_bytes + pos_part size })
unfolding add_entry
add_entry-within b size r =
    rw
      (
        no_ltb (b.files + 1) b.max_files r.files,
        no_ltb (b.total_bytes + pos_part size) b.max_total_bytes r.bytes,
      )
      refl

append_file-Returns :
    (path : List Text) (f : FileStatus) (d : Result (Option Text)) (s : Scan)
    → answers d ≡ true
    → Returns (append_file path f d s) s.budget 0 0 0
unfolding answers append_file
append_file-Returns path f (err e) s h = absurd (cc h)
append_file-Returns path f (ok d) s h = (
  _,
  refl,
  record {
    files = omega arith;
    bytes = omega arith;
    directories = omega arith;
    max_files = refl;
    max_bytes = refl;
    max_directories = refl;
    max_depth = refl;
  },
)

charge-Returns :
    (s : Scan) (size : ℤ)
    → Room s.budget 1 (pos_part size) 0
    → Returns (charge s (add_entry s.budget size)) s.budget 1 (pos_part size) 0
unfolding charge
charge-Returns s size r = (
  _,
  ap (charge s) (add_entry-within s.budget size r),
  record {
    files = refl;
    bytes = refl;
    directories = omega arith;
    max_files = refl;
    max_bytes = refl;
    max_directories = refl;
    max_depth = refl;
  },
)

add_file-Returns :
    (o : ScanOptions) (path : List Text) (f : FileStatus) (s : Scan)
    → answers (file_digest o f) ≡ true
    → Room s.budget 1 (pos_part f.size) 0
    → Returns (add_file o path f s) s.budget 1 (pos_part f.size) 0
unfolding add_file
add_file-Returns o path f s h r =
    spends (add_file o path f s) s.budget (omega arith) (omega arith) (omega arith) (
      in_sequence s.budget (charge-Returns s f.size r)
        λ t p. append_file-Returns path f (file_digest o f) t h)

mutual
  unfolding scan_item plain_item files_of bytes_of directories_of

  scan_item-Returns :
      (o : ScanOptions) (path : List Text) (depth : ℕ) (i : Item) (s : Scan)
      → plain_item o s.budget.max_depth depth i ≡ true
      → Room s.budget (files_of i) (bytes_of i) (directories_of i)
      → Returns (scan_item o path depth i s) s.budget (files_of i) (bytes_of i) (directories_of i)
  scan_item-Returns o path depth (unreadable e) s h r = absurd (cc h)
  scan_item-Returns o path depth link s h r = absurd (cc h)
  scan_item-Returns o path depth special s h r = absurd (cc h)
  scan_item-Returns o path depth (regular f) s h r = add_file-Returns o path f s h r
  scan_item-Returns o path depth (directory inside inner) s h r =
      let b = s.budget in
      let (own, more) = and_true inside _ h in
      let (deep, plain) = and_true (leb (suc depth) b.max_depth) _ more in
      let n = files_in inner in
      let k = bytes_in inner in
      let d = directories_in inner in
      let room = spare b n k d r in
      spends (scan_item o path depth (directory inside inner) s) b (omega arith) (omega arith) refl
        (in_sequence b
          (enter_scan-Returns o path (suc depth) inside s own (ground arith)
            (enough_first b n k d room))
          λ t p.
            scan_listing-Returns o path (suc depth) inner t
              (ap (λ x. plain_listing o x (suc depth) inner) p.max_depth ∙ plain)
              (left_over b t.budget n k d room p))

  scan_listing-Returns :
      (o : ScanOptions) (path : List Text) (depth : ℕ) (i : Listing) (s : Scan)
      → plain_listing o s.budget.max_depth depth i ≡ true
      → Room s.budget (files_in i) (bytes_in i) (directories_in i)
      → Returns
          (scan_listing o path depth i s)
          s.budget
          (files_in i)
          (bytes_in i)
          (directories_in i)
  scan_listing-Returns o path depth no_more s h r = (
    s,
    refl,
    record {
      files = omega arith;
      bytes = omega arith;
      directories = omega arith;
      max_files = refl;
      max_bytes = refl;
      max_directories = refl;
      max_depth = refl;
    },
  )
  scan_listing-Returns o path depth (broken_off e) s h r = absurd (cc h)
  scan_listing-Returns o path depth (child name i rest) s h r =
      let b = s.budget in
      let (first, others) = and_true (plain_item o b.max_depth depth i) _ h in
      in_sequence b
        (scan_item-Returns o (path ++ name ∷ []) depth i s first
          (enough_first b (files_in rest) (bytes_in rest) (directories_in rest) r))
        λ t p.
          scan_listing-Returns o path depth rest t
            (ap (λ x. plain_listing o x depth rest) p.max_depth ∙ others)
            (left_over b t.budget (files_in rest) (bytes_in rest) (directories_in rest) r p)

-- A tree of regular files that can be read and of directories inside the root is captured when its
-- depth, its files, their bytes and its directories, the root included, are within the limits and
-- no limit is below 0.
pub capture_output_manifest-scanned :
    (root : Text) (hash_files : Bool) (l : CaptureLimits) (inner : Listing)
    → require_limits (limits_of l) ≡ scanned tt
    → plain_listing (capture_options root hash_files l) (pos_part l.max_depth) 0 inner ≡ true
    → files_in inner ≤ pos_part l.max_files
    → bytes_in inner ≤ pos_part l.max_total_bytes
    → 1 + directories_in inner ≤ pos_part l.max_directories
    → (m : OutputManifest) × (capture_output_manifest root hash_files l
          (some (directory true inner))
        ≡ scanned m)
unfolding capture_output_manifest capture_root scan_root new_scan ◌then_scan◌
capture_output_manifest-scanned root hash_files l inner h plain files bytes directories =
    let o = capture_options root hash_files l in
    let n = files_in inner in
    let k = bytes_in inner in
    let d = directories_in inner in
    let b = (new_scan l).budget in
    let room : Room b (0 + n) (0 + k) (1 + d) = record {
      files = omega (arith, files);
      bytes = omega (arith, bytes);
      directories = omega (arith, directories);
    } in
    let (s, p, spent) =
      enter_scan-Returns o [] 0 true (new_scan l) refl (omega arith) (enough_first b n k d room) in
    let (t, q, _) =
      scan_listing-Returns o [] 0 inner s
        (ap (λ x. plain_listing o x 0 inner) spent.max_depth ∙ plain)
        (left_over b s.budget n k d room spent) in
    (record { root = root; existing = true; entries = sort_entries t.entries }, rw (h, p, q) refl)
