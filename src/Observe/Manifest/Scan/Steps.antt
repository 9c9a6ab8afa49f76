-- ===== src/Observe/Manifest/Scan/Steps.antt =====
-- src/r_sandbox/tools/runtime_observer/manifest.py: each step of a traversal keeps its counts.
use native.Mathlib.Numerals.{unary_clauses}
use r_sandbox.Prelude.{
  ◌≡◌, sym, ap, subst, ◌∙◌, ℕ, suc, ◌+◌, ◌≤◌, Bool, true, false, Option, List, [], ◌∷◌, ◌++◌, Text,
  arith, length, length-append, ltb, Result, ok, err,
}
use r_sandbox.Prelude.Int.{ℤ, pos_part}
use r_sandbox.Observe.Manifest.{add_entry}
use r_sandbox.Observe.Manifest.Scan.{
  scanned, FileStatus, Item, unreadable, link, special, regular, directory, Listing, no_more,
  broken_off, child, ScanOptions, Scan, charge, require_inside, enter_scan, append_file, add_file,
  scan_item, scan_listing, CaptureLimits,
}
use r_sandbox.Observe.Manifest.Scan.Counts.{
  files_of, files_in, bytes_of, bytes_in, entry_bytes, entry_bytes-append, Counts, then_scan-eq,
  scanned-injective, enter_directory-eq, add_entry-eq, charge-eq,
}

require_inside-eq :
    (o : ScanOptions) (path : List Text) (inside : Bool) (s : Scan) {t : Scan}
    → require_inside o path inside s ≡ scanned t
    → s ≡ t
unfolding require_inside
require_inside-eq o path true s h = cc h
require_inside-eq o path false s h = absurd (cc h)

pub enter_scan-Counts :
    (o : ScanOptions) (path : List Text) (depth : ℕ) (inside : Bool) (l : CaptureLimits) (s : Scan)
    {t : Scan} {n k : ℕ}
    → enter_scan o path depth inside s ≡ scanned t
    → Counts l s n k
    → Counts l t n k
unfolding enter_scan
enter_scan-Counts o path depth inside l s {n} {k} h c = then_scan-eq h λ u p q.
    let (b, e, same_scan) = charge-eq s _ p in
    subst (λ v. Counts l v n k) (sym same_scan ∙ require_inside-eq o path inside u q)
      (subst (λ x. Counts l (record s { budget = x }) n k)
        (sym (enter_directory-eq s.budget depth e))
        (record {
          max_files = c.max_files;
          max_bytes = c.max_bytes;
          files = c.files;
          total = c.total;
          recorded = c.recorded;
          recorded_bytes = c.recorded_bytes;
          files_fit = c.files_fit;
          bytes_fit = c.bytes_fit;
        }))

-- The scan after a file was charged, before it is recorded.
record Charges (l : CaptureLimits) (s : Scan) (size : ℤ) (n k : ℕ) : Type 0 where
  max_files : s.budget.max_files ≡ pos_part l.max_files
  max_bytes : s.budget.max_total_bytes ≡ pos_part l.max_total_bytes
  files : s.budget.files ≡ n + 1
  total : s.budget.total_bytes ≡ k + pos_part size
  recorded : length s.entries ≡ n
  recorded_bytes : entry_bytes s.entries ≡ k
  files_fit : n + 1 ≤ pos_part l.max_files
  bytes_fit : k + pos_part size ≤ pos_part l.max_total_bytes

charge-Charges :
    (l : CaptureLimits) (s : Scan) (size : ℤ) {t : Scan} {n k : ℕ}
    → charge s (add_entry s.budget size) ≡ scanned t
    → Counts l s n k
    → Charges l t size n k
charge-Charges l s size {n} {k} h c =
    let (b, e, same_scan) = charge-eq s _ h in
    let (files_left, bytes_left, charged) = add_entry-eq s.budget size e in
    subst (λ v. Charges l v size n k) (sym (same_scan ∙ ap (λ x. record s { budget = x }) charged))
      (record {
        max_files = c.max_files;
        max_bytes = c.max_bytes;
        files = omega (arith, c.files);
        total = omega (arith, c.total);
        recorded = c.recorded;
        recorded_bytes = c.recorded_bytes;
        files_fit = fits 1 files_left c.files c.max_files;
        bytes_fit = fits (pos_part size) bytes_left c.total c.max_bytes;
      })
  where
    fits :
        (x : ℕ) {limit used j max : ℕ}
        → ltb limit (used + x) ≡ false
        → used ≡ j
        → limit ≡ max
        → j + x ≤ max
    fits x h p q = ground arith

append_file-Counts :
    (l : CaptureLimits) (path : List Text) (f : FileStatus) (d : Result (Option Text)) (s : Scan)
    {t : Scan} {n k : ℕ}
    → append_file path f d s ≡ scanned t
    → Charges l s f.size n k
    → Counts l t (n + 1) (k + pos_part f.size)
unfolding append_file entry_bytes
append_file-Counts l path f (err e) s h c = absurd (cc h)
append_file-Counts l path f (ok d) s {n} {k} h c =
    subst (λ v. Counts l v (n + 1) (k + pos_part f.size)) (scanned-injective _ _ h)
      (record {
        max_files = c.max_files;
        max_bytes = c.max_bytes;
        files = c.files;
        total = c.total;
        recorded = length-append s.entries _ ∙ ap (λ x. x + 1) c.recorded;
        recorded_bytes = entry_bytes-append s.entries _ ∙ omega (arith, c.recorded_bytes);
        files_fit = c.files_fit;
        bytes_fit = c.bytes_fit;
      })

add_file-Counts :
    (o : ScanOptions) (l : CaptureLimits) (path : List Text) (f : FileStatus) (s : Scan) {t : Scan}
    {n k : ℕ}
    → add_file o path f s ≡ scanned t
    → Counts l s n k
    → Counts l t (n + 1) (k + pos_part f.size)
unfolding add_file
add_file-Counts o l path f s h c =
    then_scan-eq h λ u p q. append_file-Counts l path f _ u q (charge-Charges l s f.size p c)

mutual
  unfolding scan_item files_of bytes_of

  scan_item-Counts :
      (o : ScanOptions) (l : CaptureLimits) (path : List Text) (depth : ℕ) (i : Item) (s : Scan)
      {t : Scan} {n k : ℕ}
      → scan_item o path depth i s ≡ scanned t
      → Counts l s n k
      → Counts l t (n + files_of i) (k + bytes_of i)
  scan_item-Counts o l path depth (unreadable e) s h c = absurd (cc h)
  scan_item-Counts o l path depth link s h c = absurd (cc h)
  scan_item-Counts o l path depth special s h c = absurd (cc h)
  scan_item-Counts o l path depth (regular f) s h c = add_file-Counts o l path f s h c
  scan_item-Counts o l path depth (directory inside inner) s h c = then_scan-eq h λ u p q.
      scan_listing-Counts o l path (suc depth) inner u q
        (enter_scan-Counts o path (suc depth) inside l s p c)

  pub scan_listing-Counts :
      (o : ScanOptions) (l : CaptureLimits) (path : List Text) (depth : ℕ) (i : Listing) (s : Scan)
      {t : Scan} {n k : ℕ}
      → scan_listing o path depth i s ≡ scanned t
      → Counts l s n k
      → Counts l t (n + files_in i) (k + bytes_in i)
  scan_listing-Counts o l path depth no_more s {n} {k} h c =
      subst (λ v. Counts l v (n + 0) (k + 0)) (scanned-injective _ _ h) (simp unary_clauses c)
  scan_listing-Counts o l path depth (broken_off e) s h c = absurd (cc h)
  scan_listing-Counts o l path depth (child name i rest) s {t} {n} {k} h c = then_scan-eq h λ u p q.
      subst (λ x. Counts l t x (k + (bytes_of i + bytes_in rest))) (omega arith)
        (subst (λ y. Counts l t (n + files_of i + files_in rest) y) (omega arith)
          (scan_listing-Counts o l path depth rest u q
            (scan_item-Counts o l (path ++ name ∷ []) depth i s p c)))
