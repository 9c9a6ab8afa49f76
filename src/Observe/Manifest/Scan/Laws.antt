-- ===== src/Observe/Manifest/Scan/Laws.antt =====
-- src/r_sandbox/tools/runtime_observer/manifest.py: what a captured manifest counts.
use r_sandbox.Prelude.{
  ◌≡◌, refl, subst, ◌∙◌, ℕ, ◌+◌, ◌≤◌, Bool, true, Option, none, some, List, [], ◌∷◌, Text, arith,
  length, Bool-cases, inl, inr, le_text,
}
use r_sandbox.Prelude.Int.{pos_part}
use r_sandbox.Observe.Manifest.{OutputEntry, OutputManifest}
use r_sandbox.Observe.Manifest.Scan.{
  scanned, Item, unreadable, link, special, regular, directory, Listing, ScanOptions, Scan,
  insert_entry, sort_entries, CaptureLimits, new_scan, scan_root, capture_root, require_limits,
  limits_of, capture_options, capture_output_manifest,
}
use r_sandbox.Observe.Manifest.Scan.Counts.{
  files_of, files_in, bytes_of, bytes_in, entry_bytes, Counts, then_scan-eq, scanned-injective,
}
use r_sandbox.Observe.Manifest.Scan.Steps.{enter_scan-Counts, scan_listing-Counts}

-- A list of `n` entries that claim `k` bytes.
abbrev HasSize : List OutputEntry → ℕ → ℕ → Type 0
HasSize es n k = (length es ≡ n) × (entry_bytes es ≡ k)

insert_entry-HasSize :
    (e : OutputEntry) (es : List OutputEntry) {n k : ℕ}
    → HasSize es n k
    → HasSize (insert_entry e es) (n + 1) (pos_part e.size + k)
unfolding insert_entry entry_bytes
insert_entry-HasSize e [] h = (omega (arith, h.0), omega (arith, h.1))
insert_entry-HasSize e (x ∷ xs) h =
    let (p, q) = insert_entry-HasSize e xs (refl, refl) in
    elim (Bool-cases (le_text e.path x.path)) [
      | inl before ↦ rw before (omega (arith, h.0), omega (arith, h.1))
      | inr after ↦ rw after (omega (arith, p, h.0), omega (arith, q, h.1))
    ]

sort_entries-HasSize :
    (es : List OutputEntry) → HasSize (sort_entries es) (length es) (entry_bytes es)
unfolding sort_entries entry_bytes
sort_entries-HasSize [] = (refl, refl)
sort_entries-HasSize (e ∷ es) =
    subst (λ n. HasSize (insert_entry e (sort_entries es)) n (pos_part e.size + entry_bytes es))
      (omega arith) (insert_entry-HasSize e (sort_entries es) (sort_entries-HasSize es))

abbrev pub found_files : Option Item → ℕ
found_files none = 0
found_files (some i) = files_of i

abbrev pub found_bytes : Option Item → ℕ
found_bytes none = 0
found_bytes (some i) = bytes_of i

-- Every regular file is in the manifest, and the limits hold.
pub record IsComplete (l : CaptureLimits) (found : Option Item) (m : OutputManifest) : Type 0 where
  pub files : length m.entries ≡ found_files found
  pub bytes : entry_bytes m.entries ≡ found_bytes found
  pub files_fit : length m.entries ≤ pos_part l.max_files
  pub bytes_fit : entry_bytes m.entries ≤ pos_part l.max_total_bytes

Counts-IsComplete :
    (o : ScanOptions) (l : CaptureLimits) (inside : Bool) (inner : Listing) (s : Scan)
    → Counts l s (files_in inner) (bytes_in inner)
    → IsComplete l
        (some (directory inside inner))
        (record { root = o.root; existing = true; entries = sort_entries s.entries })
unfolding files_of bytes_of
Counts-IsComplete o l inside inner s c =
    let (n, k) = sort_entries-HasSize s.entries in
    record {
      files = n ∙ c.recorded;
      bytes = k ∙ c.recorded_bytes;
      files_fit = omega (arith, n, c.recorded, c.files_fit);
      bytes_fit = omega (arith, k, c.recorded_bytes, c.bytes_fit);
    }

new_scan-Counts : (l : CaptureLimits) → Counts l (new_scan l) 0 0
unfolding new_scan entry_bytes
new_scan-Counts l = record {
  max_files = refl;
  max_bytes = refl;
  files = refl;
  total = refl;
  recorded = refl;
  recorded_bytes = refl;
  files_fit = omega arith;
  bytes_fit = omega arith;
}

from_zero : {l : CaptureLimits} {t : Scan} {n k : ℕ} → Counts l t (0 + n) (0 + k) → Counts l t n k
from_zero {l} {t} {n} {k} c =
    subst (λ x. Counts l t x k) (omega arith) (subst (λ y. Counts l t (0 + n) y) (omega arith) c)

scan_root-IsComplete :
    (o : ScanOptions) (l : CaptureLimits) (inside : Bool) (inner : Listing) {m : OutputManifest}
    → scan_root o l inside inner ≡ scanned m
    → IsComplete l (some (directory inside inner)) m
unfolding scan_root
scan_root-IsComplete o l inside inner h = then_scan-eq h λ s p q. then_scan-eq q λ t r final.
    subst (IsComplete l (some (directory inside inner))) (scanned-injective _ _ final) (
      Counts-IsComplete o l inside inner t (
        from_zero (
          scan_listing-Counts o l [] 0 inner s r
            (enter_scan-Counts o [] 0 inside l (new_scan l) p (new_scan-Counts l)))))

capture_root-IsComplete :
    (o : ScanOptions) (l : CaptureLimits) (found : Option Item) {m : OutputManifest}
    → capture_root o l found ≡ scanned m
    → IsComplete l found m
unfolding capture_root entry_bytes
capture_root-IsComplete o l none h =
    subst (IsComplete l none) (scanned-injective _ _ h)
      (record { files = refl; bytes = refl; files_fit = omega arith; bytes_fit = omega arith })
capture_root-IsComplete o l (some (directory inside inner)) h =
    scan_root-IsComplete o l inside inner h
capture_root-IsComplete o l (some (unreadable e)) h = absurd (cc h)
capture_root-IsComplete o l (some link) h = absurd (cc h)
capture_root-IsComplete o l (some special) h = absurd (cc h)
capture_root-IsComplete o l (some (regular f)) h = absurd (cc h)

-- A manifest that is captured lists as many entries, of as many bytes in all, as the tree has
-- regular files, within `max_files` and `max_total_bytes`.
pub capture_output_manifest-IsComplete :
    (root : Text) (hash_files : Bool) (l : CaptureLimits) (found : Option Item) (m : OutputManifest)
    → capture_output_manifest root hash_files l found ≡ scanned m
    → IsComplete l found m
unfolding capture_output_manifest
capture_output_manifest-IsComplete root hash_files l found m h =
    let o = capture_options root hash_files l in
    then_scan-eq {m = require_limits (limits_of l)} {next = λ _. capture_root o l found} h
      λ u p q. capture_root-IsComplete o l found q
