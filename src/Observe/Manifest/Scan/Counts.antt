-- ===== src/Observe/Manifest/Scan/Counts.antt =====
-- src/r_sandbox/tools/runtime_observer/manifest.py: the counts of a traversal and of the tree below it.
use r_sandbox.Prelude.{
  ◌≡◌, refl, sym, ℕ, ◌+◌, ◌≤◌, false, List, [], ◌∷◌, ◌++◌, arith, length, ltb, Bool-cases, inl, inr,
}
use r_sandbox.Prelude.Int.{ℤ, pos_part}
use r_sandbox.Observe.Manifest.{
  OutputEntry, ManifestBudget, Charged, within, beyond, enter_directory, add_entry,
}
use r_sandbox.Observe.Manifest.Scan.{
  Scanned, scanned, over_limit, scan_raised, ◌then_scan◌, Item, regular, directory, Listing,
  no_more, broken_off, child, Scan, charge, CaptureLimits,
}

-- The regular files below an item, and the bytes that they claim.
unfoldable mutual
  pub files_of : Item → ℕ
  files_of (regular f) = 1
  files_of (directory inside inner) = files_in inner
  files_of _ = 0

  pub files_in : Listing → ℕ
  files_in no_more = 0
  files_in (broken_off e) = 0
  files_in (child name item rest) = files_of item + files_in rest

unfoldable mutual
  pub bytes_of : Item → ℕ
  bytes_of (regular f) = pos_part f.size
  bytes_of (directory inside inner) = bytes_in inner
  bytes_of _ = 0

  pub bytes_in : Listing → ℕ
  bytes_in no_more = 0
  bytes_in (broken_off e) = 0
  bytes_in (child name item rest) = bytes_of item + bytes_in rest

unfoldable pub entry_bytes : List OutputEntry → ℕ
entry_bytes [] = 0
entry_bytes (e ∷ es) = pos_part e.size + entry_bytes es

pub entry_bytes-append :
    (xs ys : List OutputEntry) → entry_bytes (xs ++ ys) ≡ entry_bytes xs + entry_bytes ys
unfolding entry_bytes
entry_bytes-append [] ys = omega arith
entry_bytes-append (x ∷ xs) ys = omega (arith, entry_bytes-append xs ys)

-- A scan that has met `n` files of `k` bytes.
pub record Counts (l : CaptureLimits) (s : Scan) (n k : ℕ) : Type 0 where
  pub max_files : s.budget.max_files ≡ pos_part l.max_files
  pub max_bytes : s.budget.max_total_bytes ≡ pos_part l.max_total_bytes
  pub files : s.budget.files ≡ n
  pub total : s.budget.total_bytes ≡ k
  pub recorded : length s.entries ≡ n
  pub recorded_bytes : entry_bytes s.entries ≡ k
  pub files_fit : n ≤ pos_part l.max_files
  pub bytes_fit : k ≤ pos_part l.max_total_bytes

pub then_scan-eq {ℓ κ μ} :
    {A : Type ℓ} {B : Type κ} {C : Type μ} {m : Scanned A} {next : A → Scanned B} {b : B}
    → (m then_scan next) ≡ scanned b
    → ((a : A) → m ≡ scanned a → next a ≡ scanned b → C)
    → C
unfolding ◌then_scan◌
then_scan-eq {m = scanned a} h k = k a refl h
then_scan-eq {m = over_limit e} h k = absurd (cc h)
then_scan-eq {m = scan_raised e} h k = absurd (cc h)

pub scanned-injective {ℓ} : {A : Type ℓ} (a b : A) → scanned a ≡ scanned b → a ≡ b
scanned-injective a b h = cc h

within-injective : (a b : ManifestBudget) → within a ≡ within b → a ≡ b
within-injective a b h = cc h

pub enter_directory-eq :
    (b : ManifestBudget) (depth : ℕ) {out : ManifestBudget}
    → enter_directory b depth ≡ within out
    → out ≡ record b { directories = b.directories + 1 }
unfolding enter_directory
enter_directory-eq b depth h = elim (Bool-cases (ltb b.max_depth depth)) [
  | inl deep ↦ absurd (cc (rw deep at h))
  | inr a ↦ elim (Bool-cases (ltb b.max_directories (b.directories + 1))) [
    | inl many ↦ absurd (cc (rw (a, many) at h))
    | inr c ↦ sym (within-injective _ _ (rw (a, c) at h))
  ]
]

pub add_entry-eq :
    (b : ManifestBudget) (size : ℤ) {out : ManifestBudget}
    → add_entry b size ≡ within out
    → (ltb b.max_files (b.files + 1) ≡ false)
      × (ltb b.max_total_bytes (b.total_bytes + pos_part size) ≡ false)
      × (out ≡ record b { files = b.files + 1; total_bytes = b.total_bytes + pos_part size })
unfolding add_entry
add_entry-eq b size h = elim (Bool-cases (ltb b.max_files (b.files + 1))) [
  | inl many ↦ absurd (cc (rw many at h))
  | inr a ↦ elim (Bool-cases (ltb b.max_total_bytes (b.total_bytes + pos_part size))) [
    | inl much ↦ absurd (cc (rw (a, much) at h))
    | inr c ↦ (a, c, sym (within-injective _ _ (rw (a, c) at h)))
  ]
]

pub charge-eq :
    (s : Scan) (c : Charged) {t : Scan}
    → charge s c ≡ scanned t
    → (b : ManifestBudget) × (c ≡ within b) × (t ≡ record s { budget = b })
unfolding charge
charge-eq s (within b) h = (b, refl, cc h)
charge-eq s (beyond e) h = absurd (cc h)
