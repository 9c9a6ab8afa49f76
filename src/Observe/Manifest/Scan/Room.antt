-- ===== src/Observe/Manifest/Scan/Room.antt =====
-- src/r_sandbox/tools/runtime_observer/manifest.py: what a traversal needs, and what it has spent.
use r_sandbox.Prelude.{
  ◌≡◌, ap, subst, ◌∙◌, ℕ, suc, ◌+◌, ◌≤◌, Bool, true, false, ◌&&◌, Option, Text, arith, leb, ltb,
  Result, ok, err,
}
use r_sandbox.Observe.Manifest.{ManifestBudget}
use r_sandbox.Observe.Manifest.Scan.{
  Scanned, scanned, ◌then_scan◌, Item, regular, directory, Listing, no_more, broken_off, child,
  ScanOptions, Scan, file_digest,
}

unfoldable mutual
  pub directories_of : Item → ℕ
  directories_of (directory inside inner) = 1 + directories_in inner
  directories_of _ = 0

  pub directories_in : Listing → ℕ
  directories_in no_more = 0
  directories_in (broken_off e) = 0
  directories_in (child name item rest) = directories_of item + directories_in rest

unfoldable pub answers : Result (Option Text) → Bool
answers (ok d) = true
answers (err e) = false

-- Nothing but regular files that can be read and directories inside the root, to a depth.
unfoldable mutual
  unfolding answers file_digest

  pub plain_item : ScanOptions → (max_depth depth : ℕ) → Item → Bool
  plain_item o most depth (regular f) = answers (file_digest o f)
  plain_item o most depth (directory inside inner) =
      inside && (leb (suc depth) most && plain_listing o most (suc depth) inner)
  plain_item o most depth _ = false

  pub plain_listing : ScanOptions → (max_depth depth : ℕ) → Listing → Bool
  plain_listing o most depth no_more = true
  plain_listing o most depth (broken_off e) = false
  plain_listing o most depth (child name item rest) =
      plain_item o most depth item && plain_listing o most depth rest

-- Room for `n` files of `k` bytes and `d` directories.
pub record Room (b : ManifestBudget) (n k d : ℕ) : Type 0 where
  pub files : b.files + n ≤ b.max_files
  pub bytes : b.total_bytes + k ≤ b.max_total_bytes
  pub directories : b.directories + d ≤ b.max_directories

pub record Spent (b out : ManifestBudget) (n k d : ℕ) : Type 0 where
  pub files : out.files ≡ b.files + n
  pub bytes : out.total_bytes ≡ b.total_bytes + k
  pub directories : out.directories ≡ b.directories + d
  pub max_files : out.max_files ≡ b.max_files
  pub max_bytes : out.max_total_bytes ≡ b.max_total_bytes
  pub max_directories : out.max_directories ≡ b.max_directories
  pub max_depth : out.max_depth ≡ b.max_depth

pub left_over :
    (b out : ManifestBudget) {n k d : ℕ} (m j e : ℕ)
    → Room b (n + m) (k + j) (d + e)
    → Spent b out n k d
    → Room out m j e
left_over b out m j e r p = record {
  files = omega (arith, r.files, p.files, p.max_files);
  bytes = omega (arith, r.bytes, p.bytes, p.max_bytes);
  directories = omega (arith, r.directories, p.directories, p.max_directories);
}

pub enough_first :
    (b : ManifestBudget) {n k d : ℕ} (m j e : ℕ) → Room b (n + m) (k + j) (d + e) → Room b n k d
enough_first b m j e r = record {
  files = omega (arith, r.files);
  bytes = omega (arith, r.bytes);
  directories = omega (arith, r.directories);
}

pub add_costs :
    (b mid out : ManifestBudget) {n k d m j e : ℕ}
    → Spent b mid n k d
    → Spent mid out m j e
    → Spent b out (n + m) (k + j) (d + e)
add_costs b mid out p q = record {
  files = omega (arith, p.files, q.files);
  bytes = omega (arith, p.bytes, q.bytes);
  directories = omega (arith, p.directories, q.directories);
  max_files = q.max_files ∙ p.max_files;
  max_bytes = q.max_bytes ∙ p.max_bytes;
  max_directories = q.max_directories ∙ p.max_directories;
  max_depth = q.max_depth ∙ p.max_depth;
}

-- An answer that is a scan, with what it has spent.
abbrev pub Returns : Scanned Scan → ManifestBudget → (n k d : ℕ) → Type 0
Returns m b n k d = (t : Scan) × (m ≡ scanned t) × Spent b t.budget n k d

pub in_sequence :
    {m : Scanned Scan} {next : Scan → Scanned Scan} (b : ManifestBudget) {n k d i j e : ℕ}
    → Returns m b n k d
    → ((t : Scan) → Spent b t.budget n k d → Returns (next t) t.budget i j e)
    → Returns (m then_scan next) b (n + i) (k + j) (d + e)
unfolding ◌then_scan◌
in_sequence {next} b (t, p, spent) rest =
    let (u, q, more) = rest t spent in
    (u, ap (λ x. x then_scan next) p ∙ q, add_costs b t.budget u.budget spent more)

pub spends :
    (m : Scanned Scan) (b : ManifestBudget) {n k d i j e : ℕ}
    → n ≡ i
    → k ≡ j
    → d ≡ e
    → Returns m b n k d
    → Returns m b i j e
spends m b {n} {k} {d} {i} {j} {e} p q r h =
    subst (λ x. Returns m b x j e) p
      (subst (λ y. Returns m b n y e) q (subst (λ z. Returns m b n k z) r h))

pub no_ltb : (a b : ℕ) → a ≤ b → ltb b a ≡ false
no_ltb a b h = ground arith

pub spare : (b : ManifestBudget) (n k d : ℕ) → Room b n k (1 + d) → Room b (0 + n) (0 + k) (1 + d)
spare b n k d r = record {
  files = omega (arith, r.files);
  bytes = omega (arith, r.bytes);
  directories = r.directories;
}
