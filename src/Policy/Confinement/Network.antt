-- ===== src/Policy/Confinement/Network.antt =====
-- src/r_sandbox/policy/engine.py: what an answer of `_network` other than DENY rests on.
use r_sandbox.Prelude.{
  ℕ, ◌≡◌, refl, inl, inr, ◌≢◌, true, false, not, ◌||◌, Option, none, some, ◌++◌, arith, Text, lit,
  is_empty, same, same→eq, one_of, Bool-cases, Option-cases,
}
use r_sandbox.Python.{Python, Url}
use r_sandbox.Models.Enums.{allow, deny}
use r_sandbox.Models.Records.{CapabilityRequest}
use r_sandbox.Policy.Checks.{host_of, has_extras, canonical_target}
use r_sandbox.Policy.Config.{PolicyConfig, is_hostname, bad_port, endpoint}
use r_sandbox.Policy.Handlers.{below_threshold, host_answer, url_answer, network_answer}
use r_sandbox.Policy.Confinement.Contract.{IsDownload}

host_answer-ne-deny :
    (P : Python) (cfg : PolicyConfig) (r : CapabilityRequest) (host : Text) (port : Option ℕ)
    → (host_answer P cfg r host port).0 ≢ deny
    → (is_hostname host ≡ true)
      × (P.is_internal_address host ≡ false)
      × (P.lower r.action ≡ lit "download")
      × (below_threshold r.confidence ≡ false)
      × ((host_answer P cfg r host port).0 ≡ allow
          → one_of (endpoint host port) cfg.network_allowlist ≡ true)
unfolding host_answer
host_answer-ne-deny P cfg r host port h = (
  ground arith,
  ground arith,
  ground (arith, same→eq (P.lower r.action) (lit "download")),
  ground arith,
  λ a. ground arith,
)

url_answer-ne-deny :
    (P : Python) (cfg : PolicyConfig) (r : CapabilityRequest) (u : Url)
    → P.urlparse (lit "//" ++ r.target) ≡ some u
    → (url_answer P cfg r (some u)).0 ≢ deny
    → IsDownload P r u
      × ((url_answer P cfg r (some u)).0 ≡ allow
          → one_of (endpoint (host_of P u) u.port) cfg.network_allowlist ≡ true)
unfolding url_answer
url_answer-ne-deny P cfg r u parsed h =
    let host = host_of P u in
    elim (Bool-cases (
      is_empty host
      || (has_extras u
          || (not (same r.target (canonical_target host u.port)) || bad_port u.port)))) [
            | inl refused ↦ absurd (h (rw refused))
            | inr fine ↦
                let (hostname, external, download, related, listed) =
                  host_answer-ne-deny P cfg r host u.port (rw fine at h) in
                (
                  record {
                    parsed = parsed;
                    bare = ground arith;
                    canonical = same→eq _ _ (ground arith);
                    port = ground arith;
                    hostname = hostname;
                    external = external;
                    download = download;
                    related = related;
                  },
                  λ a. listed (rw fine at a),
                )
          ]

url_none :
    (P : Python) (cfg : PolicyConfig) (r : CapabilityRequest) → (url_answer P cfg r none).0 ≡ deny
unfolding url_answer
url_none P cfg r = refl

pub network_answer-ne-deny :
    (P : Python) (cfg : PolicyConfig) (r : CapabilityRequest)
    → (network_answer P cfg r).0 ≢ deny
    → (u : Url) × IsDownload P r u
      × ((network_answer P cfg r).0 ≡ allow
          → one_of (endpoint (host_of P u) u.port) cfg.network_allowlist ≡ true)
unfolding network_answer
network_answer-ne-deny P cfg r h = elim (Option-cases (P.urlparse (lit "//" ++ r.target))) [
  | inl failed ↦ absurd (ground (arith, url_none P cfg r))
  | inr (u, parsed) ↦
      let parts = url_answer-ne-deny P cfg r u parsed (rw parsed at h) in
      (u, parts.0, λ a. parts.1 (rw parsed at a))
]
