-- ===== src/Tests/NameExamples.antt =====
-- Names of a concrete instance, with a digest and a validation that can be evaluated.
use guestcluster.Base.{
  Bool, Text, [], all_if, all_if-append, arith, codes, first_is, is_empty, last_is, leb, length,
  length-append, refl, true, ℕ, ◌&&◌, ◌++◌, ◌+◌, ◌-◌, ◌==◌, ◌||◌, ◌∷◌, ◌≡◌, ◌≤◌, ◌⊎◌,
}
use guestcluster.Resources.DnsLabels.{
  dns_safe_hostname_label-kept, dns_safe_hostname_label-label, is_dns_label, is_label_char,
}
use guestcluster.Resources.Hostnames.{
  HexDigest, ValidationLaws, api_hostname-succeeds, hash_suffixed_name-bounds,
  hosted_cluster_name-bounds, identity_text-injective,
}
use guestcluster.Resources.Names.{
  Validation, api_hostname, dns_safe_hostname_label, hash_hex, hash_suffixed_name,
  hosted_cluster_name, hostname,
}
use guestcluster.Tests.World.{home}

abbrev digest_text : Text
digest_text = codes "0123456789abcdef0123456789abcdef0123456789abcdef0123456789abcdef"

abbrev digest_of : Text → Text
digest_of t = digest_text

digest_of-HexDigest : HexDigest digest_of
unfolding all_if
digest_of-HexDigest = record { digits = λ t. refl; length_64 = λ t. refl }

abbrev is_subdomain_char : ℕ → Bool
is_subdomain_char c = is_label_char c || c == b'.'

abbrev validation : Validation
validation = record {
  is_dns1123_subdomain = λ t. leb (length t) 253 && all_if is_subdomain_char t;
  is_dns1123_label = λ t. leb (length t) 63 && all_if is_label_char t;
}

label-subdomain_chars :
    (t : Text) → all_if is_label_char t ≡ true → all_if is_subdomain_char t ≡ true
unfolding all_if
label-subdomain_chars [] h = refl
label-subdomain_chars (c ∷ t) h = ground (arith, label-subdomain_chars t)

joined_law :
    (l d : Text)
    → is_dns_label l ≡ true
    → length l ≤ 63
    → validation.is_dns1123_subdomain d ≡ true
    → length l + 1 + length d ≤ 253
    → validation.is_dns1123_subdomain (l ++ b'.' ∷ d) ≡ true
unfolding all_if
joined_law l d hl short hd fits =
    let chars : all_if is_label_char l ≡ true = ground arith in
    let rest : all_if is_subdomain_char d ≡ true = ground arith in
    let whole : leb (length (l ++ b'.' ∷ d)) 253 ≡ true =
      ground (arith, length-append l (b'.' ∷ d)) in
    rw (whole, all_if-append is_subdomain_char l (b'.' ∷ d), label-subdomain_chars l chars, rest)
      refl

validation-ValidationLaws : ValidationLaws validation
validation-ValidationLaws = record { joined = joined_law }

api_hostname-succeeds_example :
    (label : Text) × (api_hostname digest_of validation
        (codes "p-0")
        home
        (codes "apps.example.com")
      ≡ hostname (label ++ b'.' ∷ codes "apps.example.com"))
    × (is_dns_label label ≡ true)
    × (length label ≤ 63)
    × (length label + 1 + length (codes "apps.example.com") ≤ 253)
unfolding all_if is_empty
api_hostname-succeeds_example =
    api_hostname-succeeds digest_of digest_of-HexDigest validation (codes "p-0") home
      (codes "apps.example.com") validation-ValidationLaws refl refl refl refl refl (omega arith)

hash_suffixed_name-bounds_example :
    (length (hash_suffixed_name digest_of (codes "p-0") (codes "-crc-agent-") (codes "uid")) ≤ 63)
    × ((kept : Text) × (hash_suffixed_name digest_of
            (codes "p-0")
            (codes "-crc-agent-")
            (codes "uid")
          ≡ kept ++ (codes "-crc-agent-" ++ hash_hex digest_of (codes "uid") 12))
        × (length kept ≤ 51 - length (codes "-crc-agent-")))
hash_suffixed_name-bounds_example =
    hash_suffixed_name-bounds digest_of digest_of-HexDigest (codes "p-0") (codes "-crc-agent-")
      (codes "uid") (omega arith)

hosted_cluster_name-bounds_example :
    length home + 1 + length (hosted_cluster_name digest_of (codes "p-0") home) ≤ 63
hosted_cluster_name-bounds_example =
    hosted_cluster_name-bounds digest_of digest_of-HexDigest (codes "p-0") home (omega arith)

identity_text-injective_example : (home ≡ home) × (codes "p-0" ≡ codes "p-0")
unfolding all_if
identity_text-injective_example =
    identity_text-injective home home (codes "p-0") (codes "p-0") refl refl refl

dns_safe_hostname_label-label_example :
    (dns_safe_hostname_label (codes "-My_Pool.0-") ≡ [])
    ⊎ (is_dns_label (dns_safe_hostname_label (codes "-My_Pool.0-")) ≡ true)
dns_safe_hostname_label-label_example = dns_safe_hostname_label-label (codes "-My_Pool.0-")

dns_safe_hostname_label-kept_example : dns_safe_hostname_label (codes "p-0") ≡ codes "p-0"
unfolding all_if first_is last_is
dns_safe_hostname_label-kept_example = dns_safe_hostname_label-kept (codes "p-0") refl refl
