-- ===== src/Resources/Hostnames.antt =====
-- The hostnames and the hash-suffixed names keep their length, and APIHostname fails for its inputs
-- only.
use guestcluster.Base.{
  Bool-cases, Text, [], all_if, all_if-append, all_if-last_is, all_if-take, all_if-trim_right, ap,
  arith, codes, false, first_is, if◌then◌else◌, inl, inr, is_empty, last_is, last_is-append, length,
  length-append, length-take, length-take_le, length-trim_right, ltb, not, refl, take, trim_right,
  true, ℕ, ◌++◌, ◌+◌, ◌-◌, ◌==◌, ◌||◌, ◌∷◌, ◌≡◌, ◌≤◌,
}
use guestcluster.Resources.DnsLabels.{dns_safe_hostname_label-label, is_dns_label, is_label_char}
use guestcluster.Resources.Names.{
  Validation, api_hostname, api_label, cut_label, dns_safe_hostname_label, hash_hex,
  hash_suffixed_name, hosted_cluster_name, hostname, identity_text, is_alnum, is_hyphen,
  label_limit,
}

-- What the names rely on of SHA-256 in hexadecimal digits.
pub record HexDigest (sha256_hex : Text → Text) : Type 0 where
  pub digits : (t : Text) → all_if is_alnum (sha256_hex t) ≡ true
  pub length_64 : (t : Text) → length (sha256_hex t) ≡ 64

-- What APIHostname relies on of the validation: a label of at most 63 bytes in front of a subdomain
-- is a subdomain again, as long as 253 bytes hold both.
pub record ValidationLaws (v : Validation) : Type 0 where
  pub joined :
      (l d : Text)
      → is_dns_label l ≡ true
      → length l ≤ 63
      → v.is_dns1123_subdomain d ≡ true
      → length l + 1 + length d ≤ 253
      → v.is_dns1123_subdomain (l ++ b'.' ∷ d) ≡ true

-- Two namespaces without a NUL byte, each with a name, give the same hash input only if both the
-- namespaces and the names are equal.
pub identity_text-injective :
    (m m' n n' : Text)
    → all_if (λ c. not (c == 0)) m ≡ true
    → all_if (λ c. not (c == 0)) m' ≡ true
    → identity_text m n ≡ identity_text m' n'
    → (m ≡ m') × (n ≡ n')
unfolding identity_text all_if
identity_text-injective [] [] n n' h h' e = (refl, ground arith)
identity_text-injective [] (c ∷ m') n n' h h' e = ground arith
identity_text-injective (c ∷ m) [] n n' h h' e = ground arith
identity_text-injective (c ∷ m) (d ∷ m') n n' h h' e =
    let r = identity_text-injective m m' n n' (ground arith) (ground arith) (ground arith) in
    (ground (arith, r.0), r.1)

module _ (sha256_hex : Text → Text) (digest : HexDigest sha256_hex) where
  length-hash_hex : (t : Text) (n : ℕ) → n ≤ 64 → length (hash_hex sha256_hex t n) ≡ n
  unfolding hash_hex
  length-hash_hex t n h = length-take n (sha256_hex t) (omega (arith, digest.length_64 t))

  hash_hex-alnum : (t : Text) (n : ℕ) → all_if is_alnum (hash_hex sha256_hex t n) ≡ true
  unfolding hash_hex
  hash_hex-alnum t n = all_if-take is_alnum n (sha256_hex t) (digest.digits t)

  -- A hash-suffixed name has at most 63 bytes and ends with its suffix and 12 digits of the hash,
  -- if the suffix and the digits take at most 63 bytes; at most the rest of the 63 bytes is left
  -- of the prefix.
  pub hash_suffixed_name-bounds :
      (prefix suffix input : Text)
      → length suffix + 12 ≤ 63
      → (length (hash_suffixed_name sha256_hex prefix suffix input) ≤ 63)
        × ((kept : Text) × (hash_suffixed_name sha256_hex prefix suffix input
              ≡ kept ++ (suffix ++ hash_hex sha256_hex input 12))
            × (length kept ≤ 51 - length suffix))
  unfolding hash_suffixed_name
  hash_suffixed_name-bounds prefix suffix input h =
      let limit = 63 - length suffix - 12 in
      let cut = if ltb limit (length prefix) then take limit prefix else prefix in
      let kept = trim_right (λ c. is_hyphen c || c == b'.') cut in
      let short : length cut ≤ limit = ground (arith, length-take_le limit prefix) in
      let fits : length kept ≤ limit =
        omega (arith, short, length-trim_right (λ c. is_hyphen c || c == b'.') cut) in
      (
        omega (
          arith,
          fits,
          length-append kept (suffix ++ hash_hex sha256_hex input 12),
          length-append suffix (hash_hex sha256_hex input 12),
          length-hash_hex input 12 (omega arith),
        ),
        (kept, refl, omega (arith, fits)),
      )

  length-cut_label : (name : Text) (limit : ℕ) → length (cut_label sha256_hex name limit) ≤ limit
  unfolding cut_label
  length-cut_label name limit =
      let prefix = dns_safe_hostname_label name in
      ground (arith, length-take_le limit prefix, length-trim_right is_hyphen (take limit prefix))

  -- For a namespace of at most 43 bytes, the namespace, a hyphen and the name of a hosted cluster
  -- take at most 63 bytes together, whatever the name of the instance is.
  pub hosted_cluster_name-bounds :
      (name namespace : Text)
      → length namespace ≤ 43
      → length namespace + 1 + length (hosted_cluster_name sha256_hex name namespace) ≤ 63
  unfolding hosted_cluster_name is_empty
  hosted_cluster_name-bounds name namespace h =
      let hash = hash_hex sha256_hex (identity_text namespace name) 16 in
      let prefix = cut_label sha256_hex name (42 - length namespace) in
      ground (
        arith,
        length-hash_hex (identity_text namespace name) 16 (omega arith),
        length-cut_label name (42 - length namespace),
        length-append prefix (b'-' ∷ hash),
      )

  alnum-label_char : (t : Text) → all_if is_alnum t ≡ true → all_if is_label_char t ≡ true
  unfolding all_if
  alnum-label_char [] h = refl
  alnum-label_char (c ∷ t) h = ground (arith, alnum-label_char t)

  safe-label_chars : (name : Text) → all_if is_label_char (dns_safe_hostname_label name) ≡ true
  unfolding all_if
  safe-label_chars name = elim (dns_safe_hostname_label-label name) [
    | inl e ↦ rw e refl
    | inr e ↦ ground arith
  ]

  cut_label-label_chars :
      (name : Text) (limit : ℕ) → all_if is_label_char (cut_label sha256_hex name limit) ≡ true
  unfolding cut_label
  cut_label-label_chars name limit =
      let prefix = dns_safe_hostname_label name in
      let chars = safe-label_chars name in
      elim (Bool-cases (ltb limit (length prefix))) [
        | inr e ↦ rw (e, cut_label) chars
        | inl e ↦
            rw (e, cut_label)
              (all_if-trim_right is_label_char is_hyphen (take limit prefix)
                (all_if-take is_label_char limit prefix chars))
      ]

  module _ (name namespace : Text) where
    hash : Text
    hash = hash_hex sha256_hex (identity_text namespace name) 16

    hash-ends : last_is is_alnum hash ≡ true
    unfolding hash
    hash-ends =
        elim (all_if-last_is is_alnum hash (hash_hex-alnum (identity_text namespace name) 16)) [
          | inl e ↦
              let n = length-hash_hex (identity_text namespace name) 16 (omega arith) in
              absurd (omega (arith, n, ap length e))
          | inr e ↦ e
        ]

    api_label-label :
        (limit : ℕ)
        → 21 ≤ limit
        → (is_dns_label (api_label sha256_hex name namespace limit) ≡ true)
          × (length (api_label sha256_hex name namespace limit) ≤ limit)
    unfolding api_label hash first_is all_if
    api_label-label limit h =
        let cut = cut_label sha256_hex name (limit - 21) in
        let ends : last_is is_alnum (codes "api-" ++ (cut ++ b'-' ∷ hash)) ≡ true =
          last_is-append is_alnum (codes "api-") (cut ++ b'-' ∷ hash) (
            last_is-append is_alnum cut (b'-' ∷ hash)
              (last_is-append is_alnum (b'-' ∷ []) hash hash-ends)) in
        let inner : all_if is_label_char (cut ++ b'-' ∷ hash) ≡ true =
          rw
            (
              all_if-append is_label_char cut (b'-' ∷ hash),
              cut_label-label_chars name (limit - 21),
              alnum-label_char hash (hash_hex-alnum (identity_text namespace name) 16),
            )
            refl in
        let chars : all_if is_label_char (codes "api-" ++ (cut ++ b'-' ∷ hash)) ≡ true = inner in
        (
          rw (ends, chars) refl,
          omega (
            arith,
            length-append cut (b'-' ∷ hash),
            length-cut_label name (limit - 21),
            length-hash_hex (identity_text namespace name) 16 (omega arith),
          ),
        )

  label_limit-bounds :
      (domain : Text)
      → length domain ≤ 231
      → (21 ≤ label_limit sha256_hex domain)
        × (label_limit sha256_hex domain ≤ 63)
        × (label_limit sha256_hex domain + 1 + length domain ≤ 253)
  unfolding label_limit
  label_limit-bounds domain h = ground arith

  -- APIHostname fails for bad inputs only: for a name, a namespace and a domain that are not
  -- empty and pass the validation, with a domain of at most 231 bytes, it returns a label in
  -- front of the domain, and the label is a DNS label of at most 63 bytes and the whole has at
  -- most 253.
  pub api_hostname-succeeds :
      (v : Validation) (name namespace domain : Text)
      → ValidationLaws v
      → is_empty name ≡ false
      → is_empty namespace ≡ false
      → v.is_dns1123_subdomain name ≡ true
      → v.is_dns1123_label namespace ≡ true
      → v.is_dns1123_subdomain domain ≡ true
      → length domain ≤ 231
      → (label : Text) × (api_hostname sha256_hex v name namespace domain
          ≡ hostname (label ++ b'.' ∷ domain))
        × (is_dns_label label ≡ true)
        × (length label ≤ 63)
        × (length label + 1 + length domain ≤ 253)
  unfolding api_hostname
  api_hostname-succeeds v name namespace domain laws n m vn vm vd fits =
      let limit = label_limit sha256_hex domain in
      let b = label_limit-bounds domain fits in
      let label = api_label sha256_hex name namespace limit in
      let l = api_label-label name namespace limit b.0 in
      let room : ltb limit 21 ≡ false = ground arith in
      let short : length label ≤ 63 = omega (arith, l.1) in
      let whole : length label + 1 + length domain ≤ 253 = omega (arith, l.1) in
      let joined = laws.joined label domain l.0 short vd whole in
      (label, rw (n, m, vn, vm, vd, room, joined) refl, l.0, short, whole)
