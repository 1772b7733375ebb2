-- ===== src/Resources/DnsLabels.antt =====
-- dnsSafeHostnameLabel makes DNS labels, and the names that are built from them are labels as well.
use guestcluster.Base.{
  Bool, Text, [], all_if, all_if-trim_left, all_if-trim_right, arith, false, first_is,
  first_is-trim_left, first_is-trim_right, inl, inr, is_empty, last_is, last_is-trim_right, not,
  refl, trim_left, trim_right, true, ℕ, ◌&&◌, ◌||◌, ◌∷◌, ◌≡◌, ◌⊎◌,
}
use guestcluster.Resources.Names.{dns_safe_hostname_label, is_alnum, is_hyphen, safe_loop}

-- A byte that a DNS label may hold.
abbrev pub is_label_char : ℕ → Bool
is_label_char c = is_alnum c || is_hyphen c

-- A DNS label: not empty, of label characters, with no hyphen at either end. Its length is bounded
-- apart.
abbrev pub is_dns_label : Text → Bool
is_dns_label t = first_is is_alnum t && (last_is is_alnum t && all_if is_label_char t)

safe_loop-label_chars : (last : Bool) (s : Text) → all_if is_label_char (safe_loop last s) ≡ true
unfolding safe_loop all_if
safe_loop-label_chars last [] = refl
safe_loop-label_chars last (c ∷ s) =
    ground (arith, safe_loop-label_chars true s, safe_loop-label_chars false s)

-- A byte of a label that is no hyphen is a letter or a digit.
first_alnum :
    (s : Text)
    → all_if is_label_char s ≡ true
    → first_is (λ c. not (is_hyphen c)) s ≡ true
    → first_is is_alnum s ≡ true
unfolding all_if first_is
first_alnum [] a h = ground arith
first_alnum (c ∷ s) a h = ground arith

last_alnum :
    (s : Text)
    → all_if is_label_char s ≡ true
    → last_is (λ c. not (is_hyphen c)) s ≡ true
    → last_is is_alnum s ≡ true
unfolding all_if last_is
last_alnum [] a h = ground arith
last_alnum (c ∷ []) a h = ground arith
last_alnum (c ∷ d ∷ s) a h = last_alnum (d ∷ s) (ground arith) h

and-true : (a b c : Bool) → a ≡ true → b ≡ true → c ≡ true → (a && (b && c)) ≡ true
and-true a b c x y z = rw (x, y, z) refl

-- A text of label characters without hyphens at its ends.
trimmed :
    (s : Text)
    → all_if is_label_char s ≡ true
    → (s ≡ []) ⊎ (first_is (λ c. not (is_hyphen c)) s ≡ true)
    → (s ≡ []) ⊎ (last_is (λ c. not (is_hyphen c)) s ≡ true)
    → (s ≡ []) ⊎ (is_dns_label s ≡ true)
trimmed s a (inl e) l = inl e
trimmed s a (inr f) (inl e) = inl e
trimmed s a (inr f) (inr l) = inr (
    and-true (first_is is_alnum s) (last_is is_alnum s) (all_if is_label_char s) (first_alnum s a f)
      (last_alnum s a l) a)

-- What dnsSafeHostnameLabel makes of a name is empty, or it is a DNS label: of lower-case
-- letters, digits and hyphens, with no hyphen at either end.
pub dns_safe_hostname_label-label :
    (name : Text)
    → (dns_safe_hostname_label name ≡ []) ⊎ (is_dns_label (dns_safe_hostname_label name) ≡ true)
unfolding dns_safe_hostname_label
dns_safe_hostname_label-label name =
    let loop = safe_loop false name in
    let left = trim_left is_hyphen loop in
    let chars = all_if-trim_left is_label_char is_hyphen loop (safe_loop-label_chars false name) in
    trimmed (trim_right is_hyphen left) (all_if-trim_right is_label_char is_hyphen left chars)
      (still (first_is-trim_left is_hyphen loop)) (last_is-trim_right is_hyphen left)
  where
    still :
        (trim_left is_hyphen (safe_loop false name) ≡ [])
          ⊎ (first_is (λ c. not (is_hyphen c)) (trim_left is_hyphen (safe_loop false name)) ≡ true)
        → (trim_right is_hyphen (trim_left is_hyphen (safe_loop false name)) ≡ [])
          ⊎ (first_is
                (λ c. not (is_hyphen c))
                (trim_right is_hyphen (trim_left is_hyphen (safe_loop false name)))
              ≡ true)
    still (inl e) = inl (rw e refl)
    still (inr f) =
        first_is-trim_right is_hyphen (λ c. not (is_hyphen c))
          (trim_left is_hyphen (safe_loop false name)) f

-- A name that is a label without double hyphens is kept as it is.
abbrev pub no_double : Bool → Text → Bool
no_double last [] = true
no_double last (c ∷ s) = not (last && is_hyphen c) && no_double (is_hyphen c) s

safe_loop-kept :
    (last : Bool) (s : Text)
    → all_if is_label_char s ≡ true
    → no_double last s ≡ true
    → safe_loop last s ≡ s
unfolding safe_loop all_if
safe_loop-kept last [] a h = refl
safe_loop-kept last (c ∷ s) a h = ground (arith, safe_loop-kept true s, safe_loop-kept false s)

trim_left-kept : (s : Text) → first_is is_alnum s ≡ true → trim_left is_hyphen s ≡ s
unfolding trim_left first_is
trim_left-kept [] h = refl
trim_left-kept (c ∷ s) h = ground arith

trim_right-kept : (s : Text) → last_is is_alnum s ≡ true → trim_right is_hyphen s ≡ s
unfolding trim_right last_is is_empty
trim_right-kept [] h = refl
trim_right-kept (c ∷ []) h = ground arith
trim_right-kept (c ∷ d ∷ s) h = rw (trim_right-kept (d ∷ s) h) refl

-- dnsSafeHostnameLabel keeps a DNS label without double hyphens as it is.
pub dns_safe_hostname_label-kept :
    (s : Text) → is_dns_label s ≡ true → no_double false s ≡ true → dns_safe_hostname_label s ≡ s
unfolding dns_safe_hostname_label
dns_safe_hostname_label-kept s l h =
    rw (safe_loop-kept false s (ground arith) h)
      (rw (trim_left-kept s (ground arith)) (trim_right-kept s (ground arith)))
