-- ===== src/Pool/Naming.antt =====
-- nextInstanceName of internal/controller/clusterpool_controller.go.
use guestcluster.Api.{Instance}
use guestcluster.Base.{
  Bool, List, Option, Text, [], atoi, codes, cut_prefix, decimal, false, if◌then◌else◌, length,
  negsuc, none, pos, some, suc, zero, ℕ, ℤ, ◌++◌, ◌==◌, ◌||◌, ◌∷◌,
}
pub mod Fresh

-- The index behind the prefix, if there is one.
unfoldable pub name_index : Text → Text → Option ℤ
name_index prefix name = elim (cut_prefix name prefix) [ none ↦ none | some suffix ↦ atoi suffix ]

-- The loop that fills the map `used`.
unfoldable pub used_indices : Text → List Instance → List ℤ
unfolding name_index
used_indices prefix [] = []
used_indices prefix (i ∷ is_) =
    let rest = used_indices prefix is_ in
    elim (name_index prefix i.meta.name) [ none ↦ rest | some k ↦ k ∷ rest ]

abbrev pub is_index : ℤ → ℕ → Bool
is_index (pos n) k = n == k
is_index (negsuc n) k = false

unfoldable pub is_used : List ℤ → ℕ → Bool
is_used [] k = false
is_used (u ∷ us) k = is_index u k || is_used us k

-- `for used[idx] { idx++ }`, on fuel.
unfoldable pub first_unused : ℕ → ℕ → List ℤ → ℕ
first_unused zero idx used = idx
first_unused (suc f) idx used =
    let rest = first_unused f (suc idx) used in if is_used used idx then rest else idx

abbrev pub instance_prefix : Text → Text
instance_prefix pool_name = pool_name ++ codes "-"

-- One more round than there are used indices is enough, as `first_unused-fresh` shows.
unfoldable pub next_instance_name : Text → List Instance → Text
unfolding used_indices first_unused
next_instance_name pool_name instances =
    let used = used_indices (instance_prefix pool_name) instances in
    instance_prefix pool_name ++ decimal (first_unused (suc (length used)) 0 used)
