-- ===== src/Bundle/Await.antt =====
-- A read of internal/controller/crcbundle_controller.go that waits for an object to appear, and what
-- follows a read or a write that went on.
use guestcluster.Base.{Option, String, ap, none, refl, some, ℤ, ◌≡◌}
use guestcluster.Kube.{
  ApiError, M, Reply, already_exists, api, fail, forbidden, found, go_on, not_found, other, refused,
  requeue, return, seconds, wrapped, write, ◌>>=◌, ◌>>◌,
}

abbrev pub crc_bundle_requeue_interval : ℤ
crc_bundle_requeue_interval = seconds 20

-- A missing object ends the handler with a requeue; every other error ends it, wrapped.
abbrev pub await : {S A : Type 0} → String → (S → Reply A) → M S A
await context get s = elim (get s) [
  | found a ↦ (go_on a, s)
  | refused not_found ↦ (return (requeue crc_bundle_requeue_interval), s)
  | refused e ↦ (return (fail (wrapped context (api e))), s)
]

module _ {S A B : Type 0} (R : S → Type 0) where
  await_from :
      (context : String) (f : A → M S B) (x : Reply A) (s : S)
      → ((a : A) → x ≡ found a → R (f a s).1)
      → R s
      → R ((await context (λ _. x) >>= f) s).1
  await_from context f (found a) s h k = h a refl
  await_from context f (refused not_found) s h k = k
  await_from context f (refused already_exists) s h k = k
  await_from context f (refused (forbidden m)) s h k = k
  await_from context f (refused (other m)) s h k = k

  pub await-final :
      (context : String) (get : S → Reply A) (f : A → M S B) (s : S)
      → ((a : A) → get s ≡ found a → R (f a s).1)
      → R s
      → R ((await context get >>= f) s).1
  await-final context get f s h k = await_from context f (get s) s h k

written_from :
    {S : Type 0} (context : String) (r : Option ApiError × S) (t : S)
    → (write context (λ (u : S). r) t).0 ≡ go_on tt
    → r.0 ≡ none
written_from context (none, u) t h = refl
written_from context (some e, u) t h = cc h

-- A write that went on succeeded.
pub write-went_on :
    {S : Type 0} (context : String) (put_it : S → Option ApiError × S) (t : S)
    → (write context put_it t).0 ≡ go_on tt
    → (put_it t).0 ≡ none
write-went_on context put_it t h = written_from context (put_it t) t h

module _ {S A B : Type 0} where
  awaited_from :
      (context : String) (f : A → M S B) (x : Reply A) (s : S) (a : A)
      → x ≡ found a
      → (await context (λ _. x) >>= f) s ≡ f a s
  awaited_from context f (found b) s a e = ap (λ c. f c s) (cc e)
  awaited_from context f (refused x) s a e = cc e

  pub await-found :
      (context : String) (get : S → Reply A) (f : A → M S B) (s : S) (a : A)
      → get s ≡ found a
      → (await context get >>= f) s ≡ f a s
  await-found context get f s a e = awaited_from context f (get s) s a e

module _ {S B : Type 0} where
  wrote_from :
      (context : String) (r : Option ApiError × S) (k : M S B) (s : S)
      → r.0 ≡ none
      → (write context (λ (u : S). r) >> k) s ≡ k r.1
  wrote_from context (none, t) k s e = refl
  wrote_from context (some x, t) k s e = cc e

  pub write-succeeded :
      (context : String) (put_it : S → Option ApiError × S) (k : M S B) (s : S)
      → (put_it s).0 ≡ none
      → (write context put_it >> k) s ≡ k (put_it s).1
  write-succeeded context put_it k s e = wrote_from context (put_it s) k s e
