-- ===== src/Base/Updates.antt =====
-- What an update of the first element that passes a test, or of all that do, leaves to find and count.
use Prim.Native.Nat.{◌+◌, ◌≤◌}
use mathlib.Core.Path.{◌≡◌, refl}
use mathlib.Core.Bool.{Bool, true, false}
use mathlib.Core.List.{List, [], ◌∷◌}
use mathlib.Core.Option.{none, some}
use native.Mathlib.Omega.{arith}
use pezhwan.Base.Tests.{if◌then◌else◌}
use pezhwan.Base.Lists.{count, find, update_first, update_all, bit, count_pos_of_find, find_unique}

module _ {ℓ} {A : Type ℓ} where
  -- An update of the first match moves one document from one count to the other.
  pub count-update_first :
      (q p : A → Bool) (f : A → A) (xs : List A) {x : A}
      → find p xs ≡ some x
      → count q (update_first p f xs) + bit (q x) ≡ count q xs + bit (q (f x))
  count-update_first q p f [] h = cc
  count-update_first q p f (y ∷ xs) {x} h = ground (arith, count-update_first q p f xs {x = x})

  pub update_first_miss :
      (p : A → Bool) (f : A → A) (xs : List A) → find p xs ≡ none → update_first p f xs ≡ xs
  update_first_miss p f [] h = refl
  update_first_miss p f (y ∷ xs) h = ground (arith, update_first_miss p f xs)

  -- An update of all matches counts as the composed test does.
  pub count-update_all :
      (q p : A → Bool) (f : A → A) (xs : List A)
      → count q (update_all p f xs) ≡ count (λ a. q (if p a then f a else a)) xs
  count-update_all q p f [] = refl
  count-update_all q p f (x ∷ xs) = omega (arith, count-update_all q p f xs)

  pub count-update_first_le :
      (q p : A → Bool) (f : A → A) (xs : List A)
      → ((a : A) → q (f a) ≡ true → q a ≡ true)
      → count q (update_first p f xs) ≤ count q xs
  count-update_first_le q p f [] h = omega arith
  count-update_first_le q p f (x ∷ xs) h = ground (arith, h x, count-update_first_le q p f xs h)

  pub count-update_all_le :
      (q p : A → Bool) (f : A → A) (xs : List A)
      → ((a : A) → q (f a) ≡ true → q a ≡ true)
      → count q (update_all p f xs) ≤ count q xs
  count-update_all_le q p f [] h = omega arith
  count-update_all_le q p f (x ∷ xs) h = ground (arith, h x, count-update_all_le q p f xs h)

  -- A test that an update leaves alone counts the same.
  pub count-update_first_same :
      (q p : A → Bool) (f : A → A) (xs : List A)
      → ((a : A) → q (f a) ≡ q a)
      → count q (update_first p f xs) ≡ count q xs
  count-update_first_same q p f [] h = refl
  count-update_first_same q p f (x ∷ xs) h = ground (arith, h x, count-update_first_same q p f xs h)

  pub count-update_all_same :
      (q p : A → Bool) (f : A → A) (xs : List A)
      → ((a : A) → q (f a) ≡ q a)
      → count q (update_all p f xs) ≡ count q xs
  count-update_all_same q p f [] h = refl
  count-update_all_same q p f (x ∷ xs) h = ground (arith, h x, count-update_all_same q p f xs h)

  -- The updated document is found by a test that the update keeps and that passes at most once.
  pub find-update_first_self :
      (p q : A → Bool) (f : A → A) (xs : List A) {x : A}
      → ((a : A) → q (f a) ≡ q a)
      → find p xs ≡ some x
      → q x ≡ true
      → count q xs ≤ 1
      → find q (update_first p f xs) ≡ some (f x)
  find-update_first_self p q f [] keep h k c = cc
  find-update_first_self p q f (y ∷ xs) {x} keep h k c = ground (
    arith,
    keep y,
    find-update_first_self p q f xs {x = x} keep,
    count_pos_of_find q xs {x = x},
    find_unique p q xs {x = x},
  )

  -- The document found is the one that an update by its unique key alters.
  pub find-update_first_unique :
      (p q : A → Bool) (f : A → A) (xs : List A) {x : A}
      → ((a : A) → q (f a) ≡ q a)
      → find q xs ≡ some x
      → p x ≡ true
      → count p xs ≤ 1
      → find q (update_first p f xs) ≡ some (f x)
  find-update_first_unique p q f [] keep h k c = cc
  find-update_first_unique p q f (y ∷ xs) {x} keep h k c = ground (
    arith,
    keep y,
    find-update_first_unique p q f xs {x = x} keep,
    find_unique q p xs {x = x},
    count_pos_of_find p xs {x = x},
  )

  pub find-update_first_apart :
      (p q : A → Bool) (f : A → A) (xs : List A)
      → ((a : A) → p a ≡ true → (q a ≡ false) × (q (f a) ≡ false))
      → find q (update_first p f xs) ≡ find q xs
  find-update_first_apart p q f [] h = refl
  find-update_first_apart p q f (x ∷ xs) h = ground (arith, h x, find-update_first_apart p q f xs h)

  -- The element found is the one that an update by the same test alters.
  pub find-update_first :
      (p : A → Bool) (f : A → A) (xs : List A) {x : A}
      → ((a : A) → p (f a) ≡ p a)
      → find p xs ≡ some x
      → find p (update_first p f xs) ≡ some (f x)
  find-update_first p f [] keep h = cc
  find-update_first p f (y ∷ xs) {x} keep h =
      ground (arith, keep y, find-update_first p f xs {x = x} keep)

  pub count-update_first_apart :
      (p q : A → Bool) (f : A → A) (xs : List A)
      → ((a : A) → p a ≡ true → (q a ≡ false) × (q (f a) ≡ false))
      → count q (update_first p f xs) ≡ count q xs
  count-update_first_apart p q f [] h = refl
  count-update_first_apart p q f (x ∷ xs) h =
      ground (arith, h x, count-update_first_apart p q f xs h)
