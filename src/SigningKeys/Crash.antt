-- ===== src/SigningKeys/Crash.antt =====
-- What a crash leaves of a save by packages/core/src/services/keyStore.service.ts.
use pezhwan.Base.{
  ℕ, zero, suc, ◌≡◌, ◌⊎◌, refl, inl, inr, Bool, true, false, List, [], ◌∷◌, Option, some, find, any,
  update_first, take, arith, Bool-cases, ==_refl, any-find, find-append_miss, find-append_apart,
  find-update_first_apart,
}
use pezhwan.SigningKeys.{SigningKey}
use pezhwan.SigningKeys.Persist.{
  KeyFile, Directory, has_name, put_file, writes_tmp, renames, empty, corrupt, act, act_all,
  save_actions, key_file,
}

find-updated :
    (p : KeyFile → Bool) (f : KeyFile) (l : List KeyFile)
    → p f ≡ true
    → any p l ≡ true
    → find p (update_first p (λ _. f) l) ≡ some f
find-updated p f [] own there = cc
find-updated p f (g ∷ l) own there = ground (arith, find-updated p f l own)

put_file-found : (f : KeyFile) (l : List KeyFile) → find (has_name f.kid) (put_file f l) ≡ some f
put_file-found f l = elim (Bool-cases (any (has_name f.kid) l)) [
  | inl old ↦ rw old (find-updated (has_name f.kid) f l (==_refl f.kid) old)
  | inr fresh ↦
      rw (fresh, find-append_miss (has_name f.kid) l (f ∷ []) (any-find (has_name f.kid) l fresh))
        (ground (arith, ==_refl f.kid))
]

put_file-other :
    (kid : ℕ) (f : KeyFile) (l : List KeyFile)
    → has_name kid f ≡ false
    → find (has_name kid) (put_file f l) ≡ find (has_name kid) l
put_file-other kid f l other = elim (Bool-cases (any (has_name f.kid) l)) [
  | inl old ↦ rw old (
      find-update_first_apart (has_name f.kid) (has_name kid) (λ _. f) l
        (λ a h. (ground arith, other)))
  | inr fresh ↦ rw fresh (find-append_apart (has_name kid) l f other)
]

put_file-cases :
    (kid : ℕ) (f : KeyFile) (l : List KeyFile)
    → (find (has_name kid) (put_file f l) ≡ some f)
      ⊎ (find (has_name kid) (put_file f l) ≡ find (has_name kid) l)
put_file-cases kid f l = elim (Bool-cases (has_name kid f)) [
  | inl own ↦ let same : f.kid ≡ kid = ground arith in inl (rw (← same) (put_file-found f l))
  | inr other ↦ inr (put_file-other kid f l other)
]

-- The file holds one of the keys.
pub IsFileOf : KeyFile → List SigningKey → Type 0
IsFileOf f [] = ⊥
IsFileOf f (k ∷ l) = (f ≡ key_file k) ⊎ IsFileOf f l

-- The file of a kid is the one before, or holds one of the keys.
abbrev pub IsWhole : ℕ → List SigningKey → Option KeyFile → Option KeyFile → Type 0
IsWhole kid keys before after =
    (after ≡ before) ⊎ ((f : KeyFile) × (after ≡ some f) × (f.kid ≡ kid) × IsFileOf f keys)

module _ (kid : ℕ) where
  IsWhole-first :
      (k : SigningKey) (keys : List SigningKey) (pem : List KeyFile) (o : Option KeyFile)
      → IsWhole kid keys (find (has_name kid) (put_file (key_file k) pem)) o
      → IsWhole kid (k ∷ keys) (find (has_name kid) pem) o
  unfolding IsFileOf
  IsWhole-first k keys pem o (inr (f, at, named, file)) = inr (f, at, named, inr file)
  IsWhole-first k keys pem o (inl e) = elim (Bool-cases (has_name kid (key_file k))) [
    | inl own ↦
        let same : k.kid ≡ kid = ground arith in
        inr (key_file k, rw e (rw (← same) (put_file-found (key_file k) pem)), same, inl refl)
    | inr other ↦ inl (rw e (put_file-other kid (key_file k) pem other))
  ]

-- A crash in the middle of a save loses no key: wherever the save stops, after however many of its
-- writes and renamings, the file of each kid is either the one that was there before the save or a
-- complete one of a key of that kid that was being saved, never an empty or an incomplete one.
pub save-crash_safe :
    (keys : List SigningKey) (d : Directory) (n kid : ℕ)
    → IsWhole kid keys
        (find (has_name kid) d.pem)
        (find (has_name kid) (act_all (take n (save_actions keys)) d).pem)
unfolding act_all act save_actions
save-crash_safe [] d zero kid = inl refl
save-crash_safe [] d (suc n) kid = inl refl
save-crash_safe (k ∷ keys) d zero kid = inl refl
save-crash_safe (k ∷ keys) d (suc zero) kid = inl refl
save-crash_safe (k ∷ keys) d (suc (suc zero)) kid = inl refl
save-crash_safe (k ∷ keys) d (suc (suc (suc zero))) kid = inl refl
save-crash_safe (k ∷ keys) d (suc (suc (suc (suc n)))) kid =
    let d1 = act (renames k.kid) (
      act (writes_tmp (key_file k)) (
        act (writes_tmp (record { kid = k.kid; content = corrupt }))
          (act (writes_tmp (record { kid = k.kid; content = empty })) d))) in
    let same : d1.pem ≡ put_file (key_file k) d.pem = rw (put_file-found (key_file k) _) refl in
    IsWhole-first kid k keys d.pem _ (rw (← same) (save-crash_safe keys d1 n kid))
