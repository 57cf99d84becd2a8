-- ===== src/Audit/Links.antt =====
-- The links between the entries of the audit log, and the tail that the next one hangs on.
use mathlib.Core.List.{append_assoc}
use pezhwan.Base.{ℕ, ◌+◌, ◌≤◌, ◌<◌, ◌≡◌, refl, List, [], ◌∷◌, ◌++◌, none, some, length, All, arith}
use pezhwan.Audit.{AuditLogDoc, Deps, recorded, tail_hash}

-- Documents in their order carry the sequence from n on, and each the hash of the one before it.
module _ (deps : Deps) where
  abbrev pub Linked : deps.Hash → ℕ → List (AuditLogDoc deps.Hash) → Type 0
  Linked p n [] = Unit
  Linked p n (d ∷ ds) =
      (d.sequence ≡ n)
      × ((d.prev_hash ≡ p) × ((d.hash ≡ deps.digest p (recorded d)) × Linked d.hash (n + 1) ds))

  abbrev pub tip : deps.Hash → List (AuditLogDoc deps.Hash) → deps.Hash
  tip p [] = p
  tip p (d ∷ ds) = tip d.hash ds

  -- A sort by descending sequence finds the document whose sequence is above all others.
  pub record IsNewest : Type 0 where
    pub empty_law : deps.newest [] ≡ none
    pub last_law :
        (l : List (AuditLogDoc deps.Hash)) (d : AuditLogDoc deps.Hash)
        → All (λ x. x.sequence < d.sequence) l
        → deps.newest (l ++ d ∷ []) ≡ some d

  pub Linked-append :
      (l : List (AuditLogDoc deps.Hash)) (p : deps.Hash) (n : ℕ) (d : AuditLogDoc deps.Hash)
      → Linked p n l
      → d.sequence ≡ n + length l
      → d.prev_hash ≡ tip p l
      → d.hash ≡ deps.digest (tip p l) (recorded d)
      → Linked p n (l ++ d ∷ [])
  Linked-append [] p n d links s e h = (omega arith, (e, (h, tt)))
  Linked-append (x ∷ l) p n d (s', (e', (h', links))) s e h =
      (s', (e', (h', Linked-append l x.hash (n + 1) d links (omega arith) e h)))

  pub tip-append :
      (l : List (AuditLogDoc deps.Hash)) (p : deps.Hash) (d : AuditLogDoc deps.Hash)
      → tip p (l ++ d ∷ []) ≡ d.hash
  tip-append [] p d = refl
  tip-append (x ∷ l) p d = tip-append l x.hash d

  All-below_append :
      (l : List (AuditLogDoc deps.Hash)) (d : AuditLogDoc deps.Hash) (m n : ℕ)
      → All (λ x. x.sequence < m) l
      → d.sequence < n
      → m ≤ n
      → All (λ x. x.sequence < n) (l ++ d ∷ [])
  All-below_append [] d m n h k le = (k, tt)
  All-below_append (x ∷ l) d m n (a, h) k le = (omega arith, All-below_append l d m n h k le)

  newest_after :
      IsNewest
      → (ds before : List (AuditLogDoc deps.Hash)) (d : AuditLogDoc deps.Hash) (p : deps.Hash)
        (n : ℕ)
      → All (λ x. x.sequence < n) before
      → Linked p n (d ∷ ds)
      → tail_hash deps (deps.newest (before ++ d ∷ ds)) ≡ tip d.hash ds
  newest_after rules [] before d p n below (s, rest) =
      rw (rules.last_law before d (rw s below)) refl
  newest_after rules (e ∷ ds) before d p n below (s, (_, (_, links))) =
      rw (← append_assoc before (d ∷ []) (e ∷ ds)) (
        newest_after rules ds (before ++ d ∷ []) e d.hash (n + 1)
          (All-below_append before d n (n + 1) below (omega arith) (omega arith)) links)

  -- In a linked log the tail is the newest document.
  pub tail_hash-newest :
      IsNewest
      → (l : List (AuditLogDoc deps.Hash)) → Linked deps.root 1 l
      → tail_hash deps (deps.newest l) ≡ tip deps.root l
  tail_hash-newest rules [] links = rw rules.empty_law refl
  tail_hash-newest rules (d ∷ ds) links = newest_after rules ds [] d deps.root 1 tt links
