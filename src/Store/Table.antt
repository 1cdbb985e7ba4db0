-- ===== src/Store/Table.antt =====
-- Tables as lists of rows, oldest first, and the shapes of the SQL statements that the repositories
-- send: SELECT of one row, INSERT, and UPDATE with a WHERE clause.
use msa_saga_go_practical.Prelude.{
  ℕ, suc, ◌≡◌, ◌≢◌, ap, refl, Bool, true, false, Option, none, some, List, [], ◌∷◌, ◌++◌, arith,
  if◌then◌else◌, Bool-cases, inl, inr, Eq,
}
use mathlib.Core.Path.{subst}

module _ {R : Type 0} where
  -- `SELECT … WHERE p`, of which `QueryRow` takes the first row.
  unfoldable pub find : (R → Bool) → List R → Option R
  find p [] = none
  find p (r ∷ t) = if p r then some r else find p t

  -- `UPDATE … SET g WHERE p`
  unfoldable pub update : (R → Bool) → (R → R) → List R → List R
  update p g [] = []
  update p g (r ∷ t) = (if p r then g r else r) ∷ update p g t

  -- The number of rows that an UPDATE with this WHERE clause affects.
  unfoldable pub affected : (R → Bool) → List R → ℕ
  affected p [] = 0
  affected p (r ∷ t) = if p r then suc (affected p t) else affected p t

  -- `INSERT`
  abbrev pub insert : R → List R → List R
  insert r t = t ++ (r ∷ [])

  abbrev pub All : (R → Type 0) → List R → Type 0
  All P [] = Unit
  All P (r ∷ t) = P r × All P t

  pub find-insert :
      (p : R → Bool) (r : R) (t : List R)
      → find p (insert r t)
        ≡ elim (find p t) [ some x ↦ some x | none ↦ if p r then some r else none ]
  unfolding find
  find-insert p r [] = refl
  find-insert p r (x ∷ t) = elim (Bool-cases (p x)) [
    | inl e ↦ rw e refl
    | inr e ↦ rw e (find-insert p r t)
  ]

  pub find-insert_new :
      (p : R → Bool) (r : R) (t : List R)
      → find p t ≡ none
      → p r ≡ true
      → find p (insert r t) ≡ some r
  find-insert_new p r t h e = rw (find-insert p r t, h, e) refl

  pub find-insert_old :
      (p : R → Bool) (r : R) {x : R} (t : List R) → find p t ≡ some x → find p (insert r t) ≡ some x
  find-insert_old p r t h = rw (find-insert p r t, h) refl

  -- What is found satisfies the WHERE clause.
  pub find_holds : (p : R → Bool) {x : R} (t : List R) → find p t ≡ some x → p x ≡ true
  unfolding find
  find_holds p [] h = cc
  find_holds p {x} (r ∷ t) h = ground (arith, find_holds p {x = x} t)

  -- A row that the UPDATE's own clause selects, found by a clause that the update leaves alone.
  pub find-update_hit :
      (p q : R → Bool) (g : R → R) {x : R} (t : List R)
      → ((r : R) → q r ≡ true → p (g r) ≡ p r)
      → find p t ≡ some x
      → q x ≡ true
      → find p (update q g t) ≡ some (g x)
  unfolding find update
  find-update_hit p q g [] keep h e = cc
  find-update_hit p q g {x} (r ∷ t) keep h e =
      ground (arith, keep r, find-update_hit p q g {x = x} t keep)

  -- A row that the clause does not select stays.
  find-update_miss :
      (p q : R → Bool) (g : R → R) {x : R} (t : List R)
      → ((r : R) → q r ≡ true → p (g r) ≡ p r)
      → find p t ≡ some x
      → q x ≡ false
      → find p (update q g t) ≡ some x
  unfolding find update
  find-update_miss p q g [] keep h e = cc
  find-update_miss p q g {x} (r ∷ t) keep h e =
      ground (arith, keep r, find-update_miss p q g {x = x} t keep)

  find-update_none :
      (p q : R → Bool) (g : R → R) (t : List R)
      → ((r : R) → q r ≡ true → p (g r) ≡ p r)
      → find p t ≡ none
      → find p (update q g t) ≡ none
  unfolding find update
  find-update_none p q g [] keep h = refl
  find-update_none p q g (r ∷ t) keep h = ground (arith, keep r, find-update_none p q g t keep)

  -- A row that is found has a version that is found after the UPDATE.
  pub find-update_some :
      (p q : R → Bool) (g : R → R) (t : List R)
      → ((r : R) → q r ≡ true → p (g r) ≡ p r)
      → find p t ≢ none
      → find p (update q g t) ≢ none
  unfolding find update
  find-update_some p q g [] keep h = h
  find-update_some p q g (r ∷ t) keep h = ground (arith, keep r, find-update_some p q g t keep)

  -- A query that neither the updated rows nor their new versions answer.
  pub find-update_other :
      (p q : R → Bool) (g : R → R) (t : List R)
      → ((r : R) → q r ≡ true → (p r ≡ false) × (p (g r) ≡ false))
      → find p (update q g t) ≡ find p t
  unfolding find update
  find-update_other p q g [] apart = refl
  find-update_other p q g (r ∷ t) apart = ground (arith, apart r, find-update_other p q g t apart)

  -- An UPDATE that affects no row changes nothing.
  pub update_none_affected :
      (q : R → Bool) (g : R → R) (t : List R) → affected q t ≡ 0 → update q g t ≡ t
  unfolding affected update
  update_none_affected q g [] h = refl
  update_none_affected q g (r ∷ t) h = ground (arith, update_none_affected q g t)

  -- A row that is found is affected by an UPDATE with a clause that holds of it.
  pub affected_of_find :
      (p q : R → Bool) {x : R} (t : List R) → find p t ≡ some x → q x ≡ true → affected q t ≢ 0
  unfolding find affected
  affected_of_find p q [] h e = cc
  affected_of_find p q {x} (r ∷ t) h e = ground (arith, affected_of_find p q {x = x} t)

  pub All-map : (P Q : R → Type 0) (t : List R) → ((r : R) → P r → Q r) → All P t → All Q t
  All-map P Q [] f h = tt
  All-map P Q (r ∷ t) f h = (f r h.0, All-map P Q t f h.1)

  pub All-remove :
      (P : R → Type 0) (before : List R) (r : R) (after : List R)
      → All P (before ++ (r ∷ after))
      → P r × All P (before ++ after)
  All-remove P [] r after h = h
  All-remove P (x ∷ before) r after h =
      let (p, rest) = All-remove P before r after h.1 in (p, (h.0, rest))

  pub All-insert : (P : R → Type 0) (r : R) (t : List R) → All P t → P r → All P (insert r t)
  All-insert P r [] h k = (k, tt)
  All-insert P r (x ∷ t) h k = (h.0, All-insert P r t h.1 k)

  pub All-update :
      (P : R → Type 0) (q : R → Bool) (g : R → R) (t : List R)
      → ((r : R) → P r → P (g r))
      → All P t
      → All P (update q g t)
  unfolding update
  All-update P q g [] keep h = tt
  All-update P q g (r ∷ t) keep h = elim (Bool-cases (q r)) [
    | inl e ↦ rw e (keep r h.0, All-update P q g t keep h.1)
    | inr e ↦ rw e (h.0, All-update P q g t keep h.1)
  ]

  pub All-find :
      (P : R → Type 0) (p : R → Bool) {x : R} (t : List R) → All P t → find p t ≡ some x → P x
  unfolding find
  All-find P p [] h e = cc
  All-find P p {x} (r ∷ t) h e = elim (Bool-cases (p r)) [
    | inl hit ↦ let same : r ≡ x = ground arith in subst P same h.0
    | inr miss ↦ All-find P p t h.1 (rw (miss) at e)
  ]

-- No two rows agree in a column.
module _ {R K : Type 0} ⦃e : Eq K⦄ (key : R → K) where
  abbrev pub is_row : K → R → Bool
  is_row k r = e.beq (key r) k

  abbrev pub Distinct : List R → Type 0
  Distinct [] = Unit
  Distinct (r ∷ t) = (find (is_row (key r)) t ≡ none) × Distinct t

  pub Distinct-insert :
      (r : R) (t : List R) → Distinct t → find (is_row (key r)) t ≡ none → Distinct (insert r t)
  unfolding find
  Distinct-insert r [] d h = (refl, tt)
  Distinct-insert r (x ∷ t) d h = ground (
    arith,
    find-insert (is_row (key x)) r t,
    e.beq_iff (key x) (key r),
    e.beq_iff (key r) (key x),
    Distinct-insert r t d.1,
  )

  pub Distinct-update :
      (q : R → Bool) (g : R → R) (t : List R)
      → ((r : R) → key (g r) ≡ key r)
      → Distinct t
      → Distinct (update q g t)
  unfolding update
  Distinct-update q g [] keep d = tt
  Distinct-update q g (r ∷ t) keep d =
      let rest : find (is_row (key r)) (update q g t) ≡ none =
        find-update_none (is_row (key r)) q g t (λ x _. ap (λ k. e.beq k (key r)) (keep x)) d.0 in
      elim (Bool-cases (q r)) [
        | inl hit ↦ rw (hit, keep r) (rest, Distinct-update q g t keep d.1)
        | inr miss ↦ rw miss (rest, Distinct-update q g t keep d.1)
      ]
