-- ===== src/Store/Columns.antt =====
-- Distinct columns of a table, also where a part is updated or taken away, as the outbox workers do
-- to the ids of services/order/internal/repository/outbox_repository.go and its copies.
use msa_saga_go_practical.Prelude.{
  ◌≡◌, ◌∙◌, sym, refl, ap, Bool, true, false, none, List, [], ◌∷◌, ◌++◌, arith, Eq, Bool-cases, inl,
  inr,
}
use mathlib.Core.List.{Memᴰ}
use msa_saga_go_practical.Store.Table.{find, update, is_row, All, Distinct}

module _ {R : Type 0} where
  find-update_append :
      (p q : R → Bool) (g : R → R) (t more : List R)
      → ((r : R) → p (g r) ≡ p r)
      → find p (t ++ more) ≡ none
      → find p (update q g t ++ more) ≡ none
  unfolding find update
  find-update_append p q g [] more keep h = h
  find-update_append p q g (r ∷ t) more keep h =
      ground (arith, keep r, find-update_append p q g t more keep)

  find-front : (p : R → Bool) (t more : List R) → find p (t ++ more) ≡ none → find p t ≡ none
  unfolding find
  find-front p [] more h = refl
  find-front p (r ∷ t) more h = ground (arith, find-front p t more)

  module _ {K : Type 0} ⦃e : Eq K⦄ (key : R → K) where
    pub Distinct-front : (t more : List R) → Distinct key (t ++ more) → Distinct key t
    Distinct-front [] more d = tt
    Distinct-front (r ∷ t) more d =
        (find-front (is_row key (key r)) t more d.0, Distinct-front t more d.1)

    pub Distinct-update_append :
        (q : R → Bool) (g : R → R) (t more : List R)
        → ((r : R) → key (g r) ≡ key r)
        → Distinct key (t ++ more)
        → Distinct key (update q g t ++ more)
    unfolding update
    Distinct-update_append q g [] more keep d = d
    Distinct-update_append q g (r ∷ t) more keep d =
        let rest =
          find-update_append (is_row key (key r)) q g t more
            (λ x. ap (λ k. e.beq k (key r)) (keep x)) d.0 in
        elim (Bool-cases (q r)) [
          | inl hit ↦ rw (hit, keep r) (rest, Distinct-update_append q g t more keep d.1)
          | inr miss ↦ rw miss (rest, Distinct-update_append q g t more keep d.1)
        ]

-- An UPDATE that gives a property to the rows of the table that it selects.
pub All-update_mem :
    {R : Type 0} (P : R → Type 0) (q : R → Bool) (g : R → R) (t : List R)
    → ((r : R) → Memᴰ r t → q r ≡ true → P (g r))
    → All P t
    → All P (update q g t)
unfolding update
All-update_mem P q g [] gives h = tt
All-update_mem P q g (r ∷ t) gives h =
    let rest = All-update_mem P q g t (λ x m. gives x (Memᴰ.tail m)) h.1 in
    elim (Bool-cases (q r)) [
      | inl hit ↦ rw hit (gives r (Memᴰ.head refl) hit, rest)
      | inr miss ↦ rw miss (h.0, rest)
    ]

-- A query that finds nothing has refused every row.
none_refused :
    {R : Type 0} (q : R → Bool) (r : R) (t : List R) → find q t ≡ none → Memᴰ r t → q r ≡ false
unfolding find
none_refused q r [] h m = elim m [ ]
none_refused q r (x ∷ t) h (Memᴰ.head same) = ground (arith)
none_refused q r (x ∷ t) h (Memᴰ.tail m) = ground (arith, none_refused q r t)

module _ {R K : Type 0} ⦃e : Eq K⦄ (key : R → K) where
  -- A row is the only one with its value in a distinct column.
  pub same_row :
      (p r : R) (t : List R) → Distinct key t → Memᴰ p t → Memᴰ r t → key r ≡ key p → r ≡ p
  same_row p r [] d m mr k = elim m [ ]
  same_row p r (x ∷ t) d (Memᴰ.head a) (Memᴰ.head b) k = b ∙ sym a
  same_row p r (x ∷ t) d (Memᴰ.head a) (Memᴰ.tail mr) k =
      let miss = none_refused (is_row key (key x)) r t d.0 mr in
      let same : key r ≡ key x = k ∙ ap key a in absurd (ground (arith, e.beq_iff (key r) (key x)))
  same_row p r (x ∷ t) d (Memᴰ.tail m) (Memᴰ.head b) k =
      let miss = none_refused (is_row key (key x)) p t d.0 m in
      let same : key p ≡ key x = sym k ∙ ap key b in
      absurd (ground (arith, e.beq_iff (key p) (key x)))
  same_row p r (x ∷ t) d (Memᴰ.tail m) (Memᴰ.tail mr) k = same_row p r t d.1 m mr k
