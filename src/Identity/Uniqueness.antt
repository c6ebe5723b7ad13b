-- ===== src/Identity/Uniqueness.antt =====
-- No two employees have the same user: the partial unique index on employees.user_id.
use opero.Prelude.{
  ℕ, ◌≡◌, refl, subst, Bool, false, Option, none, some, List, [], ◌∷◌, inl, inr, arith, ◌==◌,
  any_row, update_rows, delete_rows, KeysDistinct, update_rows-none, Bool-cases,
}
use opero.Identity.Types.{Employee}
use opero.Identity.Queries.{by_id, by_user_id, is_user, user_taken, linked_employee}

-- Whether a row has the user, when there is one.
abbrev pub clash : Option ℕ → List Employee → Bool
clash none es = false
clash (some u) es = any_row (by_user_id u) es

abbrev pub UsersDistinct : List Employee → Type 0
UsersDistinct [] = Unit
UsersDistinct (e ∷ es) = (clash e.user_id es ≡ false) × UsersDistinct es

module _ (p : Employee → Bool) (f : Employee → Employee)
    (same : (e : Employee) → (f e).user_id ≡ e.user_id) where
  any_user-update :
      (u : ℕ) (es : List Employee)
      → any_row (by_user_id u) (update_rows p f es) ≡ any_row (by_user_id u) es
  unfolding any_row update_rows
  any_user-update u [] = refl
  any_user-update u (e ∷ es) = elim (Bool-cases (p e)) [
    | inl h ↦ rw (h, same e, any_user-update u es) refl
    | inr h ↦ rw (h, any_user-update u es) refl
  ]

  clash-update : (u : Option ℕ) (es : List Employee) → clash u (update_rows p f es) ≡ clash u es
  clash-update none es = refl
  clash-update (some u) es = any_user-update u es

  pub UsersDistinct-update :
      (es : List Employee) → UsersDistinct es → UsersDistinct (update_rows p f es)
  unfolding update_rows
  UsersDistinct-update [] h = h
  UsersDistinct-update (e ∷ es) h = elim (Bool-cases (p e)) [
    | inl hit ↦ rw (hit, same e, clash-update e.user_id es) (h.0, UsersDistinct-update es h.1)
    | inr missed ↦ rw (missed, clash-update e.user_id es) (h.0, UsersDistinct-update es h.1)
  ]

module _ (p : Employee → Bool) where
  any_user-delete :
      (u : ℕ) (es : List Employee)
      → any_row (by_user_id u) es ≡ false
      → any_row (by_user_id u) (delete_rows p es) ≡ false
  unfolding any_row delete_rows
  any_user-delete u [] h = refl
  any_user-delete u (e ∷ es) h = ground (arith, any_user-delete u es)

  clash-delete :
      (u : Option ℕ) (es : List Employee) → clash u es ≡ false → clash u (delete_rows p es) ≡ false
  clash-delete none es h = refl
  clash-delete (some u) es h = any_user-delete u es h

  pub UsersDistinct-delete :
      (es : List Employee) → UsersDistinct es → UsersDistinct (delete_rows p es)
  unfolding delete_rows
  UsersDistinct-delete [] h = h
  UsersDistinct-delete (e ∷ es) h = elim (Bool-cases (p e)) [
    | inl hit ↦ rw hit (UsersDistinct-delete es h.1)
    | inr missed ↦ rw missed (clash-delete e.user_id es h.0, UsersDistinct-delete es h.1)
  ]

-- Where no row has the id, no row but that one means no row.
untaken :
    (i u : ℕ) (es : List Employee)
    → any_row (by_id i) es ≡ false
    → user_taken i (some u) es ≡ false
    → any_row (by_user_id u) es ≡ false
unfolding any_row
untaken i u [] a h = refl
untaken i u (e ∷ es) a h = ground (arith, untaken i u es)

-- The new row of an insertion.
pub new_user-clash :
    (i : ℕ) (u : Option ℕ) (es : List Employee)
    → any_row (by_id i) es ≡ false
    → user_taken i u es ≡ false
    → clash u es ≡ false
new_user-clash i none es a h = refl
new_user-clash i (some u) es a h = untaken i u es a h

-- The link gives the user to one row.
module _ (i u now : ℕ) where
  linked_other :
      (v : ℕ) (es : List Employee)
      → (u == v) ≡ false
      → any_row (by_user_id v) es ≡ false
      → any_row (by_user_id v) (update_rows (by_id i) (linked_employee now u) es) ≡ false
  unfolding any_row update_rows
  linked_other v [] d h = refl
  linked_other v (e ∷ es) d h = ground (arith, linked_other v es)

  linked_clash :
      (e : Employee) (es : List Employee) (o : Option ℕ)
      → is_user u o ≡ false
      → clash o es ≡ false
      → clash o (update_rows (by_id i) (linked_employee now u) es) ≡ false
  linked_clash e es none d h = refl
  linked_clash e es (some v) d h = linked_other v es (ground (arith, d)) h

  pub linked-UsersDistinct :
      (es : List Employee)
      → KeysDistinct (λ e. e.id) es
      → user_taken i (some u) es ≡ false
      → UsersDistinct es
      → UsersDistinct (update_rows (by_id i) (linked_employee now u) es)
  unfolding update_rows any_row
  linked-UsersDistinct [] k h d = d
  linked-UsersDistinct (e ∷ es) k h d = elim (Bool-cases (e.id == i)) [
    | inl hit ↦
        let same : e.id ≡ i = ground arith in
        let absent : any_row (by_id i) es ≡ false =
          subst (λ n. any_row (λ y. y.id == n) es ≡ false) same k.0 in
        rw (hit, update_rows-none (by_id i) (linked_employee now u) es absent)
          (untaken i u es absent (ground (arith, h)), d.1)
    | inr missed ↦ rw missed (
      linked_clash e es e.user_id (ground (arith, missed, h)) d.0,
      linked-UsersDistinct es k.1 (ground (arith, h)) d.1,
    )
  ]
