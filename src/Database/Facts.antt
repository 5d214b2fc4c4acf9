-- ===== src/Database/Facts.antt =====
-- What the laws of `IsSql` give for a call that a repository makes, and `IsUp`: a database whose
-- calls do not fail, for the theorems that say that an operation succeeds.

use centrauth.Base.{
  ℕ, zero, suc, ◌≡◌, ◌≢◌, refl, sym, ◌∙◌, Bool, true, false, inl, inr, Option-cases, Bool-cases,
  List, none, some, arith, if◌then◌else◌, nat_eq, nat_eq_iff,
}
use centrauth.Models.{Table, Row, id_of, conflicts}
use centrauth.Database.{
  Run, ok, err, GormError, record_not_found, fault, Sql, IsSql, Same, NoRow, KeepsId,
}

-- No call meets a fault of the connection, and a create is refused only for a conflict.
pub record IsUp {World : Type 0} (sql : Sql World) : Type 0 where
  pub first_up : (t : Table) (p : Row t → Bool) (w w' : World) → sql.first t p w ≢ err fault w'
  pub update_up :
      (t : Table) (p : Row t → Bool) (f : Row t → Row t) (w w' : World) (e : GormError)
      → sql.update t p f w ≢ err e w'

module _ {World : Type 0} {sql : Sql World} (laws : IsSql sql) where
  pub first-Same :
      (t : Table) (p : Row t → Bool) (w w' : World) {r : Row t}
      → sql.first t p w ≡ ok r w'
      → Same sql w w'
  first-Same t p w w' e u k = let kept = laws.first_keeps t p w u k in rw e at kept

  pub find-Same :
      (t : Table) (p : Row t → Bool) (w w' : World) {rs : List (Row t)}
      → sql.find t p w ≡ ok rs w'
      → Same sql w w'
  find-Same t p w w' e u k = let kept = laws.find_keeps t p w u k in rw e at kept

  -- Where no row meets the condition, none is found.
  pub first_of_none :
      IsUp sql
      → (t : Table) (p : Row t → Bool) (w : World) → NoRow sql t p w
      → (w' : World) × (sql.first t p w ≡ err record_not_found w')
  first_of_none up t p w none_meets = go (sql.first t p w) refl
    where
      go :
          (o : Run World GormError (Row t))
          → sql.first t p w ≡ o
          → (w' : World) × (sql.first t p w ≡ err record_not_found w')
      go (ok s w') e =
          let (found, meets) = laws.first_ok t p w w' s e in
          let missing : p s ≡ false = none_meets (id_of t s) s found in absurd (cc)
      go (err record_not_found w') e = (w', e)
      go (err fault w') e = absurd (up.first_up t p w w' e)

  -- An update that a row meets succeeds, on one row at least.
  pub update_of_row :
      IsUp sql
      → (t : Table) (p : Row t → Bool) (f : Row t → Row t) (w : World) (k : ℕ) (r : Row t)
      → sql.row t w k ≡ some r
      → p r ≡ true
      → (n : ℕ) × (w' : World) × (sql.update t p f w ≡ ok (suc n) w')
  update_of_row up t p f w k r there holds = go (sql.update t p f w) refl
    where
      go :
          (o : Run World GormError ℕ)
          → sql.update t p f w ≡ o
          → (n : ℕ) × (w' : World) × (sql.update t p f w ≡ ok (suc n) w')
      go (ok zero w') e =
          let missing : p r ≡ false = laws.update_none t p f w w' e k r there in absurd (cc)
      go (ok (suc n) w') e = (n, w', e)
      go (err x w') e = absurd (up.update_up t p f w w' x e)

  -- The row under a key after an update.
  pub update_at :
      (t : Table) (p : Row t → Bool) (f : Row t → Row t) (w w' : World) (n : ℕ) (k : ℕ) (r : Row t)
      → KeepsId t f
      → sql.update t p f w ≡ ok n w'
      → sql.row t w k ≡ some r
      → sql.row t w' k ≡ some (if p r then f r else r)
  update_at t p f w w' n k r keep e there = rw (laws.update_row t p f w w' n keep e k, there)

  -- An update that touched no row left every row as it was.
  pub update_nothing :
      (t : Table) (p : Row t → Bool) (f : Row t → Row t) (w w' : World)
      → KeepsId t f
      → sql.update t p f w ≡ ok 0 w'
      → (k : ℕ) → sql.row t w' k ≡ sql.row t w k
  update_nothing t p f w w' keep e k =
      let after = laws.update_row t p f w w' 0 keep e k in
      elim (Option-cases (sql.row t w k)) [
        | inl missing ↦ rw (after, missing)
        | inr (r, there) ↦
            let unmet : p r ≡ false = laws.update_none t p f w w' e k r there in
            rw (after, there) (ground arith)
      ]

  -- The row that a create stores is there afterwards, and every other is as it was.
  pub create_self :
      (t : Table) (x r : Row t) (w w' : World)
      → sql.create t x w ≡ ok r w'
      → sql.row t w' (id_of t r) ≡ some r
  create_self t x r w w' e =
      rw (laws.create_row t x w w' r e (id_of t r))
        (ground (arith, nat_eq_iff (id_of t r) (id_of t r)))

  -- A row that is the only one to meet a condition is the one that is found.
  pub first_of_row :
      IsUp sql
      → (t : Table) (p : Row t → Bool) (w : World) (k : ℕ) (r : Row t) → sql.row t w k ≡ some r
      → p r ≡ true
      → ((j : ℕ) (s : Row t) → sql.row t w j ≡ some s → p s ≡ true → j ≡ k)
      → (w' : World) × (sql.first t p w ≡ ok r w') × Same sql w w'
  first_of_row up t p w k r there holds only = go (sql.first t p w) refl
    where
      go :
          (o : Run World GormError (Row t))
          → sql.first t p w ≡ o
          → (w' : World) × (sql.first t p w ≡ ok r w') × Same sql w w'
      go (ok s w') e =
          let (found, meets) = laws.first_ok t p w w' s e in
          let same_key : id_of t s ≡ k = only (id_of t s) s found meets in
          let same_row : some s ≡ some r = sym (rw same_key at found) ∙ there in
          (w', cc, first-Same t p w w' e)
      go (err record_not_found w') e =
          let missing : p r ≡ false = laws.first_missing t p w w' e k r there in absurd (cc)
      go (err fault w') e = absurd (up.first_up t p w w' e)

  pub create_keeps :
      (t : Table) (x stored r : Row t) (w w' : World) (k : ℕ)
      → sql.create t x w ≡ ok stored w'
      → sql.row t w k ≡ some r
      → sql.row t w' k ≡ some r
  create_keeps t x stored r w w' k e there =
      let (free, _) = laws.create_fresh t x w w' stored e in
      let rows = laws.create_row t x w w' stored e k in
      elim (Bool-cases (nat_eq k (id_of t stored))) [
        | inl taken ↦
            let key : k ≡ id_of t stored = (nat_eq_iff k (id_of t stored)).0 taken in
            let missing : sql.row t w k ≡ none = rw key free in absurd (cc)
        | inr other ↦ rows ∙ rw other there
      ]

  -- A row that was just created is the one that is found by a condition that no row beside it may
  -- meet.
  pub first_of_create :
      IsUp sql
      → (t : Table) (x stored : Row t) (w w' : World) (p : Row t → Bool)
      → sql.create t x w ≡ ok stored w'
      → p stored ≡ true
      → ((s : Row t) → p s ≡ true → conflicts t s stored ≡ true)
      → (u : World) × (sql.first t p w' ≡ ok stored u) × Same sql w' u
  first_of_create up t x stored w w' p e holds unique =
      let (_, fresh) = laws.create_fresh t x w w' stored e in
      first_of_row up t p w' (id_of t stored) stored (create_self t x stored w w' e) holds
        λ j s there meets. elim (Bool-cases (nat_eq j (id_of t stored))) [
          | inl here ↦ (nat_eq_iff j (id_of t stored)).0 here
          | inr other ↦
              let rows = laws.create_row t x w w' stored e j in
              let old : sql.row t w j ≡ some s = sym (rw other at rows) ∙ there in
              let clash = unique s meets in let free = fresh j s old in absurd (cc)
        ]
