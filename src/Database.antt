-- ===== src/Database.antt =====
-- The database behind internal/repository: what gorm and PostgreSQL do is a parameter, `Sql`, with
-- the operations that the repositories call and, in `IsSql`, the laws that they rely on. `World`
-- is the state of the database; a fault of the connection is an error that any call may give.
pub mod Memory
pub mod Facts
pub mod Inversion
pub mod Rules
use centrauth.Base.{
  ℕ, suc, ◌≡◌, ◌≢◌, Bool, false, true, String, List, Option, none, some, if◌then◌else◌, nat_eq,
}
use centrauth.Models.{Table, Row, id_of, fill, conflicts}
use mathlib.Core.Option

-- The outcome of a call, with the world that it leaves.
pub data Run (World Error A : Type 0) : Type 0 where
  ok : A → World → Run World Error A
  err : Error → World → Run World Error A

abbrev pub M : Type 0 → Type 0 → Type 0 → Type 0
M World Error A = World → Run World Error A

module _ {World Error : Type 0} where
  abbrev pub pure : {A : Type 0} → A → M World Error A
  pure a w = ok a w

  abbrev pub throw : {A : Type 0} → Error → M World Error A
  throw e w = err e w

  infixl 5 ◌>>=◌ ◌>>◌
  abbrev pub ◌>>=◌ : {A B : Type 0} → M World Error A → (A → M World Error B) → M World Error B
  ◌>>=◌ m f w = elim (m w) [ ok a w' ↦ f a w' | err e w' ↦ err e w' ]

  abbrev pub ◌>>◌ : {B : Type 0} → M World Error (Unit {0}) → M World Error B → M World Error B
  m >> k = m >>= λ _. k

  abbrev pub world : {A : Type 0} → Run World Error A → World
  world (ok a w) = w
  world (err e w) = w

  -- `if err != nil { return ... }` with the error that the caller answers instead.
  abbrev pub or_fail : {A E : Type 0} → M World E A → (E → Error) → M World Error A
  or_fail m handle w = elim (m w) [ ok a w' ↦ ok a w' | err e w' ↦ err (handle e) w' ]

  -- An early return.
  abbrev pub guard : Bool → Error → M World Error (Unit {0})
  guard true e w = ok tt w
  guard false e w = err e w

-- gorm.ErrRecordNotFound, and every other error.
pub data GormError : Type 0 where
  record_not_found fault : GormError

-- What the repositories return: ErrNotFound of internal/repository/errors.go, ErrSeatTaken, and
-- every error that they pass on.
pub data RepoError : Type 0 where
  not_found seat_taken database : RepoError

-- What is left of a row after a delete of those that meet the condition.
abbrev pub unless {ℓ} : {R : Type ℓ} → (R → Bool) → Option R → Option R
unless p none = none
unless p (some r) = if p r then none else some r

pub record Sql (World : Type 0) : Type 1 where
  -- The row of a table under a primary key.
  pub row : (t : Table) → World → ℕ → Option (Row t)
  -- gorm.G[Row](db).Where(p).First(ctx)
  pub first : (t : Table) → (Row t → Bool) → M World GormError (Row t)
  -- gorm.G[Row](db).Where(p).Find(ctx)
  pub find : (t : Table) → (Row t → Bool) → M World GormError (List (Row t))
  -- ...Where(p).Order(column).Find(ctx)
  pub find_ordered :
      (t : Table) → (Row t → Bool) → (Row t → String) → M World GormError (List (Row t))
  -- gorm.G[Row](db).Count(ctx, "*")
  pub count : (t : Table) → M World GormError ℕ
  -- gorm.G[Row](db).Create(ctx, row)
  pub create : (t : Table) → Row t → M World GormError (Row t)
  -- gorm.G[Row](db).Where(p).Update(ctx, ...), with the number of rows
  pub update : (t : Table) → (Row t → Bool) → (Row t → Row t) → M World GormError ℕ
  -- gorm.G[Row](db).Where(p).Delete(ctx), with the number of rows
  pub delete : (t : Table) → (Row t → Bool) → M World GormError ℕ
  -- gorm.G[Row](db, OnConflict{Columns: key, DoUpdates: merge}).Create(ctx, row)
  pub upsert :
      (t : Table)
      → (Row t → Row t → Bool)
      → (Row t → Row t → Row t)
      → Row t
      → M World GormError (Row t)
  -- SELECT pg_advisory_xact_lock, under the hash of a text
  pub lock : String → M World GormError (Unit {0})
  -- db.Transaction; the result stands for what the body leaves behind its pointers
  pub transaction : (A : Type 0) → M World RepoError A → M World RepoError A

abbrev pub KeepsId : (t : Table) → (Row t → Row t) → Type 0
KeepsId t f = (r : Row t) → id_of t (f r) ≡ id_of t r

module _ {World : Type 0} (sql : Sql World) where
  -- Two worlds with the same rows.
  abbrev pub Same : World → World → Type 0
  Same w w' = (t : Table) (k : ℕ) → sql.row t w' k ≡ sql.row t w k

  -- Two worlds with the same rows in the tables other than `t`.
  abbrev pub SameBut : Table → World → World → Type 0
  SameBut t w w' = (u : Table) → u ≢ t → (k : ℕ) → sql.row u w' k ≡ sql.row u w k

  -- Some row of `t` meets the condition.
  abbrev pub Exists : (t : Table) → (Row t → Bool) → World → Type 0
  Exists t p w = (k : ℕ) × (r : Row t) × (sql.row t w k ≡ some r) × (p r ≡ true)

  abbrev pub NoRow : (t : Table) → (Row t → Bool) → World → Type 0
  NoRow t p w = (k : ℕ) (r : Row t) → sql.row t w k ≡ some r → p r ≡ false

  -- The documented behaviour of the calls. A failed call has no effect.
  pub record IsSql : Type 1 where
    pub row_id :
        (t : Table) (w : World) (k : ℕ) (r : Row t) → sql.row t w k ≡ some r → id_of t r ≡ k
    pub first_keeps : (t : Table) (p : Row t → Bool) (w : World) → Same w (world (sql.first t p w))
    pub first_ok :
        (t : Table) (p : Row t → Bool) (w w' : World) (r : Row t)
        → sql.first t p w ≡ ok r w'
        → (sql.row t w (id_of t r) ≡ some r) × (p r ≡ true)
    pub first_missing :
        (t : Table) (p : Row t → Bool) (w w' : World)
        → sql.first t p w ≡ err record_not_found w'
        → NoRow t p w
    pub find_keeps : (t : Table) (p : Row t → Bool) (w : World) → Same w (world (sql.find t p w))
    pub find_ordered_keeps :
        (t : Table) (p : Row t → Bool) (column : Row t → String) (w : World)
        → Same w (world (sql.find_ordered t p column w))
    pub create_filled :
        (t : Table) (x : Row t) (w w' : World) (r : Row t)
        → sql.create t x w ≡ ok r w'
        → (k : ℕ) × (at : ℕ) × (r ≡ fill t k at x)
    pub create_fresh :
        (t : Table) (x : Row t) (w w' : World) (r : Row t)
        → sql.create t x w ≡ ok r w'
        → (sql.row t w (id_of t r) ≡ none) × NoRow t (λ s. conflicts t s r) w
    pub create_row :
        (t : Table) (x : Row t) (w w' : World) (r : Row t)
        → sql.create t x w ≡ ok r w'
        → (k : ℕ) → sql.row t w' k ≡ (if nat_eq k (id_of t r) then some r else sql.row t w k)
    pub create_frame : (t : Table) (x : Row t) (w : World) → SameBut t w (world (sql.create t x w))
    pub create_err :
        (t : Table) (x : Row t) (w w' : World) (e : GormError)
        → sql.create t x w ≡ err e w'
        → Same w w'
    pub update_row :
        (t : Table) (p : Row t → Bool) (f : Row t → Row t) (w w' : World) (n : ℕ)
        → KeepsId t f
        → sql.update t p f w ≡ ok n w'
        → (k : ℕ) → sql.row t w' k ≡ Option.map (λ r. if p r then f r else r) (sql.row t w k)
    pub update_none :
        (t : Table) (p : Row t → Bool) (f : Row t → Row t) (w w' : World)
        → sql.update t p f w ≡ ok 0 w'
        → NoRow t p w
    pub update_some :
        (t : Table) (p : Row t → Bool) (f : Row t → Row t) (w w' : World) (n : ℕ)
        → sql.update t p f w ≡ ok (suc n) w'
        → Exists t p w
    pub update_frame :
        (t : Table) (p : Row t → Bool) (f : Row t → Row t) (w : World)
        → SameBut t w (world (sql.update t p f w))
    pub update_err :
        (t : Table) (p : Row t → Bool) (f : Row t → Row t) (w w' : World) (e : GormError)
        → sql.update t p f w ≡ err e w'
        → Same w w'
    pub count_keeps : (t : Table) (w : World) → Same w (world (sql.count t w))
    pub count_zero :
        (t : Table) (w w' : World) → sql.count t w ≡ ok 0 w' → (k : ℕ) → sql.row t w k ≡ none
    pub count_some :
        (t : Table) (w w' : World) (n : ℕ)
        → sql.count t w ≡ ok (suc n) w'
        → (k : ℕ) × (r : Row t) × (sql.row t w k ≡ some r)
    pub lock_keeps : (key : String) (w : World) → Same w (world (sql.lock key w))
    pub transaction_ok :
        (A : Type 0) (body : M World RepoError A) (w w' : World) (a : A)
        → sql.transaction A body w ≡ ok a w'
        → body w ≡ ok a w'
    pub transaction_err :
        (A : Type 0) (body : M World RepoError A) (w w' : World) (e : RepoError)
        → sql.transaction A body w ≡ err e w'
        → Same w w'
    pub transaction_fails :
        (A : Type 0) (body : M World RepoError A) (w w' : World) (e : RepoError)
        → body w ≡ err e w'
        → (w'' : World) × (sql.transaction A body w ≡ err e w'')
    pub delete_frame :
        (t : Table) (p : Row t → Bool) (w : World) → SameBut t w (world (sql.delete t p w))
    pub delete_row :
        (t : Table) (p : Row t → Bool) (w w' : World) (n : ℕ)
        → sql.delete t p w ≡ ok n w'
        → (k : ℕ) → sql.row t w' k ≡ unless p (sql.row t w k)
    pub delete_err :
        (t : Table) (p : Row t → Bool) (w w' : World) (e : GormError)
        → sql.delete t p w ≡ err e w'
        → Same w w'
