-- ===== src/Database/Memory.antt =====
-- A database in memory, which meets the laws of `IsSql` (Memory/Laws): the theorems' examples run
-- on it. It stands for no code of the program. A row is kept under its key, below `next`.
pub mod Laws
mod Search
pub mod Views
mod Tables
use mathlib.Core.Option
use centrauth.Base.{
  ℕ, zero, suc, ◌+◌, Bool, true, List, [], ◌∷◌, ◌++◌, Option, none, some, ltb, nat_eq,
  if◌then◌else◌,
}
use centrauth.Models.{Table, Row, id_of, set_id, fill, conflicts}
use centrauth.Database.{Run, ok, err, M, GormError, record_not_found, fault, RepoError, unless, Sql}
use Tables.{with_table}

pub record Memory : Type 0 where
  pub next : ℕ
  pub rows : (t : Table) → ℕ → Option (Row t)

abbrev pub view : Memory → (t : Table) → ℕ → Option (Row t)
view m t k = if ltb k m.next then Option.map (set_id t k) (m.rows t k) else none

-- The rows of one table replaced.
abbrev pub replace : Memory → ℕ → (t : Table) → (ℕ → Option (Row t)) → Memory
replace m next t g = record { next = next; rows = with_table t g (view m) }

module _ {R : Type 0} (get : ℕ → Option R) (p : R → Bool) where
  -- The row of a key, where it meets the condition.
  abbrev pub check : Option R → Option R
  check none = none
  check (some r) = if p r then some r else none

  unfoldable pub seek : ℕ → Option R
  seek zero = none
  seek (suc n) = elim (seek n) [ some r ↦ some r | none ↦ check (get n) ]

  abbrev pub hits : Option R → ℕ
  hits none = 0
  hits (some r) = 1

  unfoldable pub matching : ℕ → ℕ
  matching zero = 0
  matching (suc n) = hits (check (get n)) + matching n

  abbrev cons_some : Option R → List R
  cons_some none = []
  cons_some (some r) = r ∷ []

  unfoldable pub collect : ℕ → List R
  collect zero = []
  collect (suc n) = collect n ++ cons_some (check (get n))

abbrev pub found : {R : Type 0} → Memory → Option R → Run Memory GormError R
found m none = err record_not_found m
found m (some r) = ok r m

-- The row that is stored, unless one that is there forbids it.
abbrev pub insert : (t : Table) → Memory → Row t → Option (Row t) → Run Memory GormError (Row t)
insert t m r none =
    ok r (replace m (suc m.next) t (λ k. if nat_eq k m.next then some r else view m t k))
insert t m r (some s) = err fault m

abbrev pub create_in : (t : Table) → Row t → M Memory GormError (Row t)
create_in t x m =
    let r = fill t m.next 1 x in insert t m r (seek (view m t) (λ s. conflicts t s r) m.next)

abbrev pub update_in : (t : Table) → (Row t → Bool) → (Row t → Row t) → M Memory GormError ℕ
update_in t p f m =
    ok (matching (view m t) p m.next)
      (replace m m.next t (λ k. Option.map (λ r. if p r then f r else r) (view m t k)))

abbrev merge_in :
    (t : Table) → (Row t → Row t → Row t) → Row t → Option (Row t) → M Memory GormError (Row t)
merge_in t merge x none m = create_in t x m
merge_in t merge x (some s) m =
    ok (merge s x)
      (replace m m.next t (λ k. if nat_eq k (id_of t s) then some (merge s x) else view m t k))

abbrev pub roll_back : {A : Type 0} → Memory → Run Memory RepoError A → Run Memory RepoError A
roll_back m (ok a m') = ok a m'
roll_back m (err e m') = err e m

unfoldable pub memory : Sql Memory
unfolding seek matching collect with_table
memory = record {
  row = λ t m k. view m t k;
  first = λ t p m. found m (seek (view m t) p m.next);
  find = λ t p m. ok (collect (view m t) p m.next) m;
  find_ordered = λ t p column m. ok (collect (view m t) p m.next) m;
  count = λ t m. ok (matching (view m t) (λ r. true) m.next) m;
  create = create_in;
  update = update_in;
  delete =
      λ t p m. ok (matching (view m t) p m.next) (replace m m.next t (λ k. unless p (view m t k)));
  upsert = λ t same merge x m. merge_in t merge x (seek (view m t) (λ s. same s x) m.next) m;
  lock = λ key m. ok tt m;
  transaction = λ A body m. roll_back m (body m);
}
