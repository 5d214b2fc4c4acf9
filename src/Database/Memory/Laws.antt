-- ===== src/Database/Memory/Laws.antt =====
-- The database in memory meets the laws that the theorems ask of a database.
use mathlib.Core.Option
use centrauth.Base.{
  ℕ, suc, ◌≡◌, ◌<◌, ◌≢◌, refl, sym, ap, Bool, true, false, inl, inr, Option, none, some, arith,
  nat_eq, nat_eq_iff, if◌then◌else◌, Bool-cases, Option-cases,
}
use centrauth.Models.{Table, Row, id_of, set_id, fill, conflicts}
use centrauth.Database.{
  Run, ok, err, world, RepoError, GormError, fault, unless, KeepsId, IsSql, NoRow, Exists,
}
use centrauth.Database.Facts.{IsUp}
use centrauth.Database.Memory.{
  Memory, view, replace, seek, matching, found, insert, roll_back, memory,
}
use centrauth.Database.Memory.Search.{seek-some, seek-none, matching_zero, matching-some}
use centrauth.Database.Memory.Views.{
  view-id_of, view-below, view_cases, view-set_id, view-replace_kept, view-replace_other,
  update-map, unless-map, found-eq-ok, found-eq-missing,
}
use centrauth.Database.Memory.Tables.{set_id-fill, id_of-fill}

-- Where no row below `next` meets a condition, none does.
no_row :
    (m : Memory) (t : Table) (p : Row t → Bool)
    → ((k : ℕ) → k < m.next → (r : Row t) → view m t k ≡ some r → p r ≡ false)
    → NoRow memory t p m
unfolding memory
no_row m t p h k r e = h k (view-below m t k r e) r e

first_law :
    (t : Table) (p : Row t → Bool) (m m' : Memory) (r : Row t)
    → memory.first t p m ≡ ok r m'
    → (memory.row t m (id_of t r) ≡ some r) × (p r ≡ true)
unfolding memory
first_law t p m m' r e =
    let (k, lt, here, holds) = seek-some (view m t) p m.next r (found-eq-ok m _ e) in
    (rw (view-id_of m t k r here) here, holds)

update_law :
    (t : Table) (p : Row t → Bool) (f : Row t → Row t) (m m' : Memory) (n : ℕ)
    → KeepsId t f
    → memory.update t p f m ≡ ok n m'
    → (k : ℕ) → memory.row t m' k ≡ Option.map (λ r. if p r then f r else r) (memory.row t m k)
unfolding memory
update_law t p f m m' n keep e k =
    let g : ℕ → Option (Row t) = λ j. Option.map (λ r. if p r then f r else r) (view m t j) in
    let left : replace m m.next t g ≡ m' = cc in
    rw (← left) (
      view-replace_kept m m.next t g k (update-map t p f k (view m t k) keep (view-id_of m t k))
        (elim (view_cases m t k) [ inl lt ↦ inl lt | inr none_there ↦ inr (rw none_there) ]))

delete_law :
    (t : Table) (p : Row t → Bool) (m m' : Memory) (n : ℕ)
    → memory.delete t p m ≡ ok n m'
    → (k : ℕ) → memory.row t m' k ≡ unless p (memory.row t m k)
unfolding memory
delete_law t p m m' n e k =
    let g : ℕ → Option (Row t) = λ j. unless p (view m t j) in
    let left : replace m m.next t g ≡ m' = cc in
    rw (← left) (
      view-replace_kept m m.next t g k (unless-map t p k (view m t k) (view-id_of m t k))
        (elim (view_cases m t k) [ inl lt ↦ inl lt | inr none_there ↦ inr (rw none_there) ]))

-- The row of a key after a row is stored under the key `m.next`.
stored_view :
    (m : Memory) (t : Table) (r : Row t) (k : ℕ)
    → set_id t m.next r ≡ r
    → view (replace m (suc m.next) t (λ j. if nat_eq j m.next then some r else view m t j)) t k
      ≡ (if nat_eq k m.next then some r else view m t k)
stored_view m t r k same = elim (Bool-cases (nat_eq k m.next)) [
  | inl here ↦
      let at_next : k ≡ m.next = (nat_eq_iff k m.next).0 here in
      view-replace_kept m _ t _ k (rw here (ap some (rw at_next same))) (inl (ground arith))
  | inr other ↦
      view-replace_kept m _ t _ k (rw other (view-set_id m t k))
        (elim (view_cases m t k) [ inl lt ↦ inl (omega arith) | inr e ↦ inr (rw other e) ])
]

insert_law :
    (t : Table) (m m' : Memory) (x r : Row t) (o : Option (Row t))
    → insert t m x o ≡ ok r m'
    → set_id t m.next x ≡ x
    → (o ≡ none)
      × (x ≡ r)
      × ((k : ℕ) → view m' t k ≡ (if nat_eq k m.next then some r else view m t k))
insert_law t m m' x r none e same =
    let left : replace m (suc m.next) t (λ j. if nat_eq j m.next then some x else view m t j) ≡ m' =
      cc in
    let eq : x ≡ r = cc in (refl, eq, λ k. rw (← left, ← eq) (stored_view m t x k same))
insert_law t m m' x r (some s) e same = cc

create_law :
    (t : Table) (x : Row t) (m m' : Memory) (r : Row t)
    → memory.create t x m ≡ ok r m'
    → (seek (view m t) (λ s. conflicts t s (fill t m.next 1 x)) m.next ≡ none)
      × (fill t m.next 1 x ≡ r)
      × ((k : ℕ) → memory.row t m' k ≡ (if nat_eq k m.next then some r else memory.row t m k))
unfolding memory
create_law t x m m' r e = insert_law t m m' (fill t m.next 1 x) r _ e (set_id-fill t m.next 1 x)

create_id :
    (t : Table) (x : Row t) (m m' : Memory) (r : Row t)
    → memory.create t x m ≡ ok r m'
    → id_of t r ≡ m.next
create_id t x m m' r e = rw (← (create_law t x m m' r e).1) (id_of-fill t m.next 1 x)

create_fresh_law :
    (t : Table) (x : Row t) (m m' : Memory) (r : Row t)
    → memory.create t x m ≡ ok r m'
    → (memory.row t m (id_of t r) ≡ none) × NoRow memory t (λ s. conflicts t s r) m
unfolding memory
create_fresh_law t x m m' r e =
    let (free, eq, rows) = create_law t x m m' r e in
    (
      rw (create_id t x m m' r e) (ground arith),
      rw (← eq) (no_row m t _ (seek-none (view m t) _ m.next free)),
    )

create_row_law :
    (t : Table) (x : Row t) (m m' : Memory) (r : Row t)
    → memory.create t x m ≡ ok r m'
    → (k : ℕ) → memory.row t m' k ≡ (if nat_eq k (id_of t r) then some r else memory.row t m k)
create_row_law t x m m' r e k = rw (create_id t x m m' r e) ((create_law t x m m' r e).2 k)

insert_frame :
    (t : Table) (m : Memory) (x : Row t) (o : Option (Row t))
    → (u : Table) → u ≢ t
    → (k : ℕ) → view (world (insert t m x o)) u k ≡ view m u k
insert_frame t m x none u ne k = view-replace_other m _ t _ u k (omega arith) ne
insert_frame t m x (some s) u ne k = refl

insert_err :
    (t : Table) (m m' : Memory) (x : Row t) (o : Option (Row t)) (e : GormError)
    → insert t m x o ≡ err e m'
    → m ≡ m'
insert_err t m m' x none e h = cc
insert_err t m m' x (some s) e h = cc

seek_keeps : {R : Type 0} (m : Memory) (o : Option R) → world (found m o) ≡ m
seek_keeps m none = refl
seek_keeps m (some r) = refl

matching-Exists :
    (t : Table) (p : Row t → Bool) (m : Memory) (n : ℕ)
    → matching (view m t) p m.next ≡ suc n
    → Exists memory t p m
unfolding memory
matching-Exists t p m n e = matching-some (view m t) p m.next n e

roll_back_ok :
    {A : Type 0} (m w' : Memory) (o : Run Memory RepoError A) {a : A}
    → roll_back m o ≡ ok a w'
    → o ≡ ok a w'
roll_back_ok m w' (ok b v) h = h
roll_back_ok m w' (err e v) h = cc

roll_back_err :
    {A : Type 0} (m w' : Memory) (o : Run Memory RepoError A) {e : RepoError}
    → roll_back m o ≡ err e w'
    → m ≡ w'
roll_back_err m w' (ok b v) h = cc
roll_back_err m w' (err e v) h = cc

count_zero_law :
    (t : Table) (w w' : Memory) → memory.count t w ≡ ok 0 w' → (k : ℕ) → memory.row t w k ≡ none
unfolding memory
count_zero_law t w w' e k = elim (Option-cases (view w t k)) [
  | inl missing ↦ missing
  | inr (r, there) ↦
      let impossible : true ≡ false =
        matching_zero (view w t) (λ s. true) w.next (ground arith) k (view-below w t k r there) r
          there in
      absurd (cc)
]

count_some_law :
    (t : Table) (w w' : Memory) (n : ℕ)
    → memory.count t w ≡ ok (suc n) w'
    → (k : ℕ) × (r : Row t) × (memory.row t w k ≡ some r)
unfolding memory
count_some_law t w w' n e =
    let (k, r, there, _) = matching-some (view w t) (λ s. true) w.next n (ground arith) in
    (k, r, there)

-- The laws, all of them.
pub memory-IsSql : IsSql memory
unfolding memory
memory-IsSql = record {
  row_id = λ t w k r e. view-id_of w t k r e;
  first_keeps = λ t p w u k. rw (seek_keeps w (seek (view w t) p w.next));
  first_ok = first_law;
  first_missing =
      λ t p w w' e. no_row w t p (seek-none (view w t) p w.next (found-eq-missing w _ e));
  find_keeps = λ t p w u k. refl;
  find_ordered_keeps = λ t p column w u k. refl;
  create_filled = λ t x w w' r e. (w.next, 1, sym (create_law t x w w' r e).1);
  create_fresh = create_fresh_law;
  create_row = create_row_law;
  create_frame = λ t x w u ne k. insert_frame t w _ _ u ne k;
  create_err = λ t x w w' e h u k. rw (insert_err t w w' _ _ e h);
  update_row = update_law;
  update_none = λ t p f w w' e. no_row w t p (matching_zero (view w t) p w.next (ground arith));
  update_some = λ t p f w w' n e. matching-Exists t p w n (ground arith);
  update_frame = λ t p f w u ne k. view-replace_other w w.next t _ u k (omega arith) ne;
  update_err = λ t p f w w' e h u k. cc;
  count_keeps = λ t w u k. refl;
  count_zero = count_zero_law;
  count_some = count_some_law;
  lock_keeps = λ key w u k. refl;
  transaction_ok = λ A body w w' a e. roll_back_ok w w' (body w) e;
  transaction_err = λ A body w w' e h u k. rw (roll_back_err w w' (body w) h);
  transaction_fails = λ A body w w' e h. (w, rw h);
  delete_frame = λ t p w u ne k. view-replace_other w w.next t _ u k (omega arith) ne;
  delete_row = delete_law;
  delete_err = λ t p w w' e h u k. cc;
}

found-ne-fault : {R : Type 0} (m w : Memory) (o : Option R) → found m o ≢ err fault w
found-ne-fault m w none h = cc
found-ne-fault m w (some r) h = cc

pub memory-IsUp : IsUp memory
unfolding memory
memory-IsUp = record {
  first_up = λ t p w w' e. found-ne-fault w w' (seek (view w t) p w.next) e;
  update_up = λ t p f w w' e h. cc;
}
