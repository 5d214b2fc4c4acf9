-- ===== src/Database/Memory/Views.antt =====
-- The rows of the tables in memory, after a table is replaced too.
use mathlib.Core.Option
use centrauth.Base.{
  ℕ, ◌<◌, ◌≤◌, ◌≡◌, ◌≢◌, refl, sym, ap, ◌∙◌, Bool, ◌⊎◌, inl, inr, Option, none, some, arith, ltb,
  if◌then◌else◌, Bool-cases,
}
use centrauth.Models.{Table, Row, id_of, set_id}
use centrauth.Database.{ok, err, record_not_found, unless, KeepsId}
use centrauth.Database.Memory.{Memory, view, replace, found}
use centrauth.Database.Memory.Tables.{
  with_table_self, with_table_other, set_id_self, set_id_again, id_of-set_id,
}

pub map-set_id :
    (t : Table) (k : ℕ) (o : Option (Row t)) (r : Row t)
    → Option.map (set_id t k) o ≡ some r
    → id_of t r ≡ k
map-set_id t k none r h = cc
map-set_id t k (some s) r h = ground (arith, id_of-set_id t k s)

pub map-set_id_again :
    (t : Table) (k : ℕ) (o : Option (Row t))
    → Option.map (set_id t k) (Option.map (set_id t k) o) ≡ Option.map (set_id t k) o
map-set_id_again t k none = refl
map-set_id_again t k (some s) = ap some (set_id_again t k k s)

module _ (m : Memory) (t : Table) (k : ℕ) where
  pub view-id_of : (r : Row t) → view m t k ≡ some r → id_of t r ≡ k
  view-id_of r h = ground (arith, map-set_id t k (m.rows t k) r)

  pub view-below : (r : Row t) → view m t k ≡ some r → k < m.next
  view-below r h = ground arith

  pub view-set_id : Option.map (set_id t k) (view m t k) ≡ view m t k
  view-set_id = ground (arith, map-set_id_again t k (m.rows t k))

-- Both cases of a key: below `next`, or with no row.
pub view_cases : (m : Memory) (t : Table) (k : ℕ) → (k < m.next) ⊎ (view m t k ≡ none)
view_cases m t k = ground arith

module _ (m : Memory) (n : ℕ) (t : Table) (g : ℕ → Option (Row t)) where
  pub view-replace_self :
      (k : ℕ)
      → view (replace m n t g) t k ≡ (if ltb k n then Option.map (set_id t k) (g k) else none)
  view-replace_self k = rw (with_table_self t g (view m))

  pub view-replace_kept :
      (k : ℕ)
      → Option.map (set_id t k) (g k) ≡ g k
      → (k < n) ⊎ (g k ≡ none)
      → view (replace m n t g) t k ≡ g k
  view-replace_kept k e (inl lt) = rw (view-replace_self k) (ground arith)
  view-replace_kept k e (inr missing) = rw (view-replace_self k) (ground arith)

  pub view-replace_other :
      (u : Table) (k : ℕ) → m.next ≤ n → u ≢ t → view (replace m n t g) u k ≡ view m u k
  view-replace_other u k le ne =
      rw (with_table_other t u g (view m) ne) (ground (arith, view-set_id m u k))

pub update-map :
    (t : Table) (p : Row t → Bool) (f : Row t → Row t) (k : ℕ) (o : Option (Row t))
    → KeepsId t f
    → ((r : Row t) → o ≡ some r → id_of t r ≡ k)
    → Option.map (set_id t k) (Option.map (λ r. if p r then f r else r) o)
      ≡ Option.map (λ r. if p r then f r else r) o
update-map t p f k none keep h = refl
update-map t p f k (some r) keep h = elim (Bool-cases (p r)) [
  | inl e ↦
      rw e
        (ap some (ap (λ j. set_id t j (f r)) (sym (h r refl) ∙ sym (keep r)) ∙ set_id_self t (f r)))
  | inr e ↦ rw e (ap some (ap (λ j. set_id t j r) (sym (h r refl)) ∙ set_id_self t r))
]

pub unless-map :
    (t : Table) (p : Row t → Bool) (k : ℕ) (o : Option (Row t))
    → ((r : Row t) → o ≡ some r → id_of t r ≡ k)
    → Option.map (set_id t k) (unless p o) ≡ unless p o
unless-map t p k none h = refl
unless-map t p k (some r) h = elim (Bool-cases (p r)) [
  | inl e ↦ rw e
  | inr e ↦ rw e (ap some (ap (λ j. set_id t j r) (sym (h r refl)) ∙ set_id_self t r))
]

pub found-eq-ok :
    {R : Type 0} (m : Memory) (o : Option R) {r : R} {w' : Memory}
    → found m o ≡ ok r w'
    → o ≡ some r
found-eq-ok m none h = cc
found-eq-ok m (some s) h = ground arith

pub found-eq-missing :
    {R : Type 0} (m : Memory) (o : Option R) {w' : Memory}
    → found m o ≡ err record_not_found w'
    → o ≡ none
found-eq-missing m none h = refl
found-eq-missing m (some s) h = cc
