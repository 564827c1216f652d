-- ===== src/Store/Transactions.antt =====
-- The shape of a transaction of crates/ocr-store/src/lib.rs: a check of the arguments, a row that is
-- there or not, a condition, and a decoded row at the end. A transaction that fails leaves the
-- tables alone.
use document_intelligence.Base.{◌≡◌, refl, Bool, true, false, Option, none, some, Result, ok, err}
use document_intelligence.Store.Values.{Error}
use document_intelligence.Store.Tables.{Database}

module _ {A : Type 0} where
  -- `validate(..)?` before the transaction
  unfoldable pub validated :
      Database → Result Error (Unit {0}) → Database × Result Error A → Database × Result Error A
  validated db (err e) k = (db, err e)
  validated db (ok u) k = k

  -- A decoded row that the transaction goes on with.
  unfoldable pub decoded :
      {R : Type 0}
      → Database
      → Result Error R
      → (R → Database × Result Error A)
      → Database × Result Error A
  decoded db (err e) k = (db, err e)
  decoded db (ok row) k = k row

  -- The match on the row of a `fetch_optional`.
  unfoldable pub found :
      {R : Type 0}
      → Option R
      → Database × Result Error A
      → (R → Database × Result Error A)
      → Database × Result Error A
  found none missing k = missing
  found (some row) missing k = k row

  -- `if c { .. } else { .. }` on whole transactions
  unfoldable pub branch :
      Bool → Database × Result Error A → Database × Result Error A → Database × Result Error A
  branch true x y = x
  branch false x y = y

  -- `commit` after a row is decoded, which may fail
  unfoldable pub commit :
      {R : Type 0} → Database → Database → (R → A) → Result Error R → Database × Result Error A
  commit before after f (ok row) = (after, ok (f row))
  commit before after f (err e) = (before, err e)

-- What holds of the tables that a transaction leaves and of its result.
pub record Leaves {A : Type 0} (P : Database → Result Error A → Type 0)
    (done : Database × Result Error A) : Type 0 where
  pub holds : P done.0 done.1

module _ {A : Type 0} (P : Database → Result Error A → Type 0) where
  pub Leaves-end : (db : Database) (r : Result Error A) → P db r → Leaves P (db, r)
  Leaves-end db r h = record { holds = h }

  pub Leaves-validated :
      (db : Database) (v : Result Error (Unit {0})) (k : Database × Result Error A)
      → ((e : Error) → P db (err e))
      → (v ≡ ok tt → Leaves P k)
      → Leaves P (validated db v k)
  unfolding validated
  Leaves-validated db (err e) k h f = record { holds = h e }
  Leaves-validated db (ok u) k h f = f refl

  pub Leaves-decoded :
      {R : Type 0} (db : Database) (r : Result Error R) (k : R → Database × Result Error A)
      → ((e : Error) → P db (err e))
      → ((row : R) → r ≡ ok row → Leaves P (k row))
      → Leaves P (decoded db r k)
  unfolding decoded
  Leaves-decoded db (err e) k h f = record { holds = h e }
  Leaves-decoded db (ok row) k h f = f row refl

  pub Leaves-found :
      {R : Type 0} (o : Option R) (missing : Database × Result Error A)
      (k : R → Database × Result Error A)
      → (o ≡ none → Leaves P missing)
      → ((row : R) → o ≡ some row → Leaves P (k row))
      → Leaves P (found o missing k)
  unfolding found
  Leaves-found none missing k h f = h refl
  Leaves-found (some row) missing k h f = f row refl

  pub Leaves-branch :
      (b : Bool) (x y : Database × Result Error A)
      → (b ≡ true → Leaves P x)
      → (b ≡ false → Leaves P y)
      → Leaves P (branch b x y)
  unfolding branch
  Leaves-branch true x y h k = h refl
  Leaves-branch false x y h k = k refl

  pub Leaves-commit :
      {R : Type 0} (before after : Database) (f : R → A) (r : Result Error R)
      → ((e : Error) → P before (err e))
      → ((row : R) → r ≡ ok row → P after (ok (f row)))
      → Leaves P (commit before after f r)
  unfolding commit
  Leaves-commit before after f (ok row) h k = record { holds = k row refl }
  Leaves-commit before after f (err e) h k = record { holds = h e }
