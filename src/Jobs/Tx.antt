-- ===== src/Jobs/Tx.antt =====
-- Code that runs inside `with self._transaction()` of openpine/jobs/transactional_store.py:
-- it reads and writes the database and may raise.
use openpine.Base.{Bool, true, false, ◌≡◌, refl}
use openpine.Jobs.Model.{Db, JobError}

pub data Result {ℓ} (A : Type ℓ) : Type ℓ where
  ok : A → Result A
  err : JobError → Result A

abbrev pub Tx {ℓ} : Type ℓ → Type ℓ
Tx A = Db → Result (A × Db)

infixl 5 ◌>>=◌ ◌>>◌
abbrev pub ◌>>=◌ {ℓ κ} : {A : Type ℓ} {B : Type κ} → Tx A → (A → Tx B) → Tx B
◌>>=◌ m f db = elim (m db) [ ok (a, db') ↦ f a db' | err e ↦ err e ]

abbrev pub ◌>>◌ {ℓ κ} : {A : Type ℓ} {B : Type κ} → Tx A → Tx B → Tx B
m >> n = m >>= λ _. n

abbrev pub pure {ℓ} : {A : Type ℓ} → A → Tx A
pure a db = ok (a, db)

abbrev pub raise {ℓ} : {A : Type ℓ} → JobError → Tx A
raise e db = err e

-- if not b: raise e
abbrev pub require : Bool → JobError → Tx (Unit {0})
require true e = pure tt
require false e = raise e

-- `_transaction`: BEGIN IMMEDIATE, then COMMIT, or ROLLBACK where the body raises.
unfoldable pub transaction {ℓ} : {A : Type ℓ} → Tx A → Db → Result A × Db
transaction m db = elim (m db) [ ok (a, db') ↦ (ok a, db') | err e ↦ (err e, db) ]

-- a successful bind, taken apart
pub >>=-ok {ℓ κ} :
    {A : Type ℓ} {B : Type κ} (m : Tx A) (f : A → Tx B) (db db'' : Db) (b : B)
    → (m >>= f) db ≡ ok (b, db'')
    → (a : A) × (db' : Db) × (m db ≡ ok (a, db')) × (f a db' ≡ ok (b, db''))
>>=-ok {A} {B} m f db db'' b h = go (m db) refl h
  where
    go :
        (r : Result (A × Db))
        → m db ≡ r
        → elim r [ ok (a, db') ↦ f a db' | err e ↦ err e ] ≡ ok (b, db'')
        → (a : A) × (db' : Db) × (m db ≡ ok (a, db')) × (f a db' ≡ ok (b, db''))
    go (ok (a, db')) e h' = (a, db', e, h')
    go (err x) e h' = cc
