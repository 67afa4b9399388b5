-- ===== src/Base/Exec.antt =====
-- Go functions that change a state and return a value or an error, or panic. What was written before
-- an error or a panic stays written, so the state comes back beside it.
use mathlib.Core.Path.{◌≡◌, refl, ap}
use mathlib.Core.Logic.{◌⊎◌, inl, inr}
use native.Mathlib.Omega.{arith}
use kaigara.Base.Text.{Str}

-- The errors that the program makes, by the place that makes them, and those of other code with the
-- message that they carry.
pub data Error : Type 0 where
  external : Str → Error
  empty_plaintext empty_ciphertext : Error
  key_length short_ciphertext : Error
  missing_ciphertext missing_plaintext : Error
  db_read db_check db_create db_update db_migrate : Str → Error
  bad_json : Error
  not_a_string : Str → Error
  scope_not_loaded : Error
  scope_not_map : Error
  version_not_int64 : Error
  bad_number : Error
  no_deployment : Error
  no_such_key : Str → Error
  unsupported_store : Str → Error

-- What stops the process.
pub data Fault : Type 0 where
  nil_map : Fault
  bad_assertion : Fault
  nil_dereference : Fault
  no_metadata : Fault
  missing_token missing_deployment : Fault
  usage : Fault
  of_error : Error → Fault

pub data Outcome {ℓ} (A : Type ℓ) : Type ℓ where
  ok : A → Outcome A
  err : Error → Outcome A
  panic : Fault → Outcome A

pub Outcome-cases {ℓ} :
    {A : Type ℓ} (r : Outcome A)
    → ((a : A) × (r ≡ ok a)) ⊎ (((e : Error) × (r ≡ err e)) ⊎ ((p : Fault) × (r ≡ panic p)))
Outcome-cases (ok a) = inl (a, refl)
Outcome-cases (err e) = inr (inl (e, refl))
Outcome-cases (panic p) = inr (inr (p, refl))

abbrev pub Exec {ℓ} : Type ℓ → Type ℓ → Type ℓ
Exec S A = S → Outcome A × S

module _ {ℓ} {S A : Type ℓ} where
  abbrev pub pure : A → Exec S A
  pure a s = (ok a, s)

  abbrev pub fail : Error → Exec S A
  fail e s = (err e, s)

  abbrev pub abort : Fault → Exec S A
  abort p s = (panic p, s)

  abbrev pub lift : Outcome A → Exec S A
  lift r s = (r, s)

module _ {ℓ} {S A B : Type ℓ} where
  abbrev pub continue : Outcome A → (A → Exec S B) → Exec S B
  continue (ok a) f s = f a s
  continue (err e) f s = (err e, s)
  continue (panic p) f s = (panic p, s)

  infixl 10 ◌>>=◌ ◌>>◌
  abbrev pub ◌>>=◌ : Exec S A → (A → Exec S B) → Exec S B
  ◌>>=◌ m f s = let (r, s') = m s in continue r f s'

  abbrev pub ◌>>◌ : Exec S A → Exec S B → Exec S B
  ◌>>◌ m n s = let (r, s') = m s in continue r (λ _. n) s'

-- `if err != nil { panic(err) }`
abbrev pub must {ℓ} : {S A : Type ℓ} → Exec S A → Exec S A
must m s =
    let (r, s') = m s in
    (elim r [ ok a ↦ ok a | err e ↦ panic (of_error e) | panic p ↦ panic p ], s')

-- A step on one part of the state, with the rest carried along.
abbrev pub focus {ℓ} : {S T A : Type ℓ} → (S → T) → (T → S → S) → Exec T A → Exec S A
focus get put m s = let (r, t) = m (get s) in (r, put t s)

module _ {ℓ} {S A B : Type ℓ} where
  continue-eq-ok :
      (r : Outcome A) (f : A → Exec S B) (s : S) {b : B}
      → (continue r f s).0 ≡ ok b
      → (a : A) × (r ≡ ok a) × ((f a s).0 ≡ ok b)
  continue-eq-ok (ok a) f s h = (a, refl, h)
  continue-eq-ok (err e) f s h = ground arith
  continue-eq-ok (panic p) f s h = ground arith

  -- A successful block: its first step succeeded, and the rest went on from there.
  pub >>=-eq-ok :
      (m : Exec S A) (f : A → Exec S B) (s : S) {b : B}
      → ((m >>= f) s).0 ≡ ok b
      → (a : A) × ((m s).0 ≡ ok a) × ((f a (m s).1).0 ≡ ok b)
  >>=-eq-ok m f s h = continue-eq-ok (m s).0 f (m s).1 h

  -- What a block does once its first step has succeeded.
  pub >>=_of_ok :
      (m : Exec S A) (f : A → Exec S B) (s : S) {a : A} → (m s).0 ≡ ok a → (m >>= f) s ≡ f a (m s).1
  >>=_of_ok m f s h = ap (λ r. continue r f (m s).1) h

-- The value of an outcome, changed by a function.
abbrev pub map_ok {ℓ} : {A B : Type ℓ} → (A → B) → Outcome A → Outcome B
map_ok f (ok a) = ok (f a)
map_ok f (err e) = err e
map_ok f (panic p) = panic p
