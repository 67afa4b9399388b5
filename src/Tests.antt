-- ===== src/Tests.antt =====
-- Concrete instances of the parameters, on which the theorems are applied: a table in memory, and
-- cryptography that hides nothing.
pub mod Store
pub mod Child
pub mod Settings
pub mod Runs
pub mod Secrets
pub mod Refined
pub mod Whole
pub mod Concurrent
pub mod Saved
pub mod Kept
use kaigara.Base.{
  ap, ℕ, zero, suc, ◌≡◌, refl, Bool, ◌&&◌, Option, none, some, List, [], ◌∷◌, Str, bytes, str_eq,
  if◌then◌else◌, length, arith, map,
}
use kaigara.Base.Exec.{Exec, Outcome, ok, pure}
use kaigara.Base.Int64.{ℤ, pos}
use kaigara.Value.{Value, text, json_number}
use kaigara.Base.Dict
use kaigara.Base.Dict.{Dict}
use kaigara.Vault.{Client, Base64, IsTransit, IsKv}
use kaigara.Encryptor.Plaintext.{plaintext_encryptor}
use kaigara.Encryptor.Aes.{Crypto, IsCrypto}
use kaigara.Storage.Interface.{Storage}
use kaigara.Storage.Gorm.{Data, Found, row, not_found, Gorm, updated, IsTable}
use kaigara.Storage.Sql.{StorageService, sql_storage}
use kaigara.Storage.Sql.Runs.{new_service}

abbrev find_row : Str → Str → List Data → Found
find_row app scope [] = not_found
find_row app scope (d ∷ db) =
    let rest = find_row app scope db in
    if str_eq d.app_name app && str_eq d.scope scope then row d else rest

-- The newest row of a scope stands first and hides the older ones.
abbrev pub table : Gorm
table = record {
  Db = List Data;
  first = find_row;
  create = λ d db. (none, d ∷ db);
  updates = λ old d db. (none, updated old d ∷ db);
  app_names = λ db. ok (map (λ (d : Data). d.app_name) db);
}

pub table-IsTable : IsTable table
table-IsTable = record {
  first-create = λ d db e h app scope. refl;
  first-updates = λ old d db e h app scope. refl;
  create_failed = λ d db m h app scope. ground arith;
  updates_failed = λ old d db m h app scope. ground arith;
}

abbrev pub Service : Type 0
Service = StorageService table plaintext_encryptor

abbrev pub empty_service : Service
empty_service = record { db = []; ds = []; world = tt }

abbrev pub storage : Storage
storage = sql_storage table plaintext_encryptor

abbrev zeros : ℕ → Str
zeros zero = []
zeros (suc n) = 0 ∷ zeros n

length-zeros : (n : ℕ) → length (zeros n) ≡ n
unfolding length
length-zeros zero = refl
length-zeros (suc n) = ground (arith, length-zeros n)

abbrev pub open_crypto : Crypto
open_crypto = record {
  Entropy = Unit;
  random = λ n. pure (zeros n);
  new_aead = λ key. ok tt;
  nonce_size = 12;
  seal = λ key nonce p. p;
  open_sealed = λ key nonce c. ok c;
  encode = λ s. s;
  decode = λ s. ok s;
}

pub open_crypto-IsCrypto : IsCrypto open_crypto
open_crypto-IsCrypto = record {
  random_length = λ n w h. ground (arith, length-zeros n);
  decode-encode = λ s. refl;
  open-seal = λ key nonce p. refl;
}

-- A server that encrypts to the plaintext, and that counts its writes in unary.
abbrev pub answer : Dict Value → Str → Dict Value × Str
answer ((k, v) ∷ fields) w =
    if str_eq k (bytes "plaintext")
    then ((bytes "ciphertext", v) ∷ [], w)
    else (if str_eq k (bytes "ciphertext")
        then ((bytes "plaintext", v) ∷ [], w)
        else ((bytes "version", json_number (b'1' ∷ w)) ∷ [], b'1' ∷ w))
answer [] w = ([], w)

abbrev pub server : Client
server = record {
  World = Str;
  logical_read = λ path w. (ok (some ((bytes "current_version", json_number w) ∷ [])), w);
  logical_write = λ path fields w. (ok (some (answer fields w).0), (answer fields w).1);
  logical_list = λ path w. (ok none, w);
  logical_delete = λ path w. (ok none, w);
}

abbrev pub plain_base64 : Base64
plain_base64 = record { encode = λ s. s; decode = λ s. ok s }

pub answered_text :
    (p c : Str) (fields : Dict Value)
    → ok (some ((bytes "ciphertext", text p) ∷ [])) ≡ ok (some fields)
    → Dict.lookup (bytes "ciphertext") fields ≡ some (text c)
    → c ≡ p
unfolding str_eq Dict.lookup
answered_text p c fields h found =
    let is : (bytes "ciphertext", text p) ∷ [] ≡ fields = ground arith in
    ground (arith, (rw (← is) at found))

pub server-IsTransit : IsTransit server plain_base64
unfolding str_eq Dict.lookup
server-IsTransit = record {
  decrypts = λ key p c fields w later h found. (
    (bytes "plaintext", text c) ∷ [],
    refl,
    ap (λ x. some (text x)) (answered_text p c fields h found),
  );
  decode-encode = λ s. refl;
}

pub server-IsKv : IsKv server
unfolding str_eq Dict.lookup
server-IsKv = record {
  versions = λ secret v r w h. (
    b'1' ∷ w,
    (bytes "version", json_number (b'1' ∷ w)) ∷ [],
    (bytes "current_version", json_number (b'1' ∷ w)) ∷ [],
    ground arith,
    refl,
    refl,
    refl,
  );
}
