-- ===== src/AdminStore.antt =====
-- app/admin_store.py: the passwords of the administrators. `pbkdf2` is the key derivation with SHA-256
-- and its result in base64, of the password, a salt in base64 and a number of iterations; `iterations`
-- reads a number as `int` does; `salt` is fresh.
pub mod Passwords
use cloudlink.Prelude.{
  ℕ, Bool, true, false, ◌&&◌, ◌||◌, not, String, List, [], ◌∷◌, ◌++◌, Option, none, some, ◌≡◌, refl,
  arith, if◌then◌else◌, ◌==◌, string_eq, nat_eq, any, find, update_where, non_empty, text_of,
  beq_self, Bool-cases, inl, inr,
}
use cloudlink.Prelude.Paths.{◌+++◌, words}
use cloudlink.Database.Tasks.{Time}
use cloudlink.Database.Storage.{Credential}
use cloudlink.Database.Action.{Db, Settings}
use text.Mathlib.TextEquality.{eq_iff}

abbrev pub has_username : String → Credential → Bool
has_username username c = c.username == username

abbrev pub hash_of : Option Credential → String
hash_of none = ""
hash_of (some c) = c.password_hash

unfoldable pub get_admin_password_hash : Db → String → String
get_admin_password_hash db username = hash_of (find (has_username username) db.credentials)

-- `encoded.split("$", 3)`: four parts, of which the last may hold a `$`.
pub record Encoded : Type 0 where
  pub scheme : String
  pub iterations : String
  pub salt : String
  pub digest : String

abbrev joined_with_dollar : String → List String → String
joined_with_dollar w [] = w
joined_with_dollar w (v ∷ ws) = w +++ ("$" +++ joined_with_dollar v ws)

abbrev pub four_parts : List String → Option Encoded
four_parts (scheme ∷ iterations ∷ salt ∷ digest ∷ more) = some (record {
  scheme = scheme;
  iterations = iterations;
  salt = salt;
  digest = joined_with_dollar digest more;
})
four_parts _ = none

module _ (pbkdf2 : String → String → ℕ → String) (iterations : String → Option ℕ) where
  abbrev pub digest_matches : String → Encoded → Option ℕ → Bool
  digest_matches password e none = false
  digest_matches password e (some n) =
      e.scheme == "pbkdf2_sha256" && pbkdf2 password e.salt n == e.digest

  abbrev pub verify_parts : String → Option Encoded → Bool
  verify_parts password none = false
  verify_parts password (some e) = digest_matches password e (iterations e.iterations)

  unfoldable pub verify_password : String → String → Bool
  verify_password password encoded = verify_parts password (four_parts (words b'$' encoded))

  unfoldable pub hash_password : String → String → String
  hash_password salt password =
      "pbkdf2_sha256$260000$" +++ (salt +++ ("$" +++ pbkdf2 password salt 260000))

  abbrev pub set_hash : Time → String → Credential → Credential
  set_hash now hash c = record c { password_hash = hash; updated_at = now }

  unfoldable pub set_admin_password : Time → String → String → String → Db → Db
  set_admin_password now salt username password db =
      if any (has_username username) db.credentials
      then record db {
        credentials =
            update_where (has_username username) (set_hash now (hash_password salt password))
              db.credentials;
      }
      else record db {
        credentials =
            db.credentials
            ++ record {
              username = username;
              password_hash = hash_password salt password;
              updated_at = now;
            }
              ∷ [];
      }

  unfoldable pub verify_admin_credentials : Settings → Db → String → String → Bool
  verify_admin_credentials settings db username password =
      if not (username == settings.admin_username)
      then false
      else if non_empty (get_admin_password_hash db settings.admin_username)
      then verify_password password (get_admin_password_hash db settings.admin_username)
      else non_empty settings.admin_password && password == settings.admin_password
