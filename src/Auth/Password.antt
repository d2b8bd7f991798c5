-- ===== src/Auth/Password.antt =====
-- auth/password.py: the hashes of passwords, with a pepper and its version.
use Prim.Native.String.{◌++◌ as append}
use atlascore.Base.{ℕ, String, Bool, false, not, ◌==◌, if◌then◌else◌}

-- What the service takes from `pwdlib`: a hash with a salt, and whether a text fits a hash, which is
-- false where the library raises.
pub record Argon2 : Type 0 where
  pub hash : ℕ → String → String
  pub verify : String → String → Bool

pub record PasswordService : Type 0 where
  pub pepper : String
  pub pepper_version : ℕ
  pub ph : Argon2

module _ (self : PasswordService) where
  unfoldable pub peppered : String → String
  peppered password = append self.pepper password

  -- `salt` is what the library draws
  unfoldable pub hash : ℕ → String → String
  unfolding peppered
  hash salt password = self.ph.hash salt (peppered password)

  unfoldable pub verify : String → String → ℕ → Bool
  unfolding peppered
  verify password password_hash stored_pepper_version =
      if not (stored_pepper_version == self.pepper_version)
      then false
      else self.ph.verify (peppered password) password_hash

  unfoldable pub needs_rehash : String → ℕ → Bool
  needs_rehash password_hash stored_pepper_version =
      not (stored_pepper_version == self.pepper_version)

  unfoldable pub rehash : ℕ → String → String × ℕ
  unfolding hash
  rehash salt password = (hash salt password, self.pepper_version)
