-- ===== src/Portal/Generate.antt =====
-- services/garudaportal/apikey/generator.go: a new key. The base-62 text of 48 random bytes and
-- SHA-256 are parameters; `none` is a failure of the random source. The prefix is cut where Go
-- would panic on a plaintext of less than 16 bytes, which takes a random number below 62 ^ 7.
use Prim.Native.String
use gpass.Prelude.{concat, String, Option, none, some, ◌==◌, if◌then◌else◌}

pub record Entropy : Type 0 where
  pub encoded : Option String
  pub hash_key : String → String

unfoldable pub env_prefix : String → Option String
env_prefix env =
    if env == "sandbox"
    then some "gp_test_"
    else if env == "production"
    then some "gp_live_"
    else none

-- the plaintext, its hash and its prefix
unfoldable pub generate_key : Entropy → String → Option (String × String × String)
unfolding env_prefix
generate_key entropy environment = elim (env_prefix environment) [
  | none ↦ none
  | some key_prefix ↦ elim entropy.encoded [
    | none ↦ none
    | some encoded ↦
        let plaintext = concat key_prefix encoded in
        some (plaintext, entropy.hash_key plaintext, String.slice plaintext 0 16)
  ]
]
