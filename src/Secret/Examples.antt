-- ===== src/Secret/Examples.antt =====
-- An environment of internal/config at concrete inputs; the sealed text has the plain one behind a mark.
use minicloud_platform.Prelude.{
  ◌≡◌, refl, Option, none, some, List, [], ◌∷◌, Bytes, codes, Dict, lookup,
}
use minicloud_platform.Prelude.Fallible.{value}
use minicloud_platform.Secret.Cipher.{Aead, encrypt}
use minicloud_platform.Secret.Env.{
  EnvSpec, Sources, resolve_env, read_secret, or_else, last_map, last_entry, resolve_env_lem,
  read_secret-encrypt,
}

abbrev unmark : Bytes → Option Bytes
unmark [] = none
unmark (c ∷ s) = some s

abbrev marked : Aead
marked = record {
  nonce_size = 2;
  seal = λ nonce text. 7 ∷ text;
  open_sealed = λ nonce text. unmark text;
  open_sealed-seal = λ nonce text h. refl;
}

abbrev sources : Sources
sources = record {
  get_config_map = λ p name. value ((codes "A", codes "1") ∷ (codes "B", codes "2") ∷ []);
  get_secret = λ p name. value (7 ∷ codes "x", 1 ∷ 1 ∷ []);
  unmarshal = λ text. value ((codes "B", text) ∷ []);
}

abbrev wanted : EnvSpec
wanted = record {
  project_id = codes "p";
  env = (codes "A", codes "0") ∷ [];
  config_map_refs = codes "cm" ∷ [];
  secret_refs = codes "s" ∷ [];
}

sealed : encrypt marked (value (1 ∷ 1 ∷ [])) (codes "x") ≡ value (7 ∷ codes "x", 1 ∷ 1 ∷ [])
unfolding encrypt
sealed = refl

secret_read : read_secret sources marked wanted (codes "s") ≡ value ((codes "B", codes "x") ∷ [])
secret_read =
    read_secret-encrypt sources marked wanted (codes "s") (1 ∷ 1 ∷ []) (codes "x") (7 ∷ codes "x")
      (1 ∷ 1 ∷ []) ((codes "B", codes "x") ∷ []) refl refl sealed refl

abbrev maps : List (Dict Bytes)
maps = ((codes "A", codes "1") ∷ (codes "B", codes "2") ∷ []) ∷ []

abbrev secrets : List (Dict Bytes)
secrets = ((codes "B", codes "x") ∷ []) ∷ []

resolve_env_lem_example :
    (r : Dict Bytes) × (resolve_env sources marked wanted ≡ value r)
    × (lookup (codes "B") r
        ≡ or_else
            (last_map (codes "B") secrets)
            (or_else (last_map (codes "B") maps) (last_entry (codes "B") wanted.env)))
resolve_env_lem_example =
    resolve_env_lem sources marked wanted maps secrets (codes "B") (refl, tt) (secret_read, tt)
