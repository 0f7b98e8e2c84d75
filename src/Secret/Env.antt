-- ===== src/Secret/Env.antt =====
-- internal/config/config.go: the environment of a workload. The store, whose package is not in the repository, and
-- the decoder of JSON answer with a map or the text of an error.
use minicloud_platform.Prelude.{
  ◌≡◌, refl, sym, ap, ◌∙◌, Bool, true, false, Option, none, some, List, [], ◌∷◌, ◌++◌,
  if◌then◌else◌, length, Bytes, codes, same, Dict, lookup, insert, lookup-insert,
}
use minicloud_platform.Prelude.Fallible.{Fallible, value, failed}
use minicloud_platform.Secret.Cipher.{
  Aead, CipherError, bad_key_length, ciphertext_too_short, decrypt_failed, Opened, plain,
  cipher_error, encrypt, decrypt, decrypt-encrypt,
}

-- what is read of a workload: its environment and its references
pub record EnvSpec : Type 0 where
  pub project_id : Bytes
  pub env : Dict Bytes
  pub config_map_refs : List Bytes
  pub secret_refs : List Bytes

pub record Sources : Type 0 where
  pub get_config_map : Bytes → Bytes → Fallible (Dict Bytes)
  pub get_secret : Bytes → Bytes → Fallible (Bytes × Bytes)
  pub unmarshal : Bytes → Fallible (Dict Bytes)

abbrev pub cipher_text : CipherError → Bytes
cipher_text bad_key_length = codes "secret: master key must be 32 bytes"
cipher_text ciphertext_too_short = codes "secret: ciphertext too short"
cipher_text decrypt_failed = codes "secret: decrypt failed"

-- `fmt.Errorf("config: … %s: %w", name, err)`
abbrev pub wrap {ℓ} : {A : Type ℓ} → Bytes → Bytes → Bytes → Fallible A
wrap what name e = failed (what ++ (name ++ (codes ": " ++ e)))

-- `for k, v := range m { out[k] = v }`
unfoldable pub overlay : Dict Bytes → Dict Bytes → Dict Bytes
unfolding insert
overlay out [] = out
overlay out ((k, v) ∷ m) = overlay (insert k v out) m

abbrev pub config_map_of : Bytes → Fallible (Dict Bytes) → Fallible (Dict Bytes)
config_map_of name (failed e) = wrap (codes "config: configmap ") name e
config_map_of name (value m) = value m

abbrev pub decoded : Bytes → Fallible (Dict Bytes) → Fallible (Dict Bytes)
decoded name (failed e) = wrap (codes "config: decode ") name e
decoded name (value m) = value m

abbrev pub decrypted : Sources → Bytes → Opened → Fallible (Dict Bytes)
decrypted src name (cipher_error e) = wrap (codes "config: decrypt ") name (cipher_text e)
decrypted src name (plain pt) = decoded name (src.unmarshal pt)

abbrev pub secret_of : Sources → Aead → Bytes → Fallible (Bytes × Bytes) → Fallible (Dict Bytes)
secret_of src c name (failed e) = wrap (codes "config: secret ") name e
secret_of src c name (value (ct, nonce)) = decrypted src name (decrypt c ct nonce)

-- a loop over references, each of which gives a map or ends the loop by an error
unfoldable pub overlay_all :
    (Bytes → Fallible (Dict Bytes)) → Dict Bytes → List Bytes → Fallible (Dict Bytes)
unfolding overlay
overlay_all read out [] = value out
overlay_all read out (ref ∷ refs) = elim (read ref) [
  | failed e ↦ failed e
  | value m ↦ overlay_all read (overlay out m) refs
]

abbrev pub read_config_map : Sources → EnvSpec → Bytes → Fallible (Dict Bytes)
read_config_map src w name = config_map_of name (src.get_config_map w.project_id name)

abbrev pub read_secret : Sources → Aead → EnvSpec → Bytes → Fallible (Dict Bytes)
read_secret src c w name = secret_of src c name (src.get_secret w.project_id name)

unfoldable pub resolve_env : Sources → Aead → EnvSpec → Fallible (Dict Bytes)
unfolding overlay_all overlay decrypt
resolve_env src c w =
    elim (overlay_all (read_config_map src w) (overlay [] w.env) w.config_map_refs) [
      | failed e ↦ failed e
      | value out ↦ overlay_all (read_secret src c w) out w.secret_refs
    ]

-- The value that the last entry of a map gives a name, and that the last of several maps does.
abbrev pub or_else : Option Bytes → Option Bytes → Option Bytes
or_else none o = o
or_else (some v) o = some v

abbrev pub last_entry : Bytes → Dict Bytes → Option Bytes
last_entry k [] = none
last_entry k ((j, v) ∷ m) = or_else (last_entry k m) (if same j k then some v else none)

abbrev pub last_map : Bytes → List (Dict Bytes) → Option Bytes
last_map k [] = none
last_map k (m ∷ ms) = or_else (last_map k ms) (last_entry k m)

-- What all the references of a list give.
abbrev pub ReadAll : (Bytes → Fallible (Dict Bytes)) → List Bytes → List (Dict Bytes) → Type 0
ReadAll read [] [] = Unit {0}
ReadAll read [] (m ∷ ms) = ⊥
ReadAll read (ref ∷ refs) [] = ⊥
ReadAll read (ref ∷ refs) (m ∷ ms) = (read ref ≡ value m) × ReadAll read refs ms

or_else_assoc : (a b c : Option Bytes) → or_else (or_else a b) c ≡ or_else a (or_else b c)
or_else_assoc none b c = refl
or_else_assoc (some v) b c = refl

or_else_test :
    (b : Bool) (v : Bytes) (o : Option Bytes)
    → or_else (if b then some v else none) o ≡ (if b then some v else o)
or_else_test true v o = refl
or_else_test false v o = refl

lookup-overlay :
    (k : Bytes) (out m : Dict Bytes)
    → lookup k (overlay out m) ≡ or_else (last_entry k m) (lookup k out)
unfolding overlay
lookup-overlay k out [] = refl
lookup-overlay k out ((j, v) ∷ m) =
    lookup-overlay k (insert j v out) m
    ∙ ap (or_else (last_entry k m))
        (lookup-insert j k v out ∙ sym (or_else_test (same j k) v (lookup k out)))
    ∙ sym (or_else_assoc (last_entry k m) (if same j k then some v else none) (lookup k out))

overlay_all_lem :
    (read : Bytes → Fallible (Dict Bytes)) (k : Bytes) (out : Dict Bytes) (refs : List Bytes)
    (ms : List (Dict Bytes))
    → ReadAll read refs ms
    → (r : Dict Bytes) × (overlay_all read out refs ≡ value r)
      × (lookup k r ≡ or_else (last_map k ms) (lookup k out))
unfolding overlay_all
overlay_all_lem read k out [] [] h = (out, refl, refl)
overlay_all_lem read k out [] (m ∷ ms) h = elim h [ ]
overlay_all_lem read k out (ref ∷ refs) [] h = elim h [ ]
overlay_all_lem read k out (ref ∷ refs) (m ∷ ms) (e, h) =
    let (r, er, lr) = overlay_all_lem read k (overlay out m) refs ms h in
    (
      r,
      rw (e, overlay_all) er,
      lr
          ∙ ap (or_else (last_map k ms)) (lookup-overlay k out m)
          ∙ sym (or_else_assoc (last_map k ms) (last_entry k m) (lookup k out)),
    )

-- If all references can be read, each name has the value of the last secret that has it, or else of the last
-- config map, or else of the workload.
pub resolve_env_lem :
    (src : Sources) (c : Aead) (w : EnvSpec) (maps secrets : List (Dict Bytes)) (k : Bytes)
    → ReadAll (read_config_map src w) w.config_map_refs maps
    → ReadAll (read_secret src c w) w.secret_refs secrets
    → (r : Dict Bytes) × (resolve_env src c w ≡ value r)
      × (lookup k r ≡ or_else (last_map k secrets) (or_else (last_map k maps) (last_entry k w.env)))
unfolding resolve_env lookup
resolve_env_lem src c w maps secrets k hm hs =
    let (a, ea, la) =
      overlay_all_lem (read_config_map src w) k (overlay [] w.env) w.config_map_refs maps hm in
    let (r, er, lr) = overlay_all_lem (read_secret src c w) k a w.secret_refs secrets hs in
    (
      r,
      rw (ea, resolve_env) er,
      lr
          ∙ ap (or_else (last_map k secrets)) (
              la
              ∙ ap (or_else (last_map k maps))
                  (lookup-overlay k [] w.env ∙ or_none (last_entry k w.env))),
    )
  where
    or_none : (o : Option Bytes) → or_else o none ≡ o
    or_none none = refl
    or_none (some v) = refl

-- A secret that was encrypted from the JSON of a map is read as that map.
pub read_secret-encrypt :
    (src : Sources) (c : Aead) (w : EnvSpec) (name nonce text ct n : Bytes) (m : Dict Bytes)
    → length nonce ≡ c.nonce_size
    → src.unmarshal text ≡ value m
    → encrypt c (value nonce) text ≡ value (ct, n)
    → src.get_secret w.project_id name ≡ value (ct, n)
    → read_secret src c w name ≡ value m
read_secret-encrypt src c w name nonce text ct n m len um enc got =
    ap (secret_of src c name) got
    ∙ ap (decrypted src name) (decrypt-encrypt c nonce text ct n len enc)
    ∙ ap (decoded name) um
