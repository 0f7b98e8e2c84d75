-- ===== src/Llm/Registry.antt =====
-- The registry of models of internal/primitives/llm/registry.go.
use minicloud_platform.Prelude.{
  ℕ, Option, none, some, List, [], ◌∷◌, if◌then◌else◌, Bytes, codes, same, Dict, lookup, insert,
}
use minicloud_platform.Prelude.Fallible.{Fallible}
use minicloud_platform.Obs.Registry.{place_key}
use minicloud_platform.Llm.Engine.{ChatRequest, ChatResponse, World, chat, stream}

-- An engine: its two methods, which may panic.
pub record Engine : Type 0 where
  pub chat : ChatRequest → Option (Fallible ChatResponse)
  pub stream : ChatRequest → Option (Fallible (List Bytes))

unfoldable pub tiny_engine : World → Engine
unfolding chat stream
tiny_engine w = record { chat = chat w; stream = stream w }

pub record Model : Type 0 where
  pub name : Bytes
  pub revision : Bytes
  pub backend : Bytes
  pub created_at : ℕ

pub record Registry : Type 0 where
  pub models : Dict Model
  pub engines : Dict Engine

abbrev pub with_engine : Bytes → Option Engine → Dict Engine → Dict Engine
with_engine name none engines = engines
with_engine name (some e) engines = insert name e engines

-- the error, if there is one
unfoldable pub register : ℕ → Model → Option Engine → Registry → Registry × Option Bytes
unfolding insert
register now m eng r = if same m.name [] then (r, some (codes "llm: model name required")) else (
  record r {
    models = insert m.name (record m { created_at = now }) r.models;
    engines = with_engine m.name eng r.engines;
  },
  none,
)

abbrev pub or_tiny : World → Option Engine → Engine
or_tiny w none = tiny_engine w
or_tiny w (some e) = e

-- a fresh tiny engine where there is none
unfoldable pub resolve : World → Bytes → Registry → Engine
unfolding lookup tiny_engine
resolve w name r = or_tiny w (lookup name r.engines)

unfoldable pub list_from : Dict Model → List Model
list_from [] = []
list_from ((k, m) ∷ ms) = m ∷ list_from ms

unfoldable pub list_models : Registry → List Model
unfolding list_from
list_models r = list_from r.models

unfoldable pub names_from : Dict Model → List Bytes
unfolding place_key
names_from [] = []
names_from ((k, m) ∷ ms) = place_key k (names_from ms)

unfoldable pub names : Registry → List Bytes
unfolding names_from
names r = names_from r.models

unfoldable pub get_model : Bytes → Registry → Option Model
unfolding lookup
get_model name r = lookup name r.models

unfoldable pub chat_through : World → ChatRequest → Registry → Option (Fallible ChatResponse)
unfolding resolve
chat_through w q r = (resolve w q.model r).chat q
