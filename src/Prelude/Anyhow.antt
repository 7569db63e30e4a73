-- ===== src/Prelude/Anyhow.antt =====
-- The crate anyhow: an error is the chain of its messages, the outermost first.
use mathlib.Core.List.{List, [], ◌∷◌}
use Prim.Native.String.{String}
use link_pilot.Prelude.Results.{Result, map_err}
use link_pilot.Prelude.Texts.{◌⧺◌}

abbrev pub Anyhow : Type 0
Anyhow = List String

-- `anyhow!(message)`
abbrev pub anyhow : String → Anyhow
anyhow message = message ∷ []

-- `result.context(message)`
abbrev pub context : {A : Type 0} → String → Result A Anyhow → Result A Anyhow
context message = map_err (λ e. message ∷ e)

-- `format!("{e:#}")`
unfoldable pub show_chain : Anyhow → String
show_chain [] = ""
show_chain (message ∷ []) = message
show_chain (message ∷ cause ∷ causes) = message ⧺ (": " ⧺ show_chain (cause ∷ causes))
