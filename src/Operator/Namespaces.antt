-- ===== src/Operator/Namespaces.antt =====
-- The namespaces that the operator watches, of cmd/main.go.
pub mod Laws
mod Tests
use poddoctor.Prelude.{String, Bool, Option, none, some, List, [], ◌∷◌, ◌==◌, any, if◌then◌else◌}
use poddoctor.Text.Split.{split, trim_space}

-- A key of the map.
abbrev pub member : String → List String → Bool
member ns keys = any (λ k. k == ns) keys

-- namespaces[ns] = cache.Config{}; the map is the list of its keys.
unfoldable pub insert : String → List String → List String
insert ns keys = if member ns keys then keys else ns ∷ keys

-- The loop over the pieces of the flag.
unfoldable pub collect : List String → List String → List String
unfolding insert
collect [] keys = keys
collect (piece ∷ rest) keys =
    let ns = trim_space piece in collect rest (if ns == "" then keys else insert ns keys)

-- The DefaultNamespaces of the cache; none where the flag is empty, for the whole cluster.
unfoldable pub watched : String → Option (List String)
watched flag = if flag == "" then none else some (collect (split b',' flag) [])
