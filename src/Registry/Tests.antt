-- ===== src/Registry/Tests.antt =====
-- Runs of the registry, over numbers as implementations.
use Prim.Native.String.{String}
use osctf.Prelude.{ℕ, ◌≡◌, ◌≢◌, refl, true, false, some, List, [], ◌∷◌, lookup, insert}
use osctf.Registry.{
  Write, registers, deregisters, writes, write, register, deregister, get, new_registry, Entry,
}
use osctf.Registry.Laws.{get-deregister_builtin}

abbrev builtins : List (String × ℕ)
builtins = ("static", 1) ∷ ("dynamic", 2) ∷ []

abbrev static_entry : Entry ℕ
static_entry = record { impl = 1; protected = true }

abbrev plugins : List (Write ℕ)
plugins = registers "static" 9 false ∷ registers "late" 7 false ∷ deregisters "late" ∷ []

abbrev overrides : List (Write ℕ)
overrides = registers "static" 9 true ∷ registers "late" 7 false ∷ []

overridden : get "static" (writes (new_registry builtins) overrides) ≡ some 9
unfolding get writes write register new_registry lookup insert
overridden = refl

get-deregister_builtin_example :
    (get "static" (deregister "static" (writes (new_registry builtins) overrides)) ≡ some 1)
    × ((j : String)
        → "static" ≢ j
        → get j (deregister "static" (writes (new_registry builtins) overrides))
          ≡ get j (writes (new_registry builtins) overrides))
unfolding new_registry lookup insert
get-deregister_builtin_example =
    get-deregister_builtin builtins overrides "static" static_entry refl
