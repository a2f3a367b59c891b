-- ===== src/Registry.antt =====
-- internal/scoring/registry.go: the override-protected registry of named implementations.
-- The map behind the atomic pointer is immutable, so each operation is a function from the map
-- that was loaded to the map that is stored. `E` is the type of the registered implementations.
pub mod Laws
mod Tests
use Prim.Native.String.{String}
use osctf.Prelude.{
  Bool, true, false, ◌&&◌, not, Option, none, some, List, [], ◌∷◌, if◌then◌else◌, ◌==◌, Dict,
  lookup, insert, erase, text_key,
}

-- `engEntry`
pub record Entry (E : Type 0) : Type 0 where
  pub impl : E
  pub protected : Bool

-- `Registry`: the current map, and the built-ins that a revert restores.
pub record Registry (E : Type 0) : Type 0 where
  pub m : Dict String (Entry E)
  pub base : Dict String (Entry E)

-- What `Register` returns: the new registry, or its error and the registry as it was.
pub data Outcome : Type 0 where
  registered protected_builtin : Outcome

module _ {E : Type 0} where
  -- `NewRegistry`: the loop over the built-ins, by their names.
  add_builtins : List (String × E) → Dict String (Entry E) → Dict String (Entry E)
  add_builtins [] m = m
  add_builtins ((name, e) ∷ rest) m =
      add_builtins rest (insert name (record { impl = e; protected = true }) m)

  unfoldable pub new_registry : List (String × E) → Registry E
  unfolding add_builtins
  new_registry builtins = record { m = add_builtins builtins []; base = add_builtins builtins [] }

  abbrev restore : String → Option (Entry E) → Dict String (Entry E) → Dict String (Entry E)
  restore name none next = next
  restore name (some b) next = insert name b next

  abbrev deregister_known : String → Registry E → Option (Entry E) → Registry E
  deregister_known name r none = r
  deregister_known name r (some _) = record r {
    m = restore name (lookup name r.base) (erase name r.m);
  }

  -- `Deregister`
  unfoldable pub deregister : String → Registry E → Registry E
  deregister name r = deregister_known name r (lookup name r.m)

  abbrev impl_of : Option (Entry E) → Option E
  impl_of none = none
  impl_of (some e) = some e.impl

  -- `Get`
  unfoldable pub get : String → Registry E → Option E
  get name r = impl_of (lookup name r.m)

  abbrev pub is_protected : Option (Entry E) → Bool
  is_protected none = false
  is_protected (some e) = e.protected

  -- `Register`
  unfoldable pub register : String → E → Bool → Registry E → Registry E × Outcome
  register name e override r =
      let old = lookup name r.m in
      if is_protected old && not override then (r, protected_builtin) else (
        record r { m = insert name (record { impl = e; protected = is_protected old }) r.m },
        registered,
      )

-- The writers, one after the other under `writeMu`.
pub data Write (E : Type 0) : Type 0 where
  registers : String → E → Bool → Write E
  deregisters : String → Write E

module _ {E : Type 0} where
  unfoldable pub write : Registry E → Write E → Registry E
  write r (registers name e override) = (register name e override r).0
  write r (deregisters name) = deregister name r

  unfoldable pub writes : Registry E → List (Write E) → Registry E
  writes r [] = r
  writes r (w ∷ ws) = writes (write r w) ws
