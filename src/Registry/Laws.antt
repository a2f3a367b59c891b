-- ===== src/Registry/Laws.antt =====
-- Laws of the registry's writers: built-ins stay resolvable, and only an override replaces one.
use Prim.Native.String.{String}
use osctf.Prelude.{
  Bool, true, false, none, some, List, [], ◌∷◌, ◌≡◌, ◌≢◌, refl, arith, Dict, lookup, insert, erase,
  if◌then◌else◌, ◌==◌, lookup-insert, lookup-erase, beq_refl, beq→eq, inl, inr, Option-cases,
  text_key, ◌∙◌,
}
use osctf.Registry.{
  Entry, Registry, register, deregister, get, is_protected, new_registry, add_builtins, Write,
  registers, deregisters, write, writes,
}

-- Every built-in resolves, and is protected in the map and in the base.
pub record IsServing {E : Type 0} (r : Registry E) : Type 0 where
  pub serves :
      (k : String) (b : Entry E) → lookup k r.base ≡ some b → is_protected (lookup k r.m) ≡ true
  pub base_protected : (k : String) (b : Entry E) → lookup k r.base ≡ some b → b.protected ≡ true

-- Every built-in resolves to what the registry was built with.
abbrev IsPristine : {E : Type 0} → Registry E → Type 0
IsPristine {E} r =
    (k : String) (b : Entry E)
    → lookup k r.base ≡ some b
    → (lookup k r.m ≡ some b) × (b.protected ≡ true)

-- No write passes `override`.
abbrev pub Plain : {E : Type 0} → List (Write E) → Type 0
Plain [] = Unit {0}
Plain (registers name e override ∷ ws) = (override ≡ false) × Plain ws
Plain (deregisters name ∷ ws) = Plain ws

module _ {E : Type 0} where
  deregister_unknown :
      (name : String) (r : Registry E) → lookup name r.m ≡ none → deregister name r ≡ r
  unfolding deregister
  deregister_unknown name r h = rw h

  -- What a name resolves to after a revert.
  lookup-deregister :
      (name j : String) (r : Registry E) {x : Entry E}
      → lookup name r.m ≡ some x
      → lookup j (deregister name r).m ≡ (if name == j then lookup name r.base else lookup j r.m)
  unfolding deregister
  lookup-deregister name j r h = elim (Option-cases (lookup name r.base)) [
    | inl e ↦ rw (h, e) (lookup-erase name j r.m)
    | inr (b, e) ↦
        ground (arith, h, e, lookup-insert name j b (erase name r.m), lookup-erase name j r.m)
  ]

  deregister-base : (name : String) (r : Registry E) → (deregister name r).base ≡ r.base
  unfolding deregister
  deregister-base name r = ground arith

  register-base :
      (name : String) (e : E) (override : Bool) (r : Registry E)
      → (register name e override r).0.base ≡ r.base
  unfolding register
  register-base name e override r = ground arith

  register-IsPristine :
      (name : String) (e : E) (r : Registry E)
      → IsPristine r
      → IsPristine (register name e false r).0
  unfolding register
  register-IsPristine name e r g k b h = ground (
    arith,
    g k b,
    lookup-insert name k (record { impl = e; protected = is_protected (lookup name r.m) }) r.m,
    beq→eq name k,
  )

  deregister-IsPristine :
      (name : String) (r : Registry E) → IsPristine r → IsPristine (deregister name r)
  deregister-IsPristine name r g k b h = elim (Option-cases (lookup name r.m)) [
    | inl e ↦ rw (deregister_unknown name r e) (g k b (rw (deregister-base name r) at h))
    | inr (x, e) ↦
        ground (arith, g k b, lookup-deregister name k r e, deregister-base name r, beq→eq name k)
  ]

  write-base : (r : Registry E) (w : Write E) → (write r w).base ≡ r.base
  unfolding write
  write-base r (registers name e override) = register-base name e override r
  write-base r (deregisters name) = deregister-base name r

  writes-base : (r : Registry E) (ws : List (Write E)) → (writes r ws).base ≡ r.base
  unfolding writes
  writes-base r [] = refl
  writes-base r (w ∷ ws) = writes-base (write r w) ws ∙ write-base r w

  writes-IsPristine :
      (r : Registry E) (ws : List (Write E)) → Plain ws → IsPristine r → IsPristine (writes r ws)
  unfolding writes write
  writes-IsPristine r [] p g = g
  writes-IsPristine r (registers name e override ∷ ws) p g =
      writes-IsPristine (write r (registers name e override)) ws p.1
        (rw p.0 (register-IsPristine name e r g))
  writes-IsPristine r (deregisters name ∷ ws) p g =
      writes-IsPristine (write r (deregisters name)) ws p (deregister-IsPristine name r g)

  -- With overrides a built-in may be replaced, yet its name resolves throughout.
  register-IsServing :
      (name : String) (e : E) (override : Bool) (r : Registry E)
      → IsServing r
      → IsServing (register name e override r).0
  unfolding register
  register-IsServing name e override r g = record {
    serves = λ k b h. ground (
      arith,
      g.serves k b,
      lookup-insert name k (record { impl = e; protected = is_protected (lookup name r.m) }) r.m,
      beq→eq name k,
    );
    base_protected = λ k b h. ground (arith, g.base_protected k b);
  }

  deregister-IsServing :
      (name : String) (r : Registry E) → IsServing r → IsServing (deregister name r)
  deregister-IsServing name r g = elim (Option-cases (lookup name r.m)) [
    | inl e ↦ rw (deregister_unknown name r e) g
    | inr (x, e) ↦ record {
      serves = λ k b h. ground (
        arith,
        g.serves k b,
        g.base_protected k b,
        lookup-deregister name k r e,
        deregister-base name r,
        beq→eq name k,
      );
      base_protected = λ k b h. g.base_protected k b (rw (deregister-base name r) at h);
    }
  ]

  writes-IsServing : (r : Registry E) (ws : List (Write E)) → IsServing r → IsServing (writes r ws)
  unfolding writes write
  writes-IsServing r [] g = g
  writes-IsServing r (registers name e override ∷ ws) g =
      writes-IsServing (write r (registers name e override)) ws
        (register-IsServing name e override r g)
  writes-IsServing r (deregisters name ∷ ws) g =
      writes-IsServing (write r (deregisters name)) ws (deregister-IsServing name r g)

  -- `m` holds the built-ins alone.
  add_builtins-protected :
      (bs : List (String × E)) (m : Dict String (Entry E))
      → ((k : String) (b : Entry E) → lookup k m ≡ some b → b.protected ≡ true)
      → (k : String) (b : Entry E) → lookup k (add_builtins bs m) ≡ some b
      → b.protected ≡ true
  unfolding add_builtins
  add_builtins-protected [] m h k b e = h k b e
  add_builtins-protected ((name, i) ∷ bs) m h k b e =
      add_builtins-protected bs (insert name (record { impl = i; protected = true }) m)
        (λ j c p.
          ground (arith, h j c, lookup-insert name j (record { impl = i; protected = true }) m))
        k b e

  new_registry-IsPristine : (bs : List (String × E)) → IsPristine (new_registry bs)
  unfolding new_registry lookup
  new_registry-IsPristine bs k b h = (h, add_builtins-protected bs [] (λ j c e. cc) k b h)

  IsPristine→IsServing : (r : Registry E) → IsPristine r → IsServing r
  IsPristine→IsServing r g = record {
    serves = λ k b h. ground (arith, g k b);
    base_protected = λ k b h. (g k b h).1;
  }

-- After any sequence of registrations without override and of deregistrations, a built-in's name
-- resolves to the implementation that the registry was built with.
get-writes-Plain :
    {E : Type 0} (bs : List (String × E)) (ws : List (Write E)) (k : String) (b : Entry E)
    → Plain ws
    → lookup k (new_registry bs).base ≡ some b
    → get k (writes (new_registry bs) ws) ≡ some b.impl
unfolding get
get-writes-Plain bs ws k b p h = ground (
  arith,
  writes-IsPristine (new_registry bs) ws p (new_registry-IsPristine bs) k b
      (rw (writes-base (new_registry bs) ws) h),
)

writes-served :
    {E : Type 0} (bs : List (String × E)) (ws : List (Write E)) (k : String) (b : Entry E)
    → lookup k (new_registry bs).base ≡ some b
    → is_protected (lookup k (writes (new_registry bs) ws).m) ≡ true
writes-served bs ws k b h =
    (writes-IsServing (new_registry bs) ws
        (IsPristine→IsServing (new_registry bs) (new_registry-IsPristine bs))).serves
      k b (rw (writes-base (new_registry bs) ws) h)

-- After any sequence of registrations, overrides included, and deregistrations, deregistering a
-- built-in's name makes it resolve to the built-in again, and every other name resolves as
-- before.
pub get-deregister_builtin :
    {E : Type 0} (bs : List (String × E)) (ws : List (Write E)) (k : String) (b : Entry E)
    → lookup k (new_registry bs).base ≡ some b
    → let r = writes (new_registry bs) ws in
      (get k (deregister k r) ≡ some b.impl)
      × ((j : String) → k ≢ j → get j (deregister k r) ≡ get j r)
unfolding get
get-deregister_builtin bs ws k b h =
    elim (Option-cases (lookup k (writes (new_registry bs) ws).m)) [
      | inl e ↦ ground (arith, writes-served bs ws k b h, e)
      | inr (x, e) ↦ (
        ground (
          arith,
          lookup-deregister k k (writes (new_registry bs) ws) e,
          beq_refl k,
          writes-base (new_registry bs) ws,
        ),
        λ j ne. ground (arith, lookup-deregister k j (writes (new_registry bs) ws) e, beq→eq k j),
      )
    ]
