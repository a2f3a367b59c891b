-- ===== src/Auth/Revocation.antt =====
-- The index of internal/auth/session.go covers every live session, so that a revocation reaches all of
-- a user's.
use Prim.Native.String.{String}
use osctf.Prelude.{
  ℕ, ◌+◌, ◌*◌, ◌≤◌, ◌<◌, ◌≡◌, inl, inr, refl, ap, ◌∙◌, true, false, ◌&&◌, not, Option, none, some,
  List, [], ◌∷◌, ◌==◌, nat_key, ltb, tally, arith, Bool-cases, Dict, lookup, insert, lookup-insert,
  lookup-insert_self, lookup-erase, beq_refl, beq→eq,
}
use osctf.Submissions.Store.{Text, bytes_key}
use osctf.Auth.Sessions.{
  Session, Entry, Index, Store, Outage, live_members, members, has_token, with_token, index_token,
  create, is_due, get_entry, get, entry_at, without_token, unlisted, drop,
}

-- The index of the session's user lists it and outlives it.
pub record Covered (ttl now : ℕ) (indexes : Dict ℕ Index) (token : Text) (e : Entry) : Type 0 where
  pub soon : e.expires ≤ now + ttl
  pub index : Index
  pub there : lookup e.session.user_id indexes ≡ some index
  pub outlives : e.expires < index.expires
  pub listed : has_token token index.tokens ≡ true

pub record Indexed (ttl now : ℕ) (s : Store) : Type 0 where
  pub covers :
      (token : Text) (e : Entry)
      → lookup token s.sessions ≡ some e
      → now < e.expires
      → Covered ttl now s.indexes token e

has_token-with_token :
    (t x : Text) (tokens : List Text)
    → has_token t tokens ≡ true
    → has_token t (with_token x tokens) ≡ true
has_token-with_token t x tokens h = ground (arith, h)

with_token_self : (t : Text) (tokens : List Text) → has_token t (with_token t tokens) ≡ true
with_token_self t tokens = ground (arith, beq_refl t)

-- A token other than the one removed stays.
has_token-without_token :
    (t x : Text) (tokens : List Text)
    → (x == t) ≡ false
    → has_token t tokens ≡ true
    → has_token t (without_token x tokens) ≡ true
has_token-without_token t x tokens apart h = ground (arith, h, below tokens)
  where
    below : (xs : List Text) → tally (λ y. y == t) xs ≤ tally (λ y. y == t) (without_token x xs)
    below [] = omega arith
    below (y ∷ ys) = ground (arith, below ys, apart, beq→eq y t, beq→eq y x, beq_refl x)

-- An index that is not older, and lists the token, covers the session too.
grown-Covered :
    (ttl now user : ℕ) (indexes : Dict ℕ Index) (new : Index) (t : Text) (e : Entry)
    → (c : Covered ttl now indexes t e)
    → ((user == e.session.user_id) ≡ true
        → (e.expires < new.expires) × (has_token t new.tokens ≡ true))
    → Covered ttl now (insert user new indexes) t e
grown-Covered ttl now user indexes new t e c grown = elim (Bool-cases (user == e.session.user_id)) [
  | inl y ↦ record {
    soon = c.soon;
    index = new;
    there = ground (arith, y, lookup-insert user e.session.user_id new indexes);
    outlives = (grown y).0;
    listed = (grown y).1;
  }
  | inr n ↦ record {
    soon = c.soon;
    index = c.index;
    there = ground (arith, n, c.there, lookup-insert user e.session.user_id new indexes);
    outlives = c.outlives;
    listed = c.listed;
  }
]

-- The tokens that are listed for the user of a live session.
pub live_members-Covered :
    (ttl now user : ℕ) (indexes : Dict ℕ Index) (t : Text) (e : Entry)
    → (c : Covered ttl now indexes t e) → now < e.expires
    → (user == e.session.user_id) ≡ true
    → live_members now (lookup user indexes) ≡ c.index.tokens
live_members-Covered ttl now user indexes t e c alive y =
    let same = beq→eq user e.session.user_id y in
    let lasts : ltb now c.index.expires ≡ true = ground (arith, alive, c.outlives) in
    ap (λ u. live_members now (lookup u indexes)) same
    ∙ ap (live_members now) c.there
    ∙ rw lasts refl

-- What `create` and `refresh` write.
abbrev written : ℕ → ℕ → Text → Session → Store → Store
written ttl now token session s = index_token ttl now session.user_id token (record s {
  sessions = insert token (record { session = session; expires = now + ttl }) s.sessions;
})

written-Indexed :
    (ttl now : ℕ) (token : Text) (session : Session) (s : Store)
    → 0 < ttl
    → Indexed ttl now s
    → Indexed ttl now (written ttl now token session s)
unfolding index_token members
written-Indexed ttl now token session s pos w = record {
  covers = λ t e h alive. elim (Bool-cases (token == t)) [
    | inl y ↦
        let new : Index = record {
          tokens = with_token token (live_members now (lookup session.user_id s.indexes));
          expires = now + ttl * 2;
        } in
        let found : e ≡ record { session = session; expires = now + ttl } = ground (
          arith,
          h,
          y,
          lookup-insert token t (record { session = session; expires = now + ttl }) s.sessions,
        ) in
        record {
          soon = ground (arith, found);
          index = new;
          there = ground (arith, found, lookup-insert_self session.user_id new s.indexes);
          outlives = ground (arith, found, pos);
          listed =
              rw (← beq→eq token t y)
                (with_token_self token (live_members now (lookup session.user_id s.indexes)));
        }
    | inr n ↦
        let before : lookup t s.sessions ≡ some e = ground (
          arith,
          h,
          n,
          lookup-insert token t (record { session = session; expires = now + ttl }) s.sessions,
        ) in
        let c = w.covers t e before alive in
        grown-Covered ttl now session.user_id s.indexes _ t e c (λ y. (
          omega (arith, c.soon, pos),
          has_token-with_token t token (live_members now (lookup session.user_id s.indexes))
              (rw (live_members-Covered ttl now session.user_id s.indexes t e c alive y) c.listed),
        ))
  ];
}

-- Time passes.
pub waited-Indexed :
    (ttl now later : ℕ) (s : Store) → now ≤ later → Indexed ttl now s → Indexed ttl later s
waited-Indexed ttl now later s le w = record {
  covers = λ t e h alive.
      let c = w.covers t e h (omega (arith, le, alive)) in
      record {
        soon = omega (arith, c.soon, le);
        index = c.index;
        there = c.there;
        outlives = c.outlives;
        listed = c.listed;
      };
}

pub create-Indexed :
    (outage : Outage) (ttl now : ℕ) (token : Option Text) (user : ℕ) (role : String) (ip ua : Text)
    (s : Store)
    → 0 < ttl
    → Indexed ttl now s
    → Indexed ttl now (create outage ttl now token user role ip ua s).0
unfolding create
create-Indexed outage ttl now none user role ip ua s pos w = w
create-Indexed outage ttl now (some token) user role ip ua s pos w = elim (Bool-cases outage.exec) [
  | inl f ↦ rw f w
  | inr f ↦ rw f (written-Indexed ttl now token _ s pos w)
]

pub get-Indexed :
    (outage : Outage) (ttl now : ℕ) (token : Text) (s : Store)
    → 0 < ttl
    → Indexed ttl now s
    → Indexed ttl now (get outage ttl now token s).0
unfolding get
get-Indexed outage ttl now token s pos w = elim (Bool-cases (token == [])) [
  | inl b ↦ rw b w
  | inr b ↦ elim (Bool-cases outage.read) [
    | inl f ↦ rw (b, f) w
    | inr f ↦ simp (b, f) (from (entry_at now token s))
  ]
]
  where
    from : (o : Option Entry) → Indexed ttl now (get_entry outage ttl now token s o).0
    from none = w
    from (some e) = elim (Bool-cases (not outage.ttl && is_due ttl now e && not outage.exec)) [
      | inl d ↦ rw d (written-Indexed ttl now token e.session s pos w)
      | inr d ↦ rw d w
    ]

pub drop-Indexed :
    (ttl now user : ℕ) (token : Text) (s : Store)
    → Indexed ttl now s
    → Indexed ttl now (drop user token s)
unfolding drop
drop-Indexed ttl now user token s w = record {
  covers = λ t e h alive.
      let apart : (token == t) ≡ false = ground (arith, h, lookup-erase token t s.sessions) in
      let before : lookup t s.sessions ≡ some e =
        ground (arith, h, apart, lookup-erase token t s.sessions) in
      let c = w.covers t e before alive in from (lookup user s.indexes) refl t e c apart;
}
  where
    from :
        (o : Option Index)
        → lookup user s.indexes ≡ o
        → (t : Text) (e : Entry) → Covered ttl now s.indexes t e
        → (token == t) ≡ false
        → Covered ttl now (unlisted token user o s.indexes) t e
    from none k t e c apart = c
    from (some i) k t e c apart = grown-Covered ttl now user s.indexes _ t e c (λ y.
        let same = beq→eq user e.session.user_id y in
        let found : i ≡ c.index = ground (arith, k, c.there, same) in
        (
          rw found c.outlives,
          rw found (has_token-without_token t token c.index.tokens apart c.listed),
        ))
