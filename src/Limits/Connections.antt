-- ===== src/Limits/Connections.antt =====
-- The counters of internal/ws/limits.go are those of the connections that are held, and the caps
-- bound them.
use osctf.Prelude.{
  ℕ, suc, ◌-◌, ◌<◌, ◌≡◌, true, ◌||◌, List, [], ◌∷◌, ◌++◌, arith, if◌then◌else◌, ◌==◌, nat_key, leb,
  length, tally, Dict, lookup, insert, lookup-insert, lookup-erase, beq→eq, beq_refl,
}
use osctf.Submissions.Store.{Text, bytes_key}
use osctf.Limits.Admissions.{
  Limits, Admissions, Verdict, admitted, or_zero, live_of, count_down, hits_of, recent,
  forgive_handshake, reserve, rate_limited, admit_key, release,
}

-- One connection of the key goes.
abbrev without_one : Text → List Text → List Text
without_one key [] = []
without_one key (k ∷ held) = let rest = without_one key held in if k == key then held else k ∷ rest

abbrev held_of : Text → List Text → ℕ
held_of key = tally (λ k. k == key)

-- The counters are those of the held connections, each by its key.
pub record Counts (held : List Text) (a : Admissions) : Type 0 where
  pub total_held : a.total ≡ length held
  pub key_held : (key : Text) → live_of key a ≡ held_of key held

-- The caps that are set hold.
pub record Within (l : Limits) (held : List Text) : Type 0 where
  pub global_bound : (l.max_conns == 0) || leb (length held) l.max_conns ≡ true
  pub key_bound :
      (key : Text) → (l.max_conns_per_key == 0) || leb (held_of key held) l.max_conns_per_key ≡ true

abbrev held_after : Text → List Text → Verdict → List Text
held_after key held admitted = key ∷ held
held_after key held _ = held

-- The life of the admissions: handshakes, teardowns of held connections, and forgiven handshakes.
pub data Life (l : Limits) : Admissions → List Text → Admissions → List Text → Type 0 where
  begins : (a : Admissions) (held : List Text) → Life l a held a held
  shakes :
      {a b : Admissions} {held later : List Text} (now : ℕ) (key : Text)
      → Life l a held b later
      → Life l a held (admit_key l now key b).0 (held_after key later (admit_key l now key b).1)
  closes :
      {a b : Admissions} {held later : List Text} (key : Text)
      → Life l a held b later
      → 0 < held_of key later
      → Life l a held (release key b) (without_one key later)
  forgives :
      {a b : Admissions} {held later : List Text} (key : Text)
      → Life l a held b later
      → Life l a held (forgive_handshake key b) later

without_one-held :
    (key k : Text) (held : List Text)
    → 0 < held_of key held
    → (held_of k (without_one key held) ≡ (if key == k then held_of k held - 1 else held_of k held))
      × (suc (length (without_one key held)) ≡ length held)
without_one-held key k [] h = absurd (omega (arith, h))
without_one-held key k (x ∷ held) h =
    ground
      (arith, h, without_one-held key k held, beq→eq x key, beq→eq key k, beq_refl key, beq_refl k)

reserve-Counts :
    (l : Limits) (key : Text) (a : Admissions) (held : List Text)
    → Counts held a
    → Within l held
    → Counts (held_after key held (reserve l key a).1) (reserve l key a).0
      × Within l (held_after key held (reserve l key a).1)
unfolding reserve
reserve-Counts l key a held c w = (
  record {
    total_held = ground (arith, c.total_held);
    key_held = λ k. ground (
      arith,
      c.key_held k,
      c.key_held key,
      lookup-insert key k (suc (live_of key a)) a.per_key,
      beq→eq key k,
    );
  },
  record {
    global_bound = ground (arith, c.total_held, w.global_bound);
    key_bound = λ k. ground (arith, c.key_held key, w.key_bound k, beq→eq key k);
  },
)

-- What the handshake leaves of the counters before the reservation.
owing_nothing :
    (held : List Text) (a : Admissions) (h : Dict Text (List ℕ)) (f : Dict Text ℕ)
    → Counts held a
    → Counts held (record a { hs_hits = h; forgive = f })
owing_nothing held a h f c = record { total_held = c.total_held; key_held = c.key_held }

admit_key-Counts :
    (l : Limits) (now : ℕ) (key : Text) (a : Admissions) (held : List Text)
    → Counts held a
    → Within l held
    → Counts (held_after key held (admit_key l now key a).1) (admit_key l now key a).0
      × Within l (held_after key held (admit_key l now key a).1)
unfolding admit_key rate_limited
admit_key-Counts l now key a held c w =
    let owed = or_zero (lookup key a.forgive) in
    let hits = recent l.handshake_window now (hits_of key a) in
    ground (
      arith,
      c,
      w,
      reserve-Counts l key a held c w,
      reserve-Counts l key (record a { forgive = count_down key owed a.forgive }) held
          (owing_nothing held a a.hs_hits (count_down key owed a.forgive) c) w,
      reserve-Counts l key (record a { hs_hits = insert key (hits ++ now ∷ []) a.hs_hits }) held
          (owing_nothing held a (insert key (hits ++ now ∷ []) a.hs_hits) a.forgive c) w,
      owing_nothing held a (insert key hits a.hs_hits) a.forgive c,
    )

release-Counts :
    (l : Limits) (key : Text) (a : Admissions) (held : List Text)
    → 0 < held_of key held
    → Counts held a
    → Within l held
    → Counts (without_one key held) (release key a) × Within l (without_one key held)
unfolding release
release-Counts l key a held h c w = (
  record {
    total_held = ground (arith, c.total_held, without_one-held key key held h);
    key_held = λ k. ground (
      arith,
      h,
      c.key_held k,
      c.key_held key,
      without_one-held key k held h,
      lookup-insert key k (live_of key a - 1) a.per_key,
      lookup-erase key k a.per_key,
      beq→eq key k,
    );
  },
  record {
    global_bound = ground (arith, w.global_bound, without_one-held key key held h);
    key_bound = λ k. ground (arith, w.key_bound k, without_one-held key k held h);
  },
)

-- From the counters of the held connections, within the caps, any life of handshakes, teardowns
-- of held connections and forgiven handshakes leads to such counters: the total and each key's
-- count are those of the connections that are held, and no cap that is set is exceeded.
pub Life-Counts :
    {l : Limits} {a : Admissions} {held : List Text} {b : Admissions} {later : List Text}
    → Life l a held b later
    → Counts held a
    → Within l held
    → Counts later b × Within l later
unfolding forgive_handshake
Life-Counts (begins a held) c w = (c, w)
Life-Counts {l} (shakes {b = b} {later = later} now key life) c w =
    let (c', w') = Life-Counts life c w in admit_key-Counts l now key b later c' w'
Life-Counts {l} (closes {b = b} {later = later} key life h) c w =
    let (c', w') = Life-Counts life c w in release-Counts l key b later h c' w'
Life-Counts (forgives {b = b} {later = later} key life) c w =
    let (c', w') = Life-Counts life c w in
    (
      ground (
        arith,
        c',
        owing_nothing later b b.hs_hits
            (insert key (suc (or_zero (lookup key b.forgive))) b.forgive) c',
      ),
      w',
    )
