-- ===== src/Submissions/Secrets.antt =====
-- A per-instance flag is a team's secret: the log never holds one.
use mathlib.Core.List.{Memᴰ, append_cancel_left}
use osctf.Prelude.{
  ok, ℕ, ◌≡◌, ◌≢◌, inl, inr, sym, ap, ◌∙◌, Bool, true, false, ◌&&◌, Option, none, some, List, [],
  ◌∷◌, ◌++◌, arith, ◌==◌, nat_key, text_key, Bool-cases, Option-cases, beq→eq, beq_refl,
}
use osctf.Submissions.Store.{
  Text, bytes_key, Challenge, Submission, Instance, Db, first, challenge_by_id, team_instance,
  instance_by_flag, has_flag, is_owned,
}
use osctf.Submissions.Request.{Env, Input}
use osctf.Submissions.Transaction.{
  Attempted, attempt, decide, compare_per_instance, stored_flag, redacted_flag, is_per_instance,
  row_of,
}
use osctf.Submissions.Attempt.{attempt_cases, challenge_by_id-id}

module _ {ℓ} {A : Type ℓ} (p : A → Bool) where
  first-mem : (xs : List A) (x : A) → first p xs ≡ some x → Memᴰ x xs × (p x ≡ true)
  first-mem [] x h = cc
  first-mem (y ∷ ys) x h = elim (Bool-cases (p y)) [
    | inl t ↦ (Memᴰ.head (ground (arith, t)), ground (arith, t))
    | inr f ↦ let (m, e) = first-mem ys x (ground (arith, f)) in (Memᴰ.tail m, e)
  ]

  first-exists : (xs : List A) (x : A) → Memᴰ x xs → p x ≡ true → (y : A) × (first p xs ≡ some y)
  first-exists [] x m h = elim m [ ]
  first-exists (y ∷ ys) x (Memᴰ.head e) h = (y, ground (arith, ap p e))
  first-exists (y ∷ ys) x (Memᴰ.tail m) h = elim (Bool-cases (p y)) [
    | inl t ↦ (y, rw t)
    | inr f ↦ rw f (first-exists ys x m h)
  ]

-- The unique index on a challenge and a team: a team's instance is the one that is found.
abbrev pub OneInstance : List Instance → Type 0
OneInstance is =
    (i : Instance) (t : ℕ)
    → Memᴰ i is
    → i.team_id ≡ some t
    → team_instance i.challenge_id t is ≡ some i

-- The instance that a flag leads to, where a team has that flag.
owner_found :
    (c t : ℕ) (f : Text) (is : List Instance) (i : Instance)
    → Memᴰ i is
    → i.challenge_id ≡ c
    → i.team_id ≡ some t
    → i.flag ≡ some f
    → (j : Instance) × (u : ℕ) × (instance_by_flag c f is ≡ some j)
      × (Memᴰ j is)
      × (j.challenge_id ≡ c)
      × (j.team_id ≡ some u)
      × (j.flag ≡ some f)
unfolding instance_by_flag
owner_found c t f is i m hc ht hf =
    let test : Instance → Bool =
      λ k. k.challenge_id == c && has_flag k.flag f && is_owned k.team_id in
    let (j, found) =
      first-exists test is i m (ground (arith, hc, ht, hf, beq_refl f, beq_refl c)) in
    let (mj, tj) = first-mem test is j found in
    elim (Option-cases j.team_id) [
      | inl e ↦ absurd (ground (arith, tj, e))
      | inr (u, e) ↦ (j, u, found, mj, ground (arith, tj), e, flag_of j tj)
    ]
  where
    flag_of :
        (j : Instance)
        → (j.challenge_id == c && has_flag j.flag f && is_owned j.team_id) ≡ true
        → j.flag ≡ some f
    flag_of j h = elim (Option-cases j.flag) [
      | inl e ↦ absurd (ground (arith, h, e))
      | inr (g, e) ↦ ground (arith, h, e, beq→eq g f)
    ]

-- A flag that the comparison neither accepts nor traces to another team is no team's flag.
untraced :
    (env : Env) (c : ℕ) (inp : Input) (db : Db) (i : Instance) (t : ℕ)
    → OneInstance db.instances
    → compare_per_instance env c inp db ≡ ok (false, none)
    → Memᴰ i db.instances
    → i.challenge_id ≡ c
    → i.team_id ≡ some t
    → i.flag ≢ some inp.flag
unfolding compare_per_instance
untraced env c inp db i t uniq h m hc ht hf =
    let (j, u, found, mj, jc, ju, jf) = owner_found c t inp.flag db.instances i m hc ht hf in
    ground (arith, h, found, jc, ju, jf, uniq j u mj ju, beq→eq u inp.team_id, beq_refl inp.flag)

stored_verbatim :
    (env : Env) (l : Challenge) (inp : Input) (db : Db) (correct : Bool) (owner : Option ℕ)
    (i : Instance) (t : ℕ) (f : Text)
    → OneInstance db.instances
    → is_per_instance l ≡ true
    → decide env l none inp db ≡ ok (correct, owner)
    → Memᴰ i db.instances
    → i.challenge_id ≡ l.id
    → i.team_id ≡ some t
    → i.flag ≡ some f
    → f ≢ redacted_flag
    → stored_flag l correct owner inp.flag ≢ f
unfolding decide stored_flag
stored_verbatim env l inp db true owner i t f uniq mode d m hc ht hf ne same =
    ne (ground (arith, mode, same))
stored_verbatim env l inp db false (some o) i t f uniq mode d m hc ht hf ne same =
    ne (ground (arith, mode, same))
stored_verbatim env l inp db false none i t f uniq mode d m hc ht hf ne same =
    untraced env l.id inp db i t uniq (ground (arith, mode, d)) m hc ht
      (ground (arith, mode, same, hf))

-- When the transaction commits with no plugin verdict on a challenge of per-instance flags, and
-- each team has one instance of a challenge, the row that it adds does not store the flag of any
-- team's instance of that challenge, for a flag that differs from the redaction text.
pub attempt_secret :
    (env : Env) (ch : Challenge) (inp : Input) (db db' : Db) (a : Attempted) (locked : Challenge)
    (row : Submission) (i : Instance) (t : ℕ) (f : Text)
    → OneInstance db.instances
    → challenge_by_id ch.id db ≡ some locked
    → is_per_instance locked ≡ true
    → attempt env ch none inp db ≡ (db', ok a)
    → db'.submissions ≡ db.submissions ++ row ∷ []
    → Memᴰ i db.instances
    → i.challenge_id ≡ ch.id
    → i.team_id ≡ some t
    → i.flag ≡ some f
    → f ≢ redacted_flag
    → row.provided ≢ f
attempt_secret env ch inp db db' a locked row i t f uniq found mode h e m hc ht hf ne same =
    elim (attempt_cases env ch none inp db) [
      | inl (x, k) ↦ absurd (cc (k, h))
      | inr (l, b, clear, d, k) ↦
          let same_log =
            append_cancel_left db.submissions _ _ (sym e ∙ ap (λ p. p.0.submissions) (sym h ∙ k)) in
          let same_row : row ≡ row_of b.submission_id l inp b.correct b.shared_with =
            ground (arith, same_log) in
          let same_challenge : locked ≡ l = ground (arith, found, clear.found) in
          stored_verbatim env l inp db b.correct b.shared_with i t f uniq
            (rw (← same_challenge) mode) d m (hc ∙ sym (challenge_by_id-id ch.id db l clear.found))
            ht hf ne (ap (λ r. r.provided) (sym same_row) ∙ same)
    ]
