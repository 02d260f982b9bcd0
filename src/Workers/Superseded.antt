-- ===== src/Workers/Superseded.antt =====
-- A worker that registers again shuts its earlier sessions out, whatever is reported afterwards.
use fgvcplateform_public.Base.{
  ℕ, String, ◌≡◌, ◌≢◌, refl, sym, ap, subst, ◌∙◌, true, false, Bool, Option, none, some, List, [],
  ◌∷◌, not, str_eq, eq_iff, if_cases, pos, Bool-cases, inl, inr,
}
use fgvcplateform_public.Base.Assoc.{lookup, lookup-insert, lookup-insert_self}
use fgvcplateform_public.Workers.{Snapshot}
use fgvcplateform_public.Workers.Sessions.{
  Row, Tables, conflict, accepted, less, put_row, beat_found, known_session, new_session,
  register_found, report, Call, settle, run,
}

differ : (x y : String) → x ≢ y → str_eq x y ≡ false
differ x y apart = elim (Bool-cases (str_eq x y)) [
  | inl p ↦ absurd (apart ((eq_iff x y).0 p))
  | inr p ↦ p
]

module _ (uuid_text : String → String) (old : Snapshot) where
  -- The tables know the session of `old`, and the worker's row is that of another session.
  record IsSuperseded (t : Tables) : Type 0 where
    owner : String
    known : lookup (uuid_text old.session_id) t.sessions ≡ some owner
    row : Row
    present : lookup old.id t.instances ≡ some row
    in_text : uuid_text row.session_id ≡ row.session_id
    apart : row.session_id ≢ uuid_text old.session_id

  conflicts :
      (t : Tables)
      → IsSuperseded t
      → (now : ℕ) (registers : Bool) → report uuid_text now t old registers ≡ conflict
  unfolding report beat_found register_found known_session
  conflicts t s now false =
      let other = differ s.row.session_id (uuid_text old.session_id) s.apart in
      rw (s.present, other) refl
  conflicts t s now true =
      let raw =
        differ s.row.session_id old.session_id (λ e. s.apart (sym s.in_text ∙ ap uuid_text e)) in
      elim (Bool-cases (str_eq s.owner old.id)) [
        | inl p ↦ rw (s.known, s.present, p, raw) refl
        | inr p ↦ rw (s.known, s.present, p) refl
      ]

  -- a row of some session takes the place of the worker's, or of another's
  replaced :
      (t : Tables) (id : String) (r : Row)
      → IsSuperseded t
      → (str_eq id old.id ≡ true
          → (uuid_text r.session_id ≡ r.session_id) × (r.session_id ≢ uuid_text old.session_id))
      → IsSuperseded (put_row t id r)
  unfolding put_row
  replaced t id r s right = elim (Bool-cases (str_eq id old.id)) [
    | inl p ↦ record {
      owner = s.owner;
      known = s.known;
      row = r;
      present = lookup-insert id old.id r t.instances ∙ rw p refl;
      in_text = (right p).0;
      apart = (right p).1;
    }
    | inr p ↦ record {
      owner = s.owner;
      known = s.known;
      row = s.row;
      present = lookup-insert id old.id r t.instances ∙ rw p s.present;
      in_text = s.in_text;
      apart = s.apart;
    }
  ]

  beaten :
      (now : ℕ) (t : Tables) (v : Snapshot) (o : Option Row)
      → IsSuperseded t
      → lookup v.id t.instances ≡ o
      → IsSuperseded (settle t (beat_found uuid_text now t v o))
  unfolding beat_found
  beaten now t v none s e = s
  beaten now t v (some row) s e =
      if_cases (λ o. IsSuperseded (settle t o))
        (not (str_eq row.session_id (uuid_text v.session_id))) (λ _. s)
        (λ _.
          if_cases (λ o. IsSuperseded (settle t o)) (not (less row.sequence v.sequence)) (λ _. s)
            (λ _. replaced t v.id _ s (λ q.
              let same : v.id ≡ old.id = (eq_iff v.id old.id).0 q in
              let mine : some row ≡ some s.row =
                sym e ∙ ap (λ k. lookup k t.instances) same ∙ s.present in
              let row_is : row.session_id ≡ s.row.session_id = ap (session_or s.row) mine in
              (ap uuid_text row_is ∙ s.in_text ∙ sym row_is, (λ x. s.apart (sym row_is ∙ x))))))
    where
      session_or : Row → Option Row → String
      session_or d none = d.session_id
      session_or d (some r) = r.session_id

  -- a session that is known already changes nothing
  known_session-same :
      (now : ℕ) (t : Tables) (v : Snapshot) (owner : String) (o : Option Row)
      → settle t (known_session uuid_text now t v owner o) ≡ t
  unfolding known_session
  known_session-same now t v owner none =
      if_cases (λ o. settle t o ≡ t) (not (str_eq owner v.id)) (λ _. refl) (λ _. refl)
  known_session-same now t v owner (some row) =
      if_cases (λ o. settle t o ≡ t) (not (str_eq owner v.id)) (λ _. refl)
        (λ _.
          if_cases (λ o. settle t o ≡ t) (not (str_eq row.session_id v.session_id)) (λ _. refl)
            (λ _. refl))

  -- a session that the tables do not know is another one
  registered :
      (now : ℕ) (t : Tables) (v : Snapshot)
      → ((x : String) → uuid_text (uuid_text x) ≡ uuid_text x)
      → IsSuperseded t
      → lookup (uuid_text v.session_id) t.sessions ≡ none
      → IsSuperseded (new_session uuid_text now t v)
  unfolding new_session put_row
  registered now t v text s fresh =
      let other : uuid_text v.session_id ≢ uuid_text old.session_id =
        λ e. cc (fresh, s.known, ap (λ k. lookup k t.sessions) e) in
      let apart = differ (uuid_text v.session_id) (uuid_text old.session_id) other in
      let placed =
        replaced t v.id
          (record {
            session_id = uuid_text v.session_id;
            sequence = pos 0;
            snapshot = v;
            registered_at = now;
            received_at = now;
          })
          s (λ q. (text v.session_id, other)) in
      record {
        owner = s.owner;
        known =
            lookup-insert (uuid_text v.session_id) (uuid_text old.session_id) v.id t.sessions
            ∙ rw apart s.known;
        row = placed.row;
        present = placed.present;
        in_text = placed.in_text;
        apart = placed.apart;
      }

  step-IsSuperseded :
      (c : Call) (t : Tables)
      → ((x : String) → uuid_text (uuid_text x) ≡ uuid_text x)
      → IsSuperseded t
      → IsSuperseded (settle t (report uuid_text c.at t c.snapshot c.registers))
  unfolding report register_found
  step-IsSuperseded c t text s = by c.registers
    where
      found :
          (o : Option String)
          → lookup (uuid_text c.snapshot.session_id) t.sessions ≡ o
          → IsSuperseded (settle t (register_found uuid_text c.at t c.snapshot o))
      found none e = registered c.at t c.snapshot text s e
      found (some owner) e =
          subst IsSuperseded
            (sym (known_session-same c.at t c.snapshot owner (lookup c.snapshot.id t.instances))) s

      by : (b : Bool) → IsSuperseded (settle t (report uuid_text c.at t c.snapshot b))
      by false = beaten c.at t c.snapshot (lookup c.snapshot.id t.instances) s refl
      by true = found (lookup (uuid_text c.snapshot.session_id) t.sessions) refl

  run-IsSuperseded :
      (cs : List Call) (t : Tables)
      → ((x : String) → uuid_text (uuid_text x) ≡ uuid_text x)
      → IsSuperseded t
      → IsSuperseded (run uuid_text cs t)
  unfolding run
  run-IsSuperseded [] t text s = s
  run-IsSuperseded (c ∷ cs) t text s =
      run-IsSuperseded cs (settle t (report uuid_text c.at t c.snapshot c.registers)) text
        (step-IsSuperseded c t text s)

  -- Where a worker's report registers a session that the tables do not know, then after any further
  -- reports of any workers, heartbeats and registrations, every report of this worker under a session
  -- that the tables knew before, a heartbeat or a registration, is a conflict. It is assumed that the
  -- text form of a uuid is its own text form.
  pub report-superseded :
      (now : ℕ) (t after : Tables) (new : Snapshot) (owner : String) (cs : List Call) (later : ℕ)
      (registers : Bool)
      → ((x : String) → uuid_text (uuid_text x) ≡ uuid_text x)
      → report uuid_text now t new true ≡ accepted after
      → lookup (uuid_text new.session_id) t.sessions ≡ none
      → lookup (uuid_text old.session_id) t.sessions ≡ some owner
      → old.id ≡ new.id
      → report uuid_text later (run uuid_text cs after) old registers ≡ conflict
  unfolding report register_found new_session
  report-superseded now t after new owner cs later registers text done fresh known worker =
      let other : uuid_text new.session_id ≢ uuid_text old.session_id =
        λ e. cc (fresh, known, ap (λ k. lookup k t.sessions) e) in
      let apart = differ (uuid_text new.session_id) (uuid_text old.session_id) other in
      let made : accepted (new_session uuid_text now t new) ≡ accepted after = rw fresh at done in
      let begun : IsSuperseded (new_session uuid_text now t new) = record {
        owner = owner;
        known =
            lookup-insert (uuid_text new.session_id) (uuid_text old.session_id) new.id t.sessions
            ∙ rw apart known;
        row = record {
          session_id = uuid_text new.session_id;
          sequence = pos 0;
          snapshot = new;
          registered_at = now;
          received_at = now;
        };
        present = rw worker (lookup-insert_self new.id _ t.instances);
        in_text = text new.session_id;
        apart = other;
      } in
      conflicts (run uuid_text cs after)
        (run-IsSuperseded cs after text (subst (λ o. IsSuperseded (settle t o)) made begun)) later
        registers
