-- ===== src/Auth/Granted.antt =====
-- A token that was signed is verified, and the tools' token stands for the session that it was made of.
use fgvcplateform_public.Base.{
  ℕ, ◌+◌, ◌*◌, ◌≤◌, ◌<◌, ◌≡◌, refl, subst, String, true, false, ◌&&◌, ◌||◌, Option, none, some,
  List, [], ◌∷◌, str_eq, eq_iff, arith, Bool-cases, inl, inr, ltb, leb, byte_len, length, is_empty,
  ◌==◌,
}
use fgvcplateform_public.Base.Assoc.{lookup}
use fgvcplateform_public.Base.Paths.{split_on, join_on, has_rune, has_prefix, contains}
use fgvcplateform_public.Base.Splits.{split_on-join_on}
use fgvcplateform_public.Auth.{
  Account, SessionRow, Session, Store, credentials, Result, ok, err, is_active,
}
use fgvcplateform_public.Auth.Passwords.{same_bytes_refl}
use fgvcplateform_public.Auth.Accounts.{minute, joined, session_of, find_session}
use fgvcplateform_public.Auth.Delegation.{
  Claims, Codec, unix, sign, is_current, verify_pieces, verify, identity_claims, grant_claims,
  both_tokens, agent_assertions, agent_session,
}

module _ (codec : Codec) where
  -- What base64 and JSON promise of these claims and their signature.
  pub record IsCarried (key : List ℕ) (c : Claims) : Type 0 where
    pub payload : codec.decode (codec.encode (codec.marshal c)) ≡ some (codec.marshal c)
    pub no_dot : has_rune b'.' (codec.encode (codec.marshal c)) ≡ false
    pub signature :
        let m = codec.mac key (codec.encode (codec.marshal c)) in
        codec.decode (codec.encode m) ≡ some m
    pub no_dot_in_signature :
        has_rune b'.' (codec.encode (codec.mac key (codec.encode (codec.marshal c)))) ≡ false
    pub read_back : codec.unmarshal (codec.marshal c) ≡ some c

  pieces :
      (key : List ℕ) (c : Claims) (now : ℕ)
      → IsCarried key c
      → is_current codec now c ≡ true
      → verify_pieces codec key now (
          split_on b'.' (
            join_on "." (
              codec.encode (codec.marshal c)
              ∷ codec.encode (codec.mac key (codec.encode (codec.marshal c)))
              ∷ [])))
        ≡ some c
  unfolding verify_pieces
  pieces key c now k t =
      rw
        (
          split_on-join_on "." (codec.encode (codec.marshal c))
              (codec.encode (codec.mac key (codec.encode (codec.marshal c))) ∷ [])
              (k.no_dot, (k.no_dot_in_signature, tt)),
          k.signature,
          same_bytes_refl (codec.mac key (codec.encode (codec.marshal c))),
          k.payload,
          k.read_back,
          t,
        )
        refl

  -- If base64 and JSON carry the claims, the token has at most 2048 bytes, and the claims are in order
  -- and neither expired nor more than twelve hours ahead, then Verify with the key that signed a token
  -- gives the claims back.
  pub verify-sign :
      (key : List ℕ) (c : Claims) (token : String) (now : ℕ)
      → IsCarried key c
      → byte_len token ≤ 2048
      → is_current codec now c ≡ true
      → sign codec key c ≡ some token
      → verify codec key token now ≡ some c
  unfolding sign verify
  verify-sign key c token now k size t h =
      elim (Bool-cases (ltb (length key) 32 || is_empty c.actor || is_empty c.session)) [
        | inl p ↦ let x = rw p at h in absurd (cc x)
        | inr p ↦
            let long : ltb (length key) 32 ≡ false = ground (arith, p) in
            let short : ltb 2048 (byte_len token) ≡ false = ground (arith, size) in
            let made : some _ ≡ some token = rw p at h in
            rw (long, short)
              (subst (λ o. verify_pieces codec key now (split_on b'.' (text_or o)) ≡ some c) made
                (pieces key c now k t))
      ]
    where
      text_or : Option String → String
      text_or none = ""
      text_or (some x) = x

  -- What agentSession answers to the tools' token: the session, but never for an approval.
  pub record IsUsable (t : ℕ) (key : List ℕ) (path token : String) (x : Session) (s : Store)
      : Type 0 where
    pub tools : contains path "/approvals/" ≡ false → agent_session codec t key path token s ≡ ok x
    pub approvals :
        contains path "/approvals/" ≡ true
        → agent_session codec t key path token s ≡ err credentials

  -- a session that is found belongs to an active account
  joined-active :
      (t : ℕ) (row : SessionRow) (o : Option Account) (x : Session)
      → joined t row o ≡ ok x
      → is_active x.user.status ≡ true
  joined-active t row none x h = absurd (cc h)
  joined-active t row (some a) x h =
      elim (Bool-cases (ltb t row.expires_at && is_active a.user.status)) [
        | inl p ↦
            let mine : Session = record {
              user_id = row.user_id;
              user = a.user;
              csrf_token = row.csrf_token;
            } in
            let same : ok mine ≡ ok x = rw p at h in
            let active : is_active a.user.status ≡ true = ground (arith, p) in
            subst (λ (o : Result Session). is_active (session_or mine o).user.status ≡ true) same
              active
        | inr p ↦ let e = rw p at h in absurd (cc e)
      ]
    where
      session_or : Session → Result Session → Session
      session_or d (err e) = d
      session_or d (ok y) = y

  session-active :
      (t : ℕ) (hash : String) (x : Session) (s : Store)
      → find_session t hash s ≡ ok x
      → is_active x.user.status ≡ true
  unfolding find_session
  session-active t hash x s h = found (lookup hash s.sessions) h
    where
      found : (o : Option SessionRow) → session_of t o s ≡ ok x → is_active x.user.status ≡ true
      found none e = absurd (cc e)
      found (some row) e = joined-active t row (lookup row.user_id s.users) x e

  granted :
      (now t : ℕ) (id role hash : String)
      → is_empty id ≡ false
      → byte_len (codec.to_hex hash) ≡ 64
      → now ≤ t
      → unix t < unix (now + 30 * minute)
      → is_current codec t (grant_claims codec now id role hash) ≡ true
  granted now t id role hash named size later early =
      let ahead : unix (now + 30 * minute) ≤ unix (t + 12 * 60 * minute) = omega (arith, later) in
      let full : (byte_len (codec.to_hex hash) == 64) ≡ true = ground (arith, size) in
      let past : leb (unix (now + 30 * minute)) (unix t) ≡ false = ground (arith, early) in
      let far : ltb (unix (t + 12 * 60 * minute)) (unix (now + 30 * minute)) ≡ false =
        ground (arith, ahead) in
      rw (named, full, past, far) refl

  -- If AgentAssertions made the tools' token `grant` for a user and the hash of a secret, base64, JSON
  -- and hex carry what is in it, and the hash still gives a session of that user, then for half an
  -- hour agentSession answers the token with that session, and refuses it on a path of approvals.
  pub agent_session-agent_assertions :
      (now t : ℕ) (key : List ℕ) (id role hash path identity grant : String) (x : Session)
      (s : Store)
      → is_empty id ≡ false
      → byte_len (codec.to_hex hash) ≡ 64
      → codec.of_hex (codec.to_hex hash) ≡ some hash
      → IsCarried key (grant_claims codec now id role hash)
      → byte_len grant ≤ 2048
      → agent_assertions codec now key (some (id, role)) hash ≡ some (identity, grant)
      → now ≤ t
      → unix t < unix (now + 30 * minute)
      → has_prefix path "/api/agent-tools/" ≡ true
      → find_session t hash s ≡ ok x
      → x.user_id ≡ id
      → IsUsable t key path grant x s
  unfolding agent_session agent_assertions
  agent_session-agent_assertions now t key id role hash path identity grant x s named size hex
        carried short made later early inside found mine =
      let c = grant_claims codec now id role hash in
      let verified =
        verify-sign key c grant t carried short (granted now t id role hash named size later early)
          (second_token (sign codec key (identity_claims codec now id role hash)) (sign codec key c)
            identity grant made) in
      let same : str_eq x.user_id id ≡ true = (eq_iff x.user_id id).1 mine in
      let active = session-active t hash x s found in
      record {
        tools = λ p. rw (inside, verified, p, hex, found, same, active) refl;
        approvals = λ p. rw (inside, verified, p) refl;
      }
    where
      second_token :
          (i g : Option String) (identity grant : String)
          → both_tokens codec i g ≡ some (identity, grant)
          → g ≡ some grant
      second_token none g identity grant h = absurd (cc h)
      second_token (some i) none identity grant h = absurd (cc h)
      second_token (some i) (some g) identity grant h = cc h
