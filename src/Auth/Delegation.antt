-- ===== src/Auth/Delegation.antt =====
-- agent/api/delegation/delegation.go: Claims, Sign, Verify; auth/agent_delegation.go:
-- AgentAssertions, agentSession. Bytes are numbers. HMAC-SHA-256, base64, JSON and hex are arguments;
-- Expires counts seconds from the zero of the clock. A secret is the cookie's.
use fgvcplateform_public.Base.{
  ℕ, ◌+◌, ◌*◌, ◌/◌, String, Bool, not, ◌&&◌, ◌||◌, Option, none, some, List, [], ◌∷◌, str_eq,
  if◌then◌else◌, ltb, leb, byte_len, length, is_empty, ◌==◌,
}
use fgvcplateform_public.Base.Paths.{split_on, join_on, has_prefix, contains}
use fgvcplateform_public.Auth.{Session, Store, credentials, Result, ok, err, is_active}
use fgvcplateform_public.Auth.Passwords.{same_bytes}
use fgvcplateform_public.Auth.Accounts.{minute, find_session}

pub record Claims : Type 0 where
  pub actor : String
  pub role : String
  pub session : String
  pub purpose : String
  pub expires : ℕ

-- t.Unix()
abbrev pub unix : ℕ → ℕ
unix t = t / 1_000_000_000

-- The encodings of third parties.
pub record Codec : Type 0 where
  pub mac : List ℕ → String → List ℕ
  pub encode : List ℕ → String
  pub decode : String → Option (List ℕ)
  pub marshal : Claims → List ℕ
  pub unmarshal : List ℕ → Option Claims
  pub to_hex : String → String
  pub of_hex : String → Option String

module _ (codec : Codec) where
  unfoldable pub sign : List ℕ → Claims → Option String
  sign key c =
      let payload = codec.encode (codec.marshal c) in
      if ltb (length key) 32 || is_empty c.actor || is_empty c.session
      then none
      else some (join_on "." (payload ∷ codec.encode (codec.mac key payload) ∷ []))

  abbrev pub is_purpose : String → Bool
  is_purpose p = str_eq p "interactive" || str_eq p "tools"

  abbrev pub is_current : ℕ → Claims → Bool
  is_current now c =
      not (is_empty c.actor)
      && byte_len c.session == 64
      && not (leb c.expires (unix now))
      && not (ltb (unix (now + 12 * 60 * minute)) c.expires)
      && is_purpose c.purpose

  abbrev pub verify_claims : ℕ → Option Claims → Option Claims
  verify_claims now none = none
  verify_claims now (some c) = if is_current now c then some c else none

  abbrev pub verify_payload : ℕ → Option (List ℕ) → Option Claims
  verify_payload now none = none
  verify_payload now (some b) = verify_claims now (codec.unmarshal b)

  abbrev pub verify_signature : List ℕ → ℕ → String → Option (List ℕ) → Option Claims
  verify_signature key now payload none = none
  verify_signature key now payload (some sig) =
      if not (same_bytes sig (codec.mac key payload))
      then none
      else verify_payload now (codec.decode payload)

  -- exactly two parts
  unfoldable pub verify_pieces : List ℕ → ℕ → List String → Option Claims
  verify_pieces key now (payload ∷ signature ∷ []) =
      verify_signature key now payload (codec.decode signature)
  verify_pieces key now _ = none

  unfoldable pub verify : List ℕ → String → ℕ → Option Claims
  verify key token now =
      if ltb (length key) 32 || ltb 2048 (byte_len token)
      then none
      else verify_pieces key now (split_on b'.' token)

  -- the claims of the two tokens: for the browser's own calls, and for the tools of a run
  abbrev pub identity_claims : ℕ → String → String → String → Claims
  identity_claims now id role hash = record {
    actor = id;
    role = role;
    session = codec.to_hex hash;
    purpose = "interactive";
    expires = unix (now + 2 * minute);
  }

  abbrev pub grant_claims : ℕ → String → String → String → Claims
  grant_claims now id role hash = record {
    actor = id;
    role = role;
    session = codec.to_hex hash;
    purpose = "tools";
    expires = unix (now + 30 * minute);
  }

  abbrev pub both_tokens : Option String → Option String → Option (String × String)
  both_tokens none g = none
  both_tokens (some i) none = none
  both_tokens (some i) (some g) = some (i, g)

  -- the user of the context, by id and role, and the hash of the secret
  unfoldable pub agent_assertions :
      ℕ → List ℕ → Option (String × String) → String → Option (String × String)
  agent_assertions now key none hash = none
  agent_assertions now key (some (id, role)) hash =
      both_tokens (sign key (identity_claims now id role hash))
        (sign key (grant_claims now id role hash))

  abbrev pub session_for : String → Result Session → Result Session
  session_for actor (err e) = err e
  session_for actor (ok x) =
      if not (str_eq x.user_id actor) || not (is_active x.user.status)
      then err credentials
      else ok x

  abbrev pub claimed_session : ℕ → String → Option String → Store → Result Session
  claimed_session now actor none s = err credentials
  claimed_session now actor (some hash) s = session_for actor (find_session now hash s)

  abbrev pub delegated_session : ℕ → String → Option Claims → Store → Result Session
  delegated_session now path none s = err credentials
  delegated_session now path (some c) s =
      if contains path "/approvals/" && not (str_eq c.purpose "interactive")
      then err credentials
      else claimed_session now c.actor (codec.of_hex c.session) s

  unfoldable pub agent_session : ℕ → List ℕ → String → String → Store → Result Session
  agent_session now key path token s =
      if not (has_prefix path "/api/agent-tools/")
      then err credentials
      else delegated_session now path (verify key token now) s
