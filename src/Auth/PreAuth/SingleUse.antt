-- ===== src/Auth/PreAuth/SingleUse.antt =====
-- A pre-authentication session is consumed at most once, under any interleaving of requests.
use atlascore.Base.{
  ℕ, ◌≡◌, ◌≤◌, refl, Bool, true, false, List, [], ◌∷◌, arith, String, ap, some, none, inl, inr, ok,
  err, Error, ltb, is_none, ◌∙◌, Bool-cases, str_eq,
}
use atlascore.Platform.{Platform}
use atlascore.Db.Models.{PreAuthSession}
use atlascore.Db.Table.{update, exists, count, Has}
use atlascore.Db.Table.Rows.{exists_of_Has, one_or_none_of_Has}
use atlascore.Db.Session.{Session, pure}
use atlascore.Db.Session.Rules.{bind-ok, bind-err}
use atlascore.Auth.PreAuth.{
  PreAuthSessionService, hash, find_session, unconsumed, consumed, claim, check_session, look_up,
  claim_found, consume,
}

exists-update_none :
    (id now : ℕ) (rows : List PreAuthSession)
    → exists (unconsumed id) (update (unconsumed id) (consumed now) rows) ≡ false
unfolding exists update
exists-update_none id now [] = refl
exists-update_none id now (r ∷ rows) = ground (arith, exists-update_none id now rows)

claim-rows :
    (pas : PreAuthSession) (now : ℕ) (s : Session)
    → (claim pas now s).0 ≡ ok (consumed now pas)
    → (claim pas now s).1.db.pre_auth_sessions
      ≡ update (unconsumed pas.id) (consumed now) s.db.pre_auth_sessions
unfolding claim
claim-rows pas now s won = elim (Bool-cases (exists (unconsumed pas.id) s.db.pre_auth_sessions)) [
  | inl here ↦ rw here
  | inr gone ↦ cc (rw gone at won)
]

claim-lost :
    (pas : PreAuthSession) (now : ℕ) (s : Session)
    → exists (unconsumed pas.id) s.db.pre_auth_sessions ≡ false
    → claim pas now s ≡ (err (Error.pre_auth_session_reuse pas.id pas.user_id), s)
unfolding claim
claim-lost pas now s gone = rw gone

-- Once a request has claimed a session, every later claim of it raises the reuse error, also that
-- of a request that had looked the session up before: of two requests that race, one wins.
pub claim_once :
    (pas pas' : PreAuthSession) (now now' : ℕ) (s t : Session)
    → pas'.id ≡ pas.id
    → (claim pas now s).0 ≡ ok (consumed now pas)
    → t.db.pre_auth_sessions ≡ (claim pas now s).1.db.pre_auth_sessions
    → claim pas' now' t ≡ (err (Error.pre_auth_session_reuse pas'.id pas'.user_id), t)
claim_once pas pas' now now' s t same won sees = claim-lost pas' now' t (
    ap (λ x. exists (unconsumed x) t.db.pre_auth_sessions) same
    ∙ ap (exists (unconsumed pas.id)) (sees ∙ claim-rows pas now s won)
    ∙ exists-update_none pas.id now s.db.pre_auth_sessions)

claim-won :
    (pas : PreAuthSession) (now : ℕ) (s : Session)
    → exists (unconsumed pas.id) s.db.pre_auth_sessions ≡ true
    → claim pas now s ≡ (
      ok (consumed now pas),
      record s {
        db = record s.db {
          pre_auth_sessions = update (unconsumed pas.id) (consumed now) s.db.pre_auth_sessions;
        };
      },
    )
unfolding claim
claim-won pas now s here = rw here

check_session-live :
    (pas : PreAuthSession) (now : ℕ) (s : Session)
    → pas.consumed_at ≡ none
    → now ≤ pas.expires_at
    → check_session (some pas) now s ≡ (ok (some pas), s)
unfolding check_session
check_session-live pas now s unused live =
    let in_time : ltb pas.expires_at now ≡ false = ground arith in rw unused (rw in_time)

check_session-used :
    (pas : PreAuthSession) (now : ℕ) (s : Session)
    → is_none pas.consumed_at ≡ false
    → check_session (some pas) now s ≡ (err (Error.pre_auth_session_reuse pas.id pas.user_id), s)
unfolding check_session
check_session-used pas now s used = rw used

module _ (py : Platform) (self : PreAuthSessionService) (raw : String) (pas : PreAuthSession) where
  abbrev same_hash : PreAuthSession → Bool
  same_hash r = str_eq r.token_hash (hash py self raw)

  -- The row of the presented token, which no other row shares its hash with.
  pub record IsRow (rows : List PreAuthSession) : Type 0 where
    pub fits : same_hash pas ≡ true
    pub stands : Has pas rows
    pub alone : count same_hash rows ≤ 1

  find_session-IsRow :
      (s : Session)
      → IsRow s.db.pre_auth_sessions
      → find_session (hash py self raw) s ≡ (ok (some pas), s)
  unfolding find_session
  find_session-IsRow s r =
      ap (λ x. (x, s))
        (one_or_none_of_Has same_hash pas s.db.pre_auth_sessions r.stands r.fits r.alone)

  -- The session of a token whose hash no other row has, neither consumed nor expired, is consumed:
  -- the call returns its row, marked, marks it in the table, and changes nothing else.
  pub consume-live :
      (now : ℕ) (s : Session)
      → IsRow s.db.pre_auth_sessions
      → pas.consumed_at ≡ none
      → now ≤ pas.expires_at
      → consume py self raw now s ≡ (
        ok (some (consumed now pas)),
        record s {
          db = record s.db {
            pre_auth_sessions = update (unconsumed pas.id) (consumed now) s.db.pre_auth_sessions;
          };
        },
      )
  unfolding consume look_up claim_found
  consume-live now s r fresh live =
      bind-ok (look_up py self raw now) (claim_found now) s (some pas) s looked
      ∙ bind-ok (claim pas now) (λ c. pure (some c)) s (consumed now pas) _
          (claim-won pas now s
            (exists_of_Has (unconsumed pas.id) pas s.db.pre_auth_sessions r.stands (ground arith)))
    where
      looked : look_up py self raw now s ≡ (ok (some pas), s)
      looked =
          bind-ok (find_session (hash py self raw)) (λ f. check_session f now) s (some pas) s
            (find_session-IsRow s r)
          ∙ check_session-live pas now s fresh live

  -- Where the session of the token, whose hash no other row has, is consumed, the call raises the
  -- reuse error with the session and its user, and nothing changes.
  pub consume-replayed :
      (now : ℕ) (s : Session)
      → IsRow s.db.pre_auth_sessions
      → is_none pas.consumed_at ≡ false
      → consume py self raw now s ≡ (err (Error.pre_auth_session_reuse pas.id pas.user_id), s)
  unfolding consume look_up
  consume-replayed now s r used = bind-err (look_up py self raw now) (claim_found now) s _ s (
      bind-ok (find_session (hash py self raw)) (λ f. check_session f now) s (some pas) s
        (find_session-IsRow s r)
      ∙ check_session-used pas now s used)
