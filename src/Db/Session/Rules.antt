-- ===== src/Db/Session/Rules.antt =====
-- How to prove a property of the outcome of an action, one rule for each way to build one.
use atlascore.Base.{Bool, true, false, ◌≡◌, refl, Result, ok, err, Error, if◌then◌else◌, ap, is_ok}
use atlascore.Db.Session.{
  Session, Tables, Action, lift, insert, rollback, handle, raise_if, ◌>>=◌, ◌>>◌,
}

module _ {A B : Type 0} (Q : Result B × Session → Type 0) where
  continue_rule :
      (r : Result A) (s : Session) (f : A → Action B)
      → ((e : Error) → r ≡ err e → Q (err e, s))
      → ((a : A) → r ≡ ok a → Q (f a s))
      → Q ((lift r >>= f) s)
  continue_rule (ok a) s f fails goes = goes a refl
  continue_rule (err e) s f fails goes = fails e refl

  pub bind_rule :
      (m : Action A) (f : A → Action B) (s : Session)
      → ((e : Error) → (m s).0 ≡ err e → Q (err e, (m s).1))
      → ((a : A) → (m s).0 ≡ ok a → Q (f a (m s).1))
      → Q ((m >>= f) s)
  bind_rule m f s fails goes = continue_rule (m s).0 (m s).1 f fails goes

module _ {B : Type 0} (Q : Result B × Session → Type 0) where
  pub raise_if_rule :
      (c : Bool) (e : Error) (k : Action B) (s : Session)
      → (c ≡ true → Q (err e, s))
      → (c ≡ false → Q (k s))
      → Q ((raise_if c e >> k) s)
  raise_if_rule true e k s fails goes = fails refl
  raise_if_rule false e k s fails goes = goes refl

module _ (Q : Result (Unit {0}) × Session → Type 0) where
  pub insert_rule :
      (allowed conflict : Bool) (add : Tables → Tables) (s : Session)
      → (allowed ≡ false → Q (err Error.rls_violation, rollback s))
      → (allowed ≡ true → conflict ≡ true → Q (err Error.integrity_error, rollback s))
      → (allowed ≡ true → conflict ≡ false → Q (ok tt, record s { db = add s.db }))
      → Q (insert allowed conflict add s)
  unfolding insert
  insert_rule true true add s a b c = b refl refl
  insert_rule true false add s a b c = c refl refl
  insert_rule false conflict add s a b c = a refl

module _ {ℓ} {A : Type ℓ} (Q : A → Type 0) where
  pub if_rule : (b : Bool) (x y : A) → (b ≡ true → Q x) → (b ≡ false → Q y) → Q (if b then x else y)
  if_rule true x y p q = p refl
  if_rule false x y p q = q refl

module _ {A B : Type 0} (m : Action A) (f : A → Action B) (s : Session) where
  pub bind-ok : (a : A) (s' : Session) → m s ≡ (ok a, s') → (m >>= f) s ≡ f a s'
  bind-ok a s' h = ap (λ (o : Result A × Session). ◌>>=◌ (λ _. o) f s) h

  pub bind-err : (e : Error) (s' : Session) → m s ≡ (err e, s') → (m >>= f) s ≡ (err e, s')
  bind-err e s' h = ap (λ (o : Result A × Session). ◌>>=◌ (λ _. o) f s) h

module _ {A : Type 0} (m : Action A) (handler : Error → Action A) (s : Session) where
  pub handle-ok : (a : A) (s' : Session) → m s ≡ (ok a, s') → handle m handler s ≡ (ok a, s')
  handle-ok a s' h = ap (λ (o : Result A × Session). handle (λ _. o) handler s) h

  pub handle-err :
      (e : Error) (s' : Session) → m s ≡ (err e, s') → handle m handler s ≡ handler e s'
  handle-err e s' h = ap (λ (o : Result A × Session). handle (λ _. o) handler s) h

pub insert-ok :
    (allowed conflict : Bool) (add : Tables → Tables) (s : Session)
    → allowed ≡ true
    → conflict ≡ false
    → insert allowed conflict add s ≡ (ok tt, record s { db = add s.db })
unfolding insert
insert-ok allowed conflict add s p q = rw p (rw q)

pub insert-conflict :
    (allowed conflict : Bool) (add : Tables → Tables) (s : Session)
    → allowed ≡ true
    → conflict ≡ true
    → insert allowed conflict add s ≡ (err Error.integrity_error, rollback s)
unfolding insert
insert-conflict allowed conflict add s p q = rw p (rw q)

module _ {A B : Type 0} (m : Action A) (f : A → Action B) (s : Session) where
  -- What follows an action runs on what it returns, in the session that it leaves.
  pub bind_after : (a : A) → (m s).0 ≡ ok a → (m >>= f) s ≡ f a (m s).1
  bind_after a h = ap (λ (r : Result A). (lift r >>= f) (m s).1) h

  pub bind_fails : (e : Error) → (m s).0 ≡ err e → is_ok ((m >>= f) s).0 ≡ false
  bind_fails e h = ap (λ (r : Result A). is_ok ((lift r >>= f) (m s).1).0) h
