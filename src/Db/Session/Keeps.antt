-- ===== src/Db/Session/Keeps.antt =====
-- Actions that keep a property of the session whatever they return, one rule for each way to build
-- one.
use atlascore.Base.{Bool, Result, ok, err, Error}
use atlascore.Db.Session.{Session, Action, pure, raise_if, ◌>>=◌, ◌>>◌}

pub record Keeps (P : Session → Type 0) {A : Type 0} (m : Action A) : Type 0 where
  pub keep : (s : Session) → P s → P (m s).1

module _ {P : Session → Type 0} where
  module _ {A B : Type 0} where
    keep_continue :
        (f : A → Action B) (r : Result A) (s : Session)
        → ((a : A) → Keeps P (f a))
        → P s
        → P (((λ _. (r, s)) >>= f) s).1
    keep_continue f (ok a) s h p = (h a).keep s p
    keep_continue f (err e) s h p = p

    pub Keeps-bind :
        {m : Action A} {f : A → Action B}
        → Keeps P m
        → ((a : A) → Keeps P (f a))
        → Keeps P (m >>= f)
    Keeps-bind {m} {f} h k = record { keep = λ s p. keep_continue f (m s).0 (m s).1 k (h.keep s p) }

    pub Keeps-then : {m : Action A} {k : Action B} → Keeps P m → Keeps P k → Keeps P (m >> k)
    Keeps-then h k = Keeps-bind h (λ _. k)

  -- An action that reads the session only.
  pub Keeps-gets : {A : Type 0} (f : Session → Result A) → Keeps P (λ s. (f s, s))
  Keeps-gets f = record { keep = λ s p. p }

  pub Keeps-raise_if : (c : Bool) (e : Error) → Keeps P (raise_if c e)
  Keeps-raise_if c e = record { keep = λ s p. p }

  pub Keeps-pure : {A : Type 0} {a : A} → Keeps P (pure a)
  Keeps-pure = record { keep = λ s p. p }
