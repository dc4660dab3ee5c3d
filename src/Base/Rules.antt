-- ===== src/Base/Rules.antt =====
-- Methods that keep a predicate of the state, whatever they return, and the ways to build one.
use never_fox.Base.Outcome.{
  Res, ok, err, panic, Method, ◌>>=◌, branch, match_option, get, lift, modify, put,
}
use mathlib.Core.Path.{◌≡◌, refl, sym, ap, subst}
use mathlib.Core.Bool.{Bool, true, false}
use mathlib.Core.Option.{Option, none, some}

pub record Keeps {S E R : Type 0} (P : S → Type 0) (m : Method S E R) : Type 0 where
  pub kept : (s : S) → P s → P (m s).1

module _ {S E : Type 0} {P : S → Type 0} where
  pub Keeps-bind :
      {R Q : Type 0} (f : R → Method S E Q) (x : Res E R × S)
      → P x.1
      → ((r : R) → Keeps P (f r))
      → P (((λ _. x) >>= f) x.1).1
  Keeps-bind f (ok r, s) h k = (k r).kept s h
  Keeps-bind f (err e, s) h k = h
  Keeps-bind f (panic, s) h k = h

  infixl 4 ◌then_keeps◌
  pub ◌then_keeps◌ :
      {R Q : Type 0} {m : Method S E R} {f : R → Method S E Q}
      → Keeps P m
      → ((r : R) → Keeps P (f r))
      → Keeps P (m >>= f)
  first then_keeps rest = record { kept = λ s h. Keeps-bind _ _ (first.kept s h) rest }

  pub Keeps-same : {R : Type 0} (m : Method S E R) → ((s : S) → (m s).1 ≡ s) → Keeps P m
  Keeps-same m same = record { kept = λ s h. subst P (sym (same s)) h }

  pub Keeps-branch :
      {R : Type 0} {m k : Method S E R} (b : Bool) → Keeps P m → Keeps P k → Keeps P (branch b m k)
  Keeps-branch true m k = record { kept = λ s h. m.kept s h }
  Keeps-branch false m k = record { kept = λ s h. k.kept s h }

  pub Keeps-match_option :
      {A R : Type 0} {m : Method S E R} {f : A → Method S E R} (o : Option A)
      → Keeps P m
      → ((a : A) → Keeps P (f a))
      → Keeps P (match_option o m f)
  Keeps-match_option none m f = record { kept = λ s h. m.kept s h }
  Keeps-match_option (some a) m f = record { kept = λ s h. (f a).kept s h }

  pub Keeps-run :
      {R : Type 0} {m : Method S E R} {x : Res E R} {s t : S} → Keeps P m → m s ≡ (x, t) → P s → P t
  Keeps-run k e h = subst P (ap (λ r. r.1) e) (k.kept _ h)

  -- What is read of the state, and what was tested before, is known afterwards.
  pub Keeps-get :
      {Q : Type 0} {f : S → Method S E Q} → ((s : S) → P s → Keeps P (f s)) → Keeps P (get >>= f)
  Keeps-get rest = record { kept = λ s h. (rest s h).kept s h }

  pub Keeps-lift :
      {R Q : Type 0} (r : Res E R) {f : R → Method S E Q}
      → ((a : R) → r ≡ ok a → Keeps P (f a))
      → Keeps P (lift r >>= f)
  Keeps-lift (ok a) rest = record { kept = λ s h. (rest a refl).kept s h }
  Keeps-lift (err e) rest = record { kept = λ s h. h }
  Keeps-lift panic rest = record { kept = λ s h. h }

  pub Keeps-modify : (g : S → S) → ((s : S) → P s → P (g s)) → Keeps {E = E} P (modify g)
  Keeps-modify g keeps = record { kept = keeps }

  pub Keeps-put : (t : S) → P t → Keeps {E = E} P (put t)
  Keeps-put t h = record { kept = λ _ _. h }
