-- ===== src/Base/Outcome.antt =====
-- Rust's `Result` with a third outcome for a panic, and methods that take `&mut self`: the state
-- reached so far comes back after an error too, since what was written stays written.
use mathlib.Core.Path.{◌≡◌, refl}
use mathlib.Core.Bool.{Bool, true, false}
use mathlib.Core.Option.{Option, none, some}
use mathlib.Core.Logic.{◌⊎◌, inl, inr}

pub data Res (E A : Type 0) : Type 0 where
  ok : A → Res E A
  err : E → Res E A
  panic : Res E A

-- `r?` followed by the rest, where no state is at hand.
abbrev pub and_then : {E A B : Type 0} → Res E A → (A → Res E B) → Res E B
and_then (ok a) f = f a
and_then (err e) f = err e
and_then panic f = panic

abbrev pub map_err : {E F A : Type 0} → (E → F) → Res E A → Res F A
map_err f (ok a) = ok a
map_err f (err e) = err (f e)
map_err f panic = panic

abbrev pub ok_or : {E A : Type 0} → Option A → E → Res E A
ok_or none e = err e
ok_or (some a) e = ok a

abbrev pub is_ok : {E A : Type 0} → Res E A → Bool
is_ok (ok _) = true
is_ok (err _) = false
is_ok panic = false

abbrev pub Method : Type 0 → Type 0 → Type 0 → Type 0
Method S E A = S → Res E A × S

infixl 5 ◌>>=◌ ◌>>◌
abbrev pub ◌>>=◌ : {S E A B : Type 0} → Method S E A → (A → Method S E B) → Method S E B
◌>>=◌ m f s = let (r, t) = m s in elim r [ ok a ↦ f a t | err e ↦ (err e, t) | panic ↦ (panic, t) ]

abbrev pub ◌>>◌ : {S E B : Type 0} → Method S E (Unit {0}) → Method S E B → Method S E B
m >> k = m >>= λ _. k

module _ {S E : Type 0} where
  abbrev pub pure : {A : Type 0} → A → Method S E A
  pure a s = (ok a, s)

  abbrev pub raise : {A : Type 0} → E → Method S E A
  raise e s = (err e, s)

  -- `e?`, where `e` does not touch the state.
  abbrev pub lift : {A : Type 0} → Res E A → Method S E A
  lift r s = (r, s)

  abbrev pub get : Method S E S
  get s = (ok s, s)

  abbrev pub put : S → Method S E (Unit {0})
  put t s = (ok tt, t)

  abbrev pub modify : (S → S) → Method S E (Unit {0})
  modify f s = (ok tt, f s)

pub ok-injective : {E A : Type 0} {a b : A} → ◌≡◌ {A = Res E A} (ok a) (ok b) → a ≡ b
ok-injective h = cc

pub and_then-eq-ok :
    {E A B : Type 0} (f : A → Res E B) (r : Res E A) {b : B}
    → and_then r f ≡ ok b
    → (a : A) × (r ≡ ok a) × (f a ≡ ok b)
and_then-eq-ok f (ok a) h = (a, refl, h)
and_then-eq-ok f (err e) h = cc
and_then-eq-ok f panic h = cc

-- What a bind that succeeded has gone through.
module _ {S E A B : Type 0} (f : A → Method S E B) {b : B} {t : S} where
  bind_cases :
      (x : Res E A × S)
      → elim x.0 [ ok a ↦ f a x.1 | err e ↦ (err e, x.1) | panic ↦ (panic, x.1) ] ≡ (ok b, t)
      → (a : A) × (u : S) × (x ≡ (ok a, u)) × (f a u ≡ (ok b, t))
  bind_cases (ok a, u) h = (a, u, refl, h)
  bind_cases (err e, u) h = cc
  bind_cases (panic, u) h = cc

  pub >>=-eq-ok :
      (m : Method S E A) (s : S)
      → (m >>= f) s ≡ (ok b, t)
      → (a : A) × (u : S) × (m s ≡ (ok a, u)) × (f a u ≡ (ok b, t))
  >>=-eq-ok m s h = bind_cases (m s) h

-- A branch, and a match on an option, between methods of one state.
abbrev pub branch : {S E A : Type 0} → Bool → Method S E A → Method S E A → Method S E A
branch true m k s = m s
branch false m k s = k s

abbrev pub match_option :
    {S E A B : Type 0} → Option A → Method S E B → (A → Method S E B) → Method S E B
match_option none m f s = m s
match_option (some a) m f s = f a s

pub is_ok-eq : {E A : Type 0} (r : Res E A) → is_ok r ≡ true → (a : A) × (r ≡ ok a)
is_ok-eq (ok a) h = (a, refl)
is_ok-eq (err e) h = cc
is_ok-eq panic h = cc

-- A check that raises an error unless it holds.
pub branch-raise-eq-ok :
    {S E A : Type 0} (b : Bool) (m : Method S E A) (e : E) (s t : S) {a : A}
    → branch b m (raise e) s ≡ (ok a, t)
    → (b ≡ true) × (m s ≡ (ok a, t))
branch-raise-eq-ok true m e s t h = (refl, h)
branch-raise-eq-ok false m e s t h = cc

pub Res-cases : {E A : Type 0} (r : Res E A) → ((a : A) × (r ≡ ok a)) ⊎ (is_ok r ≡ false)
Res-cases (ok a) = inl (a, refl)
Res-cases (err e) = inr refl
Res-cases panic = inr refl
