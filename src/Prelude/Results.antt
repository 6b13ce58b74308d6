-- ===== src/Prelude/Results.antt =====
-- Rust's `Result`, its `?` operator as `◌>>=◌`, and `ok_or`.
use mathlib.Core.Path.{◌≡◌, refl, ap}
use mathlib.Core.Bool.{Bool, true, false}
use mathlib.Core.Option.{Option, none, some}

pub data Result {ℓ κ} (E : Type ℓ) (A : Type κ) : Type (ℓ ⊔ κ) where
  ok : A → Result E A
  err : E → Result E A

abbrev pub map_err {ℓ κ μ} :
    {E : Type ℓ} {F : Type κ} {A : Type μ} → (E → F) → Result E A → Result F A
map_err f (ok a) = ok a
map_err f (err e) = err (f e)

abbrev pub ok_or {ℓ κ} : {E : Type ℓ} {A : Type κ} → Option A → E → Result E A
ok_or (some a) e = ok a
ok_or none e = err e

-- `Result::is_ok`
abbrev pub is_ok {ℓ κ} : {E : Type ℓ} {A : Type κ} → Result E A → Bool
is_ok (ok a) = true
is_ok (err e) = false

module _ {ℓ κ μ} {E : Type ℓ} {A : Type κ} {B : Type μ} where
  infixl 4 ◌>>=◌ ◌>>◌
  abbrev pub ◌>>=◌ : Result E A → (A → Result E B) → Result E B
  ◌>>=◌ (err e) k = err e
  ◌>>=◌ (ok a) k = k a

  abbrev pub ◌>>◌ : Result E A → Result E B → Result E B
  ◌>>◌ m k = m >>= λ _. k

  pub bind-ok : (m : Result E A) (k : A → Result E B) (a : A) → m ≡ ok a → (m >>= k) ≡ k a
  bind-ok m k a e = ap (λ r. r >>= k) e

  pub bind-err : (m : Result E A) (k : A → Result E B) (e : E) → m ≡ err e → (m >>= k) ≡ err e
  bind-err m k e h = ap (λ r. r >>= k) h

  -- A chain that ended well had a value at each step.
  pub bind-ok_inv :
      (m : Result E A) (k : A → Result E B) (b : B)
      → (m >>= k) ≡ ok b
      → (a : A) × (m ≡ ok a) × (k a ≡ ok b)
  bind-ok_inv (ok a) k b h = (a, refl, h)
  bind-ok_inv (err e) k b h = absurd (cc h)

module _ {ℓ κ} {E : Type ℓ} {A : Type κ} where
  pub ok_or-ok_inv : (o : Option A) (e : E) (a : A) → ok_or o e ≡ ok a → o ≡ some a
  ok_or-ok_inv (some b) e a h = cc h
  ok_or-ok_inv none e a h = absurd (cc h)

module _ {ℓ κ μ} {E : Type ℓ} {F : Type κ} {A : Type μ} (f : E → F) where
  pub map_err-ok_inv : (m : Result E A) (a : A) → map_err f m ≡ ok a → m ≡ ok a
  map_err-ok_inv (ok b) a h = cc h
  map_err-ok_inv (err e) a h = absurd (cc h)

  pub map_err-ok : (m : Result E A) (a : A) → m ≡ ok a → map_err f m ≡ ok a
  map_err-ok m a e = ap (map_err f) e

  pub map_err-err : (m : Result E A) (e : E) → m ≡ err e → map_err f m ≡ err (f e)
  map_err-err m e h = ap (map_err f) h
