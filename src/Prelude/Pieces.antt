-- ===== src/Prelude/Pieces.antt =====
-- The pieces of a text that is split at a character.
use Prim.Native.Char.{Char, code}
use Prim.Native.String.{[], ◌∷◌}
use mathlib.Core.List as Lst
use Prim.Native.String.{String}
use mathlib.Core.Path.{◌≡◌, refl, ap, ◌∙◌}
use mathlib.Core.Bool.{true, false}
use mathlib.Core.Logic.{inl, inr}
use mathlib.Core.List.{List}
use native.Mathlib.Omega.{arith}
use text.Mathlib.TextEquality.{Char-path}
use civic_connect.Prelude.Tests.{eqb, Bool-cases}
use civic_connect.Prelude.Lists.{All}
use civic_connect.Prelude.Text.{has_char, split, join}

-- A text is its pieces with the character between them, and no piece holds it.
pub record Pieces (x : Char) (s : String) : Type 0 where
  pub head : String
  pub tail : List String
  pub split-eq : split x s ≡ Lst.◌∷◌ head tail
  pub join-eq : join x (Lst.◌∷◌ head tail) ≡ s
  pub plain : All (λ p. has_char x p ≡ false) (Lst.◌∷◌ head tail)

join-grow :
    (x c : Char) (p : String) (ps : List String)
    → join x (Lst.◌∷◌ (c ∷ p) ps) ≡ c ∷ join x (Lst.◌∷◌ p ps)
unfolding join
join-grow x c p Lst.[] = refl
join-grow x c p (Lst.◌∷◌ q ps) = refl

eq_of_eqb : (c x : Char) → eqb (code c) (code x) ≡ true → x ≡ c
eq_of_eqb c x h = Char-path x c (ground arith)

pub pieces : (x : Char) (s : String) → Pieces x s
unfolding split join has_char
pieces x [] = record {
  head = [];
  tail = Lst.[];
  split-eq = refl;
  join-eq = refl;
  plain = (refl, tt);
}
pieces x (c ∷ s) =
    let p = pieces x s in
    elim (Bool-cases (eqb (code c) (code x))) [
      | inl cut ↦ record {
        head = [];
        tail = Lst.◌∷◌ p.head p.tail;
        split-eq = rw (cut, p.split-eq) refl;
        join-eq =
            ap (λ d. d ∷ join x (Lst.◌∷◌ p.head p.tail)) (eq_of_eqb c x cut)
            ∙ ap (λ t. c ∷ t) p.join-eq;
        plain = (refl, p.plain);
      }
      | inr kept ↦ record {
        head = c ∷ p.head;
        tail = p.tail;
        split-eq = rw (kept, p.split-eq) refl;
        join-eq = join-grow x c p.head p.tail ∙ ap (λ t. c ∷ t) p.join-eq;
        plain = (rw kept p.plain.0, p.plain.1);
      }
    ]
