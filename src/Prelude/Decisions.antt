-- ===== src/Prelude/Decisions.antt =====
-- What the outcome of a test says.
use text.Mathlib.Text.{◌==◌}
use text.Mathlib.TextEquality.{eq_iff}
use Prim.Native.String.{String}
use mathlib.Core.Path.{◌≡◌}
use mathlib.Core.Logic.{◌≢◌}
use mathlib.Core.Bool.{Bool, true, false, ◌&&◌, ◌||◌}
use native.Mathlib.Omega.{arith}
use mathlib.Core.Option.{Option, some}

pub some-injective : {A : Type 0} {a b : A} → Path (Option A) (some a) (some b) → a ≡ b
some-injective h = cc

pub and_true : {a b : Bool} → (a && b) ≡ true → (a ≡ true) × (b ≡ true)
and_true {a} {b} h = ground arith

pub or_false : {a b : Bool} → (a || b) ≡ false → (a ≡ false) × (b ≡ false)
or_false {a} {b} h = ground arith

pub text_differs : (s t : String) → (s == t) ≡ false → s ≢ t
text_differs s t h e = true_not_false ((eq_iff s t).1 e) h
  where
    true_not_false : {b : Bool} → b ≡ true → b ≡ false → ⊥
    true_not_false p q = cc
