-- ===== src/Protocol/Typing/Runs.antt =====
-- What a run of the parser gives where it succeeds.
use yarc.Base.{Bool, true, false, ◌≡◌, refl, if◌then◌else◌}
use yarc.Protocol.Reader.{Input, Result, Parser, ok, failed, hung, out_of_fuel, and_then}

pub data Post {A : Type 0} (P : A → Type 0) : Result A → Type 0 where
  given : {a : A} {s : Input} → P a → Post P (ok a s)
  refused : Post P failed
  stuck : Post P hung
  starved : Post P out_of_fuel

module _ {A : Type 0} {P : A → Type 0} where
  pub Post-ok : {a : A} {s : Input} → Post P (ok a s) → P a
  Post-ok (given h) = h

  pub Post-if :
      (b : Bool) (x y : Parser A) (s : Input)
      → (b ≡ true → Post P (x s))
      → (b ≡ false → Post P (y s))
      → Post P ((if b then x else y) s)
  Post-if true x y s hx hy = hx refl
  Post-if false x y s hx hy = hy refl

  pub Post-cond : (b : Bool) (x y : Result A) → Post P x → Post P y → Post P (if b then x else y)
  Post-cond true x y hx hy = hx
  Post-cond false x y hx hy = hy

  module _ {B : Type 0} where
    pub Post-bind :
        {Q : B → Type 0} {r : Result B} (f : B → Parser A)
        → Post Q r
        → ((b : B) (s : Input) → Q b → Post P (f b s))
        → Post P (and_then r f)
    Post-bind f (given h) next = next _ _ h
    Post-bind f refused next = refused
    Post-bind f stuck next = stuck
    Post-bind f starved next = starved

    -- Behind a run of which nothing is asked.
    pub Post-then :
        (r : Result B) (f : B → Parser A)
        → ((b : B) (s : Input) → Post P (f b s))
        → Post P (and_then r f)
    Post-then (ok b s) f next = next b s
    Post-then failed f next = refused
    Post-then hung f next = stuck
    Post-then out_of_fuel f next = starved
