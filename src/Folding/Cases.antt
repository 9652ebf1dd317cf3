-- ===== src/Folding/Cases.antt =====
-- The branches of a fold of `Builder` (jitir.tmpl.hpp).
use metajit_cpp.Folding.{when_some}
use metajit_cpp.Base.{Bool, true, false, Option, none, some, ◌≡◌, refl, if◌then◌else◌}

pub when_some_cases {ℓ κ} :
    {A : Type ℓ} {B : Type κ} (P : B → Type 0) (o : Option A) (f : A → B) (k : B)
    → ((x : A) → o ≡ some x → P (f x))
    → P k
    → P (when_some o f k)
when_some_cases P (some x) f k h r = h x refl
when_some_cases P none f k h r = r

pub if_cases {κ} :
    {B : Type κ} (P : B → Type 0) (c : Bool) (x y : B)
    → (c ≡ true → P x)
    → (c ≡ false → P y)
    → P (if c then x else y)
if_cases P true x y h r = h refl
if_cases P false x y h r = r refl
