-- ===== src/Kicad/Project/Leaves.antt =====
-- What holds when a step of `NewPCB` is done, and how a function is made of its steps.
use kle_ng_api.Prelude.{◌≡◌, refl, Option, none, some, inl, inr, ◌⊎◌}
use kle_ng_api.Kicad.Project.{Build, BuildError, Step, continue, demand}

-- what a step returns and the build it leaves have a property, if it returns something
unfoldable pub Leaves : {A : Type 0} → (A → Build → Type 0) → (BuildError ⊎ A) × Build → Type 0
Leaves P (inl e, b) = Unit
Leaves P (inr a, b) = P a b

pub then-Leaves :
    {A B : Type 0} (Q : B → Build → Type 0) (r : (BuildError ⊎ A) × Build) (rest : A → Step B)
    → ((a : A) (b : Build) → Leaves Q (rest a b))
    → Leaves Q (continue r rest)
unfolding Leaves continue
then-Leaves Q (inl e, b) rest k = tt
then-Leaves Q (inr a, b) rest k = k a b

pub continue-Leaves :
    {A B : Type 0} (P : A → Build → Type 0) (Q : B → Build → Type 0) (r : (BuildError ⊎ A) × Build)
    (rest : A → Step B)
    → Leaves P r
    → ((a : A) (b : Build) → P a b → Leaves Q (rest a b))
    → Leaves Q (continue r rest)
unfolding Leaves continue
continue-Leaves P Q (inl e, b) rest h k = tt
continue-Leaves P Q (inr a, b) rest h k = k a b h

pub Leaves-map :
    {A : Type 0} (P Q : A → Build → Type 0) (r : (BuildError ⊎ A) × Build)
    → ((a : A) (b : Build) → P a b → Q a b)
    → Leaves P r
    → Leaves Q r
unfolding Leaves
Leaves-map P Q (inl e, b) k h = tt
Leaves-map P Q (inr a, b) k h = k a b h

pub demand-Leaves :
    {A : Type 0} (o : Option A) (e : BuildError) (b : Build)
    → Leaves (λ a b'. o ≡ some a) (demand o e b)
unfolding Leaves
demand-Leaves none e b = tt
demand-Leaves (some a) e b = refl
