-- ===== src/Env/Tests.antt =====
-- Tests of the environment at concrete variables.
use snowkernel.Base.{true, [], ◌∷◌, ◌++◌, replicate, some, refl, arith}
use snowkernel.Str.{Str}
use snowkernel.Env.{Env, env_set}
use snowkernel.Env.Match.{IsName}
use snowkernel.Env.Set.{Sets, env_set-Sets}

abbrev path : Str
path = b'P' ∷ b'A' ∷ b'T' ∷ b'H' ∷ []

path-IsName : IsName path
path-IsName = (refl, (refl, (refl, (refl, tt))))

-- One variable with the name already.
abbrev one : Env
one = record { env_store = λ _. path ++ b'=' ∷ replicate 91 0; env_count = 1; initialized = true }

env_set-Sets_example : Sets one path (b'/' ∷ []) (env_set one (some (path ++ b'=' ∷ b'/' ∷ [])))
env_set-Sets_example =
    env_set-Sets one path (b'/' ∷ []) path-IsName (refl, tt) (omega arith) (omega arith)
      (omega arith) (λ _. refl)
