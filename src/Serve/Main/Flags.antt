-- ===== src/Serve/Main/Flags.antt =====
-- The options of src/main.c.
use minimoni.Prelude.{
  Bool-cases, Bytes, List, OnSome, OnSome-mono, Option, [], ap, codes, inl, inr, refl, some, str_eq,
  str_eq_iff, str_eq_refl, true, ◌∙◌, ◌∷◌, ◌≡◌,
}
use minimoni.Serve.Main.{parse_config_flag}

-- The options that name these paths.
unfoldable pub flags : List Bytes → List Bytes
flags [] = []
flags (p ∷ paths) = codes "--config" ∷ p ∷ flags paths

-- The last path, or `out`.
unfoldable pub last_path : List Bytes → Option Bytes → Option Bytes
last_path [] out = out
last_path (p ∷ paths) out = last_path paths (some p)

parse_flags :
    (paths : List Bytes) (out : Option Bytes)
    → parse_config_flag (flags paths) out ≡ some (last_path paths out)
unfolding parse_config_flag flags last_path
parse_flags [] out = refl
parse_flags (p ∷ paths) out = rw str_eq_refl (parse_flags paths (some p))

flags_parse :
    (argv : List Bytes) (out : Option Bytes)
    → OnSome
        (λ path. (paths : List Bytes) × (argv ≡ flags paths) × (path ≡ last_path paths out))
        (parse_config_flag argv out)
unfolding parse_config_flag flags last_path
flags_parse [] out = ([], refl, refl)
flags_parse (a ∷ []) out = tt
flags_parse (a ∷ p ∷ argv) out = elim (Bool-cases (str_eq a (codes "--config"))) [
  | inl e ↦ rw e (
      OnSome-mono _ _ (parse_config_flag argv (some p)) (flags_parse argv (some p))
        (λ path (paths, same, last). (p ∷ paths, flag_path a p argv paths e same, last)))
  | inr e ↦ rw e tt
]
  where
    flag_path :
        (a p : Bytes) (argv paths : List Bytes)
        → str_eq a (codes "--config") ≡ true
        → argv ≡ flags paths
        → a ∷ p ∷ argv ≡ codes "--config" ∷ p ∷ flags paths
    flag_path a p argv paths e same =
        ap (λ x. x ∷ p ∷ argv) ((str_eq_iff a (codes "--config")).0 e)
        ∙ ap (λ r. codes "--config" ∷ p ∷ r) same

-- The options are accepted exactly if they are pairs of --config and a path, and the last path is
-- the one taken: whatever pairs there are parse to it, and nothing else parses.
pub parse_config_flag-pairs :
    (argv paths : List Bytes) (out : Option Bytes)
    → (parse_config_flag (flags paths) out ≡ some (last_path paths out))
      × OnSome
          (λ path. (given : List Bytes) × (argv ≡ flags given) × (path ≡ last_path given out))
          (parse_config_flag argv out)
parse_config_flag-pairs argv paths out = (parse_flags paths out, flags_parse argv out)
