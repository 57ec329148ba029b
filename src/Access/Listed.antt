-- ===== src/Access/Listed.antt =====
-- The access array of an entry as to_config writes it, read off the configuration alone.
use sigfs.Base.{ℕ, ◌≡◌, refl, ap, ◌∙◌, List, [], ◌∷◌, ◌++◌, arith, ltb, ◌==◌, if◌then◌else◌}
use sigfs.Access.{
  Token, read, write, cascade, reset, AccessControlMap, insert, of_config, to_config, of_configs,
  to_configs,
}
use sigfs.Access.Config.{names, is_read, is_write, is_cascade, is_reset, of_config_lem}

-- The rights and flags that an array names, each once.
abbrev pub listed : List Token → List Token
listed ts =
    (if names is_read ts then read ∷ [] else [])
    ++ ((if names is_write ts then write ∷ [] else [])
        ++ ((if names is_cascade ts then cascade ∷ [] else [])
            ++ (if names is_reset ts then reset ∷ [] else [])))

-- An element goes before the first of a greater id, unless its id is there.
abbrev pub place : ℕ → List Token → List (ℕ × List Token) → List (ℕ × List Token)
place id ts [] = (id, ts) ∷ []
place id ts ((k, us) ∷ done) =
    let rest = place id ts done in
    if id == k
    then (k, us) ∷ done
    else if ltb id k
    then (id, ts) ∷ (k, us) ∷ done
    else (k, us) ∷ rest

abbrev pub in_order : List (ℕ × List Token) → List (ℕ × List Token) → List (ℕ × List Token)
in_order [] done = done
in_order ((id, ts) ∷ cs) done = in_order cs (place id (listed ts) done)

to_config-of_config : (ts : List Token) → to_config (of_config ts) ≡ listed ts
unfolding to_config
to_config-of_config ts = ap to_config (of_config_lem ts)

to_configs-insert :
    (id : ℕ) (ts : List Token) (m : AccessControlMap)
    → to_configs (insert id (of_config ts) m) ≡ place id (listed ts) (to_configs m)
unfolding to_configs insert
to_configs-insert id ts [] = ap (λ us. (id, us) ∷ []) (to_config-of_config ts)
to_configs-insert id ts ((k, a) ∷ m) =
    ground (arith, to_config-of_config ts, to_configs-insert id ts m)

pub to_configs-of_configs :
    (cs : List (ℕ × List Token)) (m : AccessControlMap)
    → to_configs (of_configs cs m) ≡ in_order cs (to_configs m)
unfolding of_configs
to_configs-of_configs [] m = refl
to_configs-of_configs ((id, ts) ∷ cs) m =
    to_configs-of_configs cs (insert id (of_config ts) m)
    ∙ ap (in_order cs) (to_configs-insert id ts m)
