-- ===== src/Access/Saved.antt =====
-- An access control map, written to a configuration and read back.
use sigfs.Base.{
  ℕ, ◌<◌, ◌≡◌, refl, sym, ap, ◌∙◌, List, [], ◌∷◌, ◌++◌, arith, append_assoc, append-nil,
}
use sigfs.Access.{Access, Token, AccessControlMap, insert, of_config, of_configs, to_configs}
use sigfs.Access.Config.{of_config-to_config}

-- The ids of a map are above one.
abbrev pub IsAbove : ℕ → AccessControlMap → Type 0
IsAbove k [] = Unit {0}
IsAbove k ((id, a) ∷ m) = (k < id) × IsAbove k m

-- A std::map: ascending ids, each once.
abbrev pub IsSorted : AccessControlMap → Type 0
IsSorted [] = Unit {0}
IsSorted ((id, a) ∷ m) = IsAbove id m × IsSorted m

-- Every id of the first map is below every id of the second.
abbrev IsBelow : AccessControlMap → AccessControlMap → Type 0
IsBelow [] m = Unit {0}
IsBelow ((id, a) ∷ done) m = IsAbove id m × IsBelow done m

insert_last :
    (done : AccessControlMap) (id : ℕ) (a : Access) (m : AccessControlMap)
    → IsBelow done ((id, a) ∷ m)
    → insert id a done ≡ done ++ ((id, a) ∷ [])
unfolding insert
insert_last [] id a m h = refl
insert_last ((k, b) ∷ done) id a m ((less, above), h) =
    ground (arith, less, insert_last done id a m h)

IsBelow-snoc :
    (done : AccessControlMap) (id : ℕ) (a : Access) (m : AccessControlMap)
    → IsBelow done ((id, a) ∷ m)
    → IsAbove id m
    → IsBelow (done ++ ((id, a) ∷ [])) m
IsBelow-snoc [] id a m h above = (above, tt)
IsBelow-snoc ((k, b) ∷ done) id a m ((less, up), h) above = (up, IsBelow-snoc done id a m h above)

of_configs_from :
    (done m : AccessControlMap)
    → IsBelow done m
    → IsSorted m
    → of_configs (to_configs m) done ≡ done ++ m
unfolding of_configs to_configs
of_configs_from done [] h sorted = sym (append-nil done)
of_configs_from done ((id, a) ∷ m) h (above, sorted) =
    ap (λ b. of_configs (to_configs m) (insert id b done)) (of_config-to_config a)
    ∙ ap (of_configs (to_configs m)) (insert_last done id a m h)
    ∙ of_configs_from (done ++ ((id, a) ∷ [])) m (IsBelow-snoc done id a m h above) sorted
    ∙ append_assoc done ((id, a) ∷ []) m

-- A map whose ids ascend, as those of a std::map do, is read back unchanged from the configuration
-- that it is written to.
of_configs-to_configs : (m : AccessControlMap) → IsSorted m → of_configs (to_configs m) [] ≡ m
of_configs-to_configs m sorted = of_configs_from [] m tt sorted

insert-IsAbove :
    (k id : ℕ) (a : Access) (m : AccessControlMap)
    → k < id
    → IsAbove k m
    → IsAbove k (insert id a m)
unfolding insert
insert-IsAbove k id a [] less h = (less, tt)
insert-IsAbove k id a ((j, b) ∷ m) less (first, h) =
    ground (arith, less, first, h, insert-IsAbove k id a m less h)

IsAbove-trans : (j k : ℕ) (m : AccessControlMap) → j < k → IsAbove k m → IsAbove j m
IsAbove-trans j k [] less h = tt
IsAbove-trans j k ((id, a) ∷ m) less (first, h) = (omega arith, IsAbove-trans j k m less h)

insert-IsSorted :
    (id : ℕ) (a : Access) (m : AccessControlMap) → IsSorted m → IsSorted (insert id a m)
unfolding insert
insert-IsSorted id a [] h = (tt, tt)
insert-IsSorted id a ((k, b) ∷ m) (above, h) =
    ground
      (arith, above, h, insert-IsSorted id a m h, insert-IsAbove k id a m, IsAbove-trans id k m)

-- Every map that is read from a configuration is sorted, so that writing it and reading it again
-- changes nothing.
of_configs-IsSorted :
    (cs : List (ℕ × List Token)) (m : AccessControlMap) → IsSorted m → IsSorted (of_configs cs m)
unfolding of_configs
of_configs-IsSorted [] m h = h
of_configs-IsSorted ((id, ts) ∷ cs) m h =
    of_configs-IsSorted cs (insert id (of_config ts) m) (insert-IsSorted id (of_config ts) m h)

-- Whatever access control map was read from a configuration, writing it to a configuration and
-- reading that gives the same map.
pub of_configs_stable :
    (cs : List (ℕ × List Token)) → of_configs (to_configs (of_configs cs [])) [] ≡ of_configs cs []
of_configs_stable cs = of_configs-to_configs (of_configs cs []) (of_configs-IsSorted cs [] tt)
