-- ===== src/Ports/Tests.antt =====
-- The theorems on ports of app/src/port_detect.rs at two workspaces, one below the other.
use limux.Prelude.{ℕ, ◌-◌, ◌↔◌, arith, ◌≡◌, refl, true, none, some, List, [], ◌∷◌, ◌++◌, Text, text}
use limux.Ports.Scan.{WorkspaceId, best_under, claim_all}
use limux.Ports.Descendants.{Parents, children, collect, collect_descendant_pids}
use limux.Ports.Reached.{has, Reaches, collect_descendant_pids-Reaches}
use limux.Ports.Attribution.{Chosen, has_port, best_under-Chosen, claim_all-attributes}

abbrev two_dirs : List (WorkspaceId × Text)
two_dirs = (1, text "/home/me") ∷ (2, text "/home/me/web") ∷ []

best_under-Chosen_example :
    Chosen
      (text "/home/me/web/api")
      two_dirs
      none
      (best_under (text "/home/me/web/api") two_dirs none)
best_under-Chosen_example = best_under-Chosen (text "/home/me/web/api") two_dirs none

web_is_best : best_under (text "/home/me/web/api") two_dirs none ≡ some (2, text "/home/me/web")
unfolding best_under
web_is_best = refl

claim_all-attributes_example :
    has_port
      (claim_all two_dirs
        ([], [])
        ([] ++ (text "/home/me/web/api", 8080 ∷ 9229 ∷ []) ∷ (text "/home/me", 5000 ∷ []) ∷ [])).0
      2
      9229
    ≡ true
claim_all-attributes_example =
    claim_all-attributes two_dirs ([], []) [] ((text "/home/me", 5000 ∷ []) ∷ [])
      (text "/home/me/web/api") (text "/home/me/web") (8080 ∷ 9229 ∷ []) 2 9229 web_is_best refl

-- A shell with a child and a grandchild, next to another process.
abbrev family : Parents
family = (20, 10) ∷ (30, 20) ∷ (40, 1) ∷ []

collect_descendant_pids-Reaches_example :
    (fuel : ℕ) × (found : List ℕ) × (collect_descendant_pids fuel family 10 ≡ some found)
    × ((p : ℕ) → (has p found ≡ true) ↔ Reaches family 10 p)
collect_descendant_pids-Reaches_example =
    collect_descendant_pids-Reaches family 10 (λ p. 100 - p) (omega arith)

family_found : collect_descendant_pids 3 family 10 ≡ some (10 ∷ 20 ∷ 30 ∷ [])
unfolding collect_descendant_pids collect children
family_found = refl
