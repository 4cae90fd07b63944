-- ===== src/Config/Routes.antt =====
-- The checks of Validate in config.go on the routes: every address and alias can be normalized, and
-- no two of them are the same.
use mc_router.Prelude.{
  Bool, true, not, ◌&&◌, none, some, List, [], ◌∷◌, ◌++◌, Bytes, bytes_Eq, lookup, insert,
}
use mc_router.Go.Text.{is_empty}
use mc_router.HostAddr.{normalize}
use mc_router.Config.{Route}
use mc_router.Config.Fields.{Errors, report, validate_backend}
use mc_router.Config.Sections.{validate_status_override}

-- The names of a route: its address and its aliases.
unfoldable pub identities : Route → List Bytes
identities r = r.server_address ∷ r.aliases

-- The loop over the names of one route, with the set of the addresses seen.
unfoldable pub check_identities : List Bytes → List (Bytes × Bool) → Errors × List (Bytes × Bool)
check_identities [] seen = ([], seen)
check_identities (name ∷ names) seen = elim (normalize name) [
  | none ↦
      ("routes.serverAddress" ∷ (check_identities names seen).0, (check_identities names seen).1)
  | some addr ↦ elim (lookup addr seen) [
    | some known ↦
        ("routes.serverAddress" ∷ (check_identities names seen).0, (check_identities names seen).1)
    | none ↦ check_identities names (insert addr true seen)
  ]
]

unfoldable pub check_targets : Route → Errors
check_targets r =
    report (not (validate_backend r.backend)) "routes.backend"
    ++ (report (not (is_empty r.status_backend) && not (validate_backend r.status_backend))
          "routes.statusBackend"
        ++ validate_status_override r.status_override)

unfoldable pub validate_routes : List Route → List (Bytes × Bool) → Errors
validate_routes [] seen = []
validate_routes (r ∷ rs) seen =
    (check_identities (identities r) seen).0
    ++ (check_targets r ++ validate_routes rs (check_identities (identities r) seen).1)
