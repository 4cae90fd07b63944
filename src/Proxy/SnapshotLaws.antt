-- ===== src/Proxy/SnapshotLaws.antt =====
-- What BuildRouteSnapshot of internal/proxy/server.go makes of a configuration that it accepts.
use mc_router.Prelude.{
  ◌≡◌, inl, inr, refl, sym, ap, subst, ◌∙◌, arith, Bool, true, false, some, List, [], ◌∷◌, Bytes,
  String, append-nil, Option-cases, Bool-cases,
}
use mc_router.Go.Text.{is_empty, is_blank, trim_space, trim_from}
use mc_router.Go.Netip.{Prefix}
use mc_router.Config.{Config}
use mc_router.Config.Fields.{Env, report, not_positive}
use mc_router.Config.Sections.{validate_client_policy, validate_client_rate_limit}
use mc_router.Config.Validate.{validate, validate_sections, validate_trusted_proxies}
use mc_router.ClientPolicy as Policy
use mc_router.ProxyProtocol.{parse_cidrs}
use mc_router.Router as Router
use mc_router.Discovery.Annotations.{DiscoveredRoute}
use mc_router.Discovery.Merge.{MergeResult, merge_routes}
use mc_router.Proxy.Snapshot.{RouteSnapshot, ok, snapshot_of, build_route_snapshot}

-- What the checks of the sections give for the parts that the server parses again.
pub record IsParsed (c : Config) : Type 0 where
  pub policy : Policy.Policy
  pub policy_parsed : Policy.new c.client_policy.allow c.client_policy.deny ≡ some policy
  pub prefixes : List Prefix
  pub prefixes_parsed : parse_cidrs c.proxy_protocol.trusted_proxies ≡ some prefixes
  pub has_listen : is_empty c.listen ≡ false

policy-parsed :
    (c : Config)
    → validate_client_policy c.client_policy ≡ []
    → (p : Policy.Policy) × (Policy.new c.client_policy.allow c.client_policy.deny ≡ some p)
unfolding validate_client_policy
policy-parsed c h = elim (Option-cases (Policy.new c.client_policy.allow c.client_policy.deny)) [
  | inl e ↦ ground (arith, e, h)
  | inr s ↦ s
]

prefixes-parsed :
    (values : List Bytes)
    → validate_trusted_proxies values ≡ []
    → (p : List Prefix) × (parse_cidrs values ≡ some p)
unfolding validate_trusted_proxies
prefixes-parsed values h = elim (Option-cases (parse_cidrs values)) [
  | inl e ↦ ground (arith, e, h)
  | inr s ↦ s
]

report-nil : (b : Bool) (name : String) → report b name ≡ [] → b ≡ false
report-nil b name h = ground arith

not_blank-not_empty : (s : Bytes) → is_blank s ≡ false → is_empty s ≡ false
unfolding trim_space trim_from
not_blank-not_empty [] h = cc
not_blank-not_empty (x ∷ s) h = refl

validate_sections-IsParsed : (env : Env) (c : Config) → validate_sections env c ≡ [] → IsParsed c
unfolding validate_sections
validate_sections-IsParsed env c h =
    let (listen, h1) = append-nil (report (is_blank c.listen) "listen") _ h in
    let (b, h2) = append-nil (report (not_positive c.handshake_timeout) "handshakeTimeout") _ h1 in
    let (d, h3) =
      append-nil (report (not_positive c.backend_dial_timeout) "backendDialTimeout") _ h2 in
    let (policy, h4) = append-nil (validate_client_policy c.client_policy) _ h3 in
    let (e, h5) = append-nil (validate_client_rate_limit c.client_rate_limit) _ h4 in
    let (trusted, h6) =
      append-nil (validate_trusted_proxies c.proxy_protocol.trusted_proxies) _ h5 in
    let (p, parsed) = policy-parsed c policy in
    let (q, read) = prefixes-parsed c.proxy_protocol.trusted_proxies trusted in
    record {
      policy = p;
      policy_parsed = parsed;
      prefixes = q;
      prefixes_parsed = read;
      has_listen = not_blank-not_empty c.listen (report-nil (is_blank c.listen) "listen" listen);
    }

-- A snapshot as BuildRouteSnapshot makes it.
pub record IsBuilt (env : Env) (s : RouteSnapshot) : Type 0 where
  pub parsed : IsParsed s.config
  pub static_listen : is_empty s.static_config.listen ≡ false
  pub table : Router.new env s.config ≡ Router.ok s.router
  pub merged :
      s.config.routes
      ≡ (merge_routes s.static_config.routes s.discovered_routes
          s.static_config.default_route).routes

validate-sections :
    (env : Env) (c : Config) → (validate env c).0 ≡ [] → validate_sections env c ≡ []
unfolding validate
validate-sections env c h = (append-nil (validate_sections env c) _ h).0

-- Storing the tokens of the voice chat leaves the rest of the configuration.
checked-IsParsed : (env : Env) (c : Config) → IsParsed c → IsParsed (validate env c).1
unfolding validate
checked-IsParsed env c h = record {
  policy = h.policy;
  policy_parsed = h.policy_parsed;
  prefixes = h.prefixes;
  prefixes_parsed = h.prefixes_parsed;
  has_listen = h.has_listen;
}

snapshot_of-IsBuilt :
    (env : Env) (c merged : Config) (merge : MergeResult) (d : List DiscoveredRoute)
    (table : Router.Result Router.Router) (s : RouteSnapshot)
    → IsParsed c
    → IsParsed merged
    → merge ≡ merge_routes c.routes d c.default_route
    → merged.routes ≡ merge.routes
    → Router.new env merged ≡ table
    → snapshot_of c merged merge d table ≡ ok s
    → IsBuilt env s × (s.discovered_routes ≡ d)
unfolding snapshot_of
snapshot_of-IsBuilt env c merged merge d (Router.err e) s p q m r n h = cc
snapshot_of-IsBuilt env c merged merge d (Router.ok table) s p q m r n h =
    let same : record {
      static_config = c;
      config = merged;
      router = table;
      discovery_merge = merge;
      discovered_routes = d;
    }
        ≡ s =
      ground (arith, h) in
    subst (λ x. IsBuilt env x × (x.discovered_routes ≡ d)) same
      (
        record {
          parsed = q;
          static_listen = p.has_listen;
          table = n;
          merged = r ∙ ap (λ x. x.routes) m;
        },
        refl,
      )

is_empty-nil {ℓ} : {A : Type ℓ} (xs : List A) → is_empty xs ≡ true → xs ≡ []
is_empty-nil [] h = refl
is_empty-nil (x ∷ xs) h = cc

build-step :
    (env : Env) (c : Config) (d : List DiscoveredRoute)
    → is_empty (validate env c).0 ≡ true
    → build_route_snapshot env c d ≡ (
        let checked = (validate env c).1 in
        let merge = merge_routes checked.routes d checked.default_route in
        let merged : Config = record checked { routes = merge.routes } in
        snapshot_of checked merged merge d (Router.new env merged))
unfolding build_route_snapshot
build-step env c d e = rw (build_route_snapshot, e) refl

pub build_route_snapshot-IsBuilt :
    (env : Env) (c : Config) (d : List DiscoveredRoute) (s : RouteSnapshot)
    → build_route_snapshot env c d ≡ ok s
    → IsBuilt env s × (s.discovered_routes ≡ d)
unfolding build_route_snapshot
build_route_snapshot-IsBuilt env c d s h = elim (Bool-cases (is_empty (validate env c).0)) [
  | inr e ↦ ground (arith, e, h)
  | inl e ↦
      let checked = (validate env c).1 in
      let merge = merge_routes checked.routes d checked.default_route in
      let merged : Config = record checked { routes = merge.routes } in
      let p = checked-IsParsed env c (
        validate_sections-IsParsed env c
          (validate-sections env c (is_empty-nil (validate env c).0 e))) in
      snapshot_of-IsBuilt env checked merged merge d (Router.new env merged) s p
        (record {
          policy = p.policy;
          policy_parsed = p.policy_parsed;
          prefixes = p.prefixes;
          prefixes_parsed = p.prefixes_parsed;
          has_listen = p.has_listen;
        })
        refl refl refl (sym (build-step env c d e) ∙ h)
]
