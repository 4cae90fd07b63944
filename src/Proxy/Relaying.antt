-- ===== src/Proxy/Relaying.antt =====
-- What a connection of internal/proxy/server.go must have passed before a backend sees it, and what
-- the backend then sees.
use mc_router.Prelude.{
  ℕ, ◌≡◌, inl, inr, refl, sym, ap, subst, ◌∙◌, true, none, some, [], ◌++◌, Bytes, Bool-cases, take,
  drop, take-append-drop,
}
use mathlib.Core.List.{append_assoc, append-nil}
use mc_router.Config.{Float64, StatusOverride}
use mc_router.RateLimit as RateLimit
use mc_router.RateLimit.{Float}
use mc_router.Router as Router
use mc_router.Router.{Selection, select}
use mc_router.Mcproto.Handshake.{Handshake, route_address}
use mc_router.Mcproto.HandshakeLaws.{read_handshake_sound}
use mc_router.Proxy.Snapshot.{ServerState}
use mc_router.Proxy.Writing.{
  Written, complete, broken, short_write, out_of_rounds, write_all, is_complete,
  write_all-IsWritten,
}
use mc_router.Proxy.Answers.{Client, selected_backend, serve_status}
use mc_router.Proxy.Connection.{
  Network, Texts, Outcome, deny_route, override_status, dial_failed, forward, connect,
  serve_selection, route, handle_conn,
}
use mc_router.Proxy.Admission.{IsAdmitted, handle_conn-course}
use mc_router.Proxy.Stages.{connect-stages, serve_selection-stages, route-stages}

whole-relayed :
    (sent rest raw s : Bytes) (n : ℕ)
    → sent ++ rest ≡ raw
    → rest ≡ []
    → (sent ++ take n s) ++ drop n s ≡ raw ++ s
whole-relayed sent rest raw s n joined whole =
    let same : sent ≡ raw = sym (append-nil sent) ∙ ap (λ t. sent ++ t) (sym whole) ∙ joined in
    append_assoc sent (take n s) (drop n s)
    ∙ ap (λ t. sent ++ t) (take-append-drop n s)
    ∙ ap (λ t. t ++ s) same

part-relayed :
    (sent rest raw s : Bytes) → sent ++ rest ≡ raw → (sent ++ []) ++ (rest ++ s) ≡ raw ++ s
part-relayed sent rest raw s joined =
    ap (λ t. t ++ (rest ++ s)) (append-nil sent)
    ∙ sym (append_assoc sent rest s)
    ∙ ap (λ t. t ++ s) joined

is_complete-complete : (w : Written) → is_complete w ≡ true → w ≡ complete
is_complete-complete complete e = refl
is_complete-complete broken e = cc
is_complete-complete short_write e = cc
is_complete-complete out_of_rounds e = cc

-- The backend that is dialled, and what it is sent: a front of what there is to send.
pub record IsRelayed (backend all : Bytes) (o : Outcome) : Type 0 where
  pub reached : o.dialled ≡ some backend
  pub unread : Bytes
  pub relayed : o.to_backend ++ unread ≡ all

module _ {F : Float} {float64 : Float64 → Float.Carrier F} (state : ServerState F float64)
    (texts : Texts) (net : Network) (c : Client) where
  forward-IsRelayed :
      (h : Handshake) (backend raw s : Bytes)
      → IsRelayed backend (raw ++ s) (forward state texts net c h backend raw s)
  unfolding forward
  forward-IsRelayed h backend raw s =
      let w = write_all-IsWritten net.writes raw in
      elim (Bool-cases (is_complete (write_all net.writes raw).1)) [
        | inl e ↦ record {
          reached = refl;
          unread = drop net.copied s;
          relayed = rw (e) (
              whole-relayed (write_all net.writes raw).0 w.rest raw s net.copied w.joined
                (w.whole (is_complete-complete (write_all net.writes raw).1 e)));
        }
        | inr e ↦ record {
          reached = refl;
          unread = w.rest ++ s;
          relayed = rw (e) (part-relayed (write_all net.writes raw).0 w.rest raw s w.joined);
        }
      ]

  connect-IsRelayed :
      (h : Handshake) (backend raw s : Bytes)
      → IsRelayed backend (raw ++ s) (connect state texts net c h raw s backend)
  unfolding dial_failed
  connect-IsRelayed h backend raw s = elim (connect-stages state texts net c h raw s backend) [
    | inl (d, e) ↦
        subst (IsRelayed backend (raw ++ s)) (sym e)
          record { reached = refl; unread = raw ++ s; relayed = refl }
    | inr e ↦ subst (IsRelayed backend (raw ++ s)) (sym e) (forward-IsRelayed h backend raw s)
  ]

  override_status-unreached :
      (o : StatusOverride) (s : Bytes) → (override_status state texts net c o s).dialled ≡ none
  unfolding override_status
  override_status-unreached o s = elim (Bool-cases (serve_status c (texts.status_override o) s).0) [
    | inl e ↦ rw (override_status, e) refl
    | inr e ↦ rw (override_status, e) refl
  ]

  serve_selection-IsRelayed :
      (h : Handshake) (raw s backend : Bytes) (x : Selection)
      → (serve_selection state texts net c h raw s x).dialled ≡ some backend
      → (backend ≡ selected_backend h x)
        × IsRelayed backend (raw ++ s) (serve_selection state texts net c h raw s x)
  serve_selection-IsRelayed h raw s backend x d =
      elim (serve_selection-stages state texts net c h raw s x) [
        | inl (o, e) ↦ let un = override_status-unreached o s in absurd (cc e)
        | inr e ↦
            let r = connect-IsRelayed h (selected_backend h x) raw s in
            let same : backend ≡ selected_backend h x = cc in
            (
              same,
              subst (IsRelayed backend (raw ++ s)) (sym e) (
                  subst
                    (λ b.
                      IsRelayed b (raw ++ s)
                        (connect state texts net c h raw s (selected_backend h x)))
                    (sym same) r),
            )
      ]

  deny_route-unreached :
      (h : Handshake) (s : Bytes) → (deny_route state texts net c h s).dialled ≡ none
  unfolding deny_route
  deny_route-unreached h s = refl

  route-IsRelayed :
      (h : Handshake) (raw s backend : Bytes)
      → (route state texts net c h raw s).dialled ≡ some backend
      → (x : Selection) × (select state.router (route_address h) ≡ Router.ok x)
        × (backend ≡ selected_backend h x)
        × IsRelayed backend (raw ++ s) (route state texts net c h raw s)
  route-IsRelayed h raw s backend d = elim (route-stages state texts net c h raw s) [
    | inl e ↦ let un = deny_route-unreached h s in absurd (cc e)
    | inr (x, l, e) ↦
        let there : (serve_selection state texts net c h raw s x).dialled ≡ some backend =
          ap (λ (o : Outcome). o.dialled) (sym e) ∙ d in
        let (same, r) = serve_selection-IsRelayed h raw s backend x there in
        (x, l, same, subst (IsRelayed backend (raw ++ s)) (sym e) r)
  ]

  -- A connection that is passed to a backend: the backend is that of the selected route.
  pub record IsRouted (now : ℕ) (entries : RateLimit.Entries F) (backend : Bytes) : Type 0 where
    pub admitted : IsAdmitted state texts net c now entries
    pub selection : Selection
    pub selected : select state.router (route_address admitted.handshake) ≡ Router.ok selection
    pub chosen : backend ≡ selected_backend admitted.handshake selection
    pub relayed : IsRelayed backend admitted.sent (handle_conn state texts net c now entries).0

  -- A connection that dials a backend has passed the client policy and the limiter, its handshake is
  -- accepted, and the backend is that of the route which is selected for the handshake's address.
  -- What the backend is sent is a front of what the client sends behind a PROXY header: the
  -- handshake's own bytes first, nothing added and nothing left out.
  pub handle_conn-IsRouted :
      (now : ℕ) (entries : RateLimit.Entries F) (backend : Bytes)
      → (handle_conn state texts net c now entries).0.dialled ≡ some backend
      → IsRouted now entries backend
  handle_conn-IsRouted now entries backend d =
      elim (handle_conn-course state texts net c now entries) [
        | inl (result, reason, good, e) ↦ absurd (cc e)
        | inr (a, e) ↦
            let there : (route state texts net c a.handshake a.raw a.behind).dialled
                ≡ some backend =
              ap (λ (o : Outcome). o.dialled) (sym e) ∙ d in
            let (x, selected, chosen, r) =
              route-IsRelayed a.handshake a.raw a.behind backend there in
            let front = read_handshake_sound a.sent a.handshake a.raw a.behind a.read in
            record {
              admitted = a;
              selection = x;
              selected = selected;
              chosen = chosen;
              relayed =
                  subst (λ all. IsRelayed backend all (handle_conn state texts net c now entries).0)
                    front.0 (subst (IsRelayed backend (a.raw ++ a.behind)) (sym e) r);
            }
      ]
