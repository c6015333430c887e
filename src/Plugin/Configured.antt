-- ===== src/Plugin/Configured.antt =====
-- `configureWorkspace` of plugin/src/index.ts, and what `createWorkspace` reads from its result.
use opencode_remote_ssh.Base.{
  String, ◌≡◌, refl, ◌≢◌, Option, none, some, List, [], All, In, All-In, Table, lookup,
  lookup-insert, insert, string_dec, or_default, arith, ap, sym, subst, ◌∙◌,
}
use opencode_remote_ssh.Types.{
  exclusive, ProviderConfig, ResolvedHost, ExtraValue, text, array, WorkspaceInfo, Result, ok, err,
}
use opencode_remote_ssh.Config.{ResolvedPluginConfig}
use opencode_remote_ssh.Leases.{Leases}
use opencode_remote_ssh.Leases.Holding.{holder}
use opencode_remote_ssh.Provider
use opencode_remote_ssh.Provider.{HostSelectionRequest}
use opencode_remote_ssh.Provider.Acquire.{acquire_resolved-takes}
use opencode_remote_ssh.Provider.Exclusive.{truthy_of_ne}
use opencode_remote_ssh.Provider.Held.{acquire_resolved-held, acquire_resolved-member}
use opencode_remote_ssh.Effects.{Env}
use opencode_remote_ssh.Plugin.{Plugin, Action, acquire_resolved, ◌>>=◌}
use opencode_remote_ssh.Plugin.Adapter.{
  texts, labels_member, request_for_extra, provider_request_for_workspace, from_result,
  resolve_provider, with_selection, configure_workspace,
}

-- Every configured host has a name, as after `resolveConfig`.
abbrev pub HostsAreNamed : ResolvedPluginConfig → Type 0
HostsAreNamed config =
    (name : String) (provider : ProviderConfig)
    → lookup name config.providers ≡ some provider
    → All (λ c. c.name ≢ "") provider.hosts

request-of :
    (extra : Table ExtraValue) (provider host : String)
    → lookup "provider" extra ≡ some (text provider)
    → lookup "host" extra ≡ some (text host)
    → request_for_extra extra
      ≡ ok (record { provider = provider; host = some host; labels = labels_member extra })
unfolding request_for_extra
request-of extra provider host p h = ground arith

labels-of :
    (extra before : Table ExtraValue)
    → lookup "labels" extra ≡ lookup "labels" before
    → labels_member extra ≡ labels_member before
labels-of extra before e =
    ap
      (λ (o : Option ExtraValue). elim o as (λ _. Option (List String)) [
        | some (array xs) ↦ some (texts xs)
        | _ ↦ none
      ])
      e

module _ (env : Env) (config : ResolvedPluginConfig) where
  -- A configured workspace asks for the provider and the host that were selected, by name, with the
  -- labels that it had.
  pub configured-request :
      (workspace : WorkspaceInfo) (selection : ResolvedHost)
      → provider_request_for_workspace (with_selection env config workspace selection)
        ≡ ok (record {
          provider = selection.provider;
          host = some selection.host.name;
          labels = labels_member (or_default workspace.extra []);
        })
  unfolding provider_request_for_workspace with_selection string_dec
  configured-request workspace selection =
      let extra = or_default workspace.extra [] in
      let told = insert "provider" (text selection.provider) extra in
      let host = text selection.host.name in
      let provider = text selection.provider in
      request-of (insert "host" host told) selection.provider selection.host.name
        (lookup-insert "provider" "host" host told
          ∙ lookup-insert "provider" "provider" provider extra)
        (lookup-insert "host" "host" host told)
      ∙ ap
          (λ labels. ok (record {
            provider = selection.provider;
            host = some selection.host.name;
            labels = labels;
          }))
          (labels-of (insert "host" host told) extra (
            lookup-insert "labels" "host" host told
            ∙ lookup-insert "labels" "provider" provider extra))

-- How a composed action has succeeded.
pure-inversion :
    {A B : Type 0} (x : Result A × Plugin) (g : A → B) (b : B) (q : Plugin)
    → (elim x.0 as (λ _. Result B × Plugin) [ ok a ↦ (ok (g a), x.1) | err e ↦ (err e, x.1) ])
      ≡ (ok b, q)
    → (a : A) × (x ≡ (ok a, q)) × (g a ≡ b)
pure-inversion (ok a, u) g b q e = (a, ground arith, ground arith)
pure-inversion (err y, u) g b q e = absurd (ground arith)

request-inversion :
    {A : Type 0} (r : Result HostSelectionRequest) (f : HostSelectionRequest → Action A) (a : A)
    (p q : Plugin)
    → (from_result r >>= f) p ≡ (ok a, q)
    → (request : HostSelectionRequest) × (r ≡ ok request) × (f request p ≡ (ok a, q))
request-inversion (ok request) f a p q e = (request, refl, e)
request-inversion (err y) f a p q e = absurd (ground arith)

module _ (env : Env) (config : ResolvedPluginConfig) (mode : config.defaults.lease_mode ≡ exclusive)
    (hosts : HostsAreNamed config) where
  -- What is known of a selection: its host is held, and is a named one of its provider.
  selected :
      (request : HostSelectionRequest) (w : String) (p q : Plugin) (r : ResolvedHost)
      → w ≢ ""
      → acquire_resolved env config request w p ≡ (ok r, q)
      → (holder q.leases r.host.name ≡ some w)
        × (r.host.name ≢ "")
        × ((provider : ProviderConfig) × (lookup r.provider config.providers ≡ some provider)
            × In r.host provider.hosts)
  unfolding acquire_resolved
  selected request w p q r named e =
      let now = env.clock p.trace in
      let won : (Provider.acquire_resolved config p.leases request w now).0 ≡ ok r =
        ap (λ x. x.0) e in
      let after : (Provider.acquire_resolved config p.leases request w now).1 ≡ q.leases =
        ap (λ x. x.1.leases) e in
      let (asked, (provider, found, member)) =
        acquire_resolved-member config mode p.leases request w named now r won in
      (
        subst (λ l. holder l r.host.name ≡ some w) after
            (acquire_resolved-takes config mode p.leases request w now r named won).0,
        All-In (λ c. c.name ≢ "") provider.hosts r.host (hosts request.provider provider found)
            member,
        (
          provider,
          subst (λ x. lookup x config.providers ≡ some provider) (sym asked) found,
          member,
        ),
      )

  selected_again :
      (workspace : WorkspaceInfo) (sel : ResolvedHost) (provider : ProviderConfig) (q : Plugin)
      → workspace.id ≢ ""
      → sel.host.name ≢ ""
      → lookup sel.provider config.providers ≡ some provider
      → In sel.host provider.hosts
      → holder q.leases sel.host.name ≡ some workspace.id
      → (r : ResolvedHost) × (resolve_provider env config
            (with_selection env config workspace sel)
            q
          ≡ (ok r, q))
        × (holder q.leases r.host.name ≡ some workspace.id)
  unfolding resolve_provider acquire_resolved with_selection
  selected_again workspace sel provider q named ne found member held =
      let request : HostSelectionRequest = record {
        provider = sel.provider;
        host = some sel.host.name;
        labels = labels_member (or_default workspace.extra []);
      } in
      let (r, eq, holding) =
        acquire_resolved-held config mode q.leases request workspace.id named (env.clock q.trace)
          provider sel.host.name sel.host (truthy_of_ne config mode sel.host.name ne) found member
          refl held in
      (
        r,
        ap
              (λ (x : Result HostSelectionRequest).
                (from_result x >>= λ a.
                acquire_resolved env config a (with_selection env config workspace sel).id)
                  q)
              (configured-request env config workspace sel)
            ∙ ap (λ (x : Result ResolvedHost × Leases). (x.0, record q { leases = x.1 })) eq,
        holding,
      )

  -- In exclusive mode and with named hosts: once `configure` has succeeded for a workspace whose id
  -- is not empty, the selection that `create` makes for its result succeeds at once, on a host that
  -- the workspace holds, and takes no further lease.
  pub configure_workspace-selects :
      (workspace configured : WorkspaceInfo) (p q : Plugin)
      → workspace.id ≢ ""
      → configure_workspace env config workspace p ≡ (ok configured, q)
      → (configured.id ≡ workspace.id)
        × ((r : ResolvedHost) × (resolve_provider env config configured q ≡ (ok r, q))
            × (holder q.leases r.host.name ≡ some workspace.id))
  unfolding configure_workspace resolve_provider acquire_resolved with_selection
  configure_workspace-selects workspace configured p q named e =
      let (sel, ran, same) =
        pure-inversion (resolve_provider env config workspace p)
          (with_selection env config workspace) configured q e in
      let (request, _, acq) =
        request-inversion (provider_request_for_workspace workspace)
          (λ a. acquire_resolved env config a workspace.id) sel p q ran in
      let (held, ne, (provider, found, member)) = selected request workspace.id p q sel named acq in
      subst
        (λ (c : WorkspaceInfo).
          (c.id ≡ workspace.id)
          × ((r : ResolvedHost) × (resolve_provider env config c q ≡ (ok r, q))
              × (holder q.leases r.host.name ≡ some workspace.id)))
        same (refl, selected_again workspace sel provider q named ne found member held)
