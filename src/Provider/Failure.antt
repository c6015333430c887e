-- ===== src/Provider/Failure.antt =====
-- Resolutions that throw, in either lease mode (plugin/src/provider.ts).
use opencode_remote_ssh.Base.{
  ℕ, String, ◌≡◌, refl, inl, inr, Option, none, some, List, [], ◌∷◌, lookup, truthy, arith,
  Option-cases,
}
use opencode_remote_ssh.Types.{LeaseMode, HostConfig, ProviderConfig, Error, err}
use opencode_remote_ssh.Effects.Steps.{Result-cases}
use opencode_remote_ssh.Config.{ResolvedPluginConfig}
use opencode_remote_ssh.Leases
use opencode_remote_ssh.Leases.{Leases}
use opencode_remote_ssh.Provider.{
  HostSelectionRequest, candidates, acquire_first, resolve_free, resolve_for, resolve_among,
  acquire_resolved,
}

acquire-err :
    (leases : Leases) (host w : String) (mode : LeaseMode) (now : ℕ) (e : Error)
    → (Leases.acquire leases host w mode now).0 ≡ err e
    → (Leases.acquire leases host w mode now).1 ≡ leases
unfolding Leases.acquire
acquire-err leases host w mode now e h = ground arith

module _ (config : ResolvedPluginConfig) where
  acquire_first-none :
      (leases : Leases) (hosts : List HostConfig) (w : String) (now : ℕ)
      → (acquire_first config leases hosts w now).0 ≡ none
      → (acquire_first config leases hosts w now).1 ≡ leases
  unfolding acquire_first
  acquire_first-none leases [] w now h = refl
  acquire_first-none leases (c ∷ cs) w now h =
      let mode = config.defaults.lease_mode in
      elim (Result-cases (Leases.acquire leases c.name w mode now).0) [
        | inl (l, r) ↦ absurd (ground arith)
        | inr (e, r) ↦
            ground
              (arith, acquire-err leases c.name w mode now e r, acquire_first-none leases cs w now)
      ]

  resolve_for-err :
      (leases : Leases) (provider : ProviderConfig) (request : HostSelectionRequest)
      (hosts : List HostConfig) (w : String) (now : ℕ) (e : Error)
      → (resolve_for config leases provider request hosts w now).0 ≡ err e
      → (resolve_for config leases provider request hosts w now).1 ≡ leases
  unfolding resolve_for
  resolve_for-err leases provider request hosts w now e h =
      ground (arith, acquire_first-none leases hosts w now)

  resolve_among-err :
      (leases : Leases) (provider : ProviderConfig) (request : HostSelectionRequest)
      (hosts : List HostConfig) (w : Option String) (now : ℕ) (e : Error)
      → (resolve_among config leases provider request hosts w now).0 ≡ err e
      → (resolve_among config leases provider request hosts w now).1 ≡ leases
  unfolding resolve_among
  resolve_among-err leases provider request [] w now e h = refl
  resolve_among-err leases provider request (c ∷ cs) w now e h = elim (Option-cases (truthy w)) [
    | inl blank ↦ rw (blank, resolve_among) (free blank)
    | inr (v, given) ↦
        rw (given, resolve_among)
          (resolve_for-err leases provider request (c ∷ cs) v now e
            (rw (given, resolve_among) at h))
  ]
    where
      free : truthy w ≡ none → (resolve_free config leases provider request (c ∷ cs)).1 ≡ leases
      free blank = unfold resolve_free in ground arith

  -- In either lease mode, a resolution that throws changes no lease.
  pub acquire_resolved-err :
      (leases : Leases) (request : HostSelectionRequest) (w : String) (now : ℕ) (e : Error)
      → (acquire_resolved config leases request w now).0 ≡ err e
      → (acquire_resolved config leases request w now).1 ≡ leases
  unfolding acquire_resolved
  acquire_resolved-err leases request w now e h =
      elim (Option-cases (lookup request.provider config.providers)) [
        | inl missing ↦ ground arith
        | inr (p, found) ↦
            ground (arith, resolve_among-err leases p request (candidates p request) (some w) now e)
      ]
