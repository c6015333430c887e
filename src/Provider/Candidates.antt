-- ===== src/Provider/Candidates.antt =====
-- Which hosts of a provider answer a request (plugin/src/provider.ts).
use opencode_remote_ssh.Base.{
  String, ◌≡◌, refl, ◌↔◌, ◌⊎◌, true, none, some, List, [], ◌∷◌, ◌++◌, In, filter-In, In-filter, all,
  contains, to_set, contains-to_set, truthy, or_default, arith, ◌∙◌, sym,
}
use opencode_remote_ssh.Types.{HostConfig, ProviderConfig}
use opencode_remote_ssh.Provider.{
  HostSelectionRequest, names_host, matches_labels, required_labels, candidates,
}

-- Each label of the second list is among those of the first.
abbrev pub Covers : List String → List String → Type 0
Covers have need = (label : String) → contains need label ≡ true → contains have label ≡ true

all-Covers : (have need : List String) → all (contains have) need ≡ true → Covers have need
all-Covers have [] h label m = cc
all-Covers have (n ∷ ns) h label m = ground (arith, all-Covers have ns (ground arith) label)

Covers-all : (have need : List String) → Covers have need → all (contains have) need ≡ true
Covers-all have [] h = refl
Covers-all have (n ∷ ns) h =
    ground (arith, h n, Covers-all have ns (λ label m. h label (ground arith)))

matches_labels_iff :
    (c : HostConfig) (need : List String)
    → (matches_labels c need ≡ true) ↔ Covers (or_default c.labels []) need
unfolding matches_labels
matches_labels_iff c need = (
  λ h label m.
      sym (contains-to_set (or_default c.labels []) label) ∙ all-Covers (to_set _) need h label m,
  λ h.
      Covers-all (to_set _) need
        (λ label m. contains-to_set (or_default c.labels []) label ∙ h label m),
)

-- Without a host in the request, the candidates are the hosts that carry every label which the
-- provider or the request asks for.
pub candidates-labels :
    (provider : ProviderConfig) (request : HostSelectionRequest) (c : HostConfig)
    → truthy request.host ≡ none
    → In c (candidates provider request) ↔ (
        In c provider.hosts
        × Covers
            (or_default c.labels [])
            (or_default provider.labels [] ++ or_default request.labels []))
unfolding candidates required_labels
candidates-labels provider request c free =
    let need = or_default provider.labels [] ++ or_default request.labels [] in
    rw (free, candidates)
      (
        λ m.
            let (member, h) = filter-In _ provider.hosts c m in
            (
              member,
              λ label k. (matches_labels_iff c _).0 h label (contains-to_set need label ∙ k),
            ),
        λ m. In-filter _ provider.hosts c m.0 (
            (matches_labels_iff c _).1
              (λ label k. m.1 label (sym (contains-to_set need label) ∙ k))),
      )

-- With a host in the request, the candidates are the hosts of that name, address or alias, whatever
-- their labels are; there may be several.
pub candidates-named :
    (provider : ProviderConfig) (request : HostSelectionRequest) (c : HostConfig) (host : String)
    → truthy request.host ≡ some host
    → In c (candidates provider request) ↔ (
        In c provider.hosts
        × ((c.name ≡ host)
            ⊎ (c.ssh.host ≡ host)
            ⊎ (contains (or_default c.aliases []) host ≡ true)))
unfolding candidates names_host
candidates-named provider request c host named =
    rw (named, candidates)
      (
        λ m. ground (arith, filter-In (names_host host) provider.hosts c m),
        λ m. In-filter (names_host host) provider.hosts c m.0 (ground arith),
      )
